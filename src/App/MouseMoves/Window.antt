-- ===== src/App/MouseMoves/Window.antt =====
-- What the buffer of src/app/widgets/navigation/MouseMovements.hpp holds of the moves: those of about
-- the last ACCELERATION_THRESHOLD_MS.
use mathlib.Core.Path.{subst}
use understory.Base.{
  suc, ◌≡◌, refl, ap, sym, ◌∙◌, true, inl, inr, ◌==◌, List, [], ◌∷◌, ◌++◌, Bool-cases, arith,
}
use understory.Base.Integers.{
  ℤ, pos, ◌+ℤ◌, ◌-ℤ◌, ◌≤ℤ◌, ltb_ℤ, pos_part, neg_part, int_laws, ltb_ℤ→lt, ltb_ℤ→ge,
}
use understory.App.Magnum.{Float, Magnum, Vector2}
use understory.App.MouseMoves.{
  MouseMovements, new_mouse_movements, update_acceleration_time, reduce_loop,
  may_reduce_acceleration_buffer, add_to_acceleration_buffer, reset_acceleration_buffer,
  compute_acceleration_buffer, acceleration_threshold_ms,
}

pub data Call (W : Type 0) : Type 0 where
  adds : ℤ → Vector2 W → Call W
  computes : ℤ → Call W
  resets : Call W

abbrev pub time_sum : {W : Type 0} → List (ℤ × Vector2 W) → ℤ
time_sum [] = pos 0
time_sum ((t, vec) ∷ buffer) = t +ℤ time_sum buffer

-- The times behind the oldest move.
abbrev pub later_sum : {W : Type 0} → List (ℤ × Vector2 W) → ℤ
later_sum [] = pos 0
later_sum (move ∷ buffer) = time_sum buffer

Stopped : {W : Type 0} → List (ℤ × Vector2 W) → ℤ → Type 0
Stopped [] credits = Unit
Stopped ((t, vec) ∷ buffer) credits = ltb_ℤ credits t ≡ true

record IsBalanced {W : Type 0} (m : MouseMovements W) : Type 0 where
  sum : time_sum m.accel_buffer ≡ m.accel_ms
  fresh : m.accel_buffer_count ≡ 0 → m.accel_ms_passed_last ≡ pos 0
  window : m.accel_ms ≤ℤ pos acceleration_threshold_ms +ℤ m.time_credits
  total : m.accel_ms ≤ℤ m.accel_ms_passed_total +ℤ m.time_credits

module _ {W M P : Type 0} (f : Float W) (g : Magnum W M P) where
  loop-sum :
      (buffer : List (ℤ × Vector2 W)) (credits ms : ℤ) (c : Vector2 W)
      → time_sum buffer ≡ ms
      → time_sum (reduce_loop f g buffer credits ms c).0 ≡ (reduce_loop f g buffer credits ms c).2
  unfolding reduce_loop
  loop-sum [] credits ms c h = h
  loop-sum ((t, vec) ∷ buffer) credits ms c h = elim (Bool-cases (ltb_ℤ credits t)) [
    | inl b ↦ rw b h
    | inr b ↦
        let p = ap pos_part h in
        let n = ap neg_part h in
        rw b (loop-sum buffer (credits -ℤ t) (ms -ℤ t) (g.sub_v c vec) (omega int_laws))
  ]

  loop-bound :
      (buffer : List (ℤ × Vector2 W)) (credits ms k : ℤ) (c : Vector2 W)
      → ms ≤ℤ k +ℤ credits
      → (reduce_loop f g buffer credits ms c).2 ≤ℤ k +ℤ (reduce_loop f g buffer credits ms c).1
  unfolding reduce_loop
  loop-bound [] credits ms k c h = h
  loop-bound ((t, vec) ∷ buffer) credits ms k c h = elim (Bool-cases (ltb_ℤ credits t)) [
    | inl b ↦ rw b h
    | inr b ↦ rw b (loop-bound buffer (credits -ℤ t) (ms -ℤ t) k (g.sub_v c vec) (omega int_laws))
  ]

  loop-Stopped :
      (buffer : List (ℤ × Vector2 W)) (credits ms : ℤ) (c : Vector2 W)
      → Stopped (reduce_loop f g buffer credits ms c).0 (reduce_loop f g buffer credits ms c).1
  unfolding reduce_loop Stopped
  loop-Stopped [] credits ms c = tt
  loop-Stopped ((t, vec) ∷ buffer) credits ms c = elim (Bool-cases (ltb_ℤ credits t)) [
    | inl b ↦ rw b b
    | inr b ↦ rw b (loop-Stopped buffer (credits -ℤ t) (ms -ℤ t) (g.sub_v c vec))
  ]

  -- What holds before the buffer is reduced, the last time not yet added to the credits.
  record IsTimed (m : MouseMovements W) : Type 0 where
    sum : time_sum m.accel_buffer ≡ m.accel_ms
    fresh : m.accel_buffer_count ≡ 0 → m.accel_ms_passed_last ≡ pos 0
    window :
        m.accel_ms ≤ℤ pos acceleration_threshold_ms +ℤ (m.time_credits +ℤ m.accel_ms_passed_last)
    total : m.accel_ms ≤ℤ m.accel_ms_passed_total +ℤ m.time_credits

  reduce-IsBalanced :
      (m : MouseMovements W) → IsTimed m → IsBalanced (may_reduce_acceleration_buffer f g m)
  unfolding may_reduce_acceleration_buffer
  reduce-IsBalanced m b =
      elim (Bool-cases (ltb_ℤ (pos acceleration_threshold_ms) m.accel_ms_passed_total)) [
        | inl over ↦
            let credits = m.time_credits +ℤ m.accel_ms_passed_last in
            let w =
              loop-bound m.accel_buffer credits m.accel_ms (pos acceleration_threshold_ms)
                m.accel_cumulator b.window in
            let o = ltb_ℤ→lt (pos acceleration_threshold_ms) m.accel_ms_passed_total over in
            rw over (record {
              sum = loop-sum m.accel_buffer credits m.accel_ms m.accel_cumulator b.sum;
              fresh = b.fresh;
              window = w;
              total = omega int_laws;
            })
        | inr under ↦
            let o = ltb_ℤ→ge (pos acceleration_threshold_ms) m.accel_ms_passed_total under in
            let t = b.total in
            rw under
              (record { sum = b.sum; fresh = b.fresh; window = omega int_laws; total = b.total })
      ]

  time_sum-append :
      (buffer : List (ℤ × Vector2 W)) (t : ℤ) (v : Vector2 W)
      → time_sum (buffer ++ (t, v) ∷ []) ≡ time_sum buffer +ℤ t
  time_sum-append [] t v = omega int_laws
  time_sum-append ((s, u) ∷ buffer) t v =
      let p = ap pos_part (time_sum-append buffer t v) in
      let n = ap neg_part (time_sum-append buffer t v) in omega int_laws

  -- The state that `add_to_acceleration_buffer` reduces.
  abbrev added : ℤ → Vector2 W → MouseMovements W → MouseMovements W
  added now tr m =
      let u = update_acceleration_time f g now m in
      record u {
        accel_cumulator = g.add_v u.accel_cumulator tr;
        accel_buffer_count = suc u.accel_buffer_count;
        accel_buffer = u.accel_buffer ++ (u.accel_ms_passed_last, tr) ∷ [];
      }

  added-IsTimed :
      (now : ℤ) (tr : Vector2 W) (m : MouseMovements W) → IsBalanced m → IsTimed (added now tr m)
  unfolding update_acceleration_time
  added-IsTimed now tr m b = elim (Bool-cases (m.accel_buffer_count == 0)) [
    | inl first ↦
        let z = b.fresh (ground arith) in
        let zp = ap pos_part z in
        let zn = ap neg_part z in
        let w = b.window in
        let sp = ap pos_part b.sum in
        let sn = ap neg_part b.sum in
        rw first (record {
          sum = time_sum-append m.accel_buffer m.accel_ms_passed_last tr ∙ omega int_laws;
          fresh = λ n. absurd cc;
          window = omega int_laws;
          total = b.total;
        })
    | inr later ↦
        let w = b.window in
        let t = b.total in
        rw later (record {
          sum =
              time_sum-append m.accel_buffer (g.duration_ms (now -ℤ m.accel_latest_update)) tr
              ∙ ap (λ x. x +ℤ (g.duration_ms (now -ℤ m.accel_latest_update))) b.sum;
          fresh = λ n. absurd cc;
          window = omega int_laws;
          total = omega int_laws;
        })
  ]

  unfoldable pub step : Call W → MouseMovements W → MouseMovements W
  unfolding add_to_acceleration_buffer compute_acceleration_buffer reset_acceleration_buffer
  step (adds now tr) m = add_to_acceleration_buffer f g now tr m
  step (computes now) m = (compute_acceleration_buffer f g now m).1
  step resets m = reset_acceleration_buffer f g m

  unfoldable pub run : List (Call W) → MouseMovements W → MouseMovements W
  unfolding step
  run [] m = m
  run (c ∷ cs) m = run cs (step c m)

  reset-IsBalanced : (m : MouseMovements W) → IsBalanced (reset_acceleration_buffer f g m)
  unfolding reset_acceleration_buffer
  reset-IsBalanced m = record {
    sum = refl;
    fresh = λ n. refl;
    window = omega int_laws;
    total = omega int_laws;
  }

  step-IsBalanced : (c : Call W) (m : MouseMovements W) → IsBalanced m → IsBalanced (step c m)
  unfolding step add_to_acceleration_buffer compute_acceleration_buffer
  step-IsBalanced (adds now tr) m b = reduce-IsBalanced (added now tr m) (added-IsTimed now tr m b)
  step-IsBalanced (computes now) m b =
      reset-IsBalanced (may_reduce_acceleration_buffer f g (update_acceleration_time f g now m))
  step-IsBalanced resets m b = reset-IsBalanced m

  run-IsBalanced :
      (cs : List (Call W)) (m : MouseMovements W) → IsBalanced m → IsBalanced (run cs m)
  unfolding run
  run-IsBalanced [] m b = b
  run-IsBalanced (c ∷ cs) m b = run-IsBalanced cs (step c m) (step-IsBalanced c m b)

  new-IsBalanced : IsBalanced (new_mouse_movements f g)
  unfolding new_mouse_movements
  new-IsBalanced = record {
    sum = refl;
    fresh = λ n. refl;
    window = omega int_laws;
    total = omega int_laws;
  }

  reduced-Stopped :
      (m : MouseMovements W)
      → ltb_ℤ (pos acceleration_threshold_ms) m.accel_ms_passed_total ≡ true
      → Stopped
          (may_reduce_acceleration_buffer f g m).accel_buffer
          (may_reduce_acceleration_buffer f g m).time_credits
  unfolding may_reduce_acceleration_buffer
  reduced-Stopped m over = rw over (
      loop-Stopped m.accel_buffer (m.time_credits +ℤ m.accel_ms_passed_last) m.accel_ms
        m.accel_cumulator)

  reduced-total :
      (m : MouseMovements W)
      → (may_reduce_acceleration_buffer f g m).accel_ms_passed_total ≡ m.accel_ms_passed_total
  unfolding may_reduce_acceleration_buffer
  reduced-total m = ground arith

later_within :
    {W : Type 0} (buffer : List (ℤ × Vector2 W)) (credits ms : ℤ)
    → time_sum buffer ≡ ms
    → Stopped buffer credits
    → ms ≤ℤ pos acceleration_threshold_ms +ℤ credits
    → later_sum buffer ≤ℤ pos 199
unfolding Stopped
later_within [] credits ms e s w = omega int_laws
later_within ((t, v) ∷ buffer) credits ms e s w =
    let p = ap pos_part e in let n = ap neg_part e in let l = ltb_ℤ→lt credits t s in omega int_laws

module _ {W M P : Type 0} (f : Float W) (g : Magnum W M P) where
  -- Whatever the calls and the clock: where a move has just been added, and the time since the last
  -- reset exceeds the threshold, the sampled time is the sum of the buffered times, and the moves in
  -- the buffer behind the oldest one sum up to less than the threshold.
  pub buffer_is_recent :
      (cs : List (Call W)) (now : ℤ) (tr : Vector2 W) (m : MouseMovements W)
      → m ≡ add_to_acceleration_buffer f g now tr (run f g cs (new_mouse_movements f g))
      → ltb_ℤ (pos acceleration_threshold_ms) m.accel_ms_passed_total ≡ true
      → (time_sum m.accel_buffer ≡ m.accel_ms) × (later_sum m.accel_buffer ≤ℤ pos 199)
  unfolding add_to_acceleration_buffer
  buffer_is_recent cs now tr m e over =
      let before = run f g cs (new_mouse_movements f g) in
      let u = added f g now tr before in
      let b = reduce-IsBalanced f g u (
        added-IsTimed f g now tr before
          (run-IsBalanced f g cs (new_mouse_movements f g) (new-IsBalanced f g))) in
      let s = reduced-Stopped f g u (
        sym (ap (λ x. ltb_ℤ (pos acceleration_threshold_ms) x) (reduced-total f g u))
        ∙ ap (λ x. ltb_ℤ (pos acceleration_threshold_ms) x.accel_ms_passed_total) (sym e)
        ∙ over) in
      subst (λ x. (time_sum x.accel_buffer ≡ x.accel_ms) × (later_sum x.accel_buffer ≤ℤ pos 199))
        (sym e) (b.sum, later_within _ _ _ b.sum s b.window)
