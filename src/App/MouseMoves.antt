-- ===== src/App/MouseMoves.antt =====
-- src/app/widgets/navigation/MouseMovements.hpp: the buffer of moves from which the speed at a release
-- is computed. Times are ints, in milliseconds; the clock is
-- an argument, in its own unit, and may go back.
pub mod Window
pub mod Helper
use understory.Base.{
  ℕ, suc, ◌+◌, ◌≤◌, ◌≡◌, refl, Bool, true, false, not, ◌||◌, ◌==◌, List, [], ◌∷◌, ◌++◌, Option,
  none, some, is_empty, length, if◌then◌else◌, arith, ltb,
}
use understory.Base.Integers.{
  ℤ, pos, negsuc, ◌+ℤ◌, ◌-ℤ◌, ◌≤ℤ◌, ltb_ℤ, nonzero, pos_part, neg_part, int_laws,
}
use understory.App.Magnum.{Float, Magnum, Vector2, literal}
use understory.App.Shapes.{uniform, to_float, centered}

pub record MouseMovements (W : Type 0) : Type 0 where
  pub accel_buffer : List (ℤ × Vector2 W)
  pub accel_latest_update : ℤ
  pub accel_cumulator : Vector2 W
  pub accel_ms : ℤ
  pub accel_buffer_count : ℕ
  pub accel_ms_passed_total : ℤ
  pub accel_ms_passed_last : ℤ
  pub time_credits : ℤ

abbrev pub acceleration_threshold_ms : ℕ
acceleration_threshold_ms = 200

module _ {W M P : Type 0} (f : Float W) (g : Magnum W M P) where
  -- The vectors of a move, and of the place of a scroll or a press.
  unfoldable pub translated_vector : Vector2 ℤ → Vector2 ℤ → Vector2 W
  translated_vector relative_position framebuffer_size =
      g.div_v (g.div_v (to_float f g relative_position) (uniform f g (f.of_int framebuffer_size.y)))
        (record { x = literal f 1; y = f.of_int (negsuc 0) })

  unfoldable pub translated_vector_abs : Vector2 ℤ → Vector2 ℤ → Vector2 W
  unfolding centered
  translated_vector_abs position framebuffer_size =
      centered f g (record { x = negsuc 0; y = pos 1 }) position framebuffer_size

  abbrev pub zero_vector : Vector2 W
  zero_vector = record { x = literal f 0; y = literal f 0 }

  unfoldable pub new_mouse_movements : MouseMovements W
  new_mouse_movements = record {
    accel_buffer = [];
    accel_latest_update = pos 0;
    accel_cumulator = zero_vector;
    accel_ms = pos 0;
    accel_buffer_count = 0;
    accel_ms_passed_total = pos 0;
    accel_ms_passed_last = pos 0;
    time_credits = pos 0;
  }

  unfoldable pub update_acceleration_time : ℤ → MouseMovements W → MouseMovements W
  update_acceleration_time now m =
      let passed = g.duration_ms (now -ℤ m.accel_latest_update) in
      let timed = record m {
        accel_ms_passed_last = passed;
        accel_ms_passed_total = m.accel_ms_passed_total +ℤ passed;
        accel_ms = m.accel_ms +ℤ passed;
      } in
      let v = if m.accel_buffer_count == 0 then m else timed in
      record v { accel_latest_update = now }

  -- The loop: the moves left, the credits, the sampled time and the sum of the vectors.
  unfoldable pub reduce_loop :
      List (ℤ × Vector2 W) → ℤ → ℤ → Vector2 W → List (ℤ × Vector2 W) × ℤ × ℤ × Vector2 W
  reduce_loop [] credits ms cumulator = ([], credits, ms, cumulator)
  reduce_loop ((t, vec) ∷ buffer) credits ms cumulator =
      let rest = reduce_loop buffer (credits -ℤ t) (ms -ℤ t) (g.sub_v cumulator vec) in
      if ltb_ℤ credits t then ((t, vec) ∷ buffer, credits, ms, cumulator) else rest

  unfoldable pub may_reduce_acceleration_buffer : MouseMovements W → MouseMovements W
  unfolding reduce_loop
  may_reduce_acceleration_buffer m =
      let (buffer, credits, ms, cumulator) =
        reduce_loop m.accel_buffer (m.time_credits +ℤ m.accel_ms_passed_last) m.accel_ms
          m.accel_cumulator in
      if ltb_ℤ (pos acceleration_threshold_ms) m.accel_ms_passed_total
      then record m {
        accel_buffer = buffer;
        time_credits = credits;
        accel_ms = ms;
        accel_cumulator = cumulator;
      }
      else m

  unfoldable pub add_to_acceleration_buffer : ℤ → Vector2 W → MouseMovements W → MouseMovements W
  unfolding update_acceleration_time may_reduce_acceleration_buffer
  add_to_acceleration_buffer now tr m =
      let u = update_acceleration_time now m in
      may_reduce_acceleration_buffer (record u {
        accel_cumulator = g.add_v u.accel_cumulator tr;
        accel_buffer_count = suc u.accel_buffer_count;
        accel_buffer = u.accel_buffer ++ (u.accel_ms_passed_last, tr) ∷ [];
      })

  unfoldable pub is_computing : MouseMovements W → Bool
  is_computing m = nonzero m.accel_ms_passed_total

  unfoldable pub get_acceleration_translation : MouseMovements W → Vector2 W
  get_acceleration_translation m =
      let strength = f.div (literal f (length m.accel_buffer)) (literal f 100) in
      let sample_strength = if f.lt (literal f 1) strength then literal f 1 else strength in
      let acceleration_factor =
        f.sqrt (f.div (literal f acceleration_threshold_ms) (f.of_int m.accel_ms)) in
      let definitive_accel = f.mul acceleration_factor sample_strength in
      if is_empty m.accel_buffer || not (nonzero m.accel_ms)
      then zero_vector
      else g.mul_v m.accel_cumulator (record { x = definitive_accel; y = definitive_accel })

  unfoldable pub reset_acceleration_buffer : MouseMovements W → MouseMovements W
  reset_acceleration_buffer m = record {
    accel_buffer = [];
    accel_latest_update = m.accel_latest_update;
    accel_cumulator = zero_vector;
    accel_ms = pos 0;
    accel_buffer_count = 0;
    accel_ms_passed_total = pos 0;
    accel_ms_passed_last = pos 0;
    time_credits = pos 0;
  }

  unfoldable pub compute_acceleration_buffer : ℤ → MouseMovements W → Vector2 W × MouseMovements W
  unfolding get_acceleration_translation reset_acceleration_buffer may_reduce_acceleration_buffer
      update_acceleration_time
  compute_acceleration_buffer now m =
      let u = may_reduce_acceleration_buffer (update_acceleration_time now m) in
      (get_acceleration_translation u, reset_acceleration_buffer u)
