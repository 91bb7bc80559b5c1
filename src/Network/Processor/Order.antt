-- ===== src/Network/Processor/Order.antt =====
-- The callback of `processPayloadQueue` (src/network/IPayloadProcessor.cpp) sees the payloads in order.
use mathlib.Core.Path.{subst}
use understory.Base.{
  ℕ, ◌≡◌, refl, ◌∙◌, sym, Bool, List, [], ◌∷◌, ◌++◌, append-nil, append_assoc, some, arith,
  Option-cases, inl, inr, none-ne-some, eq_of_some,
}
use understory.Network.Queue.{push, new_queue}
use understory.Network.Queue.Fifo.{pop_into_queue_lem}
use understory.Network.Processor.{
  Phase, starting, waiting, woken, working, returned, Processing, Event, pushes, notifies,
  wakes_spuriously, runs, new_processing, notify_all, wake, run_loop, step, run,
}

module _ {ℓ} {A : Type ℓ} where
  -- The batch that the loop holds.
  abbrev pub in_hand : Phase A → List A
  in_hand starting = []
  in_hand waiting = []
  in_hand woken = []
  in_hand (working payloads) = payloads
  in_hand (returned payloads) = payloads

  abbrev pub pushed_by : Event A → List A
  pushed_by (pushes val) = val ∷ []
  pushed_by notifies = []
  pushed_by wakes_spuriously = []
  pushed_by runs = []

  abbrev pub pushed : List (Event A) → List A
  pushed [] = []
  pushed (e ∷ es) = pushed_by e ++ pushed es

  -- All payloads that the loop has seen or will see, oldest first.
  abbrev line : Processing A → List A
  line s = s.handled ++ (in_hand s.phase ++ s.queue.items)

  notify-line : (n : ℕ) (s t : Processing A) → notify_all n s ≡ some t → line t ≡ line s
  unfolding notify_all
  notify-line n s t e = ground arith

  wake-line : (s t : Processing A) → wake s.phase s ≡ some t → line t ≡ line s
  unfolding wake
  wake-line s t e = ground arith

  run_loop-line :
      (processor : A → Bool) (p : Phase A) (s t : Processing A)
      → s.phase ≡ p
      → run_loop processor p s ≡ some t
      → line t ≡ line s
  unfolding run_loop
  run_loop-line processor starting s t h e = ground arith
  run_loop-line processor waiting s t h e = cc
  run_loop-line processor woken s t h e =
      ground (arith, pop_into_queue_lem s.queue, append-nil s.queue.items)
  run_loop-line processor (working []) s t h e = ground arith
  run_loop-line processor (working (x ∷ xs)) s t h e =
      ground (arith, append_assoc s.handled (x ∷ []) (xs ++ s.queue.items))
  run_loop-line processor (returned payloads) s t h e = cc

  step-line :
      (processor : A → Bool) (e : Event A) (s t : Processing A)
      → step processor e s ≡ some t
      → line t ≡ line s ++ pushed_by e
  unfolding step push
  step-line processor (pushes val) s t h =
      subst (λ u. line u ≡ line s ++ val ∷ []) (eq_of_some h) (simp append_assoc)
  step-line processor notifies s t h = rw append-nil (notify-line s.notifying s t h)
  step-line processor wakes_spuriously s t h = rw append-nil (wake-line s t h)
  step-line processor runs s t h = rw append-nil (run_loop-line processor s.phase s t refl h)

  run-line :
      (processor : A → Bool) (es : List (Event A)) (s t : Processing A)
      → run processor es s ≡ some t
      → line t ≡ line s ++ pushed es
  unfolding run
  run-line processor [] s t h =
      subst (λ u. line u ≡ line s ++ []) (eq_of_some h) (sym (append-nil (line s)))
  run-line processor (e ∷ es) s t h = elim (Option-cases (step processor e s)) [
    | inl stuck ↦ absurd (none-ne-some (rw (stuck, run) at h))
    | inr (mid, done) ↦
        run-line processor es mid t (rw (done, run) at h)
        ∙ rw (step-line processor e s mid done) (append_assoc (line s) (pushed_by e) (pushed es))
  ]

  -- However the threads interleave, the callback is given the payloads in the order in which they
  -- were pushed, each once: they are those handled, those in the loop's hand and those still queued.
  pub handles_in_order :
      (processor : A → Bool) (es : List (Event A)) (t : Processing A)
      → run processor es new_processing ≡ some t
      → t.handled ++ (in_hand t.phase ++ t.queue.items) ≡ pushed es
  unfolding new_processing new_queue
  handles_in_order processor es t h = run-line processor es new_processing t h
