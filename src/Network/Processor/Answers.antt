-- ===== src/Network/Processor/Answers.antt =====
-- When `processPayloadQueue` (src/network/IPayloadProcessor.cpp) returns.
use mathlib.Core.Path.{subst}
use understory.Base.{
  ℕ, zero, suc, ◌≡◌, refl, Bool, true, false, List, [], ◌∷◌, ◌++◌, some, Option-cases, inl, inr,
  none-ne-some, eq_of_some, Bool-cases,
}
use understory.Network.Processor.{
  Phase, starting, waiting, woken, working, returned, Processing, Event, pushes, notifies,
  wakes_spuriously, runs, new_processing, notified, notify_all, wake, run_loop, step, run,
}

module _ {A : Type 0} (processor : A → Bool) where
  abbrev pub AllGoOn : List A → Type 0
  AllGoOn [] = Unit
  AllGoOn (x ∷ xs) = (processor x ≡ false) × AllGoOn xs

  AllGoOn-snoc : (xs : List A) (x : A) → AllGoOn xs → processor x ≡ false → AllGoOn (xs ++ x ∷ [])
  AllGoOn-snoc [] x h e = (e, tt)
  AllGoOn-snoc (y ∷ xs) x h e = (h.0, AllGoOn-snoc xs x h.1 e)

  -- Every answer so far was `false`; once the loop has returned, the last one was `true`.
  abbrev pub Answered : Phase A → List A → Type 0
  Answered (returned payloads) handled =
      (before : List A) × (x : A) × (handled ≡ before ++ x ∷ [])
      × AllGoOn before
      × (processor x ≡ true)
  Answered starting handled = AllGoOn handled
  Answered waiting handled = AllGoOn handled
  Answered woken handled = AllGoOn handled
  Answered (working payloads) handled = AllGoOn handled

  abbrev Answers : Processing A → Type 0
  Answers s = Answered s.phase s.handled

  notified-Answered :
      (p : Phase A) (handled : List A) → Answered p handled → Answered (notified p) handled
  unfolding notified
  notified-Answered starting handled h = h
  notified-Answered waiting handled h = h
  notified-Answered woken handled h = h
  notified-Answered (working payloads) handled h = h
  notified-Answered (returned payloads) handled h = h

  notify-Answers : (n : ℕ) (s t : Processing A) → Answers s → notify_all n s ≡ some t → Answers t
  unfolding notify_all
  notify-Answers zero s t h e = absurd (none-ne-some e)
  notify-Answers (suc n) s t h e =
      subst Answers (eq_of_some e) (notified-Answered s.phase s.handled h)

  wake-Answers :
      (p : Phase A) (s t : Processing A) → Answered p s.handled → wake p s ≡ some t → Answers t
  unfolding wake
  wake-Answers waiting s t h e = subst Answers (eq_of_some e) h
  wake-Answers _ s t h e = absurd (none-ne-some e)

  run_loop-Answers :
      (p : Phase A) (s t : Processing A)
      → Answered p s.handled
      → run_loop processor p s ≡ some t
      → Answers t
  unfolding run_loop
  run_loop-Answers starting s t h e = subst Answers (eq_of_some e) h
  run_loop-Answers waiting s t h e = absurd (none-ne-some e)
  run_loop-Answers woken s t h e = subst Answers (eq_of_some e) h
  run_loop-Answers (working []) s t h e = subst Answers (eq_of_some e) h
  run_loop-Answers (working (x ∷ xs)) s t h e = elim (Bool-cases (processor x)) [
    | inl last ↦ subst Answers (eq_of_some e) (rw last ((s.handled, x, refl, h, last)))
    | inr more ↦ subst Answers (eq_of_some e) (rw more (AllGoOn-snoc s.handled x h more))
  ]
  run_loop-Answers (returned payloads) s t h e = absurd (none-ne-some e)

  step-Answers :
      (e : Event A) (s t : Processing A) → Answers s → step processor e s ≡ some t → Answers t
  unfolding step
  step-Answers (pushes val) s t h e = subst Answers (eq_of_some e) h
  step-Answers notifies s t h e = notify-Answers s.notifying s t h e
  step-Answers wakes_spuriously s t h e = wake-Answers s.phase s t h e
  step-Answers runs s t h e = run_loop-Answers s.phase s t h e

  run-Answers :
      (es : List (Event A)) (s t : Processing A)
      → Answers s
      → run processor es s ≡ some t
      → Answers t
  unfolding run
  run-Answers [] s t h e = subst Answers (eq_of_some e) h
  run-Answers (x ∷ es) s t h e = elim (Option-cases (step processor x s)) [
    | inl stuck ↦ absurd (none-ne-some (rw (stuck, run) at e))
    | inr (mid, done) ↦ run-Answers es mid t (step-Answers x s mid h done) (rw (done, run) at e)
  ]

  -- The loop goes on for as long as the callback answers `false`, and has returned exactly when it
  -- answered `true`: no payload is handled after that.
  pub returns_on_true :
      (es : List (Event A)) (t : Processing A)
      → run processor es new_processing ≡ some t
      → Answered t.phase t.handled
  unfolding new_processing
  returns_on_true es t e = run-Answers es new_processing t tt e
