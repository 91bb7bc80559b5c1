-- ===== src/Core/Poll/Failures.antt =====
-- What the window of src/app/utility/UpdateChecker.hpp meets when it polls after a check that failed.
use understory.Base.{◌≡◌, refl, ap, ◌∙◌, Bool, true, false, not, ◌&&◌, List, [], ◌∷◌, none, some}
use understory.Core.Poll.{
  Future, pending, broken, ready, UpdateChecker, Event, starts, ends, fails, polls, step, run, poll,
  poll_future, end_check, end_check_keeps, step-Launches, resolved_is_final,
}

unfoldable pub has_start : List Event → Bool
has_start [] = false
has_start (starts ∷ es) = true
has_start (_ ∷ es) = has_start es

unfoldable pub has_poll : List Event → Bool
has_poll [] = false
has_poll (polls exists ∷ es) = true
has_poll (_ ∷ es) = has_poll es

-- The run throws, or it launches nothing.
abbrev pub ThrowsOrRests : Bool → List Event → UpdateChecker → Type 0
ThrowsOrRests true es u = run es u ≡ none
ThrowsOrRests false es u = (v : UpdateChecker) × (run es u ≡ some v) × (v.launched ≡ u.launched)

step-ThrowsOrRests :
    (b : Bool) (e : Event) (es : List Event) (u v : UpdateChecker)
    → step e u ≡ some v
    → v.launched ≡ u.launched
    → ThrowsOrRests b es v
    → ThrowsOrRests b (e ∷ es) u
step-ThrowsOrRests true e es u v s l h = unfold run in rw (run, s) h
step-ThrowsOrRests false e es u v s l (w, r, k) = step-Launches u.launched e es u v s (w, r, k ∙ l)

end_check-broken :
    (result : Future) (u : UpdateChecker) → u.future ≡ broken → end_check result u.future u ≡ u
unfolding end_check
end_check-broken result u f = rw f refl

broken-ThrowsOrRests :
    (es : List Event) (u : UpdateChecker)
    → u.future ≡ broken
    → u.resolved ≡ false
    → has_start es ≡ false
    → ThrowsOrRests (has_poll es) es u
unfolding has_start has_poll
broken-ThrowsOrRests [] u f r n = (u, (unfold run in refl), refl)
broken-ThrowsOrRests (starts ∷ es) u f r n = absurd cc
broken-ThrowsOrRests (ends answer ∷ es) u f r n =
    step-ThrowsOrRests (has_poll es) (ends answer) es u u
      (unfold step in ap some (end_check-broken (ready answer) u f)) refl
      (broken-ThrowsOrRests es u f r n)
broken-ThrowsOrRests (fails ∷ es) u f r n =
    step-ThrowsOrRests (has_poll es) fails es u u
      (unfold step in ap some (end_check-broken broken u f)) refl (broken-ThrowsOrRests es u f r n)
broken-ThrowsOrRests (polls exists ∷ es) u f r n =
    unfold run step poll poll_future in rw (run, r, f) refl

failed-future :
    (u : UpdateChecker) → u.future ≡ pending → (end_check broken u.future u).future ≡ broken
unfolding end_check
failed-future u f = rw f refl

resolved-ThrowsOrRests :
    (r : Bool) (es : List Event) (u : UpdateChecker)
    → u.resolved ≡ r
    → u.future ≡ pending
    → has_start es ≡ false
    → ThrowsOrRests (not r && has_poll es) (fails ∷ es) u
resolved-ThrowsOrRests true es u r f n = resolved_is_final u.launched (fails ∷ es) u r refl
resolved-ThrowsOrRests false es u r f n =
    let v = end_check broken u.future u in
    let (r', l') = end_check_keeps broken u.future u in
    step-ThrowsOrRests (has_poll es) fails es u v (unfold step in refl) l'
      (broken-ThrowsOrRests es v (failed-future u f) (r' ∙ r) n)

-- A check under way fails, and none is started again: whatever ends, failures and polls then come, the
-- run throws exactly where no answer had been taken before and there is a poll among them; otherwise
-- nothing throws and nothing is launched.
pub failed_check_throws :
    (es : List Event) (u : UpdateChecker)
    → u.future ≡ pending
    → has_start es ≡ false
    → ThrowsOrRests (not u.resolved && has_poll es) (fails ∷ es) u
failed_check_throws es u f n = resolved-ThrowsOrRests u.resolved es u refl f n
