-- ===== src/Core/Poll.antt =====
-- src/app/utility/UpdateChecker.hpp and `tryToLaunchUpdater` of src/core/UpdateChecker.hpp. The
-- check runs on a thread of its own and ends at some point; the window polls once for each frame.
pub mod Failures
use understory.Base.{
  ℕ, suc, ◌≤◌, ◌≡◌, refl, ap, Bool, true, false, List, [], ◌∷◌, if◌then◌else◌, Option, none, some,
  Option-cases, inl, inr, none-ne-some, ◌∙◌, arith,
}

-- std::future<bool>: without a shared state, not ready, ready with an exception, ready with the
-- answer.
pub data Future : Type 0 where
  invalid pending broken : Future
  ready : Bool → Future

pub record UpdateChecker : Type 0 where
  pub future : Future
  pub resolved : Bool
  -- The number of updater processes started.
  pub launched : ℕ

unfoldable pub new_update_checker : UpdateChecker
new_update_checker = record { future = invalid; resolved = false; launched = 0 }

-- The result, and the number of processes started so far.
unfoldable pub try_to_launch_updater : Bool → ℕ → Bool × ℕ
try_to_launch_updater exists launched = if exists then (true, suc launched) else (false, launched)

unfoldable pub start : UpdateChecker → UpdateChecker
start u = record u { future = pending }

poll_answer : Bool → Bool → UpdateChecker → UpdateChecker
unfolding try_to_launch_updater
poll_answer exists is_newer_version_available u =
    let t = record u { future = invalid } in
    let n = (try_to_launch_updater exists t.launched).1 in
    let v = if is_newer_version_available then record t { launched = n } else t in
    record v { resolved = true }

poll_future : Bool → Future → UpdateChecker → Option UpdateChecker
unfolding poll_answer
poll_future exists invalid u = some u
poll_future exists pending u = some u
poll_future exists broken u = none
poll_future exists (ready answer) u = some (poll_answer exists answer u)

-- The argument says whether the updater's file exists. `none` is the exception of the check, which
-- `get` throws.
unfoldable pub poll : Bool → UpdateChecker → Option UpdateChecker
unfolding poll_future
poll exists u =
    let unresolved = poll_future exists u.future u in if u.resolved then some u else unresolved

pub data Event : Type 0 where
  starts : Event
  ends : Bool → Event
  fails : Event
  polls : Bool → Event

-- The check ends only where it is under way.
end_check : Future → Future → UpdateChecker → UpdateChecker
end_check result pending u = record u { future = result }
end_check result invalid u = u
end_check result broken u = u
end_check result (ready earlier) u = u

unfoldable pub step : Event → UpdateChecker → Option UpdateChecker
unfolding end_check
step starts u = some (start u)
step (ends answer) u = some (end_check (ready answer) u.future u)
step fails u = some (end_check broken u.future u)
step (polls exists) u = poll exists u

unfoldable pub run : List Event → UpdateChecker → Option UpdateChecker
unfolding step
run [] u = some u
run (e ∷ es) u = elim (step e u) [ none ↦ none | some v ↦ run es v ]

-- No updater has been launched before the answer was taken, and at most one after that.
abbrev pub IsBounded : UpdateChecker → Type 0
IsBounded u = u.launched ≤ (if u.resolved then 1 else 0)

poll-IsBounded :
    (exists : Bool) (u v : UpdateChecker) → IsBounded u → poll exists u ≡ some v → IsBounded v
unfolding poll poll_future poll_answer try_to_launch_updater
poll-IsBounded exists u v b h = ground arith

step-IsBounded : (e : Event) (u v : UpdateChecker) → IsBounded u → step e u ≡ some v → IsBounded v
unfolding step start end_check
step-IsBounded starts u v b h = ground arith
step-IsBounded (ends answer) u v b h = ground arith
step-IsBounded fails u v b h = ground arith
step-IsBounded (polls exists) u v b h = poll-IsBounded exists u v b h

run-IsBounded :
    (es : List Event) (u v : UpdateChecker) → IsBounded u → run es u ≡ some v → IsBounded v
unfolding run
run-IsBounded [] u v b h = ground arith
run-IsBounded (e ∷ es) u v b h = elim (Option-cases (step e u)) [
  | inl n ↦ absurd (none-ne-some (rw (n, run) at h))
  | inr (w, s) ↦ run-IsBounded es w v (step-IsBounded e u w b s) (rw (s, run) at h)
]

-- However starts, ends and failures of the check and polls follow each other, the updater is
-- launched at most once.
pub launches_once :
    (es : List Event) (u : UpdateChecker) → run es new_update_checker ≡ some u → u.launched ≤ 1
unfolding new_update_checker
launches_once es u h = let b = run-IsBounded es new_update_checker u (omega arith) h in ground arith

poll_resolved : (exists : Bool) (u : UpdateChecker) → u.resolved ≡ true → poll exists u ≡ some u
unfolding poll
poll_resolved exists u r = ap (λ b. if b then some u else poll_future exists u.future u) r

-- What a run from the state `u` comes to, with `n` updaters launched.
abbrev Launches : ℕ → List Event → UpdateChecker → Type 0
Launches n es u = (v : UpdateChecker) × (run es u ≡ some v) × (v.launched ≡ n)

step-Launches :
    (n : ℕ) (e : Event) (es : List Event) (u v : UpdateChecker)
    → step e u ≡ some v
    → Launches n es v
    → Launches n (e ∷ es) u
step-Launches n e es u v s (w, r, l) = (w, (unfold run in rw (run, s) r), l)

end_check_keeps :
    (result f : Future) (u : UpdateChecker)
    → ((end_check result f u).resolved ≡ u.resolved)
      × ((end_check result f u).launched ≡ u.launched)
unfolding end_check
end_check_keeps result pending u = (refl, refl)
end_check_keeps result invalid u = (refl, refl)
end_check_keeps result broken u = (refl, refl)
end_check_keeps result (ready earlier) u = (refl, refl)

start_keeps :
    (u : UpdateChecker) → ((start u).resolved ≡ u.resolved) × ((start u).launched ≡ u.launched)
unfolding start
start_keeps u = (refl, refl)

resolved_is_final :
    (n : ℕ) (es : List Event) (u : UpdateChecker)
    → u.resolved ≡ true
    → u.launched ≡ n
    → Launches n es u
resolved_is_final n [] u r l = (u, (unfold run in refl), l)
resolved_is_final n (starts ∷ es) u r l =
    step-Launches n starts es u (start u) (unfold step in refl)
      (resolved_is_final n es (start u) ((start_keeps u).0 ∙ r) ((start_keeps u).1 ∙ l))
resolved_is_final n (ends answer ∷ es) u r l =
    let (r', l') = end_check_keeps (ready answer) u.future u in
    step-Launches n (ends answer) es u (end_check (ready answer) u.future u) (unfold step in refl)
      (resolved_is_final n es (end_check (ready answer) u.future u) (r' ∙ r) (l' ∙ l))
resolved_is_final n (fails ∷ es) u r l =
    let (r', l') = end_check_keeps broken u.future u in
    step-Launches n fails es u (end_check broken u.future u) (unfold step in refl)
      (resolved_is_final n es (end_check broken u.future u) (r' ∙ r) (l' ∙ l))
resolved_is_final n (polls exists ∷ es) u r l =
    step-Launches n (polls exists) es u u (unfold step in poll_resolved exists u r)
      (resolved_is_final n es u r l)

poll_ready :
    (u : UpdateChecker) (answer exists : Bool)
    → u.resolved ≡ false
    → u.future ≡ ready answer
    → poll exists u ≡ some (poll_answer exists answer u)
unfolding poll poll_future
poll_ready u answer exists r f = ground arith

answered :
    (u : UpdateChecker) (answer exists : Bool)
    → ((poll_answer exists answer u).resolved ≡ true)
      × ((poll_answer exists answer u).launched
          ≡ (if answer then (if exists then suc u.launched else u.launched) else u.launched))
unfolding poll_answer try_to_launch_updater
answered u answer exists = ground arith

-- The first poll that finds the answer launches the updater exactly where the answer is `true` and
-- the updater's file exists. Whatever starts, ends, failures and polls come after that launch
-- nothing more, and no poll throws.
pub poll_decides :
    (u : UpdateChecker) (answer exists : Bool) (es : List Event)
    → u.resolved ≡ false
    → u.future ≡ ready answer
    → (v : UpdateChecker) × (run (polls exists ∷ es) u ≡ some v)
      × (v.launched
          ≡ (if answer then (if exists then suc u.launched else u.launched) else u.launched))
poll_decides u answer exists es r f =
    let (resolved, launched) = answered u answer exists in
    step-Launches _ (polls exists) es u (poll_answer exists answer u)
      (unfold step in poll_ready u answer exists r f)
      (resolved_is_final _ es (poll_answer exists answer u) resolved launched)
