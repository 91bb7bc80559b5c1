-- ===== src/Network/Processor.antt =====
-- src/network/IPayloadProcessor.h and IPayloadProcessor.cpp, with `waitToBeFilled` and the
-- notification of `push` (src/network/AtomicQueue.cpp). One thread runs `processPayloadQueue`; others
-- push. What a thread does between two points at which others can act is one event. The mutex that
-- the loop waits with is its own, so it keeps nobody out.
pub mod Order
pub mod Answers
pub mod Wakeup
use understory.Base.{ℕ, zero, suc, Bool, List, [], ◌∷◌, ◌++◌, Option, none, some, if◌then◌else◌}
use understory.Network.Queue.{AtomicQueue, new_queue, push, pop_into_queue}

-- Where the loop stands: before its wait, in it, behind it, with a batch in hand, or returned
-- with the rest of a batch.
pub data Phase {ℓ} (A : Type ℓ) : Type ℓ where
  starting waiting woken : Phase A
  working : List A → Phase A
  returned : List A → Phase A

pub record Processing {ℓ} (A : Type ℓ) : Type ℓ where
  pub queue : AtomicQueue A
  pub phase : Phase A
  -- The pushes whose `notify_all` has not been called yet.
  pub notifying : ℕ
  -- The arguments of the callback, oldest first.
  pub handled : List A

pub data Event {ℓ} (A : Type ℓ) : Type ℓ where
  pushes : A → Event A
  notifies : Event A
  wakes_spuriously : Event A
  runs : Event A

module _ {ℓ} {A : Type ℓ} where
  unfoldable pub new_processing : Processing A
  new_processing = record { queue = new_queue; phase = starting; notifying = 0; handled = [] }

  -- A notification reaches only a thread that waits.
  notified : Phase A → Phase A
  notified starting = starting
  notified waiting = woken
  notified woken = woken
  notified (working payloads) = working payloads
  notified (returned payloads) = returned payloads

  notify_all : ℕ → Processing A → Option (Processing A)
  unfolding notified
  notify_all zero s = none
  notify_all (suc n) s = some (record s { notifying = n; phase = notified s.phase })

  wake : Phase A → Processing A → Option (Processing A)
  wake waiting s = some (record s { phase = woken })
  wake _ s = none

  -- The thread of the loop goes on to its next point; `none` while it is blocked.
  run_loop : (A → Bool) → Phase A → Processing A → Option (Processing A)
  run_loop processor starting s = some (record s { phase = waiting })
  run_loop processor waiting s = none
  run_loop processor woken s =
      let (payloads, q) = pop_into_queue s.queue in
      some (record s { queue = q; phase = working payloads })
  run_loop processor (working []) s = some (record s { phase = waiting })
  run_loop processor (working (x ∷ xs)) s = some (record s {
    handled = s.handled ++ x ∷ [];
    phase = if processor x then returned xs else working xs;
  })
  run_loop processor (returned payloads) s = none

  unfoldable pub step : (A → Bool) → Event A → Processing A → Option (Processing A)
  unfolding notify_all wake run_loop
  step processor (pushes val) s =
      some (record s { queue = push s.queue val; notifying = suc s.notifying })
  step processor notifies s = notify_all s.notifying s
  step processor wakes_spuriously s = wake s.phase s
  step processor runs s = run_loop processor s.phase s

  unfoldable pub run : (A → Bool) → List (Event A) → Processing A → Option (Processing A)
  run processor [] s = some s
  run processor (e ∷ es) s = elim (step processor e s) [ none ↦ none | some t ↦ run processor es t ]
