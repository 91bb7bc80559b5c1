-- ===== src/Network/Processor/Wakeup.antt =====
-- A notification that finds nobody waiting is lost: `waitToBeFilled` (src/network/AtomicQueue.cpp) waits
-- without asking whether the queue is empty.
use understory.Base.{◌≡◌, refl, Bool, false, List, [], ◌∷◌, none, some, arith}
use understory.Network.Queue.{push, pop_into_queue, new_queue}
use understory.Network.Processor.{
  waiting, Processing, Event, pushes, notifies, runs, new_processing, step, run,
}

module _ {ℓ} {A : Type ℓ} where
  -- A payload that is pushed and announced while the loop handles another one.
  abbrev pub busy : A → A → List (Event A)
  busy x y = runs ∷ pushes x ∷ notifies ∷ runs ∷ pushes y ∷ notifies ∷ runs ∷ runs ∷ []

  -- A payload whose push is announced while the loop handles another one, for which the callback
  -- answers `false`, stays in the queue: the loop waits, no notification is due, and neither the
  -- loop nor a notification can make a step.
  pub wakeup_lost :
      (processor : A → Bool) (x y : A)
      → processor x ≡ false
      → (t : Processing A) × (run processor (busy x y) new_processing ≡ some t)
        × (t.queue.items ≡ y ∷ [])
        × (t.handled ≡ x ∷ [])
        × (step processor runs t ≡ none)
        × (step processor notifies t ≡ none)
  unfolding run step new_processing new_queue push pop_into_queue
  wakeup_lost processor x y h = (
    record {
      queue = record { items = y ∷ []; is_queue_empty = false };
      phase = waiting;
      notifying = 0;
      handled = x ∷ [];
    },
    ground arith,
    refl,
    refl,
    refl,
    refl,
  )
