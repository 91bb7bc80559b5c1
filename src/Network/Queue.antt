-- ===== src/Network/Queue.antt =====
-- src/network/AtomicQueue.h and AtomicQueue.cpp. Every method but `empty` holds the mutex `_m` for the
-- whole of its body, so a method is one step on the record below; `_isQueueEmpty` is the atomic
-- flag that `empty` reads without the mutex. The base class `std::queue` is a list, front first.
-- The condition variable belongs to the threads that wait: see Network/Processor.antt.
pub mod Fifo
use understory.Base.{Bool, true, false, List, [], ◌∷◌, ◌++◌, Option, none, some, is_empty}

pub record AtomicQueue {ℓ} (A : Type ℓ) : Type ℓ where
  pub items : List A
  pub is_queue_empty : Bool

module _ {ℓ} {A : Type ℓ} where
  -- A queue as it is constructed.
  unfoldable pub new_queue : AtomicQueue A
  new_queue = record { items = []; is_queue_empty = true }

  -- The notification that `push` ends with is a step of the threads that wait.
  unfoldable pub push : AtomicQueue A → A → AtomicQueue A
  push q val = record { items = q.items ++ val ∷ []; is_queue_empty = false }

  first : List A → Option A
  first [] = none
  first (x ∷ xs) = some x

  -- `none` is the failure of the assertion that the queue holds something.
  unfoldable pub front : AtomicQueue A → Option A
  unfolding first
  front q = first q.items

  without_first : List A → Option (Bool × AtomicQueue A)
  without_first [] = none
  without_first (x ∷ xs) = some (is_empty xs, record { items = xs; is_queue_empty = is_empty xs })

  -- The result says whether the queue is empty after the pop.
  unfoldable pub pop : AtomicQueue A → Option (Bool × AtomicQueue A)
  unfolding without_first
  pop q = without_first q.items

  -- The loop of `popIntoQueue`: the base queue, and the new one.
  move_all : List A → List A → List A × List A
  move_all [] queue = (queue, [])
  move_all (x ∷ xs) queue = move_all xs (queue ++ x ∷ [])

  unfoldable pub pop_into_queue : AtomicQueue A → List A × AtomicQueue A
  unfolding move_all
  pop_into_queue q =
      let moved = move_all q.items [] in
      (moved.0, record { items = moved.1; is_queue_empty = true })

  unfoldable pub empty : AtomicQueue A → Bool
  empty q = q.is_queue_empty
