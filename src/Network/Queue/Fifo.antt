-- ===== src/Network/Queue/Fifo.antt =====
-- What AtomicQueue promises: a first-in first-out queue, and a flag that tells whether it is empty.
use understory.Base.{
  ◌≡◌, refl, ◌∙◌, Bool, true, false, List, [], ◌∷◌, ◌++◌, append-nil, append_assoc, Option, none,
  some, is_empty, arith, Option-cases, inl, inr,
}
use understory.Network.Queue.{AtomicQueue, push, front, pop, move_all, pop_into_queue, empty}

module _ {ℓ} {A : Type ℓ} where
  abbrev pub IsCoherent : AtomicQueue A → Type 0
  IsCoherent q = q.is_queue_empty ≡ is_empty q.items

  pub is_empty-snoc : (xs : List A) (x : A) → is_empty (xs ++ x ∷ []) ≡ false
  is_empty-snoc [] x = refl
  is_empty-snoc (y ∷ xs) x = refl

  move_all_lem : (xs queue : List A) → move_all xs queue ≡ (queue ++ xs, [])
  unfolding move_all
  move_all_lem [] queue = rw (append-nil queue) refl
  move_all_lem (x ∷ xs) queue = rw (move_all_lem xs (queue ++ x ∷ []), append_assoc) refl

  pub pop_into_queue_lem :
      (q : AtomicQueue A)
      → pop_into_queue q ≡ (q.items, record { items = []; is_queue_empty = true })
  unfolding pop_into_queue
  pop_into_queue_lem q = rw (move_all_lem q.items []) refl

  push-IsCoherent : (q : AtomicQueue A) (val : A) → IsCoherent (push q val)
  unfolding push
  push-IsCoherent q val = ground (arith, is_empty-snoc q.items val)

-- The calls of the threads, in the order in which they take the mutex. A consumer reads `front`
-- before it calls `pop`, as the sender does.
pub data Call {ℓ} (A : Type ℓ) : Type ℓ where
  pushes : A → Call A
  consumes : Call A
  drains : Call A

module _ {ℓ} {A : Type ℓ} where
  -- The queue and what was taken from it, oldest first; `none` when an assertion fails.
  unfoldable pub step : AtomicQueue A × List A → Call A → Option (AtomicQueue A × List A)
  step (q, taken) (pushes val) = some (push q val, taken)
  step (q, taken) consumes = elim (front q) [
    | none ↦ none
    | some x ↦ elim (pop q) [ none ↦ none | some (b, q') ↦ some (q', taken ++ x ∷ []) ]
  ]
  step (q, taken) drains = let (queue, q') = pop_into_queue q in some (q', taken ++ queue)

  unfoldable pub run : AtomicQueue A × List A → List (Call A) → Option (AtomicQueue A × List A)
  run s [] = some s
  run s (c ∷ cs) = elim (step s c) [ none ↦ none | some s' ↦ run s' cs ]

  abbrev pub pushed : List (Call A) → List A
  pushed [] = []
  pushed (pushes val ∷ cs) = val ∷ pushed cs
  pushed (consumes ∷ cs) = pushed cs
  pushed (drains ∷ cs) = pushed cs

  abbrev pub pushed_by : Call A → List A
  pushed_by (pushes val) = val ∷ []
  pushed_by consumes = []
  pushed_by drains = []

  consumes_fifo :
      (items : List A) (b : Bool) (q' : AtomicQueue A) (taken taken' : List A)
      → step (record { items = items; is_queue_empty = b }, taken) consumes ≡ some (q', taken')
      → (taken' ++ q'.items ≡ taken ++ items) × IsCoherent q'
  unfolding step front pop
  consumes_fifo [] b q' taken taken' e = cc
  consumes_fifo (x ∷ xs) b q' taken taken' e = ground (arith, append_assoc taken (x ∷ []) xs)

  -- One call moves values from the queue to those taken and keeps their order.
  step_fifo :
      (q q' : AtomicQueue A) (taken taken' : List A) (c : Call A)
      → IsCoherent q
      → step (q, taken) c ≡ some (q', taken')
      → (taken' ++ q'.items ≡ taken ++ (q.items ++ pushed_by c)) × IsCoherent q'
  unfolding step push front pop
  step_fifo q q' taken taken' (pushes val) h e = ground (arith, is_empty-snoc q.items val)
  step_fifo q q' taken taken' consumes h e =
      rw (append-nil q.items) (consumes_fifo q.items q.is_queue_empty q' taken taken' e)
  step_fifo q q' taken taken' drains h e =
      ground (arith, pop_into_queue_lem q, append-nil q.items, append-nil (taken ++ q.items))

  pushed_cons : (c : Call A) (cs : List (Call A)) → pushed (c ∷ cs) ≡ pushed_by c ++ pushed cs
  pushed_cons (pushes val) cs = refl
  pushed_cons consumes cs = refl
  pushed_cons drains cs = refl

  -- Whatever the threads call, values leave the queue in the order in which they were pushed: none
  -- is lost, doubled or overtaken, and the flag stays true to the queue.
  pub run_fifo :
      (cs : List (Call A)) (q q' : AtomicQueue A) (taken taken' : List A)
      → IsCoherent q
      → run (q, taken) cs ≡ some (q', taken')
      → (taken' ++ q'.items ≡ (taken ++ q.items) ++ pushed cs) × (empty q' ≡ is_empty q'.items)
  unfolding run empty
  run_fifo [] q q' taken taken' h e = ground (arith, append-nil (taken ++ q.items))
  run_fifo (c ∷ cs) q q' taken taken' h e = elim (Option-cases (step (q, taken) c)) [
    | inl refused ↦ ground (arith, refused)
    | inr ((mid, got), done) ↦
        let one = step_fifo q mid taken got c h done in
        let more = run_fifo cs mid q' got taken' one.1 (ground (arith, done)) in
        (more.0 ∙ rw (one.0, pushed_cons c cs) (simp append_assoc), more.1)
  ]
