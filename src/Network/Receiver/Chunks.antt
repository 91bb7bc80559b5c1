-- ===== src/Network/Receiver/Chunks.antt =====
-- The loop of `_receivePayloadBytes` (src/network/IPayloadReceiver.cpp), one completed read after
-- another. The buffer holds what was received, and old bytes behind it.
use native.Mathlib.Nat.{mod-eq_of_lt}
use understory.Base.{
  ℕ, zero, suc, ◌+◌, ◌-◌, ◌≤◌, ◌<◌, min, ◌≡◌, refl, ap, ◌∙◌, List, [], ◌∷◌, ◌++◌, append-nil,
  append_assoc, some, take, drop, length, length-append, length-take, length-drop, take-append,
  drop-append, drop-drop, take-append-drop, drop_all, lt→ltb, le→ltb, After, arith, le-or-lt, inl,
  inr,
}
use understory.Network.Queue.{push}
use understory.Network.Payloads.{Payload, PayloadType, size_mod, maximum_bytes_as_network_buffer}
use understory.Network.Logger.{PayloadLogger, commit_payload_speed, commit_log}
use understory.Network.Logger.Traces.{logged, logged-commit_payload_speed}
use understory.Network.Sender.Chunks.{chunks}
use understory.Network.Receiver.{
  Receiver, Read, type_read, content_read, read, async_read, on_payload_bytes_downloaded,
  receive_payload_type, receive_payload_bytes, on_payload_read, on_content_read, overwrite, store,
  complete,
}

-- Received bytes go behind those received before, over the old ones.
overwrite_lem :
    (done old bytes : List ℕ)
    → overwrite (length done) bytes (done ++ old) ≡ (done ++ bytes) ++ drop (length bytes) old
overwrite_lem done old bytes =
    rw
      (
        take-append (length done) done old refl,
        ← drop-drop (length done) (length bytes) (done ++ old),
        drop-append (length done) done old refl,
        append_assoc,
      )
      refl

take-append_le : (n : ℕ) (xs ys : List ℕ) → n ≤ length xs → take n (xs ++ ys) ≡ take n xs
take-append_le zero xs ys h = refl
take-append_le (suc n) [] ys h = absurd (omega arith)
take-append_le (suc n) (x ∷ xs) ys h = ap (◌∷◌ x) (take-append_le n xs ys (omega arith))

drop-append_le : (n : ℕ) (xs ys : List ℕ) → n ≤ length xs → drop n (xs ++ ys) ≡ drop n xs ++ ys
drop-append_le zero xs ys h = refl
drop-append_le (suc n) [] ys h = absurd (omega arith)
drop-append_le (suc n) (x ∷ xs) ys h = drop-append_le n xs ys (omega arith)

module _ {S : Type 0} where
  -- A receiver in the middle of a content of `size` bytes.
  abbrev pub at :
      Receiver S → PayloadType → ℕ → List ℕ → ℕ → PayloadLogger → Read → List ℕ → Receiver S
  at s t size bytes o l r inbound = record s {
    buf = record s.buf { payload_type = t; bytes_size = size; bytes = bytes };
    buf_content_offset = o;
    logger = l;
    reads = r ∷ [];
    inbound = inbound;
  }

  -- Waiting for the next type: what was received, what has arrived behind it, and the number of
  -- content bytes that the speed log has counted.
  abbrev pub Receiving : List (Payload S) → List ℕ → ℕ → S → Receiver S → Type 0
  Receiving items inbound n id s =
      (s.reads ≡ type_read ∷ [])
      × (s.buf_content_offset ≡ 0)
      × (s.inbound ≡ inbound)
      × (s.payload_queue.items ≡ items)
      × (logged s.logger ≡ n)
      × (s.buf.spawn_id ≡ id)

  module _ (s : Receiver S) (t : PayloadType) (size : ℕ) (fits : size < size_mod) where
    content_more :
        (l : PayloadLogger) (bytes : List ℕ) (o n : ℕ) (inbound : List ℕ) (now : ℕ)
        → o + n < size
        → n ≤ length inbound
        → complete now read (at s t size bytes o l (content_read n) inbound)
          ≡ some (
              at s t size
                (overwrite o (take n inbound) bytes)
                (o + n)
                (commit_payload_speed now n l)
                (content_read (min (size - (o + n)) maximum_bytes_as_network_buffer))
                (drop n inbound))
    unfolding complete on_content_read on_payload_bytes_downloaded receive_payload_bytes async_read
        store
    content_more l bytes o n inbound now h enough =
        rw
          (
            le→ltb (length inbound) n enough,
            mod-eq_of_lt {n = o + n} {m = size_mod} (omega arith),
            lt→ltb (o + n) size h,
          )
          (ap
            (λ m. some (
              at s t size (overwrite o (take n inbound) bytes) (o + n)
                (commit_payload_speed now n l) (content_read m) (drop n inbound)))
            (omega arith))

    abbrev payload : List ℕ → Payload S
    payload bytes = record s.buf { payload_type = t; bytes_size = size; bytes = bytes }

    content_last :
        (l : PayloadLogger) (bytes : List ℕ) (o n : ℕ) (inbound : List ℕ) (now : ℕ)
        → o + n ≡ size
        → n ≤ length inbound
        → complete now read (at s t size bytes o l (content_read n) inbound)
          ≡ some (record s {
            payload_queue = push s.payload_queue (payload (overwrite o (take n inbound) bytes));
            buf = payload (overwrite o (take n inbound) bytes);
            buf_content_offset = 0;
            logger = commit_log now (commit_payload_speed now n l);
            reads = type_read ∷ [];
            inbound = drop n inbound;
          })
    unfolding complete on_content_read on_payload_bytes_downloaded on_payload_read
        receive_payload_type async_read store
    content_last l bytes o n inbound now h enough =
        rw
          (
            le→ltb (length inbound) n enough,
            mod-eq_of_lt {n = o + n} {m = size_mod} (omega arith),
            le→ltb (o + n) size (omega arith),
          )
          refl

    chunk_read :
        (l : PayloadLogger) (done old todo rest : List ℕ) (n now : ℕ)
        → length done + n < size
        → n ≤ length todo
        → complete now read
            (at s t size (done ++ old) (length done) l (content_read n) (todo ++ rest))
          ≡ some (
              at s t size
                ((done ++ take n todo) ++ drop n old)
                (length (done ++ take n todo))
                (commit_payload_speed now n l)
                (content_read
                  (min (size - length (done ++ take n todo)) maximum_bytes_as_network_buffer))
                (drop n todo ++ rest))
    chunk_read l done old todo rest n now h enough =
        let got : length (take n todo) ≡ n = omega (arith, length-take n todo) in
        content_more l (done ++ old) (length done) n (todo ++ rest) now h
          (omega (arith, length-append todo rest))
        ∙ rw
            (
              take-append_le n todo rest enough,
              drop-append_le n todo rest enough,
              overwrite_lem done old (take n todo),
              got,
              length-append done (take n todo),
              got,
            )
            refl

    content_finishes :
        (l : PayloadLogger) (done old todo rest : List ℕ) (now : ℕ)
        → length done + length todo ≡ size
        → length old ≡ length todo
        → (u : Receiver S) × (complete now read (
              at s t size (done ++ old) (length done) l (content_read (length todo)) (todo ++ rest))
            ≡ some u)
          × Receiving
              (s.payload_queue.items ++ payload (done ++ todo) ∷ [])
              rest
              (logged l + length todo)
              s.buf.spawn_id
              u
    unfolding push logged commit_log
    content_finishes l done old todo rest now h e =
        let n : ℕ = length todo in
        let all : overwrite (length done) (take n (todo ++ rest)) (done ++ old) ≡ done ++ todo =
          rw
            (
              take-append n todo rest refl,
              overwrite_lem done old todo,
              drop_all n old (omega (arith, e)),
              append-nil,
            )
            refl in
        (
          _,
          content_last l (done ++ old) (length done) n (todo ++ rest) now h
              (omega (arith, length-append todo rest)),
          (
            refl,
            refl,
            drop-append n todo rest refl,
            ap (λ bytes. s.payload_queue.items ++ payload bytes ∷ []) all,
            logged-commit_payload_speed now n l,
            refl,
          ),
        )

    -- The content comes in, whole and once, whatever the buffer held before.
    pub read_loop :
        (k : ℕ) (l : PayloadLogger) (done old todo rest whole : List ℕ) (total : ℕ)
        → length done + length todo ≡ size
        → length old ≡ length todo
        → chunks (length todo) ≡ k
        → done ++ todo ≡ whole
        → logged l + length todo ≡ total
        → After
            (λ now. complete now read)
            k
            (Receiving (s.payload_queue.items ++ payload whole ∷ []) rest total s.buf.spawn_id)
            (at s t size
              (done ++ old)
              (length done)
              l
              (content_read (min (size - length done) maximum_bytes_as_network_buffer))
              (todo ++ rest))
    unfolding chunks
    read_loop zero l done old todo rest whole total h e c d g = absurd (omega arith)
    read_loop (suc k) l done old todo rest whole total h e c d g = λ now.
        elim (le-or-lt (length todo) maximum_bytes_as_network_buffer) [
          | inl last ↦
              let none_left : k ≡ 0 = omega arith in
              let full : min (size - length done) maximum_bytes_as_network_buffer ≡ length todo =
                omega arith in
              rw (none_left, full, ← d, ← g) (content_finishes l done old todo rest now h e)
          | inr more ↦
              let m : ℕ = min (size - length done) maximum_bytes_as_network_buffer in
              (
                _,
                chunk_read l done old todo rest m now (omega arith) (omega arith),
                read_loop k (commit_payload_speed now m l) (done ++ take m todo) (drop m old)
                    (drop m todo) rest whole total
                    (omega (
                      arith,
                      length-append done (take m todo),
                      length-take m todo,
                      length-drop m todo,
                    ))
                    (omega (arith, length-drop m old, length-drop m todo))
                    (omega (arith, length-drop m todo))
                    (rw (append_assoc, take-append-drop m todo) d)
                    (omega (arith, g, logged-commit_payload_speed now m l, length-drop m todo)),
              )
        ]
