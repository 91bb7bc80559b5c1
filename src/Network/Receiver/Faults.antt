-- ===== src/Network/Receiver/Faults.antt =====
-- A receiver (src/network/IPayloadReceiver.cpp) after a failed read, and what its log leaves out.
use mathlib.Core.Path.{subst}
use understory.Base.{
  ℕ, ◌+◌, ◌≡◌, refl, ◌∙◌, Bool, true, false, ◌%◌, List, [], ◌∷◌, ◌++◌, some, length, arith,
  Option-cases, inl, inr, none-ne-some, eq_of_some, Bool-cases, ltb,
}
use understory.Network.Queue.{AtomicQueue, push}
use understory.Network.Payloads.{Payload, size_mod}
use understory.Network.Logger.{
  PayloadTrace, PayloadLogger, new_logger, log_new_payload, log_payload_type, commit_payload_speed,
  commit_log,
}
use understory.Network.Queue.{new_queue}
use understory.Network.Receiver.{
  Receiver, Read, Arrival, type_read, size_read, content_read, arrives, read, failed, read_length,
  new_receiver, async_read, on_payload_receive_error, on_payload_bytes_downloaded,
  receive_payload_type, start_receiving, receive_payload_bytes_size, receive_payload_bytes,
  on_type_read, on_size_read, on_payload_read, on_content_read, store, finish, complete_first,
  complete, run,
}

-- No trace says how large its payload was to be.
abbrev pub NoSizes : List PayloadTrace → Type 0
NoSizes [] = Unit
NoSizes (t ∷ ts) = (t.expected_size ≡ 0) × NoSizes ts

NoSizes-snoc :
    (ts : List PayloadTrace) (t : PayloadTrace)
    → NoSizes ts
    → t.expected_size ≡ 0
    → NoSizes (ts ++ t ∷ [])
NoSizes-snoc [] t h e = (e, tt)
NoSizes-snoc (u ∷ ts) t h e = (h.0, NoSizes-snoc ts t h.1 e)

abbrev pub SizeFree : PayloadLogger → Type 0
SizeFree l = (l.trace_buf.expected_size ≡ 0) × NoSizes l.traces_queue.items

commit_log-SizeFree : (now : ℕ) (l : PayloadLogger) → SizeFree l → SizeFree (commit_log now l)
unfolding commit_log push
commit_log-SizeFree now l h = (h.0, NoSizes-snoc l.traces_queue.items _ h.1 h.0)

module _ {S : Type 0} where
  on_payload_read-SizeFree :
      (now : ℕ) (s : Receiver S) → SizeFree s.logger → SizeFree (on_payload_read now s).logger
  unfolding on_payload_read receive_payload_type async_read
  on_payload_read-SizeFree now s h = commit_log-SizeFree now s.logger h

  finish-SizeFree :
      (now : ℕ) (ec : Bool) (r : Read) (n : ℕ) (s : Receiver S)
      → SizeFree s.logger
      → SizeFree (finish now ec r n s).logger
  unfolding finish store on_type_read on_size_read on_content_read on_payload_receive_error
      on_payload_bytes_downloaded receive_payload_bytes_size receive_payload_bytes async_read
      log_new_payload log_payload_type commit_payload_speed
  finish-SizeFree now true type_read n s h = commit_log-SizeFree now _ h
  finish-SizeFree now _ type_read n s h = h
  finish-SizeFree now true size_read n s h = commit_log-SizeFree now _ h
  finish-SizeFree now _ size_read n s h = h
  finish-SizeFree now true (content_read k) n s h = commit_log-SizeFree now _ h
  finish-SizeFree now _ (content_read k) n s h =
      elim (Bool-cases (ltb ((s.buf_content_offset + n) % size_mod) s.buf.bytes_size)) [
        | inl more ↦ rw more h
        | inr last ↦ rw last (on_payload_read-SizeFree now _ h)
      ]

  complete_first-SizeFree :
      (now : ℕ) (a : Arrival) (rs : List Read) (s t : Receiver S)
      → SizeFree s.logger
      → complete_first now a rs s ≡ some t
      → SizeFree t.logger
  unfolding complete_first
  complete_first-SizeFree now (arrives bytes) rs s t h e = ground arith
  complete_first-SizeFree now read [] s t h e = cc
  complete_first-SizeFree now read (r ∷ rs) s t h e =
      elim (Bool-cases (ltb (length s.inbound) (read_length r))) [
        | inl short ↦ absurd (none-ne-some (rw short at e))
        | inr enough ↦
            subst (λ u. SizeFree u.logger) (eq_of_some (rw enough at e))
              (finish-SizeFree now false r (read_length r) (record s { reads = rs }) h)
      ]
  complete_first-SizeFree now (failed n) [] s t h e = cc
  complete_first-SizeFree now (failed n) (r ∷ rs) s t h e =
      subst (λ u. SizeFree u.logger) (eq_of_some e)
        (finish-SizeFree now true r _ (record s { reads = rs }) h)

  run-SizeFree :
      (es : List (ℕ × Arrival)) (s t : Receiver S)
      → SizeFree s.logger
      → run es s ≡ some t
      → SizeFree t.logger
  unfolding run complete
  run-SizeFree [] s t h e = subst (λ u. SizeFree u.logger) (eq_of_some e) h
  run-SizeFree ((now, a) ∷ es) s t h e = elim (Option-cases (complete_first now a s.reads s)) [
    | inl stuck ↦ absurd (none-ne-some (rw (stuck, run) at e))
    | inr (mid, done) ↦
        run-SizeFree es mid t (complete_first-SizeFree now a s.reads s mid h done)
          (rw (done, run) at e)
  ]

  -- A receiver never logs the size that it was told: in every trace that it commits the expected
  -- size is 0, whatever arrives.
  pub traces_lack_sizes :
      (queue : AtomicQueue (Payload S)) (id : S) (es : List (ℕ × Arrival)) (t : Receiver S)
      → run es (start_receiving (new_receiver queue id)) ≡ some t
      → NoSizes t.logger.traces_queue.items
  unfolding start_receiving new_receiver receive_payload_type async_read new_logger new_queue
  traces_lack_sizes queue id es t e =
      (run-SizeFree es (start_receiving (new_receiver queue id)) t (refl, tt) e).1

  -- No read is under way, and the flag says that one is.
  abbrev IsStuck : Receiver S → Type 0
  IsStuck s = (s.reads ≡ []) × (s.is_processing ≡ true)

  fails-IsStuck :
      (now n : ℕ) (r : Read) (s t : Receiver S)
      → s.is_processing ≡ true
      → complete_first now (failed n) (r ∷ []) s ≡ some t
      → IsStuck t × (t.payload_queue ≡ s.payload_queue)
  unfolding complete_first finish store on_type_read on_size_read on_content_read
      on_payload_receive_error
  fails-IsStuck now n type_read s t h e = ground arith
  fails-IsStuck now n size_read s t h e = ground arith
  fails-IsStuck now n (content_read k) s t h e = ground arith

  complete_first-IsStuck :
      (now : ℕ) (a : Arrival) (s t : Receiver S)
      → IsStuck s
      → complete_first now a [] s ≡ some t
      → IsStuck t × (t.payload_queue ≡ s.payload_queue)
  unfolding complete_first
  complete_first-IsStuck now (arrives bytes) s t h e = ground arith
  complete_first-IsStuck now read s t h e = cc
  complete_first-IsStuck now (failed n) s t h e = cc

  run-IsStuck :
      (es : List (ℕ × Arrival)) (s t : Receiver S)
      → IsStuck s
      → run es s ≡ some t
      → IsStuck t × (t.payload_queue ≡ s.payload_queue)
  unfolding run complete
  run-IsStuck [] s t h e = ground arith
  run-IsStuck ((now, a) ∷ es) s t h e = elim (Option-cases (complete_first now a s.reads s)) [
    | inl stuck ↦ absurd (none-ne-some (rw (stuck, run) at e))
    | inr (mid, done) ↦
        let one =
          complete_first-IsStuck now a s mid h
            (subst (λ rs. complete_first now a rs s ≡ some mid) h.0 done) in
        let more = run-IsStuck es mid t one.0 (rw (done, run) at e) in (more.0, more.1 ∙ one.1)
  ]

  -- One failed read ends a receiver for good: no read is under way, starting it again does
  -- nothing, and its queue gets no payload from whatever arrives later.
  pub failed_read_is_final :
      (s t u : Receiver S) (r : Read) (now n : ℕ) (es : List (ℕ × Arrival))
      → s.is_processing ≡ true
      → s.reads ≡ r ∷ []
      → complete now (failed n) s ≡ some t
      → run es (start_receiving t) ≡ some u
      → (u.reads ≡ []) × (start_receiving t ≡ t) × (u.payload_queue ≡ s.payload_queue)
  unfolding complete start_receiving
  failed_read_is_final s t u r now n es busy h e later =
      let (stuck, kept) = fails-IsStuck now n r s t busy (rw h at e) in
      let again : start_receiving t ≡ t = rw (stuck.1) refl in
      let (dead, same) = run-IsStuck es t u stuck (subst (λ x. run es x ≡ some u) again later) in
      (dead.0, again, same ∙ kept)
