-- ===== src/Network/Sender/Faults.antt =====
-- How a sender (src/network/IPayloadSender.cpp) behaves when a write fails, and when a payload is given
-- to it while another one is under way.
use understory.Base.{
  ℕ, suc, ◌+◌, ◌-◌, ◌≤◌, ◌≡◌, refl, ap, ◌∙◌, false, List, [], ◌∷◌, ◌++◌, Option, none, some, take,
  After, arith, Option-cases, inl, inr,
}
use understory.Network.Queue.{front, push}
use understory.Network.Payloads.{RawPayload, IsValid, type_value, type_width, integer_bytes}
use understory.Network.Logger.{commit_log, log_new_payload, log_payload_type, log_payload_size}
use understory.Network.Logger.Traces.{logged}
use understory.Network.Sender.{
  Sender, Write, Completion, type_write, size_write, content_write, written, failed, new_sender,
  async_write, on_payload_send_error, on_payload_bytes_uploaded, send_payload_type, send_payload,
  send_payload_bytes_size, send_payload_bytes, on_type_written, on_size_written, on_payload_written,
  on_content_written, write_bytes, complete_first, complete,
}
use understory.Network.Sender.Chunks.{at, chunks, Sending}
use understory.Network.Sender.Delivery.{encode_from, started, payload_sent}

-- A call of a thread, or the end of a write.
pub data Event : Type 0 where
  sends : RawPayload → Event
  completes : Completion → Event

unfoldable pub step : ℕ × Event → Sender → Option Sender
step (now, sends p) s = send_payload now p s
step (now, completes c) s = complete now c s

unfoldable pub run : List (ℕ × Event) → Sender → Option Sender
unfolding step
run [] s = some s
run (e ∷ es) s = elim (step e s) [ none ↦ none | some t ↦ run es t ]

send_payload_type-is_processing :
    (now : ℕ) (s : Sender) {t : Sender}
    → send_payload_type now s ≡ some t
    → t.is_processing ≡ s.is_processing
unfolding send_payload_type async_write
send_payload_type-is_processing now s e = ground arith

pub send_payload-is_processing :
    (now : ℕ) (p : RawPayload) (s : Sender) {t : Sender}
    → send_payload now p s ≡ some t
    → t.is_processing ≡ s.is_processing
unfolding send_payload send_payload_type async_write
send_payload-is_processing now p s e = ground arith

on_payload_written-is_processing :
    (now : ℕ) (s : Sender) {t : Sender}
    → on_payload_written now s ≡ some t
    → t.is_processing ≡ s.is_processing
unfolding on_payload_written send_payload_type async_write
on_payload_written-is_processing now s e = ground arith

complete_first-is_processing :
    (now : ℕ) (c : Completion) (ws : List Write) (s : Sender) {t : Sender}
    → complete_first now c ws s ≡ some t
    → t.is_processing ≡ s.is_processing
unfolding complete_first on_type_written on_size_written on_content_written on_payload_send_error
    on_payload_bytes_uploaded send_payload_bytes_size send_payload_bytes async_write
complete_first-is_processing now c [] s e = ground arith
complete_first-is_processing now written (type_write ∷ ws) s e = ground arith
complete_first-is_processing now written (size_write ∷ ws) s e = ground arith
complete_first-is_processing now written (content_write n ∷ ws) s e =
    grind (arith, on_payload_written-is_processing)
complete_first-is_processing now (failed k) (type_write ∷ ws) s e = ground arith
complete_first-is_processing now (failed k) (size_write ∷ ws) s e = ground arith
complete_first-is_processing now (failed k) (content_write n ∷ ws) s e = ground arith

pub complete-is_processing :
    (now : ℕ) (c : Completion) (s : Sender) {t : Sender}
    → complete now c s ≡ some t
    → t.is_processing ≡ s.is_processing
unfolding complete
complete-is_processing now c s h = complete_first-is_processing now c s.writes s h

step-is_processing :
    (e : ℕ × Event) (s : Sender) {t : Sender}
    → step e s ≡ some t
    → t.is_processing ≡ s.is_processing
unfolding step
step-is_processing (now, sends p) s h = send_payload-is_processing now p s h
step-is_processing (now, completes c) s h = complete-is_processing now c s h

run-is_processing :
    (es : List (ℕ × Event)) (s : Sender) {t : Sender}
    → run es s ≡ some t
    → t.is_processing ≡ s.is_processing
unfolding run
run-is_processing [] s h = ground arith
run-is_processing (e ∷ es) s {t} h = elim (Option-cases (step e s)) [
  | inl refused ↦ ground (arith, refused)
  | inr (mid, done) ↦ run-is_processing es mid (rw (done, run) at h) ∙ step-is_processing e s done
]

pub second_write :
    (s : Sender) (now : ℕ) (p q : RawPayload) (qs : List RawPayload)
    → s.is_processing ≡ false
    → s.payload_queue.items ≡ q ∷ qs
    → (t : Sender) × (send_payload now p s ≡ some t)
      × (t.writes ≡ s.writes ++ type_write ∷ [])
      × (t.buf ≡ q)
      × (t.payload_queue.items ≡ q ∷ (qs ++ p ∷ []))
unfolding send_payload send_payload_type front push async_write started
second_write s now p q qs idle h = (
  record s {
    payload_queue = record { items = q ∷ (qs ++ p ∷ []); is_queue_empty = false };
    buf = q;
    logger = started now q s.logger;
    writes = s.writes ++ type_write ∷ [];
  },
  ground arith,
  refl,
  refl,
  refl,
)

-- In every state that a sender comes to, `_sendPayload` starts to write the front of the queue,
-- beside the writes that are under way: the flag that should hold it back is never set.
pub send_payload_overlaps :
    (es : List (ℕ × Event)) (s : Sender) (now : ℕ) (p q : RawPayload) (qs : List RawPayload)
    → run es new_sender ≡ some s
    → s.payload_queue.items ≡ q ∷ qs
    → (t : Sender) × (send_payload now p s ≡ some t)
      × (t.writes ≡ s.writes ++ type_write ∷ [])
      × (t.buf ≡ q)
      × (t.payload_queue.items ≡ q ∷ (qs ++ p ∷ []))
unfolding new_sender
send_payload_overlaps es s now p q qs r h =
    second_write s now p q qs (run-is_processing es new_sender r) h

abbrev stalled : ℕ → ℕ → Write → Sender → Sender
stalled now k w s = record s {
  writes = [];
  wire = s.wire ++ take k (write_bytes w s);
  logger = commit_log now s.logger;
}

complete_first-stalled :
    (s : Sender) (w : Write) (now k : ℕ)
    → complete_first now (failed k) (w ∷ []) s ≡ some (stalled now k w s)
unfolding complete_first on_type_written on_size_written on_content_written on_payload_send_error
    write_bytes
complete_first-stalled s type_write now k = refl
complete_first-stalled s size_write now k = refl
complete_first-stalled s (content_write n) now k = refl

-- After a failed write nothing is under way: the payload stays at the front of the queue, the
-- offset stays where it was, and one trace is committed.
pub failure_stalls :
    (s : Sender) (w : Write) (now k : ℕ)
    → s.writes ≡ w ∷ []
    → (t : Sender) × (complete now (failed k) s ≡ some t)
      × (t.writes ≡ [])
      × (t.payload_queue ≡ s.payload_queue)
      × (t.buf_content_offset ≡ s.buf_content_offset)
      × (t.wire ≡ s.wire ++ take k (write_bytes w s))
      × (t.logger ≡ commit_log now s.logger)
unfolding complete complete_first on_type_written on_size_written on_content_written
    on_payload_send_error
failure_stalls s w now k h = (
  stalled now k w s,
  ap (λ ws. complete_first now (failed k) ws s) h ∙ complete_first-stalled s w now k,
  refl,
  refl,
  refl,
  refl,
  refl,
)

-- A payload that stopped at a content offset is sent again by the next `_sendPayload`, under its
-- whole size but without the bytes before the offset; those that wait behind it follow.
pub resend_truncates :
    (s : Sender) (now : ℕ) (p q : RawPayload) (qs : List RawPayload)
    → IsValid q
    → s.is_processing ≡ false
    → s.writes ≡ []
    → s.payload_queue.items ≡ q ∷ qs
    → s.buf_content_offset ≤ q.bytes_size
    → (t : Sender) × (send_payload now p s ≡ some t)
      × After
          (λ later. complete later written)
          (suc (suc (chunks (q.bytes_size - s.buf_content_offset))))
          (Sending
            (qs ++ p ∷ [])
            (s.wire ++ encode_from s.buf_content_offset q)
            (logged s.logger + (q.bytes_size - s.buf_content_offset)))
          t
unfolding send_payload send_payload_type front push async_write started logged log_payload_size
    log_payload_type log_new_payload
resend_truncates s now p q qs v idle none_left waiting h = (
  at s q (qs ++ p ∷ []) false (started now q s.logger) s.buf_content_offset type_write s.wire,
  ground arith,
  payload_sent s q (qs ++ p ∷ []) false v (started now q s.logger) s.buf_content_offset s.wire h,
)

-- A payload given to a sender that has just begun with another one makes it send the type of the
-- other one twice, where its size is due.
pub overlap_repeats_type :
    (s : Sender) (now n : ℕ) (p q : RawPayload) (qs : List RawPayload) (bs : List ℕ)
    → s.is_processing ≡ false
    → Sending (q ∷ qs) bs n s
    → let type_bytes = integer_bytes type_width (type_value q.payload_type) in
      (t : Sender) × (send_payload now p s ≡ some t)
      × After
          (λ later. complete later written)
          2
          (λ u.
            (u.wire ≡ (bs ++ type_bytes) ++ type_bytes) × (u.writes ≡ size_write ∷ size_write ∷ []))
          t
unfolding send_payload send_payload_type front push async_write started complete complete_first
    on_type_written send_payload_bytes_size write_bytes
overlap_repeats_type s now n p q qs bs idle h = (
  record s {
    payload_queue = record { items = q ∷ (qs ++ p ∷ []); is_queue_empty = false };
    buf = q;
    logger = started now q s.logger;
    writes = type_write ∷ type_write ∷ [];
    wire = bs;
  },
  ground arith,
  λ later. (_, refl, λ latest. (_, refl, (refl, refl))),
)
