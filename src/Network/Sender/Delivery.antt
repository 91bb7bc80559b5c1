-- ===== src/Network/Sender/Delivery.antt =====
-- What a sender puts on the wire (src/network/IPayloadSender.cpp) when its writes succeed.
use mathlib.Core.Path.{subst}
use native.Mathlib.Nat.{add-zero, add_assoc}
use understory.Base.{
  ℕ, suc, ◌+◌, ◌-◌, ◌≤◌, min, ◌≡◌, refl, ap, sym, Bool, false, List, [], ◌∷◌, ◌++◌, append-nil,
  append_assoc, some, drop, After, After-join, arith,
}
use understory.Network.Queue.{front, push}
use understory.Network.Payloads.{
  RawPayload, IsValid, type_value, type_width, size_width, integer_bytes,
}
use understory.Network.Payloads.Wire.{encode, encode_all}
use understory.Network.Logger.{PayloadLogger, log_new_payload, log_payload_type, log_payload_size}
use understory.Network.Logger.Traces.{logged}
use understory.Network.Payloads.{maximum_bytes_as_network_buffer}
use understory.Network.Sender.{
  Sender, type_write, size_write, content_write, written, async_write, send_payload_type,
  send_payload, send_payload_bytes_size, send_payload_bytes, on_type_written, on_size_written,
  write_bytes, complete,
}
use understory.Network.Sender.Chunks.{at, chunks, Sending, bytes_to_write_lem, chunk_loop}

-- Type and size of a payload, and its content from the offset `o` on.
abbrev pub encode_from : ℕ → RawPayload → List ℕ
encode_from o p =
    integer_bytes type_width (type_value p.payload_type)
    ++ (integer_bytes size_width p.bytes_size ++ drop o p.bytes)

module _ (r : Sender) (p : RawPayload) (ps : List RawPayload) (b : Bool) (v : IsValid p) where
  header_sent :
      (l : PayloadLogger) (o : ℕ) (bs : List ℕ) (now : ℕ)
      → o ≤ p.bytes_size
      → complete now written (at r p ps b l o size_write bs)
        ≡ some (
            at r p ps b l o
              (content_write (min (p.bytes_size - o) maximum_bytes_as_network_buffer))
              (bs ++ integer_bytes size_width p.bytes_size))
  unfolding complete on_size_written send_payload_bytes async_write write_bytes
  header_sent l o bs now h =
      ap
        (λ m.
          some (at r p ps b l o (content_write m) (bs ++ integer_bytes size_width p.bytes_size)))
        (bytes_to_write_lem r p ps b v l o size_write (bs ++ integer_bytes size_width p.bytes_size)
          h)

  -- A payload whose type is being written goes out from the offset that the sender stands at.
  pub payload_sent :
      (l : PayloadLogger) (o : ℕ) (bs : List ℕ)
      → o ≤ p.bytes_size
      → After
          (λ now. complete now written)
          (suc (suc (chunks (p.bytes_size - o))))
          (Sending ps (bs ++ encode_from o p) (logged l + (p.bytes_size - o)))
          (at r p ps b l o type_write bs)
  unfolding complete on_type_written send_payload_bytes_size async_write write_bytes
  payload_sent l o bs h = λ now. (
    _,
    refl,
    λ later. (
      _,
      header_sent l o _ later h,
      chunk_loop r p ps b v _ l o _ _ _ h refl (simp append_assoc) refl,
    ),
  )

Sending-at :
    (p : RawPayload) (ps : List RawPayload) (bs : List ℕ) (n : ℕ) (s : Sender)
    → Sending (p ∷ ps) bs n s
    → s ≡ at s p ps s.payload_queue.is_queue_empty s.logger 0 type_write bs
Sending-at p ps bs n s h = ground arith

-- The writes, or the reads, that a queue takes, and the content bytes in it.
unfoldable pub transfers_for : List RawPayload → ℕ
transfers_for [] = 0
transfers_for (p ∷ ps) = suc (suc (chunks p.bytes_size)) + transfers_for ps

unfoldable pub content_size : List RawPayload → ℕ
content_size [] = 0
content_size (p ∷ ps) = p.bytes_size + content_size ps

abbrev pub AllValid : List RawPayload → Type 0
AllValid [] = Unit
AllValid (p ∷ ps) = IsValid p × AllValid ps

first_sent :
    (p : RawPayload) (ps : List RawPayload) (bs : List ℕ) (n : ℕ) (s : Sender)
    → IsValid p
    → Sending (p ∷ ps) bs n s
    → After
        (λ now. complete now written)
        (suc (suc (chunks p.bytes_size)))
        (Sending ps (bs ++ encode p) (n + p.bytes_size))
        s
unfolding encode
first_sent p ps bs n s v h =
    let flag = s.payload_queue.is_queue_empty in
    let whole : p.bytes_size - 0 ≡ p.bytes_size = omega arith in
    let counted : logged s.logger + (p.bytes_size - 0) ≡ n + p.bytes_size = omega (arith, h.4) in
    subst
      (After (λ now. complete now written) (suc (suc (chunks p.bytes_size)))
        (Sending ps (bs ++ encode p) (n + p.bytes_size)))
      (sym (Sending-at p ps bs n s h))
      (rw (counted, whole) at (payload_sent s p ps flag v s.logger 0 bs (omega arith)))

-- A queue of valid payloads leaves the sender in order, each whole and once, in so many writes,
-- whatever the clock reads; the queue is empty afterwards and the log has counted every byte.
pub queue_sent :
    (ps : List RawPayload) (bs : List ℕ) (n : ℕ) (s : Sender)
    → AllValid ps
    → Sending ps bs n s
    → After
        (λ now. complete now written)
        (transfers_for ps)
        (Sending [] (bs ++ encode_all ps) (n + content_size ps))
        s
unfolding transfers_for encode_all content_size
queue_sent [] bs n s v h = rw (append-nil bs, add-zero n) h
queue_sent (p ∷ ps) bs n s v h =
    After-join (λ now. complete now written) (suc (suc (chunks p.bytes_size))) (transfers_for ps) _
      _ s (first_sent p ps bs n s v.0 h)
      (λ t g.
        rw
          (
            ← append_assoc bs (encode p) (encode_all ps),
            ← add_assoc n p.bytes_size (content_size ps),
          )
          (queue_sent ps (bs ++ encode p) (n + p.bytes_size) t v.1 g))

-- The log entry that a payload opens.
unfoldable pub started : ℕ → RawPayload → PayloadLogger → PayloadLogger
started now p l =
    log_payload_size p.bytes_size (log_payload_type p.payload_type (log_new_payload now l))

send_payload_starts :
    (p : RawPayload) (bs : List ℕ) (n now : ℕ) (s : Sender)
    → Sending [] bs n s
    → s.is_processing ≡ false
    → send_payload now p s ≡ some (at s p [] false (started now p s.logger) 0 type_write bs)
unfolding send_payload send_payload_type front push async_write started
send_payload_starts p bs n now s h idle = ground arith

-- A payload given to an idle sender goes out whole, and leaves the sender idle.
pub send_payload_delivers :
    (p : RawPayload) (bs : List ℕ) (n now : ℕ) (s : Sender)
    → IsValid p
    → Sending [] bs n s
    → s.is_processing ≡ false
    → (t : Sender) × (send_payload now p s ≡ some t)
      × After
          (λ later. complete later written)
          (suc (suc (chunks p.bytes_size)))
          (Sending [] (bs ++ encode p) (n + p.bytes_size))
          t
unfolding started logged log_payload_size log_payload_type log_new_payload
send_payload_delivers p bs n now s v h idle =
    let t = at s p [] false (started now p s.logger) 0 type_write bs in
    (
      t,
      send_payload_starts p bs n now s h idle,
      first_sent p [] bs n t v (refl, refl, refl, refl, h.4, refl),
    )
