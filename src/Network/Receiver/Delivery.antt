-- ===== src/Network/Receiver/Delivery.antt =====
-- What a receiver (src/network/IPayloadReceiver.cpp) makes of the bytes that arrive.
use mathlib.Core.Path.{subst}
use mathlib.Core.List.{map}
use native.Mathlib.Nat.{add-zero, add_assoc}
use understory.Base.{
  ℕ, suc, ◌+◌, ◌-◌, min, ◌≡◌, refl, ap, ◌∙◌, sym, List, [], ◌∷◌, ◌++◌, ◌<◌, ◌^◌, ◌%◌, append-nil,
  append_assoc, some, take, length, length-append, length-take, length-replicate, replicate,
  take-append, drop_all, drop-append, le→ltb, After, After-join, arith,
}
use understory.Network.Payloads.{
  Payload, PayloadType, RawPayload, IsValid, type_value, type_width, size_width, integer_bytes,
  size_mod, maximum_bytes_as_network_buffer,
}
use understory.Network.Payloads.Wire.{
  encode, encode_all, length-integer_bytes, integer_of_bytes-integer_bytes,
}
use understory.Network.Logger.{PayloadLogger, log_new_payload, log_payload_type}
use understory.Network.Logger.Traces.{logged}
use understory.Network.Sender.Chunks.{chunks}
use understory.Network.Receiver.{
  Receiver, type_read, size_read, content_read, read, async_read, receive_payload_bytes_size,
  receive_payload_bytes, bytes_to_read, on_type_read, on_size_read, resize, store, store_integer,
  complete,
}
use understory.Network.Sender.Delivery.{AllValid, transfers_for, content_size}
use understory.Network.Receiver.Chunks.{at, Receiving, read_loop}

-- A number is read back into memory that held any other number.
store_integer_lem :
    (width n old : ℕ) → n < 256 ^ width → store_integer width (integer_bytes width n) old ≡ n
store_integer_lem width n old h =
    rw
      (
        drop_all (length (integer_bytes width n)) (integer_bytes width old)
            (omega (arith, length-integer_bytes width n, length-integer_bytes width old)),
        append-nil,
      )
      (integer_of_bytes-integer_bytes width n h)

pub length-resize : (n : ℕ) (bytes : List ℕ) → length (resize n bytes) ≡ n
length-resize n bytes = omega (
  arith,
  length-append (take n bytes) (replicate (n - length bytes) 0),
  length-take n bytes,
  length-replicate {A = ℕ} (n - length bytes) 0,
)

module _ {S : Type 0} where
  -- The payload that a receiver with this identifier makes of one that was sent.
  abbrev pub received : S → RawPayload → Payload S
  received id p = record {
    payload_type = p.payload_type;
    bytes_size = p.bytes_size;
    bytes = p.bytes;
    spawn_id = id;
  }

  type_received :
      (s : Receiver S) (t : PayloadType) (size : ℕ) (bytes : List ℕ) (l : PayloadLogger)
      (p : RawPayload) (rest : List ℕ) (now : ℕ)
      → IsValid p
      → complete now read (
          at s t size bytes 0 l type_read
            (integer_bytes type_width (type_value p.payload_type) ++ rest))
        ≡ some (
            at s p.payload_type size bytes 0
              (log_payload_type p.payload_type (log_new_payload now l))
              size_read
              rest)
  unfolding complete on_type_read receive_payload_bytes_size async_read store
  type_received s t size bytes l p rest now v =
      let sent = integer_bytes type_width (type_value p.payload_type) in
      let wide : length sent ≡ type_width =
        length-integer_bytes type_width (type_value p.payload_type) in
      rw
        (
          le→ltb (length (sent ++ rest)) type_width (omega (arith, length-append sent rest, wide)),
          take-append type_width sent rest wide,
          drop-append type_width sent rest wide,
          store_integer_lem type_width (type_value p.payload_type) (type_value t) v.typed.1,
          v.typed.0,
        )
        refl

  size_received :
      (s : Receiver S) (size : ℕ) (bytes : List ℕ) (l : PayloadLogger) (p : RawPayload)
      (rest : List ℕ) (now : ℕ)
      → IsValid p
      → complete now read (
          at s p.payload_type size bytes 0 l size_read
            (integer_bytes size_width p.bytes_size ++ rest))
        ≡ some (
            at s p.payload_type p.bytes_size
              (resize p.bytes_size bytes)
              0
              l
              (content_read (min p.bytes_size maximum_bytes_as_network_buffer))
              rest)
  unfolding complete on_size_read receive_payload_bytes bytes_to_read async_read store
  size_received s size bytes l p rest now v =
      let sent = integer_bytes size_width p.bytes_size in
      let wide : length sent ≡ size_width = length-integer_bytes size_width p.bytes_size in
      let room : (p.bytes_size + size_mod - 0) % size_mod ≡ p.bytes_size = omega (arith, v.fits) in
      rw
        (
          le→ltb (length (sent ++ rest)) size_width (omega (arith, length-append sent rest, wide)),
          take-append size_width sent rest wide,
          drop-append size_width sent rest wide,
          store_integer_lem size_width p.bytes_size size v.fits,
          room,
        )
        refl

  Receiving-at :
      (items : List (Payload S)) (inbound : List ℕ) (n : ℕ) (id : S) (s : Receiver S)
      → Receiving items inbound n id s
      → s ≡ at s s.buf.payload_type s.buf.bytes_size s.buf.bytes 0 s.logger type_read inbound
  Receiving-at items inbound n id s h = ground arith

  received-at :
      (s : Receiver S) (t : PayloadType) (size : ℕ) (bytes : List ℕ) (l : PayloadLogger)
      (p : RawPayload) (rest : List ℕ)
      → IsValid p
      → After
          (λ now. complete now read)
          (suc (suc (chunks p.bytes_size)))
          (Receiving
            (s.payload_queue.items ++ received s.buf.spawn_id p ∷ [])
            rest
            (logged l + p.bytes_size)
            s.buf.spawn_id)
          (at s t size bytes 0 l type_read (encode p ++ rest))
  unfolding encode logged log_payload_type log_new_payload
  received-at s t size bytes l p rest v =
      let zero_off : p.bytes_size - 0 ≡ p.bytes_size = omega arith in
      rw (append_assoc, append_assoc)
        λ now. (
          _,
          type_received s t size bytes l p _ now v,
          λ later. (
            _,
            size_received s size bytes _ p _ later v,
            rw zero_off at (
                read_loop s p.payload_type p.bytes_size v.fits (chunks p.bytes_size)
                  (log_payload_type p.payload_type (log_new_payload now l)) []
                  (resize p.bytes_size bytes) p.bytes rest p.bytes (logged l + p.bytes_size)
                  (omega (arith, v.sized)) (length-resize p.bytes_size bytes ∙ v.sized)
                  (ap chunks (sym v.sized)) refl (ap (◌+◌ (logged l)) (sym v.sized))),
          ),
        )

  -- A valid payload is read whole from the bytes that encode it, whatever the buffer held, and the
  -- bytes behind it are left alone.
  payload_received :
      (p : RawPayload) (items : List (Payload S)) (rest : List ℕ) (n : ℕ) (id : S) (s : Receiver S)
      → IsValid p
      → Receiving items (encode p ++ rest) n id s
      → After
          (λ now. complete now read)
          (suc (suc (chunks p.bytes_size)))
          (Receiving (items ++ received id p ∷ []) rest (n + p.bytes_size) id)
          s
  unfolding encode
  payload_received p items rest n id s v h =
      rw (← h.3, ← h.4, ← h.5)
        (subst
          (After (λ now. complete now read) (suc (suc (chunks p.bytes_size)))
            (Receiving (s.payload_queue.items ++ received s.buf.spawn_id p ∷ []) rest
              (logged s.logger + p.bytes_size) s.buf.spawn_id))
          (sym (Receiving-at items (encode p ++ rest) n id s h))
          (received-at s s.buf.payload_type s.buf.bytes_size s.buf.bytes s.logger p rest v))

  -- A stream of valid payloads is read in order, each whole and once, in so many reads.
  pub stream_received :
      (ps : List RawPayload) (items : List (Payload S)) (rest : List ℕ) (n : ℕ) (id : S)
      (s : Receiver S)
      → AllValid ps
      → Receiving items (encode_all ps ++ rest) n id s
      → After
          (λ now. complete now read)
          (transfers_for ps)
          (Receiving (items ++ map (received id) ps) rest (n + content_size ps) id)
          s
  unfolding encode_all transfers_for content_size
  stream_received [] items rest n id s v h = rw (append-nil items, add-zero n) h
  stream_received (p ∷ ps) items rest n id s v h =
      After-join (λ now. complete now read) (suc (suc (chunks p.bytes_size))) (transfers_for ps) _ _
        s (payload_received p items (encode_all ps ++ rest) n id s v.0 (rw append_assoc at h))
        (λ t g.
          rw
            (
              ← append_assoc items (received id p ∷ []) (map (received id) ps),
              ← add_assoc n p.bytes_size (content_size ps),
            )
            (stream_received ps (items ++ received id p ∷ []) rest (n + p.bytes_size) id t v.1 g))
