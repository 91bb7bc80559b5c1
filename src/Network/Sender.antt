-- ===== src/Network/Sender.antt =====
-- src/network/IPayloadSender.h and IPayloadSender.cpp, with the fields that IPayloadHandler and
-- PayloadLogger give it. The lambdas that the three writes pass to asio are the functions
-- `on_…_written`. An operation that asio has under way is an entry of `writes`; its bytes are read
-- from the sender's buffer, and `wire` is what the socket has taken. An error code is a `Bool`.
pub mod Chunks
pub mod Delivery
pub mod Faults
pub mod Handover
use understory.Base.{
  ℕ, zero, suc, ◌+◌, ◌-◌, ◌%◌, ◌^◌, min, Bool, true, false, not, List, [], ◌∷◌, ◌++◌, Option, none,
  some, take, drop, ltb, if◌then◌else◌,
}
use understory.Network.Queue.{AtomicQueue, new_queue, push, front, pop}
use understory.Network.Payloads.{
  Payload, RawPayload, new_payload, type_value, integer_bytes, type_width, size_width, size_mod,
  maximum_bytes_as_network_buffer,
}
use understory.Network.Logger.{
  PayloadLogger, new_logger, log_new_payload, log_payload_type, log_payload_size,
  commit_payload_speed, commit_log,
}

pub data Write : Type 0 where
  type_write size_write : Write
  content_write : ℕ → Write

pub record Sender : Type 0 where
  pub payload_queue : AtomicQueue RawPayload
  pub buf : RawPayload
  pub buf_content_offset : ℕ  -- size_t
  pub is_processing : Bool
  pub logger : PayloadLogger
  pub writes : List Write
  pub wire : List ℕ

unfoldable pub new_sender : Sender
new_sender = record {
  payload_queue = new_queue;
  buf = new_payload tt;
  buf_content_offset = 0;
  is_processing = false;
  logger = new_logger;
  writes = [];
  wire = [];
}

unfoldable pub async_write : Write → Sender → Sender
async_write w s = record s { writes = s.writes ++ w ∷ [] }

unfoldable pub on_payload_send_error : ℕ → Sender → Sender
on_payload_send_error now s = record s { logger = commit_log now s.logger }

unfoldable pub on_payload_bytes_uploaded : ℕ → ℕ → Sender → Sender
on_payload_bytes_uploaded now uploaded s = record s {
  logger = commit_payload_speed now uploaded s.logger;
}

-- `none` is a failed assertion.
unfoldable pub send_payload_type : ℕ → Sender → Option Sender
send_payload_type now s = elim (front s.payload_queue) [
  | none ↦ none
  | some p ↦ some (
      async_write type_write (record s {
        buf = p;
        logger =
            log_payload_size p.bytes_size
              (log_payload_type p.payload_type (log_new_payload now s.logger));
      }))
]

unfoldable pub send_payload : ℕ → RawPayload → Sender → Option Sender
send_payload now payload s =
    let t = record s { payload_queue = push s.payload_queue payload } in
    if t.is_processing then some t else send_payload_type now t

unfoldable pub send_payload_bytes_size : Sender → Sender
send_payload_bytes_size s = async_write size_write s

unfoldable pub bytes_to_write : Sender → ℕ
bytes_to_write s =
    min ((s.buf.bytes_size + size_mod - s.buf_content_offset) % size_mod)
      maximum_bytes_as_network_buffer

unfoldable pub send_payload_bytes : Sender → Sender
unfolding bytes_to_write
send_payload_bytes s = async_write (content_write (bytes_to_write s)) s

unfoldable pub on_type_written : ℕ → Bool → Sender → Sender
on_type_written now ec s = if ec then on_payload_send_error now s else send_payload_bytes_size s

unfoldable pub on_size_written : ℕ → Bool → Sender → Sender
on_size_written now ec s = if ec then on_payload_send_error now s else send_payload_bytes s

-- The part of the handler that follows the last byte of a payload.
unfoldable pub on_payload_written : ℕ → Sender → Option Sender
on_payload_written now s = elim (pop (record s { buf_content_offset = 0 }).payload_queue) [
  | none ↦ none
  | some (is_queue_empty, q) ↦
      let u = record s {
        buf_content_offset = 0;
        payload_queue = q;
        logger = commit_log now s.logger;
      } in
      if not is_queue_empty then send_payload_type now u else some u
]

unfoldable pub on_content_written : ℕ → Bool → ℕ → Sender → Option Sender
on_content_written now ec length s =
    let t =
      on_payload_bytes_uploaded now length
        (record s { buf_content_offset = (s.buf_content_offset + length) % size_mod }) in
    if ec
    then some (on_payload_send_error now s)
    else (if ltb t.buf_content_offset t.buf.bytes_size
        then some (send_payload_bytes t)
        else on_payload_written now t)

-- The memory that a write takes its bytes from.
unfoldable pub write_bytes : Write → Sender → List ℕ
write_bytes type_write s = integer_bytes type_width (type_value s.buf.payload_type)
write_bytes size_write s = integer_bytes size_width s.buf.bytes_size
write_bytes (content_write n) s = take n (drop s.buf_content_offset s.buf.bytes)

-- How asio ends a write: all its bytes went out, or an error came after the given number.
pub data Completion : Type 0 where
  written : Completion
  failed : ℕ → Completion

handle : ℕ → Bool → Write → ℕ → Sender → Option Sender
handle now ec type_write n s = some (on_type_written now ec s)
handle now ec size_write n s = some (on_size_written now ec s)
handle now ec (content_write _) n s = on_content_written now ec n s

abbrev write_length : Write → ℕ
write_length type_write = type_width
write_length size_write = size_width
write_length (content_write n) = n

finish : ℕ → Completion → Write → Sender → Option Sender
unfolding handle
finish now written w s =
    handle now false w (write_length w) (record s { wire = s.wire ++ write_bytes w s })
finish now (failed n) w s =
    handle now true w n (record s { wire = s.wire ++ take n (write_bytes w s) })

complete_first : ℕ → Completion → List Write → Sender → Option Sender
unfolding finish
complete_first now c [] s = some s
complete_first now c (w ∷ ws) s = finish now c w (record s { writes = ws })

-- The oldest write under way completes, and its handler runs.
unfoldable pub complete : ℕ → Completion → Sender → Option Sender
unfolding complete_first
complete now c s = complete_first now c s.writes s
