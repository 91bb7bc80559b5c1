-- ===== src/Network/Receiver.antt =====
-- src/network/IPayloadReceiver.h and IPayloadReceiver.cpp, with the fields that IPayloadHandler and
-- PayloadLogger give it, for both payload classes. The lambdas that the three reads pass to asio
-- are the functions `on_…_read`. A read that asio has under way is an entry of `reads`; `inbound` is
-- what has arrived on the socket and was not read yet. An error code is a `Bool`.
pub mod Chunks
pub mod Delivery
pub mod Safety
pub mod Faults
pub mod Tags
use understory.Base.{
  ℕ, ◌+◌, ◌-◌, ◌%◌, ◌^◌, min, Bool, true, false, List, [], ◌∷◌, ◌++◌, Option, none, some, take,
  drop, replicate, length, ltb, if◌then◌else◌,
}
use understory.Network.Queue.{AtomicQueue, push}
use understory.Network.Payloads.{
  Payload, new_payload, type_value, type_of_value, integer_bytes, integer_of_bytes, type_width,
  size_width, size_mod, maximum_bytes_as_network_buffer,
}
use understory.Network.Logger.{
  PayloadLogger, new_logger, log_new_payload, log_payload_type, commit_payload_speed, commit_log,
}

pub data Read : Type 0 where
  type_read size_read : Read
  content_read : ℕ → Read

-- The queue belongs to the socket's owner, which may share it between receivers.
pub record Receiver (S : Type 0) : Type 0 where
  pub payload_queue : AtomicQueue (Payload S)
  pub buf : Payload S
  pub buf_content_offset : ℕ  -- size_t
  pub is_processing : Bool
  pub logger : PayloadLogger
  pub reads : List Read
  pub inbound : List ℕ

-- std::string::resize: cut, or filled up with null characters.
abbrev pub resize : ℕ → List ℕ → List ℕ
resize n bytes = take n bytes ++ replicate (n - length bytes) 0

-- A number whose first bytes in memory are overwritten.
abbrev pub store_integer : ℕ → List ℕ → ℕ → ℕ
store_integer width bytes old =
    integer_of_bytes (bytes ++ drop (length bytes) (integer_bytes width old))

abbrev pub overwrite : ℕ → List ℕ → List ℕ → List ℕ
overwrite offset bytes memory = take offset memory ++ (bytes ++ drop (offset + length bytes) memory)

abbrev pub read_length : Read → ℕ
read_length type_read = type_width
read_length size_read = size_width
read_length (content_read n) = n

module _ {S : Type 0} where
  unfoldable pub new_receiver : AtomicQueue (Payload S) → S → Receiver S
  new_receiver queue id = record {
    payload_queue = queue;
    buf = new_payload id;
    buf_content_offset = 0;
    is_processing = false;
    logger = new_logger;
    reads = [];
    inbound = [];
  }

  unfoldable pub async_read : Read → Receiver S → Receiver S
  async_read r s = record s { reads = s.reads ++ r ∷ [] }

  unfoldable pub on_payload_receive_error : ℕ → Receiver S → Receiver S
  on_payload_receive_error now s = record s { logger = commit_log now s.logger }

  unfoldable pub on_payload_bytes_downloaded : ℕ → ℕ → Receiver S → Receiver S
  on_payload_bytes_downloaded now downloaded s = record s {
    logger = commit_payload_speed now downloaded s.logger;
  }

  unfoldable pub receive_payload_type : Receiver S → Receiver S
  receive_payload_type s = async_read type_read s

  unfoldable pub start_receiving : Receiver S → Receiver S
  start_receiving s =
      if s.is_processing then s else receive_payload_type (record s { is_processing = true })

  unfoldable pub receive_payload_bytes_size : Receiver S → Receiver S
  receive_payload_bytes_size s = async_read size_read s

  unfoldable pub bytes_to_read : Receiver S → ℕ
  bytes_to_read s =
      min ((s.buf.bytes_size + size_mod - s.buf_content_offset) % size_mod)
        maximum_bytes_as_network_buffer

  unfoldable pub receive_payload_bytes : Receiver S → Receiver S
  unfolding bytes_to_read
  receive_payload_bytes s = async_read (content_read (bytes_to_read s)) s

  -- The type is logged before the error is looked at.
  unfoldable pub on_type_read : ℕ → Bool → Receiver S → Receiver S
  on_type_read now ec s =
      let t = record s {
        logger = log_payload_type s.buf.payload_type (log_new_payload now s.logger);
      } in
      if ec then on_payload_receive_error now t else receive_payload_bytes_size t

  -- That resize throws for a size that is too large for the memory is left out.
  unfoldable pub on_size_read : ℕ → Bool → Receiver S → Receiver S
  on_size_read now ec s =
      let t = record s { buf = record s.buf { bytes = resize s.buf.bytes_size s.buf.bytes } } in
      if ec then on_payload_receive_error now s else receive_payload_bytes t

  unfoldable pub on_payload_read : ℕ → Receiver S → Receiver S
  on_payload_read now s = receive_payload_type (record s {
    payload_queue = push s.payload_queue s.buf;
    logger = commit_log now s.logger;
    buf_content_offset = 0;
  })

  unfoldable pub on_content_read : ℕ → Bool → ℕ → Receiver S → Receiver S
  on_content_read now ec length s =
      let t =
        on_payload_bytes_downloaded now length
          (record s { buf_content_offset = (s.buf_content_offset + length) % size_mod }) in
      if ec
      then on_payload_receive_error now s
      else (if ltb t.buf_content_offset t.buf.bytes_size
          then receive_payload_bytes t
          else on_payload_read now t)

  -- The memory that a read puts its bytes into.
  unfoldable pub store : Read → List ℕ → Receiver S → Receiver S
  store type_read bytes s = record s {
    buf = record s.buf {
      payload_type = type_of_value (store_integer type_width bytes (type_value s.buf.payload_type));
    };
  }
  store size_read bytes s = record s {
    buf = record s.buf { bytes_size = store_integer size_width bytes s.buf.bytes_size };
  }
  store (content_read n) bytes s = record s {
    buf = record s.buf { bytes = overwrite s.buf_content_offset bytes s.buf.bytes };
  }

  handle : ℕ → Bool → Read → ℕ → Receiver S → Receiver S
  handle now ec type_read n s = on_type_read now ec s
  handle now ec size_read n s = on_size_read now ec s
  handle now ec (content_read _) n s = on_content_read now ec n s

  finish : ℕ → Bool → Read → ℕ → Receiver S → Receiver S
  unfolding handle store
  finish now ec r n s =
      handle now ec r n (store r (take n s.inbound) (record s { inbound = drop n s.inbound }))

-- What happens at the socket: bytes arrive, the oldest read has all its bytes, or it fails after
-- the given number of bytes.
pub data Arrival : Type 0 where
  arrives : List ℕ → Arrival
  read : Arrival
  failed : ℕ → Arrival

module _ {S : Type 0} where
  -- A read that lacks bytes goes on waiting: `none`.
  complete_first : ℕ → Arrival → List Read → Receiver S → Option (Receiver S)
  unfolding finish
  complete_first now (arrives bytes) rs s = some (record s { inbound = s.inbound ++ bytes })
  complete_first now read [] s = none
  complete_first now read (r ∷ rs) s =
      if ltb (length s.inbound) (read_length r)
      then none
      else some (finish now false r (read_length r) (record s { reads = rs }))
  complete_first now (failed n) [] s = none
  complete_first now (failed n) (r ∷ rs) s =
      some (finish now true r (min n (read_length r)) (record s { reads = rs }))

  unfoldable pub complete : ℕ → Arrival → Receiver S → Option (Receiver S)
  unfolding complete_first
  complete now a s = complete_first now a s.reads s

  -- A history of the socket, each event with the reading of the clock.
  unfoldable pub run : List (ℕ × Arrival) → Receiver S → Option (Receiver S)
  run [] s = some s
  run ((now, a) ∷ es) s = elim (complete now a s) [ none ↦ none | some t ↦ run es t ]
