-- ===== src/Network/Marshaller.antt =====
-- src/network/Marshaller.h and Marshaller.cpp, and the two messages of src/models/User.proto and
-- Heartbeat.proto that the network layer sends. protobuf's encoding of a message is a parameter:
-- a list of bytes that a string can hold.
use understory.Base.{ℕ, ◌<◌, ◌^◌, refl, List, length}
use understory.Network.Payloads.{
  RawPayload, PayloadType, handshake, heartbeat, IsValid, IsType, new_payload,
}

-- The field `to_incarnate` is never set by the code.
pub record Handshake : Type 0 where
  pub username : List ℕ
  pub client_version : List ℕ

pub record Heartbeat : Type 0 where
  pub ts : ℕ

-- `SerializePartialToString` of the generated classes. A std::string is shorter than 2^64 bytes.
pub record Protobuf : Type 0 where
  pub handshake_bytes : Handshake → List ℕ
  pub heartbeat_bytes : Heartbeat → List ℕ
  pub handshake_fits : (m : Handshake) → length (handshake_bytes m) < 2 ^ 64
  pub heartbeat_fits : (m : Heartbeat) → length (heartbeat_bytes m) < 2 ^ 64

-- `_serialize`, from the bytes of the message.
unfoldable pub serialize : PayloadType → List ℕ → RawPayload
unfolding new_payload
serialize type bytes = record (new_payload tt) {
  payload_type = type;
  bytes = bytes;
  bytes_size = length bytes;
}

module _ (pb : Protobuf) where
  unfoldable pub serialize_handshake : Handshake → RawPayload
  serialize_handshake m = serialize handshake (pb.handshake_bytes m)

  unfoldable pub serialize_heartbeat : Heartbeat → RawPayload
  serialize_heartbeat m = serialize heartbeat (pb.heartbeat_bytes m)

pub serialize-IsValid :
    (type : PayloadType) (bytes : List ℕ)
    → IsType type
    → length bytes < 2 ^ 64
    → IsValid (serialize type bytes)
unfolding serialize
serialize-IsValid type bytes t h = record { typed = t; sized = refl; fits = h }
