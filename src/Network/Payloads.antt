-- ===== src/Network/Payloads.antt =====
-- src/network/Payloads.h, and the bytes in which a payload crosses a socket.
pub mod Wire
use understory.Base.{
  ℕ, zero, suc, ◌+◌, ◌*◌, ◌/◌, ◌%◌, ◌^◌, ◌≤◌, ◌<◌, ◌≡◌, List, [], ◌∷◌, ◌++◌, length, ◌==◌,
  if◌then◌else◌,
}

-- The enumeration, whose underlying type is `int`: a receiver reads four bytes into it, so it may
-- hold the pattern of a number that has no enumerator.
pub data PayloadType : Type 0 where
  unknown heartbeat handshake : PayloadType
  unnamed : ℕ → PayloadType

-- RawPayload is `Payload (Unit {0})`, SpawnedRawPayload is `Payload ℕ`: the classes of the source
-- differ in the field `spawnId` alone, and its templates are instantiated at both.
pub record Payload (S : Type 0) : Type 0 where
  pub payload_type : PayloadType
  pub bytes_size : ℕ  -- size_t
  pub bytes : List ℕ
  pub spawn_id : S

abbrev pub RawPayload : Type 0
RawPayload = Payload (Unit {0})

abbrev pub SpawnedRawPayload : Type 0
SpawnedRawPayload = Payload ℕ

-- The default member initialisers.
unfoldable pub new_payload : {S : Type 0} → S → Payload S
new_payload id = record { payload_type = unknown; bytes_size = 0; bytes = []; spawn_id = id }

-- The bit pattern of the enumeration's `int`.
abbrev pub type_value : PayloadType → ℕ
type_value unknown = 0
type_value heartbeat = 1
type_value handshake = 2
type_value (unnamed n) = n

abbrev pub type_of_value : ℕ → PayloadType
type_of_value n =
    if n == 0
    then unknown
    else if n == 1
    then heartbeat
    else if n == 2
    then handshake
    else unnamed n

-- The bytes of an unsigned integer in memory, least significant first.
unfoldable pub integer_bytes : ℕ → ℕ → List ℕ
integer_bytes zero n = []
integer_bytes (suc k) n = (n % 256) ∷ integer_bytes k (n / 256)

unfoldable pub integer_of_bytes : List ℕ → ℕ
integer_of_bytes [] = 0
integer_of_bytes (b ∷ bs) = b + 256 * integer_of_bytes bs

-- sizeof(PayloadType) and sizeof(size_t)
abbrev pub type_width : ℕ
type_width = 4

abbrev pub size_width : ℕ
size_width = 8

-- The representation of a value of the enumeration: one pattern for each.
abbrev pub IsType : PayloadType → Type 0
IsType t = (type_of_value (type_value t) ≡ t) × (type_value t < 2 ^ 32)

-- What the sender requires of a payload, and `Marshaller::_serialize` gives.
pub record IsValid {S : Type 0} (p : Payload S) : Type 0 where
  pub typed : IsType p.payload_type
  pub sized : p.bytes_size ≡ length p.bytes
  pub fits : p.bytes_size < 2 ^ 64

-- Arithmetic on size_t wraps.
abbrev pub size_mod : ℕ
size_mod = 2 ^ 64

-- Defaults::MAXIMUM_BYTES_AS_NETWORK_BUFFER
abbrev pub maximum_bytes_as_network_buffer : ℕ
maximum_bytes_as_network_buffer = 64000
