-- ===== src/Network/Payloads/Wire.antt =====
-- The layout of a payload on the wire, and that it is read back.
use native.Mathlib.Nat.{pow-suc}
use understory.Base.{ℕ, zero, suc, ◌/◌, ◌^◌, ◌<◌, ◌≡◌, refl, List, [], ◌∷◌, ◌++◌, length, arith}
use understory.Network.Payloads.{
  Payload, type_value, integer_bytes, integer_of_bytes, type_width, size_width,
}

-- Type, size and content follow one another.
unfoldable pub encode : {S : Type 0} → Payload S → List ℕ
encode p =
    integer_bytes type_width (type_value p.payload_type)
    ++ (integer_bytes size_width p.bytes_size ++ p.bytes)

unfoldable pub encode_all : {S : Type 0} → List (Payload S) → List ℕ
encode_all [] = []
encode_all (p ∷ ps) = encode p ++ encode_all ps

pub length-integer_bytes : (k n : ℕ) → length (integer_bytes k n) ≡ k
unfolding integer_bytes
length-integer_bytes zero n = refl
length-integer_bytes (suc k) n = omega (arith, length-integer_bytes k (n / 256))

-- Reading back what was written.
pub integer_of_bytes-integer_bytes :
    (k n : ℕ) → n < 256 ^ k → integer_of_bytes (integer_bytes k n) ≡ n
unfolding integer_bytes integer_of_bytes
integer_of_bytes-integer_bytes zero n h = omega arith
integer_of_bytes-integer_bytes (suc k) n h = omega (
  arith,
  pow-suc 256 k,
  integer_of_bytes-integer_bytes k (n / 256) (omega (arith, pow-suc 256 k)),
)
