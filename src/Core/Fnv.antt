-- ===== src/Core/Fnv.antt =====
-- src/core/hash_fnv1a.hpp: the two hash functions, on a list of bytes. The loop counts in an `int`,
-- so that the model is about data shorter than 2^31 bytes.
use Prim.Native.Nat.{bit_xor}
use understory.Base.{
  ℕ, ◌*◌, ◌%◌, ◌^◌, ◌<◌, ◌≡◌, ◌≢◌, ap, sym, ◌∙◌, List, [], ◌∷◌, ◌++◌, AllBytes, arith,
}
use understory.Base.Bits.{xor_cancels, left_cancels, xor_below}

abbrev pub prime_32 : ℕ
prime_32 = 0x1000193

abbrev pub prime_64 : ℕ
prime_64 = 0x100000001b3

-- The body of the loop of `hash_32_fnv1a`.
unfoldable pub step_32 : ℕ → ℕ → ℕ
step_32 hash value = bit_xor hash value * prime_32 % 2 ^ 32

unfoldable pub step_64 : ℕ → ℕ → ℕ
step_64 hash value = bit_xor hash value * prime_64 % 2 ^ 64

unfoldable pub loop : (ℕ → ℕ → ℕ) → ℕ → List ℕ → ℕ
loop step hash [] = hash
loop step hash (value ∷ bytes) = loop step (step hash value) bytes

unfoldable pub hash_32_fnv1a : List ℕ → ℕ
hash_32_fnv1a bytes = loop step_32 0x811c9dc5 bytes

unfoldable pub hash_64_fnv1a : List ℕ → ℕ
hash_64_fnv1a bytes = loop step_64 0xcbf29ce484222325 bytes

-- The step undone: the prime has an inverse, and exclusive or is its own.
undo_64 : (x : ℕ) → x < 2 ^ 64 → x * prime_64 % 2 ^ 64 * 14886173955864302971 % 2 ^ 64 ≡ x
undo_64 x h = omega arith

undo_32 : (x : ℕ) → x < 2 ^ 32 → x * prime_32 % 2 ^ 32 * 899433627 % 2 ^ 32 ≡ x
undo_32 x h = omega arith

-- A step below a bound that loses neither the hash nor the byte.
record IsReversible (bound : ℕ) (step : ℕ → ℕ → ℕ) : Type 0 where
  stays : (h v : ℕ) → h < bound → v < 256 → step h v < bound
  cancels_hash : (h h' v : ℕ) → h < bound → h' < bound → v < 256 → step h v ≡ step h' v → h ≡ h'
  cancels_value : (h v w : ℕ) → h < bound → v < 256 → w < 256 → step h v ≡ step h w → v ≡ w

step_64-IsReversible : IsReversible (2 ^ 64) step_64
unfolding step_64
step_64-IsReversible = record {
  stays = λ h v p q. omega arith;
  cancels_hash = λ h h' v p p' q e.
      sym (xor_cancels h v)
      ∙ (ap (λ x. bit_xor x v)
            (sym (undo_64 (bit_xor h v) (xor_below 64 h v p (omega arith)))
              ∙ (ap (λ x. x * 14886173955864302971 % 2 ^ 64) e
                  ∙ undo_64 (bit_xor h' v) (xor_below 64 h' v p' (omega arith))))
          ∙ xor_cancels h' v);
  cancels_value = λ h v w p q q' e.
      sym (left_cancels h v)
      ∙ (ap (bit_xor h) (
            sym (undo_64 (bit_xor h v) (xor_below 64 h v p (omega arith)))
            ∙ (ap (λ x. x * 14886173955864302971 % 2 ^ 64) e
                ∙ undo_64 (bit_xor h w) (xor_below 64 h w p (omega arith))))
          ∙ left_cancels h w);
}

step_32-IsReversible : IsReversible (2 ^ 32) step_32
unfolding step_32
step_32-IsReversible = record {
  stays = λ h v p q. omega arith;
  cancels_hash = λ h h' v p p' q e.
      sym (xor_cancels h v)
      ∙ (ap (λ x. bit_xor x v)
            (sym (undo_32 (bit_xor h v) (xor_below 32 h v p (omega arith)))
              ∙ (ap (λ x. x * 899433627 % 2 ^ 32) e
                  ∙ undo_32 (bit_xor h' v) (xor_below 32 h' v p' (omega arith))))
          ∙ xor_cancels h' v);
  cancels_value = λ h v w p q q' e.
      sym (left_cancels h v)
      ∙ (ap (bit_xor h) (
            sym (undo_32 (bit_xor h v) (xor_below 32 h v p (omega arith)))
            ∙ (ap (λ x. x * 899433627 % 2 ^ 32) e
                ∙ undo_32 (bit_xor h w) (xor_below 32 h w p (omega arith))))
          ∙ left_cancels h w);
}

module _ {bound : ℕ} {step : ℕ → ℕ → ℕ} (r : IsReversible bound step) where
  loop-below : (h : ℕ) (bytes : List ℕ) → h < bound → AllBytes bytes → loop step h bytes < bound
  unfolding loop
  loop-below h [] p a = p
  loop-below h (c ∷ cs) p (q, a) = loop-below (step h c) cs (r.stays h c p q) a

  loop-injective :
      (h h' : ℕ) (bytes : List ℕ)
      → h < bound
      → h' < bound
      → AllBytes bytes
      → loop step h bytes ≡ loop step h' bytes
      → h ≡ h'
  unfolding loop
  loop-injective h h' [] p p' a e = e
  loop-injective h h' (c ∷ cs) p p' (q, a) e =
      r.cancels_hash h h' c p p' q
        (loop-injective (step h c) (step h' c) cs (r.stays h c p q) (r.stays h' c p' q) a e)

  -- Two texts that differ in one byte have different hashes.
  loop-one_byte :
      (h : ℕ) (before behind : List ℕ) (v w : ℕ)
      → h < bound
      → AllBytes before
      → AllBytes behind
      → v < 256
      → w < 256
      → loop step h (before ++ v ∷ behind) ≡ loop step h (before ++ w ∷ behind)
      → v ≡ w
  unfolding loop
  loop-one_byte h [] behind v w p b b' q q' e =
      r.cancels_value h v w p q q'
        (loop-injective (step h v) (step h w) behind (r.stays h v p q) (r.stays h w p q') b' e)
  loop-one_byte h (c ∷ cs) behind v w p (c_byte, b) b' q q' e =
      loop-one_byte (step h c) cs behind v w (r.stays h c p c_byte) b b' q q' e

-- Files of one length that differ in one byte get different 64-bit hashes, each below 2^64.
pub hash_64-one_byte :
    (before behind : List ℕ) (v w : ℕ)
    → AllBytes before
    → AllBytes behind
    → v < 256
    → w < 256
    → v ≢ w
    → (hash_64_fnv1a (before ++ v ∷ behind) ≢ hash_64_fnv1a (before ++ w ∷ behind))
      × (hash_64_fnv1a before < 2 ^ 64)
unfolding hash_64_fnv1a
hash_64-one_byte before behind v w b b' q q' different = (
  (λ e.
      different (loop-one_byte step_64-IsReversible _ before behind v w (omega arith) b b' q q' e)),
  loop-below step_64-IsReversible _ before (omega arith) b,
)

-- Files of one length that differ in one byte get different 32-bit hashes, each below 2^32.
pub hash_32-one_byte :
    (before behind : List ℕ) (v w : ℕ)
    → AllBytes before
    → AllBytes behind
    → v < 256
    → w < 256
    → v ≢ w
    → (hash_32_fnv1a (before ++ v ∷ behind) ≢ hash_32_fnv1a (before ++ w ∷ behind))
      × (hash_32_fnv1a before < 2 ^ 32)
unfolding hash_32_fnv1a
hash_32-one_byte before behind v w b b' q q' different = (
  (λ e.
      different (loop-one_byte step_32-IsReversible _ before behind v w (omega arith) b b' q q' e)),
  loop-below step_32-IsReversible _ before (omega arith) b,
)
