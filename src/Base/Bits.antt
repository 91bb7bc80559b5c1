-- ===== src/Base/Bits.antt =====
-- Exclusive or of native numbers: the laws for the lowest digit, for a bound and for cancelling.
use Prim.Native.Nat.{
  ℕ, zero, suc, ◌+◌, ◌*◌, ◌/◌, ◌%◌, ◌^◌, ◌≤◌, ◌<◌, bit_xor, digits, differ, bit_xor-bitwise,
}
use mathlib.Core.Path.{◌≡◌, refl, ap, sym, ◌∙◌}
use mathlib.Core.Logic.{◌⊎◌, inl, inr}
use native.Mathlib.Omega.{arith}

abbrev xor_digits : ℕ → ℕ → ℕ → ℕ
xor_digits n a b = digits (λ b. b) differ n a b

digits_enough : (n m a b : ℕ) → a ≤ n → a ≤ m → xor_digits n a b ≡ xor_digits m a b
digits_enough zero zero a b p q = refl
digits_enough zero (suc m) zero b p q = refl
digits_enough zero (suc m) (suc a) b p q = absurd (omega arith)
digits_enough (suc n) zero zero b p q = refl
digits_enough (suc n) zero (suc a) b p q = absurd (omega arith)
digits_enough (suc n) (suc m) zero b p q = refl
digits_enough (suc n) (suc m) (suc a) b p q =
    omega (arith, digits_enough n m (suc a / 2) (b / 2) (omega arith) (omega arith))

zero-bit_xor : (b : ℕ) → bit_xor 0 b ≡ b
zero-bit_xor b = bit_xor-bitwise 0 b

two : (p : ℕ) → (p % 2 ≡ 0) ⊎ (p % 2 ≡ 1)
two p = grind arith

differ-zero : (q : ℕ) → differ 0 q ≡ q
differ-zero q = refl

lowest : (a b : ℕ) → bit_xor a b ≡ bit_xor (a / 2) (b / 2) * 2 + differ (a % 2) (b % 2)
lowest zero b = omega (arith, zero-bit_xor b, zero-bit_xor (b / 2), differ-zero (b % 2))
lowest (suc a) b = omega (
  arith,
  bit_xor-bitwise (suc a) b,
  bit_xor-bitwise (suc a / 2) (b / 2),
  digits_enough a (suc a / 2) (suc a / 2) (b / 2) (omega arith) (omega arith),
)

-- What the operation does to the lowest digit, without `differ`.
pub lowest_digit :
    (a b : ℕ)
    → ((a % 2 ≡ b % 2) × (bit_xor a b ≡ bit_xor (a / 2) (b / 2) * 2))
      ⊎ ((a % 2 + b % 2 ≡ 1) × (bit_xor a b ≡ bit_xor (a / 2) (b / 2) * 2 + 1))
lowest_digit a b = elim (two a) [
  | inl p ↦ elim (two b) [
    | inl q ↦ inl (p ∙ sym q, lowest a b ∙ rw (p, q) (omega arith))
    | inr q ↦ inr (omega arith, lowest a b ∙ rw (p, q) (omega arith))
  ]
  | inr p ↦ elim (two b) [
    | inl q ↦ inr (omega arith, lowest a b ∙ rw (p, q) (omega arith))
    | inr q ↦ inl (p ∙ sym q, lowest a b ∙ rw (p, q) (omega arith))
  ]
]

halves : (a b : ℕ) → bit_xor a b / 2 ≡ bit_xor (a / 2) (b / 2)
halves a b = elim (lowest_digit a b) [ inl (e, l) ↦ omega arith | inr (e, l) ↦ omega arith ]

parity : (a b : ℕ) → (bit_xor a b % 2 + a % 2) % 2 ≡ b % 2
parity a b = elim (lowest_digit a b) [ inl (e, l) ↦ omega arith | inr (e, l) ↦ omega arith ]

xor_cancels_fuel : (n a b : ℕ) → a ≤ n → b ≤ n → bit_xor (bit_xor a b) b ≡ a
xor_cancels_fuel zero zero zero p q = zero-bit_xor 0
xor_cancels_fuel zero zero (suc b) p q = absurd (omega arith)
xor_cancels_fuel zero (suc a) b p q = absurd (omega arith)
xor_cancels_fuel (suc n) a b p q =
    let rest = xor_cancels_fuel n (a / 2) (b / 2) (omega arith) (omega arith) in
    let h = halves (bit_xor a b) b ∙ (ap (λ x. bit_xor x (b / 2)) (halves a b) ∙ rest) in
    omega (arith, h, parity a b, parity (bit_xor a b) b)

left_cancels_fuel : (n a b : ℕ) → a ≤ n → b ≤ n → bit_xor a (bit_xor a b) ≡ b
left_cancels_fuel zero zero zero p q = zero-bit_xor 0
left_cancels_fuel zero zero (suc b) p q = absurd (omega arith)
left_cancels_fuel zero (suc a) b p q = absurd (omega arith)
left_cancels_fuel (suc n) a b p q =
    let rest = left_cancels_fuel n (a / 2) (b / 2) (omega arith) (omega arith) in
    let h = halves a (bit_xor a b) ∙ (ap (λ x. bit_xor (a / 2) x) (halves a b) ∙ rest) in
    omega (arith, h, parity a b, parity a (bit_xor a b))

pub xor_cancels : (a b : ℕ) → bit_xor (bit_xor a b) b ≡ a
xor_cancels a b = xor_cancels_fuel (a + b) a b (omega arith) (omega arith)

pub left_cancels : (a b : ℕ) → bit_xor a (bit_xor a b) ≡ b
left_cancels a b = left_cancels_fuel (a + b) a b (omega arith) (omega arith)

pub xor_below : (k a b : ℕ) → a < 2 ^ k → b < 2 ^ k → bit_xor a b < 2 ^ k
xor_below zero zero zero p q = omega (arith, zero-bit_xor 0)
xor_below zero zero (suc b) p q = absurd (omega arith)
xor_below zero (suc a) b p q = absurd (omega arith)
xor_below (suc k) a b p q =
    let rest = xor_below k (a / 2) (b / 2) (omega arith) (omega arith) in omega (arith, halves a b)
