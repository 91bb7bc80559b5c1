-- ===== src/Base/Decimal.antt =====
-- std::to_string of an unsigned integer, as the codes of its decimal digits.
use Prim.Native.Nat.{ℕ, zero, suc, ◌+◌, ◌-◌, ◌*◌, ◌/◌, ◌%◌, ◌<◌}
use mathlib.Core.Path.{◌≡◌, refl, ap, ◌∙◌, sym}
use mathlib.Core.List.{List, [], ◌∷◌, ◌++◌}
use native.Mathlib.Omega.{arith}
use mathlib.Core.Bool.{Bool, true, false, ◌&&◌}
use understory.Base.Tests.{leb, ltb, if◌then◌else◌, Bool-cases, ltb→ge}
use mathlib.Core.Logic.{inl, inr}

-- The fuel bounds the number of digits from above.
to_string_fuel : ℕ → ℕ → List ℕ
to_string_fuel zero n = []
to_string_fuel (suc f) n =
    let front = to_string_fuel f (n / 10) in
    if ltb n 10 then (48 + n) ∷ [] else front ++ (48 + n % 10) ∷ []

pub to_string : ℕ → List ℕ
to_string n = to_string_fuel (suc n) n

unfoldable value_from : ℕ → List ℕ → ℕ
value_from acc [] = acc
value_from acc (c ∷ cs) = value_from (acc * 10 + (c - 48)) cs

-- The number that a string of digits stands for.
unfoldable pub value : List ℕ → ℕ
unfolding value_from
value cs = value_from 0 cs

value_from-snoc :
    (acc : ℕ) (cs : List ℕ) (c : ℕ)
    → value_from acc (cs ++ c ∷ []) ≡ value_from acc cs * 10 + (c - 48)
unfolding value_from
value_from-snoc acc [] c = refl
value_from-snoc acc (d ∷ cs) c = value_from-snoc (acc * 10 + (d - 48)) cs c

value-to_string_fuel : (f n : ℕ) → n < f → value (to_string_fuel f n) ≡ n
unfolding value to_string_fuel
value-to_string_fuel zero n h = absurd (omega arith)
value-to_string_fuel (suc f) n h = elim (Bool-cases (ltb n 10)) [
  | inl small ↦ rw small (unfold value_from in omega arith)
  | inr large ↦
      rw (large, value_from-snoc 0 (to_string_fuel f (n / 10)) (48 + n % 10))
        (omega (arith, value-to_string_fuel f (n / 10) (omega (arith, ltb→ge n 10 large))))
]

pub value-to_string : (n : ℕ) → value (to_string n) ≡ n
unfolding to_string
value-to_string n = value-to_string_fuel (suc n) n (omega arith)

-- Different numbers have different names.
pub to_string-injective : (m n : ℕ) → to_string m ≡ to_string n → m ≡ n
to_string-injective m n e = sym (value-to_string m) ∙ (ap value e ∙ value-to_string n)

abbrev pub is_digit : ℕ → Bool
is_digit c = leb 48 c && leb c 57

abbrev AllDigits : List ℕ → Type 0
AllDigits [] = Unit
AllDigits (c ∷ cs) = (is_digit c ≡ true) × AllDigits cs

-- The text is empty or begins with something else than a digit.
abbrev pub StartsWithNoDigit : List ℕ → Type 0
StartsWithNoDigit [] = Unit
StartsWithNoDigit (c ∷ cs) = is_digit c ≡ false

snoc-AllDigits : (cs : List ℕ) (c : ℕ) → AllDigits cs → is_digit c ≡ true → AllDigits (cs ++ c ∷ [])
snoc-AllDigits [] c a d = (d, tt)
snoc-AllDigits (b ∷ cs) c (e, a) d = (e, snoc-AllDigits cs c a d)

to_string_fuel-AllDigits : (f n : ℕ) → AllDigits (to_string_fuel f n)
unfolding to_string_fuel
to_string_fuel-AllDigits zero n = tt
to_string_fuel-AllDigits (suc f) n = elim (Bool-cases (ltb n 10)) [
  | inl small ↦ rw small (ground arith, tt)
  | inr large ↦ rw large (
      snoc-AllDigits (to_string_fuel f (n / 10)) (48 + n % 10) (to_string_fuel-AllDigits f (n / 10))
        (ground arith))
]

-- The value of the digits that a text begins with.
leading : ℕ → List ℕ → ℕ
leading acc [] = acc
leading acc (c ∷ cs) =
    let rest = leading (acc * 10 + (c - 48)) cs in if is_digit c then rest else acc

leading-append :
    (acc : ℕ) (cs rest : List ℕ)
    → AllDigits cs
    → StartsWithNoDigit rest
    → leading acc (cs ++ rest) ≡ value_from acc cs
unfolding leading value_from
leading-append acc [] [] a s = refl
leading-append acc [] (c ∷ rest) a s = rw s
leading-append acc (c ∷ cs) rest (d, a) s = rw d (leading-append (acc * 10 + (c - 48)) cs rest a s)

-- A numeral can be read off a text that goes on with something else than a digit.
pub numeral-injective :
    (m n : ℕ) (xs ys : List ℕ)
    → StartsWithNoDigit xs
    → StartsWithNoDigit ys
    → to_string m ++ xs ≡ to_string n ++ ys
    → m ≡ n
unfolding to_string value
numeral-injective m n xs ys s t e =
    let a = leading-append 0 (to_string m) xs (to_string_fuel-AllDigits (suc m) m) s in
    let b = leading-append 0 (to_string n) ys (to_string_fuel-AllDigits (suc n) n) t in
    sym (a ∙ value-to_string m) ∙ (ap (leading 0) e ∙ (b ∙ value-to_string n))
