-- ===== src/Base/Strings.antt =====
-- std::string as the list of its bytes: its equality and its order, which compares bytes.
use Prim.Native.Nat.{ℕ, compare, Ordering}
use mathlib.Core.Path.{◌≡◌, refl}
use mathlib.Core.Bool.{Bool, true, false}
use mathlib.Core.List.{List, [], ◌∷◌}
use native.Mathlib.Omega.{arith}

unfoldable pub same : List ℕ → List ℕ → Bool
same [] [] = true
same [] (y ∷ ys) = false
same (x ∷ xs) [] = false
same (x ∷ xs) (y ∷ ys) = elim (compare x y) [ Ordering.eq ↦ same xs ys | _ ↦ false ]

-- `operator<` of std::string.
unfoldable pub less : List ℕ → List ℕ → Bool
less [] [] = false
less [] (y ∷ ys) = true
less (x ∷ xs) [] = false
less (x ∷ xs) (y ∷ ys) = elim (compare x y) [
  | Ordering.lt ↦ true
  | Ordering.eq ↦ less xs ys
  | Ordering.gt ↦ false
]

pub same_refl : (xs : List ℕ) → same xs xs ≡ true
unfolding same
same_refl [] = refl
same_refl (x ∷ xs) = let rest = same_refl xs in ground arith

pub same→≡ : (xs ys : List ℕ) → same xs ys ≡ true → xs ≡ ys
unfolding same
same→≡ [] [] h = refl
same→≡ [] (y ∷ ys) h = cc
same→≡ (x ∷ xs) [] h = cc
same→≡ (x ∷ xs) (y ∷ ys) h = let rest = same→≡ xs ys in ground arith

pub less_irrefl : (xs : List ℕ) → less xs xs ≡ false
unfolding less
less_irrefl [] = refl
less_irrefl (x ∷ xs) = let rest = less_irrefl xs in ground arith

pub less_trans : (xs ys zs : List ℕ) → less xs ys ≡ true → less ys zs ≡ true → less xs zs ≡ true
unfolding less
less_trans [] [] zs h k = cc
less_trans [] (y ∷ ys) [] h k = cc
less_trans [] (y ∷ ys) (z ∷ zs) h k = refl
less_trans (x ∷ xs) [] zs h k = cc
less_trans (x ∷ xs) (y ∷ ys) [] h k = cc
less_trans (x ∷ xs) (y ∷ ys) (z ∷ zs) h k = let rest = less_trans xs ys zs in ground arith

pub less-connex : (xs ys : List ℕ) → same xs ys ≡ false → less xs ys ≡ false → less ys xs ≡ true
unfolding less same
less-connex [] [] h k = cc
less-connex [] (y ∷ ys) h k = cc
less-connex (x ∷ xs) [] h k = refl
less-connex (x ∷ xs) (y ∷ ys) h k = let rest = less-connex xs ys in ground arith

pub less→same : (xs ys : List ℕ) → less xs ys ≡ true → same xs ys ≡ false
unfolding less same
less→same [] [] h = cc
less→same [] (y ∷ ys) h = refl
less→same (x ∷ xs) [] h = cc
less→same (x ∷ xs) (y ∷ ys) h = let rest = less→same xs ys in ground arith
