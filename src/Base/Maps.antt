-- ===== src/Base/Maps.antt =====
-- std::map from strings to values: its entries in the order of their keys, each key once.
use mathlib.Core.Path.{◌≡◌, refl}
use mathlib.Core.Logic.{inl, inr}
use mathlib.Core.Bool.{true, false}
use mathlib.Core.Option.{Option, none, some}
use mathlib.Core.List.{List, [], ◌∷◌}
use Prim.Native.Nat.{ℕ}
use native.Mathlib.Omega.{arith}
use understory.Base.Tests.{if◌then◌else◌, Bool-cases}
use understory.Base.Strings.{same, less, same_refl, same→≡, less_trans, less-connex, less→same}

abbrev pub Map {ℓ} : Type ℓ → Type ℓ
Map V = List (List ℕ × V)

module _ {ℓ} {V : Type ℓ} where
  unfoldable pub find : List ℕ → Map V → Option V
  find k [] = none
  find k ((key, v) ∷ m) = let rest = find k m in if same k key then some v else rest

  unfoldable pub insert_or_assign : List ℕ → V → Map V → Map V
  insert_or_assign k v [] = (k, v) ∷ []
  insert_or_assign k v ((key, w) ∷ m) =
      let rest = insert_or_assign k v m in
      if same k key
      then (key, v) ∷ m
      else (if less k key then (k, v) ∷ (key, w) ∷ m else (key, w) ∷ rest)

  unfoldable pub erase : List ℕ → Map V → Map V
  erase k [] = []
  erase k ((key, w) ∷ m) = let rest = erase k m in if same k key then m else (key, w) ∷ rest

  -- Every key is above `k`.
  abbrev pub Above : List ℕ → Map V → Type 0
  Above k [] = Unit
  Above k ((key, v) ∷ m) = (less k key ≡ true) × Above k m

  abbrev pub Sorted : Map V → Type 0
  Sorted [] = Unit
  Sorted ((key, v) ∷ m) = Above key m × Sorted m

  Above-trans : (j k : List ℕ) (m : Map V) → less j k ≡ true → Above k m → Above j m
  Above-trans j k [] h a = tt
  Above-trans j k ((key, v) ∷ m) h (b, a) = (less_trans j k key h b, Above-trans j k m h a)

  insert_or_assign-Above :
      (j k : List ℕ) (v : V) (m : Map V)
      → less j k ≡ true
      → Above j m
      → Above j (insert_or_assign k v m)
  unfolding insert_or_assign
  insert_or_assign-Above j k v [] h a = (h, tt)
  insert_or_assign-Above j k v ((key, w) ∷ m) h (b, a) =
      let rest = insert_or_assign-Above j k v m h a in ground arith

  pub insert_or_assign-Sorted :
      (k : List ℕ) (v : V) (m : Map V) → Sorted m → Sorted (insert_or_assign k v m)
  unfolding insert_or_assign
  insert_or_assign-Sorted k v [] s = (tt, tt)
  insert_or_assign-Sorted k v ((key, w) ∷ m) (a, s) = elim (Bool-cases (same k key)) [
    | inl e ↦ rw e (a, s)
    | inr e ↦ elim (Bool-cases (less k key)) [
      | inl below ↦ rw (e, below) ((below, Above-trans k key m below a), (a, s))
      | inr above ↦
          rw (e, above)
            (
              insert_or_assign-Above key k v m (less-connex k key e above) a,
              insert_or_assign-Sorted k v m s,
            )
    ]
  ]

  -- A key below all others is not found among them.
  pub find-Above : (k : List ℕ) (m : Map V) → Above k m → find k m ≡ none
  unfolding find
  find-Above k [] a = refl
  find-Above k ((key, v) ∷ m) (b, a) = rw (less→same k key b) (find-Above k m a)

  pub find-insert_same : (k : List ℕ) (v : V) (m : Map V) → find k (insert_or_assign k v m) ≡ some v
  unfolding find insert_or_assign
  find-insert_same k v [] = rw (same_refl k)
  find-insert_same k v ((key, w) ∷ m) =
      let rest = find-insert_same k v m in let r = same_refl k in ground arith

  pub find-insert_other :
      (j k : List ℕ) (v : V) (m : Map V)
      → same j k ≡ false
      → find j (insert_or_assign k v m) ≡ find j m
  unfolding find insert_or_assign
  find-insert_other j k v [] h = rw h
  find-insert_other j k v ((key, w) ∷ m) h =
      let rest = find-insert_other j k v m h in let e = same→≡ k key in ground arith

  pub find-erase_same : (k : List ℕ) (m : Map V) → Sorted m → find k (erase k m) ≡ none
  unfolding find erase
  find-erase_same k [] s = refl
  find-erase_same k ((key, v) ∷ m) (a, s) = elim (Bool-cases (same k key)) [
    | inl e ↦ rw (e, same→≡ k key e) (find-Above key m a)
    | inr e ↦ rw (e, e) (find-erase_same k m s)
  ]

  pub find-erase_other :
      (j k : List ℕ) (m : Map V) → same j k ≡ false → find j (erase k m) ≡ find j m
  unfolding find erase
  find-erase_other j k [] h = refl
  find-erase_other j k ((key, w) ∷ m) h =
      let rest = find-erase_other j k m h in let e = same→≡ k key in ground arith

  erase-Above : (j k : List ℕ) (m : Map V) → Above j m → Above j (erase k m)
  unfolding erase
  erase-Above j k [] a = tt
  erase-Above j k ((key, w) ∷ m) (b, a) = let rest = erase-Above j k m a in ground arith

  pub erase-Sorted : (k : List ℕ) (m : Map V) → Sorted m → Sorted (erase k m)
  unfolding erase
  erase-Sorted k [] s = tt
  erase-Sorted k ((key, w) ∷ m) (a, s) =
      let rest = erase-Sorted k m s in let above = erase-Above key k m a in ground arith
