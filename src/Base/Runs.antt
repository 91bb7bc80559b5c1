-- ===== src/Base/Runs.antt =====
-- Runs of a fallible step function that takes one input a step, such as a reading of the clock.
use Prim.Native.Nat.{ℕ, zero, suc, ◌+◌}
use Prim.Native.Nat.add
use mathlib.Core.Path.{◌≡◌, sym, subst}
use mathlib.Core.Option.{Option, some}

module _ {ℓ} {S : Type ℓ} {I : Type ℓ} (step : I → S → Option S) where
  -- Whatever the inputs are, the next `n` steps are made without a fault, and then `P` holds.
  abbrev pub After : ℕ → (S → Type ℓ) → S → Type ℓ
  After zero P s = P s
  After (suc n) P s = (i : I) → (t : S) × (step i s ≡ some t) × After n P t

  pub After-map :
      (n : ℕ) (P Q : S → Type ℓ) (s : S) → ((t : S) → P t → Q t) → After n P s → After n Q s
  After-map zero P Q s f h = f s h
  After-map (suc n) P Q s f h =
      λ i. let next = h i in (next.0, next.1, After-map n P Q next.0 f next.2)

  pub After-join :
      (m n : ℕ) (P Q : S → Type ℓ) (s : S)
      → After m P s
      → ((t : S) → P t → After n Q t)
      → After (m + n) Q s
  After-join zero n P Q s h f = subst (λ k. After k Q s) (sym (add.zero n)) (f s h)
  After-join (suc m) n P Q s h f =
      subst (λ k. After k Q s) (sym (add.suc m n))
        (λ i. let next = h i in (next.0, next.1, After-join m n P Q next.0 next.2 f))

  -- What every step keeps, holds after the steps too.
  pub After-keeps :
      (K : S → Type ℓ)
      → ((i : I) (s t : S) → step i s ≡ some t → K s → K t)
      → (n : ℕ) (P : S → Type ℓ) (s : S) → K s
      → After n P s
      → After n (λ t. P t × K t) s
  After-keeps K keep zero P s k h = (h, k)
  After-keeps K keep (suc n) P s k h =
      λ i. let (t, e, rest) = h i in (t, e, After-keeps K keep n P t (keep i s t e k) rest)
