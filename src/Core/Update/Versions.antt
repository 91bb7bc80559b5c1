-- ===== src/Core/Update/Versions.antt =====
-- The comparison of the local components with the remote ones
-- (src/core/UpdateChecker.hpp), against what it means for each component.
use understory.Base.{
  ℕ, ◌≡◌, refl, sym, ◌∙◌, ◌↔◌, ◌≢◌, ltb, inl, inr, true, false, not, List, [], ◌∷◌, ◌++◌, Option,
  none, some, is_empty, Bool-cases, Option-cases, arith,
}
use understory.Base.Strings.{same, less, same_refl, same→≡}
use understory.Base.Maps.{
  Map, find, erase, Sorted, erase-Sorted, find-erase_same, find-erase_other, find-Above,
}
use understory.Core.Update.{compare_components, is_remote_version_newer_than_local}

-- A component that is on both sides, with no older version here, or on neither.
abbrev pub UpToDate : Option (List ℕ) → Option (List ℕ) → Type 0
UpToDate none none = Unit
UpToDate (some here) (some there) = is_remote_version_newer_than_local here there ≡ false
UpToDate none (some there) = ⊥
UpToDate (some here) none = ⊥

nothing_left :
    (remote : Map (List ℕ))
    → not (is_empty remote) ≡ false
    → (c : List ℕ) → UpToDate none (find c remote)
unfolding find
nothing_left [] h c = tt
nothing_left (e ∷ remote) h c = absurd cc

nothing_found :
    (remote : Map (List ℕ))
    → ((c : List ℕ) → UpToDate none (find c remote))
    → not (is_empty remote) ≡ false
unfolding find
nothing_found [] h = refl
nothing_found ((key, v) ∷ remote) h = absurd (rw (same_refl key) at (h key))

-- The components that are not the first one are looked for in what the loop goes on with.
later_component :
    (key v : List ℕ) (local remote : Map (List ℕ)) (c : List ℕ)
    → same c key ≡ false
    → (UpToDate (find c local) (find c (erase key remote)))
      ↔ (UpToDate (find c ((key, v) ∷ local)) (find c remote))
unfolding find
later_component key v local remote c e =
    rw (e, find-erase_other c key remote e) ((λ u. u), (λ u. u))

module _ (key v : List ℕ) (local remote : Map (List ℕ)) where
  compare_absent : find key remote ≡ none → compare_components ((key, v) ∷ local) remote ≡ true
  unfolding compare_components
  compare_absent e = rw (compare_components, e)

  compare_newer :
      (w : List ℕ)
      → find key remote ≡ some w
      → is_remote_version_newer_than_local v w ≡ true
      → compare_components ((key, v) ∷ local) remote ≡ true
  unfolding compare_components
  compare_newer w e n = rw (compare_components, e, n)

  compare_current :
      (w : List ℕ)
      → find key remote ≡ some w
      → is_remote_version_newer_than_local v w ≡ false
      → compare_components ((key, v) ∷ local) remote ≡ compare_components local (erase key remote)
  unfolding compare_components
  compare_current w e n = rw (compare_components, e, n)

pub compare_sound :
    (local remote : Map (List ℕ))
    → Sorted local
    → Sorted remote
    → compare_components local remote ≡ false
    → (c : List ℕ) → UpToDate (find c local) (find c remote)
compare_sound [] remote s r h c = unfold find compare_components in nothing_left remote h c
compare_sound ((key, v) ∷ local) remote (a, s) r h c = elim (Option-cases (find key remote)) [
  | inl e ↦ absurd (let e' = compare_absent key v local remote e in cc)
  | inr (w, e) ↦ elim (Bool-cases (is_remote_version_newer_than_local v w)) [
    | inl newer ↦ absurd (let e' = compare_newer key v local remote w e newer in cc)
    | inr current ↦ elim (Bool-cases (same c key)) [
      | inl is_key ↦ unfold find in rw (is_key, same→≡ c key is_key, e) current
      | inr other ↦ (later_component key v local remote c other).0 (
          compare_sound local (erase key remote) s (erase-Sorted key remote r)
            (sym (compare_current key v local remote w e current) ∙ h) c)
    ]
  ]
]

pub compare_complete :
    (local remote : Map (List ℕ))
    → Sorted local
    → Sorted remote
    → ((c : List ℕ) → UpToDate (find c local) (find c remote))
    → compare_components local remote ≡ false
compare_complete [] remote s r h =
    unfold compare_components in nothing_found remote (unfold find in h)
compare_complete ((key, v) ∷ local) remote (a, s) r h = elim (Option-cases (find key remote)) [
  | inl e ↦ absurd (unfold find in rw (same_refl key, e) at (h key))
  | inr (w, e) ↦
      compare_current key v local remote w e (first_current w e)
      ∙ (compare_complete local (erase key remote) s (erase-Sorted key remote r) (λ c.
          elim (Bool-cases (same c key)) [
            | inl is_key ↦
                rw (same→≡ c key is_key, find-Above key local a, find-erase_same key remote r) tt
            | inr other ↦ (later_component key v local remote c other).1 (h c)
          ]))
]
  where
    first_current :
        (w : List ℕ) → find key remote ≡ some w → is_remote_version_newer_than_local v w ≡ false
    first_current w e = unfold find in rw (same_refl key, e) at (h key)

-- The first byte in which two versions differ decides, whatever number it is part of.
pub first_difference_decides :
    (p r s : List ℕ) (a b : ℕ)
    → a ≢ b
    → is_remote_version_newer_than_local (p ++ a ∷ r) (p ++ b ∷ s) ≡ ltb a b
unfolding is_remote_version_newer_than_local less
first_difference_decides [] r s a b h = ground arith
first_difference_decides (c ∷ p) r s a b h =
    let rest = first_difference_decides p r s a b h in ground arith
