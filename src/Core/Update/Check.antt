-- ===== src/Core/Update/Check.antt =====
-- The answer of the update check (src/core/UpdateChecker.hpp, `_isNewerVersionAvailable`).
use understory.Base.{
  ℕ, ◌≡◌, refl, sym, ◌∙◌, ◌↔◌, ◌⊎◌, ◌≢◌, inl, inr, true, false, List, [], ◌∷◌, Option, none, some,
  is_empty, Option-cases, arith,
}
use mathlib.Core.Path.{subst}
use understory.Base.Strings.{same_refl}
use understory.Base.Maps.{Map, find}
use understory.Core.Update.{
  remove_newlines, extract_from, regex_search, match_here, strip, extract_versions_from_manifest,
  compare_components, get_local_manifest_content, is_newer_version_available, name_open,
}
use understory.Core.Update.Versions.{UpToDate, compare_sound, compare_complete}
use understory.Core.Update.Manifest.{Component, render, avoids, AllWellFormed, last_version}
use understory.Core.Update.Manifest.Extract.{extract_rendered}
use understory.Core.Update.Manifest.Loop.{extract-Sorted}

abbrev pub local_components : Option (List ℕ) → Map (List ℕ)
local_components local_file = extract_versions_from_manifest (get_local_manifest_content local_file)

empty_raw :
    (raw : List ℕ) → is_empty (extract_versions_from_manifest raw) ≡ false → is_empty raw ≡ false
unfolding extract_versions_from_manifest remove_newlines extract_from regex_search match_here strip
empty_raw [] h = h
empty_raw (c ∷ cs) h = refl

-- Where a manifest is missing or lists no component, the answer is that there is no update.
pub no_components-false :
    (local_file : Option (List ℕ)) (remote_raw : List ℕ)
    → (is_empty (local_components local_file) ≡ true)
      ⊎ (is_empty (extract_versions_from_manifest remote_raw) ≡ true)
    → is_newer_version_available local_file remote_raw ≡ false
unfolding is_newer_version_available
no_components-false local_file remote_raw (inl h) = ground arith
no_components-false local_file remote_raw (inr h) = ground arith

answer_compares :
    (local_file : Option (List ℕ)) (remote_raw : List ℕ)
    → is_empty (local_components local_file) ≡ false
    → is_empty (extract_versions_from_manifest remote_raw) ≡ false
    → is_newer_version_available local_file remote_raw
      ≡ compare_components (local_components local_file) (extract_versions_from_manifest remote_raw)
unfolding is_newer_version_available
answer_compares local_file remote_raw h k = rw (empty_raw _ h, h, empty_raw remote_raw k, k)

-- With components on both sides, the answer is `false` exactly when every component that is on one
-- side is on the other too, and its remote version is not the newer one.
pub answer_iff :
    (local_file : Option (List ℕ)) (remote_raw : List ℕ)
    → is_empty (local_components local_file) ≡ false
    → is_empty (extract_versions_from_manifest remote_raw) ≡ false
    → (is_newer_version_available local_file remote_raw ≡ false) ↔ (
        (c : List ℕ)
        → UpToDate
            (find c (local_components local_file))
            (find c (extract_versions_from_manifest remote_raw)))
answer_iff local_file remote_raw h k =
    let here = extract-Sorted (get_local_manifest_content local_file) in
    let there = extract-Sorted remote_raw in
    rw (answer_compares local_file remote_raw h k)
      (compare_sound _ _ here there, compare_complete _ _ here there)

find-some-nonempty : (k v : List ℕ) (m : Map (List ℕ)) → find k m ≡ some v → is_empty m ≡ false
unfolding find
find-some-nonempty k v [] h = absurd cc
find-some-nonempty k v (e ∷ m) h = refl

UpToDate-transfer : (o o' p p' : Option (List ℕ)) → o ≡ o' → p ≡ p' → UpToDate o p → UpToDate o' p'
UpToDate-transfer o o' p p' e f u = subst (λ x. UpToDate o' x) f (subst (λ x. UpToDate x p) e u)

first_version : (c : Component) (cs : List Component) → last_version c.name (c ∷ cs) ≢ none
unfolding last_version
first_version c cs h = elim (Option-cases (last_version c.name cs)) [
  | inl e ↦ let h' = rw (last_version, e, same_refl c.name) at h in cc
  | inr (v, e) ↦ let h' = rw (last_version, e) at h in cc
]

rendered_nonempty :
    (content : List ℕ) (c : Component) (cs : List Component) (tail : List ℕ)
    → remove_newlines content ≡ render (c ∷ cs) tail
    → AllWellFormed (c ∷ cs)
    → avoids name_open tail ≡ true
    → is_empty (extract_versions_from_manifest content) ≡ false
rendered_nonempty content c cs tail e w a = elim (Option-cases (last_version c.name (c ∷ cs))) [
  | inl n ↦ absurd (first_version c cs n)
  | inr (v, s) ↦
      find-some-nonempty c.name v _ (extract_rendered content (c ∷ cs) tail c.name e w a ∙ s)
]

-- For two manifests made of components, newlines anywhere, the answer is `false` exactly when for
-- every name the last versions that the manifests give it agree: both give one and the remote one is
-- not newer, or neither gives one.
pub rendered_iff :
    (here there : List ℕ) (c d : Component) (cs ds : List Component) (tail tail' : List ℕ)
    → remove_newlines here ≡ render (c ∷ cs) tail
    → AllWellFormed (c ∷ cs)
    → avoids name_open tail ≡ true
    → remove_newlines there ≡ render (d ∷ ds) tail'
    → AllWellFormed (d ∷ ds)
    → avoids name_open tail' ≡ true
    → (is_newer_version_available (some here) there ≡ false)
      ↔ ((name : List ℕ) → UpToDate (last_version name (c ∷ cs)) (last_version name (d ∷ ds)))
unfolding get_local_manifest_content
rendered_iff here there c d cs ds tail tail' e w a e' w' a' =
    let found = λ (name : List ℕ). extract_rendered here (c ∷ cs) tail name e w a in
    let found' = λ (name : List ℕ). extract_rendered there (d ∷ ds) tail' name e' w' a' in
    let (to, from) =
      answer_iff (some here) there (rendered_nonempty here c cs tail e w a)
        (rendered_nonempty there d ds tail' e' w' a') in
    (
      (λ h name. UpToDate-transfer _ _ _ _ (found name) (found' name) (to h name)),
      (λ u.
          from (λ name. UpToDate-transfer _ _ _ _ (sym (found name)) (sym (found' name)) (u name))),
    )
