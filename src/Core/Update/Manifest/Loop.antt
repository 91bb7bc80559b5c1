-- ===== src/Core/Update/Manifest/Loop.antt =====
-- The loop over the matches ends, and keeps its map in order (src/core/UpdateChecker.hpp,
-- `_extractVersionsFromManifest`).
use understory.Base.{
  ℕ, zero, suc, ◌<◌, ◌≤◌, ◌≡◌, refl, ap, inl, inr, List, [], ◌∷◌, none, some, length, Option-cases,
  eq_of_some, some-of_bind, arith,
}
use understory.Base.Maps.{Map, Sorted, insert_or_assign-Sorted}
use understory.Core.Update.{
  Match, strip, lazy_until, match_here, regex_search, store_groups, extract_from,
  extract_versions_from_manifest, name_open, name_close, version_open, version_close,
}

strip-shorter :
    (p : ℕ) (ps text rest : List ℕ) → strip (p ∷ ps) text ≡ some rest → length rest < length text
unfolding strip
strip-shorter p ps [] rest h = absurd cc
strip-shorter p [] (c ∷ cs) rest h = ground arith
strip-shorter p (q ∷ ps) (c ∷ cs) rest h = let later = strip-shorter q ps cs rest in ground arith

lazy_until-shorter :
    (p : ℕ) (ps text before rest : List ℕ)
    → lazy_until (p ∷ ps) text ≡ some (before, rest)
    → length rest < length text
unfolding lazy_until
lazy_until-shorter p ps [] before rest h = let short = strip-shorter p ps [] rest in ground arith
lazy_until-shorter p ps (c ∷ cs) before rest h =
    let short = strip-shorter p ps (c ∷ cs) rest in
    elim (Option-cases (lazy_until (p ∷ ps) cs)) [
      | inl e ↦ ground arith
      | inr ((b, r), e) ↦ let later = lazy_until-shorter p ps cs b r e in ground arith
    ]

match_here-shorter :
    (text : List ℕ) (m : Match) → match_here text ≡ some m → length m.suffix < length text
unfolding match_here
match_here-shorter text m h =
    let (a, e, h) = some-of_bind (strip name_open text) _ m h in
    let ((name, b), f, h) = some-of_bind (lazy_until name_close a) _ m h in
    let ((between, c), g, h) = some-of_bind (lazy_until version_open b) _ m h in
    let ((version, d), k, h) = some-of_bind (lazy_until version_close c) _ m h in
    let l1 = strip-shorter 60 _ text a e in
    let l2 = lazy_until-shorter 60 _ a name b f in
    let l3 = lazy_until-shorter 60 _ b between c g in
    let l4 = lazy_until-shorter 60 _ c version d k in
    omega (arith, ap (λ m. length m.suffix) (eq_of_some h))

regex_search-shorter :
    (text : List ℕ) (m : Match) → regex_search text ≡ some m → length m.suffix < length text
unfolding regex_search
regex_search-shorter [] m h = match_here-shorter [] m h
regex_search-shorter (c ∷ cs) m h =
    let here = match_here-shorter (c ∷ cs) m in
    let later = regex_search-shorter cs m in ground arith

-- `ms` are the matches of the rounds of the loop: each is found in what is behind the one before, and
-- nothing is found behind the last one, which is how the loop ends.
abbrev pub AreRounds : List ℕ → List Match → Type 0
AreRounds text [] = regex_search text ≡ none
AreRounds text (m ∷ ms) = (regex_search text ≡ some m) × AreRounds m.suffix ms

-- The groups of these matches, stored one after the other.
unfoldable pub store_all : List Match → Map (List ℕ) → Map (List ℕ)
store_all [] out = out
store_all (m ∷ ms) out = store_all ms (store_groups m out)

rounds_in :
    (bound : ℕ) (text : List ℕ)
    → length text < bound
    → (ms : List Match) × AreRounds text ms × (length ms ≤ length text)
rounds_in zero text h = absurd (omega arith)
rounds_in (suc bound) text h = elim (Option-cases (regex_search text)) [
  | inl e ↦ ([], e, omega arith)
  | inr (m, e) ↦
      let shorter = regex_search-shorter text m e in
      let (ms, r, l) = rounds_in bound m.suffix (omega arith) in (m ∷ ms, (e, r), omega arith)
]

rounds_stored :
    (f : ℕ) (text : List ℕ) (ms : List Match) (out : Map (List ℕ))
    → AreRounds text ms
    → length ms < f
    → extract_from f text out ≡ store_all ms out
unfolding extract_from store_all
rounds_stored zero text ms out r h = absurd (omega arith)
rounds_stored (suc f) text [] out r h = rw (extract_from, r) refl
rounds_stored (suc f) text (m ∷ ms) out (e, r) h =
    rw (extract_from, e) (rounds_stored f m.suffix ms (store_groups m out) r (omega arith))

-- With more fuel than the text has bytes the loop over the matches ends by itself: it makes at most as
-- many rounds as the text has bytes, nothing is found behind the last one, and what it gives is the
-- groups of these rounds, stored in order.
pub extract_from_ends :
    (fuel : ℕ) (text : List ℕ) (out : Map (List ℕ))
    → length text < fuel
    → (ms : List Match) × AreRounds text ms
      × (length ms ≤ length text)
      × (extract_from fuel text out ≡ store_all ms out)
extract_from_ends fuel text out h =
    let (ms, r, l) = rounds_in (suc (length text)) text (omega arith) in
    (ms, r, l, rounds_stored fuel text ms out r (omega arith))

store_groups-Sorted : (m : Match) (out : Map (List ℕ)) → Sorted out → Sorted (store_groups m out)
unfolding store_groups
store_groups-Sorted m out s =
    let s' = insert_or_assign-Sorted m.name m.version out s in ground arith

extract_from-Sorted :
    (f : ℕ) (text : List ℕ) (out : Map (List ℕ)) → Sorted out → Sorted (extract_from f text out)
unfolding extract_from
extract_from-Sorted zero text out s = s
extract_from-Sorted (suc f) text out s = elim (Option-cases (regex_search text)) [
  | inl e ↦ rw (extract_from, e) s
  | inr (m, e) ↦
      rw (extract_from, e)
        (extract_from-Sorted f m.suffix (store_groups m out) (store_groups-Sorted m out s))
]

pub extract-Sorted : (text : List ℕ) → Sorted (extract_versions_from_manifest text)
unfolding extract_versions_from_manifest
extract-Sorted text = extract_from-Sorted _ _ [] tt
