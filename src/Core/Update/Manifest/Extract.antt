-- ===== src/Core/Update/Manifest/Extract.antt =====
-- The loop over the matches (src/core/UpdateChecker.hpp, `_extractVersionsFromManifest`).
use understory.Base.{
  ℕ, zero, suc, ◌≤◌, ◌<◌, ◌≡◌, refl, ap, ◌∙◌, inl, inr, true, List, [], ◌∷◌, ◌++◌, Option, none,
  some, length, length-append, Bool-cases, Option-cases, arith,
}
use understory.Base.Strings.{same, same→≡}
use understory.Base.Maps.{Map, find, insert_or_assign, find-insert_same, find-insert_other}
use understory.Core.Update.{
  remove_newlines, store_groups, extract_from, extract_versions_from_manifest, name_open,
}
use understory.Core.Update.Manifest.{
  Component, render, render_behind, avoids, IsWellFormed, AllWellFormed, last_version,
}
use understory.Core.Update.Manifest.Search.{regex_search-component, regex_search-tail}

assign_all : List Component → Map (List ℕ) → Map (List ℕ)
assign_all [] out = out
assign_all (c ∷ cs) out = assign_all cs (insert_or_assign c.name c.version out)

extract_from-rendered :
    (f : ℕ) (cs : List Component) (tail : List ℕ) (out : Map (List ℕ))
    → length cs < f
    → AllWellFormed cs
    → avoids name_open tail ≡ true
    → extract_from f (render cs tail) out ≡ assign_all cs out
unfolding extract_from assign_all render
extract_from-rendered zero cs tail out l w a = absurd (omega arith)
extract_from-rendered (suc f) [] tail out l w a = rw (extract_from, regex_search-tail tail a)
extract_from-rendered (suc f) (c ∷ cs) tail out l (w, ws) a =
    rw (extract_from, regex_search-component c (render cs tail) w)
      (rw (stored c (render cs tail) out w) (
        extract_from-rendered f cs tail (insert_or_assign c.name c.version out) (omega arith) ws a))
  where
    stored :
        (c : Component) (rest : List ℕ) (out : Map (List ℕ))
        → IsWellFormed c
        → store_groups (record { name = c.name; version = c.version; suffix = rest }) out
          ≡ insert_or_assign c.name c.version out
    stored c rest out w = unfold store_groups in rw w.name_not_empty

find-assign_all :
    (name : List ℕ) (cs : List Component) (out : Map (List ℕ))
    → find name (assign_all cs out)
      ≡ elim (last_version name cs) [ some v ↦ some v | none ↦ find name out ]
unfolding assign_all last_version
find-assign_all name [] out = refl
find-assign_all name (c ∷ cs) out =
    find-assign_all name cs (insert_or_assign c.name c.version out)
    ∙ elim (Option-cases (last_version name cs)) [
      | inr (v, e) ↦ rw e
      | inl e ↦ elim (Bool-cases (same name c.name)) [
        | inl s ↦ rw (e, s, same→≡ name c.name s) (find-insert_same c.name c.version out)
        | inr s ↦ rw (e, s) (find-insert_other name c.name c.version out s)
      ]
    ]

behind : (s t : List ℕ) → length t ≤ length (s ++ t)
behind s t = omega (arith, length-append s t)

length-render : (cs : List Component) (tail : List ℕ) → length cs ≤ length (render cs tail)
unfolding render
length-render [] tail = omega arith
length-render (c ∷ cs) tail =
    let rest = render cs tail in
    omega (
      arith,
      length-render cs tail,
      behind c.lead (render_behind c rest),
      length-append c.name _,
      length-append c.between _,
      length-append c.version _,
    )

-- In a manifest that, its newlines removed, is made of such components, the extraction finds for
-- each name the version of the last component of that name, and no other name.
pub extract_rendered :
    (manifest_content : List ℕ) (cs : List Component) (tail name : List ℕ)
    → remove_newlines manifest_content ≡ render cs tail
    → AllWellFormed cs
    → avoids name_open tail ≡ true
    → find name (extract_versions_from_manifest manifest_content) ≡ last_version name cs
unfolding extract_versions_from_manifest
extract_rendered manifest_content cs tail name e w a = rw e (
    ap (find name) (
      extract_from-rendered (suc (length (render cs tail))) cs tail []
        (omega (arith, length-render cs tail)) w a)
    ∙ (find-assign_all name cs [] ∙ found (last_version name cs)))
  where
    found : (o : Option (List ℕ)) → elim o [ some v ↦ some v | none ↦ find name [] ] ≡ o
    found none = unfold find in refl
    found (some v) = refl
