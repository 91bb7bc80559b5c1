-- ===== src/Core/Update/Manifest/Search.antt =====
-- The search for the expression in a rendered manifest (src/core/UpdateChecker.hpp).
use understory.Base.{
  ℕ, ◌≡◌, refl, ◌∙◌, inl, inr, true, false, List, [], ◌∷◌, ◌++◌, none, some, Bool-cases,
  Option-cases, ◌==◌, arith,
}
use understory.Core.Update.{
  strip, is_line_end, lazy_until, match_here, regex_search, name_open, name_close, version_open,
  version_close,
}
use understory.Core.Update.Manifest.{Component, render_behind, avoids, one_line, IsWellFormed}

-- No '<' stands in the text.
abbrev NoOpen : List ℕ → Type 0
NoOpen [] = Unit
NoOpen (c ∷ cs) = (c == 60 ≡ false) × NoOpen cs

-- What follows a '<' behind the text is of no matter for a literal that starts in the text.
strip-open :
    (ps s t : List ℕ) → NoOpen ps → strip ps (s ++ 60 ∷ []) ≡ none → strip ps (s ++ 60 ∷ t) ≡ none
unfolding strip
strip-open [] s t n h = absurd cc
strip-open (p ∷ ps) [] t (n, ns) h = ground arith
strip-open (p ∷ ps) (c ∷ cs) t (n, ns) h = let rest = strip-open ps cs t ns in ground arith

strip_literal : (ps t : List ℕ) → strip ps (ps ++ t) ≡ some t
unfolding strip
strip_literal [] t = refl
strip_literal (p ∷ ps) t = let rest = strip_literal ps t in ground arith

strip-append : (ps s t : List ℕ) → strip ps (s ++ t) ≡ none → strip ps s ≡ none
unfolding strip
strip-append [] s t h = absurd cc
strip-append (p ∷ ps) [] t h = refl
strip-append (p ∷ ps) (c ∷ cs) t h = let rest = strip-append ps cs t in ground arith

module _ (ps : List ℕ) (closed : NoOpen ps) where
  other_start :
      (c : ℕ) (cs t : List ℕ)
      → strip (60 ∷ ps) (c ∷ (cs ++ 60 ∷ [])) ≡ none
      → strip (60 ∷ ps) (c ∷ (cs ++ 60 ∷ t)) ≡ none
  unfolding strip
  other_start c cs t e = let rest = strip-open ps cs t closed in ground arith

  avoids_first :
      (c : ℕ) (cs t : List ℕ)
      → avoids (60 ∷ ps) (c ∷ cs) ≡ true
      → (strip (60 ∷ ps) (c ∷ (cs ++ 60 ∷ t)) ≡ none) × (avoids (60 ∷ ps) cs ≡ true)
  unfolding avoids
  avoids_first c cs t h = elim (Option-cases (strip (60 ∷ ps) (c ∷ (cs ++ 60 ∷ [])))) [
    | inl e ↦ (other_start c cs t e, rw (avoids, e) at h)
    | inr (r, e) ↦ absurd (let h' = rw (avoids, e) at h in cc)
  ]

  lazy_until-first :
      (s t : List ℕ)
      → avoids (60 ∷ ps) s ≡ true
      → one_line s ≡ true
      → lazy_until (60 ∷ ps) (s ++ ((60 ∷ ps) ++ t)) ≡ some (s, t)
  unfolding lazy_until one_line
  lazy_until-first [] t a o = rw (lazy_until, strip_literal (60 ∷ ps) t)
  lazy_until-first (c ∷ cs) t a o =
      let (e, a') = avoids_first c cs (ps ++ t) a in
      elim (Bool-cases (is_line_end c)) [
        | inl l ↦ absurd (let o' = rw l at o in cc)
        | inr l ↦ rw (lazy_until, e, lazy_until-first cs t a' (rw l at o), l)
      ]

-- A text in which <Name> does not begin is passed over.
not_here : (text : List ℕ) → strip name_open text ≡ none → match_here text ≡ none
unfolding match_here
not_here text e = rw e

name_closed : NoOpen (78 ∷ 97 ∷ 109 ∷ 101 ∷ 62 ∷ [])
name_closed = (refl, (refl, (refl, (refl, (refl, tt)))))

regex_search-skips :
    (lead t : List ℕ)
    → avoids name_open lead ≡ true
    → regex_search (lead ++ 60 ∷ t) ≡ regex_search (60 ∷ t)
unfolding regex_search
regex_search-skips [] t a = refl
regex_search-skips (c ∷ cs) t a =
    let (e, a') = avoids_first (78 ∷ 97 ∷ 109 ∷ 101 ∷ 62 ∷ []) name_closed c cs t a in
    rw (regex_search, not_here (c ∷ (cs ++ 60 ∷ t)) e) (regex_search-skips cs t a')

matched :
    (text behind_open name behind_name between behind_between version suffix : List ℕ)
    → strip name_open text ≡ some behind_open
    → lazy_until name_close behind_open ≡ some (name, behind_name)
    → lazy_until version_open behind_name ≡ some (between, behind_between)
    → lazy_until version_close behind_between ≡ some (version, suffix)
    → match_here text ≡ some (record { name = name; version = version; suffix = suffix })
unfolding match_here
matched text _ _ _ _ _ _ _ a b c d = rw (a, b, c, d)

match_here-component :
    (c : Component) (rest : List ℕ)
    → IsWellFormed c
    → match_here (render_behind c rest)
      ≡ some (record { name = c.name; version = c.version; suffix = rest })
match_here-component c rest w =
    let behind_version = version_close ++ rest in
    let behind_between = version_open ++ (c.version ++ behind_version) in
    let behind_name = name_close ++ (c.between ++ behind_between) in
    matched (render_behind c rest) _ _ _ _ _ _ _ (strip_literal name_open (c.name ++ behind_name))
      (lazy_until-first (47 ∷ 78 ∷ 97 ∷ 109 ∷ 101 ∷ 62 ∷ [])
        (refl, (refl, (refl, (refl, (refl, (refl, tt)))))) c.name (c.between ++ behind_between)
        w.name_avoids w.name_one_line)
      (lazy_until-first (86 ∷ 101 ∷ 114 ∷ 115 ∷ 105 ∷ 111 ∷ 110 ∷ 62 ∷ [])
        (refl, (refl, (refl, (refl, (refl, (refl, (refl, (refl, tt)))))))) c.between
        (c.version ++ behind_version) w.between_avoids w.between_one_line)
      (lazy_until-first (47 ∷ 86 ∷ 101 ∷ 114 ∷ 115 ∷ 105 ∷ 111 ∷ 110 ∷ 62 ∷ [])
        (refl, (refl, (refl, (refl, (refl, (refl, (refl, (refl, (refl, tt))))))))) c.version rest
        w.version_avoids w.version_one_line)

pub regex_search-component :
    (c : Component) (rest : List ℕ)
    → IsWellFormed c
    → regex_search (c.lead ++ render_behind c rest)
      ≡ some (record { name = c.name; version = c.version; suffix = rest })
unfolding regex_search
regex_search-component c rest w =
    regex_search-skips c.lead _ w.lead_avoids ∙ rw (regex_search, match_here-component c rest w)

pub regex_search-tail : (tail : List ℕ) → avoids name_open tail ≡ true → regex_search tail ≡ none
unfolding regex_search
regex_search-tail [] a = unfold match_here strip in refl
regex_search-tail (c ∷ cs) a =
    let (e, a') = avoids_first (78 ∷ 97 ∷ 109 ∷ 101 ∷ 62 ∷ []) name_closed c cs [] a in
    rw (regex_search, not_here (c ∷ cs) (strip-append name_open (c ∷ cs) (60 ∷ []) e))
      (regex_search-tail cs a')
