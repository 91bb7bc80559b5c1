-- ===== src/Network/Download/Body.antt =====
-- What src/network/helpers/HTTPDownloader.cpp makes of an answer that is a status line, headers, a
-- blank line and a body.
use understory.Base.{
  ℕ, ◌<◌, suc, zero, ◌≡◌, refl, ap, ◌∙◌, Bool, true, false, ◌==◌, ◌||◌, List, [], ◌∷◌, ◌++◌,
  append_assoc, append-nil, length-append, some, is_empty, if◌then◌else◌, length, arith,
}
use understory.Base.Strings.{same}
use understory.Network.Download.{starts_with, contains, read_headers, content_length, crlf}
use understory.Network.Download.Lines.{OneLine, has_newline, first_line, getline-line}

abbrev has_char : ℕ → List ℕ → Bool
has_char x [] = false
has_char x (c ∷ cs) = (x == c) || has_char x cs

-- The bytes end a line and go on with a blank one, or begin with one.
abbrev pub has_blank : List ℕ → Bool
has_blank s = starts_with crlf s || contains (10 ∷ crlf) s

pub starts_with→contains : (d s : List ℕ) → starts_with d s ≡ true → contains d s ≡ true
unfolding contains starts_with
starts_with→contains [] [] h = refl
starts_with→contains (x ∷ d) [] h = absurd cc
starts_with→contains d (c ∷ s) h = rw h refl

pub contains_tail : (x : ℕ) (d s : List ℕ) → contains (x ∷ d) s ≡ true → contains d s ≡ true
unfolding contains starts_with
contains_tail x d [] h = absurd cc
contains_tail x d (c ∷ s) h =
    let here = starts_with→contains d s in let rest = contains_tail x d s in ground arith

pub has_blank-has_newline : (s : List ℕ) → has_blank s ≡ true → has_newline s ≡ true
unfolding contains starts_with has_newline
has_blank-has_newline [] h = cc
has_blank-has_newline (c ∷ []) h = ground arith
has_blank-has_newline (c ∷ d ∷ s) h = let rest = has_blank-has_newline (d ∷ s) in ground arith

no_blank :
    (l s : List ℕ) → OneLine l → contains (10 ∷ crlf) (l ++ 10 ∷ s) ≡ true → has_blank s ≡ true
unfolding contains starts_with
no_blank [] s o h = ground arith
no_blank (c ∷ l) s (n, o) h = let rest = no_blank l s o in ground arith

pub OneLine-append : (l m : List ℕ) → OneLine l → OneLine m → OneLine (l ++ m)
OneLine-append [] m o p = p
OneLine-append (c ∷ l) m (n, o) p = (n, OneLine-append l m o p)

not_blank :
    (c : ℕ) (h s : List ℕ)
    → OneLine (c ∷ h)
    → starts_with crlf (((c ∷ h) ++ 13 ∷ []) ++ 10 ∷ s) ≡ false
unfolding starts_with
not_blank c [] s o = ground arith
not_blank c (d ∷ h) s o = ground arith

-- A line that is not blank leaves the blank one to come.
header_leaves :
    (c : ℕ) (h s : List ℕ)
    → OneLine (c ∷ h)
    → has_blank (((c ∷ h) ++ 13 ∷ []) ++ 10 ∷ s) ≡ true
    → has_blank s ≡ true
header_leaves c h s o b =
    no_blank ((c ∷ h) ++ 13 ∷ []) s (OneLine-append (c ∷ h) (13 ∷ []) o (refl, tt))
      (rw (not_blank c h s o) at b)

starts-snoc :
    (d h : List ℕ) (c : ℕ) → has_char c d ≡ false → starts_with d (h ++ c ∷ []) ≡ starts_with d h
unfolding starts_with
starts-snoc [] h c n = refl
starts-snoc (x ∷ []) [] c n = ground arith
starts-snoc (x ∷ y ∷ d) [] c n = ground arith
starts-snoc (x ∷ d) (y ∷ h) c n = let rest = starts-snoc d h c in ground arith

contains-snoc-nil :
    (x c : ℕ) (d : List ℕ) → has_char c (x ∷ d) ≡ false → contains (x ∷ d) (c ∷ []) ≡ false
unfolding contains starts_with
contains-snoc-nil x c [] n = ground arith
contains-snoc-nil x c (y ∷ d) n = ground arith

contains-snoc :
    (d h : List ℕ) (c : ℕ)
    → has_char c d ≡ false
    → is_empty d ≡ false
    → contains d (h ++ c ∷ []) ≡ contains d h
unfolding contains
contains-snoc [] [] c n e = absurd cc
contains-snoc (x ∷ d) [] c n e = contains-snoc-nil x c d n
contains-snoc d (y ∷ h) c n e =
    let here = starts-snoc d (y ∷ h) c n in let rest = contains-snoc d h c n e in ground arith

abbrev pub AllHeaders : List (List ℕ) → Type 0
AllHeaders [] = Unit
AllHeaders (h ∷ hs) = (is_empty h ≡ false) × OneLine h × AllHeaders hs

-- The headers and the blank line, with what follows them.
unfoldable pub rendered : List (List ℕ) → List ℕ → List ℕ
rendered [] u = 13 ∷ 10 ∷ u
rendered (h ∷ hs) u = (h ++ 13 ∷ []) ++ 10 ∷ rendered hs u

-- Whether a header has "Content-Length" in it.
abbrev pub announced : List (List ℕ) → Bool
announced [] = false
announced (h ∷ hs) = contains content_length h || announced hs

abbrev pub with_ends : List (List ℕ) → List (List ℕ)
with_ends [] = []
with_ends (h ∷ hs) = (h ++ 13 ∷ []) ∷ with_ends hs

header_goes_on : (h : List ℕ) → is_empty h ≡ false → same (h ++ 13 ∷ []) (13 ∷ []) ≡ false
unfolding same
header_goes_on [] e = absurd cc
header_goes_on (c ∷ []) e = ground arith
header_goes_on (c ∷ d ∷ h) e = ground arith

read_line :
    (fuel : ℕ) (acc : List (List ℕ)) (found : Bool) (l u : List ℕ)
    → OneLine l
    → read_headers (suc fuel) acc found (record { unread = l ++ 10 ∷ u; good = true }) ≡ (
        if same l (13 ∷ [])
        then some (acc, found, record { unread = u; good = true })
        else read_headers fuel
            (acc ++ l ∷ [])
            (if found then true else contains content_length l)
            (record { unread = u; good = true }))
unfolding read_headers
read_line fuel acc found l u o = rw (read_headers, getline-line l u o) refl

read_header :
    (fuel : ℕ) (acc : List (List ℕ)) (found : Bool) (h u : List ℕ)
    → OneLine h
    → is_empty h ≡ false
    → read_headers (suc fuel) acc found (record { unread = (h ++ 13 ∷ []) ++ 10 ∷ u; good = true })
      ≡ read_headers fuel
          (acc ++ (h ++ 13 ∷ []) ∷ [])
          (if found then true else contains content_length (h ++ 13 ∷ []))
          (record { unread = u; good = true })
read_header fuel acc found h u o n =
    read_line fuel acc found (h ++ 13 ∷ []) u (OneLine-append h (13 ∷ []) o (refl, tt))
    ∙ ap
        (λ b.
          if b
          then some (acc, found, record { unread = u; good = true })
          else read_headers fuel (acc ++ (h ++ 13 ∷ []) ∷ [])
              (if found then true else contains content_length (h ++ 13 ∷ []))
              (record { unread = u; good = true }))
        (header_goes_on h n)

read_blank :
    (fuel : ℕ) (acc : List (List ℕ)) (found : Bool) (u : List ℕ)
    → read_headers (suc fuel) acc found (record { unread = 13 ∷ 10 ∷ u; good = true })
      ≡ some (acc ++ [], found || false, record { unread = u; good = true })
unfolding same
read_blank fuel acc found u =
    read_line fuel acc found (13 ∷ []) u (refl, tt) ∙ rw (append-nil acc) (ground arith)

found_or :
    (found : Bool) (h : List ℕ) (later : Bool)
    → ((if found then true else contains content_length (h ++ 13 ∷ [])) || later)
      ≡ (found || (contains content_length h || later))
found_or found h later = let e = contains-snoc content_length h 13 refl refl in ground arith

shorter :
    (h s rest : List ℕ) (fuel : ℕ)
    → s ≡ (h ++ 13 ∷ []) ++ 10 ∷ rest
    → length s < suc fuel
    → length rest < fuel
shorter h s rest fuel e f =
    let n = length-append (h ++ 13 ∷ []) (10 ∷ rest) in let m = ap length e in omega arith

header_kept :
    (h s rest : List ℕ)
    → is_empty h ≡ false
    → OneLine h
    → s ≡ (h ++ 13 ∷ []) ++ 10 ∷ rest
    → has_blank s ≡ true
    → has_blank rest ≡ true
header_kept [] s rest n o e b = absurd cc
header_kept (c ∷ h) s rest n o e b = header_leaves c h rest o (rw e at b)

-- However much of the answer has been read, as long as the blank line is in it.
pub read_headers-rendered :
    (hs acc : List (List ℕ)) (fuel : ℕ) (found : Bool) (s t u : List ℕ)
    → s ++ t ≡ rendered hs u
    → AllHeaders hs
    → has_blank s ≡ true
    → length s < fuel
    → (rest : List ℕ) × (rest ++ t ≡ u)
      × (read_headers fuel acc found (record { unread = s; good = true })
          ≡ some
              (acc ++ with_ends hs, found || announced hs, record { unread = rest; good = true }))
unfolding rendered
read_headers-rendered hs acc zero found s t u e w b f = absurd (omega arith)
read_headers-rendered [] acc (suc fuel) found s t u e w b f =
    let (rest, l, j) = first_line s t (13 ∷ []) u (has_blank-has_newline s b) e (refl, tt) in
    (
      rest,
      j,
      ap (λ x. read_headers (suc fuel) acc found (record { unread = x; good = true })) l
          ∙ read_blank fuel acc found rest,
    )
read_headers-rendered (h ∷ hs) acc (suc fuel) found s t u e (n, o, w) b f =
    let line = OneLine-append h (13 ∷ []) o (refl, tt) in
    let (rest, l, j) =
      first_line s t (h ++ 13 ∷ []) (rendered hs u) (has_blank-has_newline s b) e line in
    let (after, k, r) =
      read_headers-rendered hs (acc ++ (h ++ 13 ∷ []) ∷ []) fuel
        (if found then true else contains content_length (h ++ 13 ∷ [])) rest t u j w
        (header_kept h s rest n o l b) (shorter h s rest fuel l f) in
    (
      after,
      k,
      ap (λ x. read_headers (suc fuel) acc found (record { unread = x; good = true })) l
          ∙ read_header fuel acc found h rest o n
          ∙ r
          ∙ ap
              (λ x. some (
                x,
                (if found then true else contains content_length (h ++ 13 ∷ [])) || announced hs,
                record { unread = after; good = true },
              ))
              (append_assoc acc ((h ++ 13 ∷ []) ∷ []) (with_ends hs))
          ∙ ap (λ x. some (acc ++ with_ends (h ∷ hs), x, record { unread = after; good = true }))
              (found_or found h (announced hs)),
    )
