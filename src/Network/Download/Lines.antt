-- ===== src/Network/Download/Lines.antt =====
-- The lines of an answer, as the stream of src/network/helpers/HTTPDownloader.cpp reads them.
use understory.Base.{
  ℕ, ◌≡◌, refl, ap, ◌∙◌, Bool, true, false, ◌==◌, List, [], ◌∷◌, ◌++◌, append_assoc, append-nil,
  some, Bool-cases, inl, inr, is_empty, if◌then◌else◌, arith,
}
use understory.Network.Download.{
  starts_with, contains, line_of, after_line, found_line, getline, read_until, read_rest,
}

-- No newline in it.
abbrev pub OneLine : List ℕ → Type 0
OneLine [] = Unit
OneLine (c ∷ cs) = ((c == 10) ≡ false) × OneLine cs

unfoldable pub has_newline : List ℕ → Bool
has_newline [] = false
has_newline (c ∷ cs) = let rest = has_newline cs in if c == 10 then true else rest

pub line_of-line : (l u : List ℕ) → OneLine l → line_of (l ++ 10 ∷ u) ≡ l
unfolding line_of
line_of-line [] u o = refl
line_of-line (c ∷ l) u (h, o) = let rest = line_of-line l u o in ground arith

pub after_line-line : (l u : List ℕ) → OneLine l → after_line (l ++ 10 ∷ u) ≡ some u
unfolding after_line
after_line-line [] u o = refl
after_line-line (c ∷ l) u (h, o) = let rest = after_line-line l u o in ground arith

-- Where the bytes read so far have a newline, they have the first line of the answer.
pub first_line :
    (s t l u : List ℕ)
    → has_newline s ≡ true
    → s ++ t ≡ l ++ 10 ∷ u
    → OneLine l
    → (rest : List ℕ) × (s ≡ l ++ 10 ∷ rest) × (rest ++ t ≡ u)
unfolding has_newline
first_line [] t l u h e o = absurd cc
first_line (c ∷ s) t [] u h e o =
    let e0 : c ≡ 10 = cc in let e1 : s ++ t ≡ u = cc in (s, ap (λ x. x ∷ s) e0, e1)
first_line (c ∷ s) t (d ∷ l) u h e (n, o) =
    let e0 : c ≡ d = cc in
    let e1 : s ++ t ≡ l ++ 10 ∷ u = cc in
    let h' = rw (e0, n) at h in
    let (rest, f, g) = first_line s t l u h' e1 o in
    (rest, ap (λ x. x ∷ s) e0 ∙ ap (λ x. d ∷ x) f, g)

pub starts_with-append : (d cs : List ℕ) → starts_with d (d ++ cs) ≡ true
unfolding starts_with
starts_with-append [] cs = refl
starts_with-append (x ∷ d) cs = let rest = starts_with-append d cs in ground arith

pub contains-append : (d a b : List ℕ) → contains d (a ++ (d ++ b)) ≡ true
unfolding contains starts_with
contains-append [] [] [] = refl
contains-append [] [] (c ∷ b) = refl
contains-append (x ∷ d) [] b = let here = starts_with-append (x ∷ d) b in ground arith
contains-append d (c ∷ a) b = let rest = contains-append d a b in ground arith

getline-found_line :
    (s : List ℕ)
    → is_empty s ≡ false
    → getline (record { unread = s; good = true }) ≡ some (found_line s (after_line s))
unfolding getline
getline-found_line s e = rw e refl

append-nonempty : (l u : List ℕ) (c : ℕ) → is_empty (l ++ c ∷ u) ≡ false
append-nonempty [] u c = refl
append-nonempty (d ∷ l) u c = refl

pub getline-line :
    (l u : List ℕ)
    → OneLine l
    → getline (record { unread = l ++ 10 ∷ u; good = true })
      ≡ some (l, record { unread = u; good = true })
unfolding found_line
getline-line l u o =
    getline-found_line (l ++ 10 ∷ u) (append-nonempty l u 10)
    ∙ ap (λ r. some (found_line (l ++ 10 ∷ u) r)) (after_line-line l u o)
    ∙ ap (λ x. some (x, record { unread = u; good = true })) (line_of-line l u o)

abbrev pub joined : List (List ℕ) → List ℕ
joined [] = []
joined (c ∷ cs) = c ++ joined cs

-- Each read gets a byte at least.
abbrev pub AllReads : List (List ℕ) → Type 0
AllReads [] = Unit
AllReads (c ∷ cs) = (is_empty c ≡ false) × AllReads cs

pub read_until_finds :
    (d buf : List ℕ) (cs : List (List ℕ))
    → contains d (buf ++ joined cs) ≡ true
    → AllReads cs
    → (b : List ℕ) × (r : List (List ℕ)) × (read_until d buf cs ≡ some (b, r))
      × (contains d b ≡ true)
      × (b ++ joined r ≡ buf ++ joined cs)
      × AllReads r
unfolding read_until
read_until_finds d buf [] h a =
    let h' = rw (append-nil buf) at h in (buf, [], rw h' refl, h', refl, a)
read_until_finds d buf (c ∷ cs) h (a, rest) = elim (Bool-cases (contains d buf)) [
  | inl t ↦ (buf, c ∷ cs, rw t refl, t, refl, (a, rest))
  | inr f ↦
      let (b, r, e, g, j, k) =
        read_until_finds d (buf ++ c) cs (rw (append_assoc buf c (joined cs)) h) rest in
      (b, r, (rw f e), g, j ∙ append_assoc buf c (joined cs), k)
]

pub read_rest-joined : (cs : List (List ℕ)) → AllReads cs → read_rest cs ≡ joined cs
unfolding read_rest
read_rest-joined [] a = refl
read_rest-joined ([] ∷ cs) (a, rest) = absurd cc
read_rest-joined ((b ∷ bs) ∷ cs) (a, rest) = ap (λ x. (b ∷ bs) ++ x) (read_rest-joined cs rest)
