-- ===== src/Network/Download/Response.antt =====
-- A whole answer to src/network/helpers/HTTPDownloader.cpp, from its status line on.
use understory.Base.{
  ℕ, ◌≤◌, suc, ◌≡◌, refl, ap, ◌∙◌, Bool, true, false, leb, ◌||◌, List, [], ◌∷◌, ◌++◌, append_assoc,
  some, is_empty, if◌then◌else◌, length, arith,
}
use understory.Base.Decimal.{is_digit, value}
use understory.Network.Download.{
  downloaded, not_a_file, starts_with, contains, read_until, crlf, blank_line, is_space,
  drop_spaces, drop_word, skip_word, take_digits, drop_digits, drop_sign, read_unsigned,
  skip_status, skip_message, after_message, body_of, read_body, read_status, read_response,
}
use understory.Network.Download.Lines.{
  OneLine, has_newline, first_line, getline-line, joined, AllReads, read_until_finds,
  read_rest-joined, contains-append,
}
use understory.Network.Download.Body.{
  AllHeaders, rendered, announced, read_headers-rendered, contains_tail, OneLine-append,
}

abbrev pub OneWord : List ℕ → Type 0
OneWord [] = Unit
OneWord (c ∷ cs) = (is_space c ≡ false) × OneWord cs

abbrev pub AllDigits : List ℕ → Type 0
AllDigits [] = Unit
AllDigits (c ∷ cs) = (is_digit c ≡ true) × AllDigits cs

drop_word-word : (w u : List ℕ) → OneWord w → drop_word (w ++ 32 ∷ u) ≡ 32 ∷ u
unfolding drop_word
drop_word-word [] u o = refl
drop_word-word (c ∷ w) u (n, o) = rw n (drop_word-word w u o)

skip_word-word :
    (w u : List ℕ)
    → OneWord w
    → is_empty w ≡ false
    → skip_word (record { unread = w ++ 32 ∷ u; good = true })
      ≡ record { unread = 32 ∷ u; good = true }
unfolding skip_word drop_spaces
skip_word-word [] u o e = absurd cc
skip_word-word (c ∷ w) u (n, o) e = rw (n, drop_word-word (c ∷ w) u (n, o)) refl

take_digits-digits : (d u : List ℕ) → AllDigits d → take_digits (d ++ 32 ∷ u) ≡ d
unfolding take_digits
take_digits-digits [] u a = refl
take_digits-digits (c ∷ d) u (h, a) = rw h (ap (λ x. c ∷ x) (take_digits-digits d u a))

drop_digits-digits : (d u : List ℕ) → AllDigits d → drop_digits (d ++ 32 ∷ u) ≡ 32 ∷ u
unfolding drop_digits
drop_digits-digits [] u a = refl
drop_digits-digits (c ∷ d) u (h, a) = rw h (drop_digits-digits d u a)

before_digit :
    (c : ℕ) (cs : List ℕ) → is_digit c ≡ true → drop_sign (drop_spaces (32 ∷ c ∷ cs)) ≡ c ∷ cs
unfolding drop_sign drop_spaces
before_digit c cs h = ground arith

le→leb : (a b : ℕ) → a ≤ b → leb a b ≡ true
le→leb a b h = ground arith

read_unsigned-digits :
    (d u : List ℕ)
    → AllDigits d
    → is_empty d ≡ false
    → value d ≤ 4294967295
    → read_unsigned (record { unread = 32 ∷ d ++ 32 ∷ u; good = true })
      ≡ record { unread = 32 ∷ u; good = true }
unfolding read_unsigned
read_unsigned-digits [] u a e v = absurd cc
read_unsigned-digits (c ∷ d) u (h, a) e v =
    rw
      (
        before_digit c (d ++ 32 ∷ u) h,
        take_digits-digits (c ∷ d) u (h, a),
        drop_digits-digits (c ∷ d) u (h, a),
        le→leb (value (c ∷ d)) 4294967295 v,
      )
      refl

abbrev pub status_line : List ℕ → List ℕ → List ℕ → List ℕ
status_line version digits message = version ++ (32 ∷ (digits ++ (32 ∷ (message ++ (13 ∷ [])))))

status_line-append :
    (version digits message u : List ℕ)
    → status_line version digits message ++ 10 ∷ u
      ≡ version ++ (32 ∷ (digits ++ (32 ∷ ((message ++ (13 ∷ [])) ++ (10 ∷ u)))))
status_line-append version digits message u =
    append_assoc version (32 ∷ (digits ++ (32 ∷ (message ++ (13 ∷ []))))) (10 ∷ u)
    ∙ ap (λ x. version ++ (32 ∷ x)) (append_assoc digits (32 ∷ (message ++ (13 ∷ []))) (10 ∷ u))

contains-later : (d a b : List ℕ) → contains d b ≡ true → contains d (a ++ b) ≡ true
unfolding contains
contains-later d [] b h = h
contains-later d (c ∷ a) b h = let rest = contains-later d a b h in ground arith

-- A status line that the code reads: a word, a number of an unsigned int, and anything else.
abbrev pub IsStatus : List ℕ → List ℕ → List ℕ → Type 0
IsStatus version digits message =
    OneWord version
    × (is_empty version ≡ false)
    × AllDigits digits
    × (is_empty digits ≡ false)
    × (value digits ≤ 4294967295)
    × OneLine message

status_line-crlf :
    (version digits message u : List ℕ)
    → contains crlf (status_line version digits message ++ 10 ∷ u) ≡ true
status_line-crlf version digits message u =
    ap (contains crlf) (status_line-append version digits message u)
    ∙ contains-later crlf version _ (
        contains-later crlf (32 ∷ digits) _ (
          contains-later crlf (32 ∷ []) _ (
            ap (contains crlf) (append_assoc message (13 ∷ []) (10 ∷ u))
            ∙ contains-append crlf message u)))

-- The code is only read, whatever it is.
skip_status-line :
    (version digits message u : List ℕ)
    → IsStatus version digits message
    → skip_status (status_line version digits message ++ 10 ∷ u)
      ≡ record { unread = u; good = true }
unfolding skip_status skip_message after_message
skip_status-line version digits message u (o, n, a, e, v, m) =
    let rest = (message ++ (13 ∷ [])) ++ (10 ∷ u) in
    ap skip_status (status_line-append version digits message u)
    ∙ ap (λ s. skip_message (read_unsigned s)) (skip_word-word version (digits ++ (32 ∷ rest)) o n)
    ∙ ap skip_message (read_unsigned-digits digits rest a e v)
    ∙ ap (after_message (record { unread = 32 ∷ rest; good = true })) (
        getline-line (32 ∷ message ++ (13 ∷ [])) u
          (refl, OneLine-append message (13 ∷ []) m (refl, tt)))

rendered-blank_line :
    (h : List ℕ) (hs : List (List ℕ)) (u : List ℕ)
    → contains blank_line (rendered (h ∷ hs) u) ≡ true
unfolding rendered
rendered-blank_line h [] u =
    rw (append_assoc h (13 ∷ []) (10 ∷ 13 ∷ 10 ∷ u)) (contains-append blank_line h u)
rendered-blank_line h (k ∷ hs) u = rw (append_assoc h (13 ∷ []) (10 ∷ rendered (k ∷ hs) u)) (
    contains-later blank_line h (13 ∷ 10 ∷ rendered (k ∷ hs) u)
      (contains-later blank_line (13 ∷ 10 ∷ []) _ (rendered-blank_line k hs u)))

or_true : (b : Bool) → (b || true) ≡ true
or_true b = ground arith

read_body-rendered :
    (hs : List (List ℕ)) (body b : List ℕ) (cs : List (List ℕ))
    → AllHeaders hs
    → b ++ joined cs ≡ rendered hs body
    → contains blank_line b ≡ true
    → AllReads cs
    → read_body (record { unread = b; good = true }) (some (b, cs))
      ≡ (if announced hs then downloaded body else not_a_file)
unfolding read_body body_of
read_body-rendered hs body b cs w e c r =
    let (rest, j, h) =
      read_headers-rendered hs [] (suc (length b)) false b (joined cs) body e w
        (rw (contains_tail 13 (10 ∷ crlf) b c) (or_true (starts_with crlf b))) (omega arith) in
    rw (h, read_rest-joined cs r, j) refl

word-OneLine : (w : List ℕ) → OneWord w → OneLine w
word-OneLine [] o = tt
word-OneLine (c ∷ w) (n, o) = (ground arith, word-OneLine w o)

digits-OneLine : (d : List ℕ) → AllDigits d → OneLine d
digits-OneLine [] a = tt
digits-OneLine (c ∷ d) (h, a) = (ground arith, digits-OneLine d a)

status_line-OneLine :
    (version digits message : List ℕ)
    → IsStatus version digits message
    → OneLine (status_line version digits message)
status_line-OneLine version digits message (o, n, a, d, v, m) =
    let rest = OneLine-append message (13 ∷ []) m (refl, tt) in
    let coded =
      OneLine-append digits (32 ∷ (message ++ 13 ∷ [])) (digits-OneLine digits a) (refl, rest) in
    OneLine-append version (32 ∷ (digits ++ (32 ∷ (message ++ 13 ∷ [])))) (word-OneLine version o)
      (refl, coded)

newline_in : (s : List ℕ) → contains (10 ∷ []) s ≡ true → has_newline s ≡ true
unfolding contains starts_with has_newline
newline_in [] h = absurd cc
newline_in (c ∷ s) h = let rest = newline_in s in ground arith

read_status-rendered :
    (version digits message body buf h : List ℕ) (hs cs : List (List ℕ))
    → IsStatus version digits message
    → AllHeaders (h ∷ hs)
    → buf ++ joined cs ≡ status_line version digits message ++ 10 ∷ rendered (h ∷ hs) body
    → has_newline buf ≡ true
    → AllReads cs
    → read_status (some (buf, cs)) ≡ (if announced (h ∷ hs) then downloaded body else not_a_file)
unfolding read_status
read_status-rendered version digits message body buf h hs cs p w e k r =
    let (rest, l, j) =
      first_line buf (joined cs) (status_line version digits message) (rendered (h ∷ hs) body) k e
        (status_line-OneLine version digits message p) in
    let (b, cs', f, c, i, r') =
      read_until_finds blank_line rest cs
        (ap (contains blank_line) j ∙ rendered-blank_line h hs body) r in
    ap (λ s. read_body s (read_until blank_line s.unread cs))
      (ap skip_status l ∙ skip_status-line version digits message rest p)
    ∙ ap (read_body (record { unread = rest; good = true })) f
    ∙ read_body-rendered (h ∷ hs) body b cs' w (i ∙ j) c r'

-- However the bytes of an answer are split among the reads: where it is a status line of any code,
-- headers, at least one and none empty, a blank line and a body, all of the body is returned if
-- a header has "Content-Length" in it, whatever length it gives; otherwise the exception is thrown.
pub body_iff_announced :
    (version digits message body h : List ℕ) (hs answer : List (List ℕ))
    → IsStatus version digits message
    → AllHeaders (h ∷ hs)
    → AllReads answer
    → joined answer ≡ status_line version digits message ++ 10 ∷ rendered (h ∷ hs) body
    → read_response answer ≡ (if announced (h ∷ hs) then downloaded body else not_a_file)
unfolding read_response
body_iff_announced version digits message body h hs answer p w r e =
    let (b, cs, f, c, i, r') =
      read_until_finds crlf [] answer
        (ap (contains crlf) e ∙ status_line-crlf version digits message (rendered (h ∷ hs) body))
        r in
    ap read_status f
    ∙ read_status-rendered version digits message body b h hs cs p w (i ∙ e)
        (newline_in b (contains_tail 13 (10 ∷ []) b c)) r'
