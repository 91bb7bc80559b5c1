-- ===== src/Network/Download/Fuel.antt =====
-- The loop over the headers in src/network/helpers/HTTPDownloader.cpp ends.
use mathlib.Core.Path.{subst}
use understory.Base.{
  ℕ, zero, suc, ◌≤◌, ◌<◌, ◌≡◌, refl, ap, Bool, true, false, not, ◌&&◌, List, [], ◌∷◌, ◌++◌, Option,
  none, some, Option-cases, Bool-cases, inl, inr, eq_of_some, none-ne-some, is_empty, if◌then◌else◌,
  length, arith,
}
use understory.Base.Strings.{same}
use understory.Network.Download.{
  Stream, after_line, found_line, getline, read_headers, contains, content_length,
}

after_line-length : (cs r : List ℕ) → after_line cs ≡ some r → suc (length r) ≤ length cs
unfolding after_line
after_line-length [] r h = absurd (none-ne-some h)
after_line-length (c ∷ cs) r h = let rest = after_line-length cs r in ground arith

found_line-length :
    (cs : List ℕ) (o : Option (List ℕ))
    → is_empty cs ≡ false
    → after_line cs ≡ o
    → suc (length (found_line cs o).1.unread) ≤ length cs
unfolding found_line
found_line-length [] o e h = absurd cc
found_line-length (c ∷ cs) none e h = omega arith
found_line-length (c ∷ cs) (some r) e h = after_line-length (c ∷ cs) r h

nonempty : (g : Bool) (cs : List ℕ) → (g && not (is_empty cs)) ≡ true → is_empty cs ≡ false
nonempty g [] h = ground arith
nonempty g (c ∷ cs) h = refl

getline-length :
    (s t : Stream) (l : List ℕ) → getline s ≡ some (l, t) → suc (length t.unread) ≤ length s.unread
unfolding getline
getline-length s t l h = elim (Bool-cases (s.good && not (is_empty s.unread))) [
  | inl b ↦
      let e = ap (λ x. x.1) (eq_of_some (rw b at h)) in
      subst (λ x. suc (length x.unread) ≤ length s.unread) e
        (found_line-length s.unread (after_line s.unread) (nonempty s.good s.unread b) refl)
  | inr b ↦ absurd (none-ne-some (rw b at h))
]

-- With more fuel than bytes that are left, the loop ends by itself, whatever the bytes are.
pub read_headers-enough :
    (fuel : ℕ) (headers : List (List ℕ)) (found : Bool) (s : Stream)
    → length s.unread < fuel
    → (r : List (List ℕ) × Bool × Stream) × (read_headers fuel headers found s ≡ some r)
unfolding read_headers
read_headers-enough zero headers found s h = absurd (omega arith)
read_headers-enough (suc fuel) headers found s h = elim (Option-cases (getline s)) [
  | inl n ↦ ((headers, found, record s { good = false }), rw (read_headers, n) refl)
  | inr ((l, t), e) ↦ elim (Bool-cases (same l (13 ∷ []))) [
    | inl b ↦ ((headers, found, t), rw (read_headers, e, b) refl)
    | inr b ↦
        let shorter = getline-length s t l e in
        let (r, k) =
          read_headers-enough fuel (headers ++ l ∷ [])
            (if found then true else contains content_length l) t (omega arith) in
        (r, rw (read_headers, e, b) k)
  ]
]
