-- ===== src/Network/Server/Sockets.antt =====
-- Lists of sockets with their numbers and names (src/network/Server.cpp), and the payloads that
-- carry the number of one of them.
use mathlib.Core.Path.{subst}
use understory.Base.{
  ℕ, ◌≤◌, ◌<◌, ◌≡◌, refl, sym, ap, ◌∙◌, ◌⊎◌, inl, inr, List, [], ◌∷◌, ◌++◌, arith,
}
use understory.Network.Payloads.{SpawnedRawPayload}
use understory.Network.Server.{SpawnedSocket, socket_name}

abbrev pub spawn_id : SpawnedSocket → ℕ
spawn_id k = k.receiver.buf.spawn_id

-- The numbers grow along the list, from above `lo` up to `n`, and each name is made of the number.
abbrev pub Numbered : List ℕ → ℕ → List SpawnedSocket → ℕ → Type 0
Numbered prefix lo [] n = lo ≤ n
Numbered prefix lo (k ∷ ks) n =
    (lo < spawn_id k)
    × (k.name ≡ socket_name prefix (spawn_id k))
    × Numbered prefix (spawn_id k) ks n

abbrev pub HasSocket : List SpawnedSocket → ℕ → Type 0
HasSocket [] i = ⊥
HasSocket (k ∷ ks) i = (spawn_id k ≡ i) ⊎ HasSocket ks i

abbrev pub AllTagged : List SpawnedSocket → List SpawnedRawPayload → Type 0
AllTagged ks [] = Unit
AllTagged ks (p ∷ ps) = HasSocket ks p.spawn_id × AllTagged ks ps

-- The same sockets, after some steps of their receivers.
abbrev pub Same : List SpawnedSocket → List SpawnedSocket → Type 0
Same [] [] = Unit
Same [] (l ∷ ls) = ⊥
Same (k ∷ ks) [] = ⊥
Same (k ∷ ks) (l ∷ ls) = (spawn_id l ≡ spawn_id k) × (l.name ≡ k.name) × Same ks ls

pub Same-refl : (ks : List SpawnedSocket) → Same ks ks
Same-refl [] = tt
Same-refl (k ∷ ks) = (refl, refl, Same-refl ks)

pub Numbered-Same :
    (prefix : List ℕ) (lo n : ℕ) (ks ls : List SpawnedSocket)
    → Same ks ls
    → Numbered prefix lo ks n
    → Numbered prefix lo ls n
Numbered-Same prefix lo n [] [] s h = h
Numbered-Same prefix lo n [] (l ∷ ls) s h = absurd s
Numbered-Same prefix lo n (k ∷ ks) [] s h = absurd s
Numbered-Same prefix lo n (k ∷ ks) (l ∷ ls) s h = (
  rw s.0 h.0,
  s.1 ∙ (h.1 ∙ ap (socket_name prefix) (sym s.0)),
  Numbered-Same prefix (spawn_id l) n ks ls s.2 (subst (λ i. Numbered prefix i ks n) (sym s.0) h.2),
)

pub HasSocket-Same :
    (ks ls : List SpawnedSocket) (i : ℕ) → Same ks ls → HasSocket ks i → HasSocket ls i
HasSocket-Same [] [] i s h = h
HasSocket-Same [] (l ∷ ls) i s h = absurd s
HasSocket-Same (k ∷ ks) [] i s h = absurd s
HasSocket-Same (k ∷ ks) (l ∷ ls) i s (inl e) = inl (s.0 ∙ e)
HasSocket-Same (k ∷ ks) (l ∷ ls) i s (inr h) = inr (HasSocket-Same ks ls i s.2 h)

pub AllTagged-map :
    (ks ls : List SpawnedSocket) (ps : List SpawnedRawPayload)
    → ((i : ℕ) → HasSocket ks i → HasSocket ls i)
    → AllTagged ks ps
    → AllTagged ls ps
AllTagged-map ks ls [] f h = tt
AllTagged-map ks ls (p ∷ ps) f h = (f p.spawn_id h.0, AllTagged-map ks ls ps f h.1)

pub AllTagged-snoc :
    (ks : List SpawnedSocket) (ps : List SpawnedRawPayload) (p : SpawnedRawPayload)
    → AllTagged ks ps
    → HasSocket ks p.spawn_id
    → AllTagged ks (ps ++ p ∷ [])
AllTagged-snoc ks [] p h t = (t, tt)
AllTagged-snoc ks (q ∷ ps) p h t = (h.0, AllTagged-snoc ks ps p h.1 t)

pub HasSocket-snoc :
    (ks : List SpawnedSocket) (k : SpawnedSocket) (i : ℕ)
    → HasSocket ks i
    → HasSocket (ks ++ k ∷ []) i
HasSocket-snoc [] k i h = absurd h
HasSocket-snoc (l ∷ ks) k i (inl e) = inl e
HasSocket-snoc (l ∷ ks) k i (inr h) = inr (HasSocket-snoc ks k i h)

pub Numbered-snoc :
    (prefix : List ℕ) (lo n m : ℕ) (ks : List SpawnedSocket) (k : SpawnedSocket)
    → Numbered prefix lo ks n
    → n < spawn_id k
    → spawn_id k ≤ m
    → k.name ≡ socket_name prefix (spawn_id k)
    → Numbered prefix lo (ks ++ k ∷ []) m
Numbered-snoc prefix lo n m [] k h below top e = (omega arith, e, top)
Numbered-snoc prefix lo n m (l ∷ ks) k h below top e =
    (h.0, h.1, Numbered-snoc prefix (spawn_id l) n m ks k h.2 below top e)

pub Numbered-grow :
    (prefix : List ℕ) (lo n m : ℕ) (ks : List SpawnedSocket)
    → n ≤ m
    → Numbered prefix lo ks n
    → Numbered prefix lo ks m
Numbered-grow prefix lo n m [] le h = omega arith
Numbered-grow prefix lo n m (k ∷ ks) le h =
    (h.0, h.1, Numbered-grow prefix (spawn_id k) n m ks le h.2)
