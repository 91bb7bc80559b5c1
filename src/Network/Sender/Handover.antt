-- ===== src/Network/Sender/Handover.antt =====
-- Payloads that are handed to a sender (`_sendPayload` of src/network/IPayloadSender.cpp) one after the
-- other, each when the one before has gone out.
use native.Mathlib.Nat.{add-zero, add_assoc}
use understory.Base.{
  ℕ, suc, ◌+◌, ◌≡◌, ◌∙◌, false, List, [], ◌∷◌, ◌++◌, append-nil, append_assoc, some, After,
  After-map, After-keeps,
}
use understory.Network.Payloads.{RawPayload}
use understory.Network.Payloads.Wire.{encode, encode_all}
use understory.Network.Sender.{Sender, send_payload, written, complete}
use understory.Network.Sender.Chunks.{chunks, Sending}
use understory.Network.Sender.Delivery.{AllValid, content_size, send_payload_delivers}
use understory.Network.Sender.Faults.{send_payload-is_processing, complete-is_processing}

-- Whenever each of the payloads is handed over, and whenever the writes that it takes then end, no step
-- fails, and `P` holds in the end.
abbrev pub HandsOver : List RawPayload → (Sender → Type 0) → Sender → Type 0
HandsOver [] P s = P s
HandsOver (p ∷ ps) P s =
    (now : ℕ)
    → (t : Sender) × (send_payload now p s ≡ some t)
      × After (λ later. complete later written) (suc (suc (chunks p.bytes_size))) (HandsOver ps P) t

pub HandsOver-map :
    (ps : List RawPayload) (P Q : Sender → Type 0) (s : Sender)
    → ((t : Sender) → P t → Q t)
    → HandsOver ps P s
    → HandsOver ps Q s
HandsOver-map [] P Q s f h = f s h
HandsOver-map (p ∷ ps) P Q s f h = λ now.
    let (t, e, rest) = h now in
    (
      t,
      e,
      After-map (λ later. complete later written) (suc (suc (chunks p.bytes_size))) _ _ t
          (λ u k. HandsOver-map ps P Q u f k) rest,
    )

-- Handed to an idle sender they go out in order, whole and once, and leave it idle.
pub handed_over_sent :
    (ps : List RawPayload) (bs : List ℕ) (n : ℕ) (s : Sender)
    → AllValid ps
    → Sending [] bs n s
    → s.is_processing ≡ false
    → HandsOver ps (Sending [] (bs ++ encode_all ps) (n + content_size ps)) s
unfolding encode_all content_size
handed_over_sent [] bs n s v h idle = rw (append-nil bs, add-zero n) h
handed_over_sent (p ∷ ps) bs n s v h idle = λ now.
    let (t, e, out) = send_payload_delivers p bs n now s v.0 h idle in
    (
      t,
      e,
      After-map (λ later. complete later written) (suc (suc (chunks p.bytes_size))) _ _ t
          (λ u (k, i).
            rw
              (
                ← append_assoc bs (encode p) (encode_all ps),
                ← add_assoc n p.bytes_size (content_size ps),
              )
              (handed_over_sent ps (bs ++ encode p) (n + p.bytes_size) u v.1 k i))
          (After-keeps (λ later. complete later written) (λ u. u.is_processing ≡ false)
            (λ later u w c k. complete-is_processing later written u c ∙ k)
            (suc (suc (chunks p.bytes_size))) _ t (send_payload-is_processing now p s e ∙ idle)
            out),
    )
