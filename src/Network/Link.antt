-- ===== src/Network/Link.antt =====
-- A sender of one socket and the receiver of its peer: IPayloadSender.cpp and IPayloadReceiver.cpp
-- (src/network/) over a stream that delivers what was written.
use mathlib.Core.List.{map}
use understory.Base.{ℕ, ◌+◌, ◌≡◌, refl, false, List, [], ◌++◌, append-nil, some, After}
use understory.Network.Payloads.{Payload, RawPayload}
use understory.Network.Sender.{Sender}
use understory.Network.Sender.Chunks.{Sending}
use understory.Network.Sender.Delivery.{AllValid, transfers_for, content_size}
use understory.Network.Sender.Handover.{HandsOver, HandsOver-map, handed_over_sent}
use understory.Network.Receiver
use understory.Network.Receiver.{Receiver, arrives, read}
use understory.Network.Receiver.Chunks.{Receiving}
use understory.Network.Receiver.Delivery.{received, stream_received}

-- Valid payloads are handed with _sendPayload to an idle sender, which has written nothing, each when the
-- writes of the one before have ended, none with an error. No step fails; and when the stream then
-- delivers what was written, a receiver that waits for a payload makes as many reads without a fault and
-- has these payloads, whole, once and in order, behind those that its queue had.
pub handed_over_cross :
    {S : Type 0} (ps : List RawPayload) (items : List (Payload S)) (n m now : ℕ) (id : S)
    (s : Sender) (r : Receiver S)
    → AllValid ps
    → Sending [] [] n s
    → s.is_processing ≡ false
    → Receiving items [] m id r
    → HandsOver ps
        (λ t.
          (r' : Receiver S) × (Receiver.complete now (arrives t.wire) r ≡ some r')
          × After
              (λ now. Receiver.complete now read)
              (transfers_for ps)
              (Receiving (items ++ map (received id) ps) [] (m + content_size ps) id)
              r')
        s
unfolding Receiver.complete
handed_over_cross ps items n m now id s r v hs idle hr =
    HandsOver-map ps _ _ s
      (λ t sent. (
        record r { inbound = r.inbound ++ t.wire },
        refl,
        stream_received ps items [] m id (record r { inbound = r.inbound ++ t.wire }) v
            (hr.0, hr.1, rw (hr.2, sent.3) (rw append-nil refl), hr.3, hr.4, hr.5),
      ))
      (handed_over_sent ps [] n s v hs idle)
