-- ===== src/Network/Client/Requests.antt =====
-- What becomes of the payloads that a client (src/network/ClientSocket.cpp) is asked to send.
use mathlib.Core.Path.{subst}
use understory.Base.{
  ℕ, ◌≡◌, refl, ap, ◌∙◌, sym, true, false, List, [], ◌∷◌, ◌++◌, append-nil, append_assoc, some,
  arith, Option-cases, Bool-cases, inl, inr, none-ne-some, eq_of_some,
}
use understory.Network.Payloads.{RawPayload, handshake, heartbeat}
use understory.Network.Sender
use understory.Network.Sender.{Sender, type_write, send_payload, new_sender}
use understory.Network.Sender.Delivery.{AllValid}
use understory.Network.Sender.Faults.{
  send_payload-is_processing, complete-is_processing, second_write,
}
use understory.Network.Receiver
use understory.Network.Marshaller.{
  Protobuf, serialize_handshake, serialize_heartbeat, serialize-IsValid,
}
use understory.Network.Client.{
  Client, Event, handshakes, connects, timer_fires, posted_runs, write_completes, read_happens,
  new_client, app_current_version, async_send_payload, initiate_handshake, send_heartbeat,
  heartbeating, on_timer, on_connected, run_posted, step, run,
}

module _ (pb : Protobuf) where
  -- The payload that an event asks for.
  pub requested_by : ℕ × Event → List RawPayload
  requested_by (now, handshakes user_name) =
      serialize_handshake pb (record { username = user_name; client_version = app_current_version })
      ∷ []
  requested_by (now, timer_fires) = serialize_heartbeat pb (record { ts = now }) ∷ []
  requested_by _ = []

  pub requested : List (ℕ × Event) → List RawPayload
  requested [] = []
  requested (e ∷ es) = requested_by e ++ requested es

  -- The payloads that were asked for so far, and the flag of the sender.
  abbrev Follows : Client → List RawPayload → Client → Type 0
  Follows c ps d =
      (d.handed ++ d.posted ≡ (c.handed ++ c.posted) ++ ps)
      × (d.sender.is_processing ≡ c.sender.is_processing)

  run_posted-Follows :
      (now : ℕ) (ps : List RawPayload) (c d : Client)
      → c.posted ≡ ps
      → run_posted pb now ps c ≡ some d
      → Follows c [] d
  unfolding run_posted
  run_posted-Follows now [] c d h e = absurd (none-ne-some e)
  run_posted-Follows now (p ∷ ps) c d h e = elim (Option-cases (send_payload now p c.sender)) [
    | inl refused ↦ absurd (none-ne-some (rw (refused, run_posted) at e))
    | inr (s, sent) ↦ subst (Follows c []) (eq_of_some (rw (sent, run_posted) at e)) (
      append_assoc c.handed (p ∷ []) ps
          ∙ rw (append-nil (c.handed ++ c.posted)) (ap (◌++◌ c.handed) (sym h)),
      send_payload-is_processing now p c.sender sent,
    )
  ]

  posts : (p : RawPayload) (c : Client) → Follows c (p ∷ []) (async_send_payload p c)
  unfolding async_send_payload
  posts p c = (sym (append_assoc c.handed c.posted (p ∷ [])), refl)

  stays : (c : Client) → Follows c [] c
  stays c = (sym (append-nil (c.handed ++ c.posted)), refl)

  step-Follows :
      (now : ℕ) (e : Event) (c d : Client)
      → step pb now e c ≡ some d
      → Follows c (requested_by (now, e)) d
  unfolding step requested_by
  step-Follows now (handshakes u) c d h =
      subst (Follows c _) (eq_of_some h) (unfold initiate_handshake in posts _ c)
  step-Follows now (connects true) c d h =
      subst (Follows c []) (eq_of_some h) (unfold on_connected in stays c)
  step-Follows now (connects false) c d h =
      subst (Follows c []) (eq_of_some h) (unfold on_connected heartbeating in stays c)
  step-Follows now timer_fires c d h = elim (Bool-cases c.timer_armed) [
    | inl armed ↦ subst (Follows c _) (eq_of_some (rw (armed, step) at h)) (
        unfold on_timer heartbeating send_heartbeat async_send_payload in
        (sym (append_assoc c.handed c.posted _), refl))
    | inr idle ↦ absurd (none-ne-some (rw (idle, step) at h))
  ]
  step-Follows now posted_runs c d h = run_posted-Follows now c.posted c d refl h
  step-Follows now (write_completes w) c d h =
      elim (Option-cases (Sender.complete now w c.sender)) [
        | inl refused ↦ absurd (none-ne-some (rw (refused, step) at h))
        | inr (s, done) ↦
            subst (Follows c []) (eq_of_some (rw (done, step) at h))
              (sym (append-nil (c.handed ++ c.posted)), complete-is_processing now w c.sender done)
      ]
  step-Follows now (read_happens a) c d h =
      elim (Option-cases (Receiver.complete now a c.receiver)) [
        | inl refused ↦ absurd (none-ne-some (rw (refused, step) at h))
        | inr (r, done) ↦ subst (Follows c []) (eq_of_some (rw (done, step) at h)) (stays c)
      ]

  run-Follows :
      (es : List (ℕ × Event)) (c d : Client) → run pb es c ≡ some d → Follows c (requested es) d
  unfolding run requested
  run-Follows [] c d h = subst (Follows c []) (eq_of_some h) (stays c)
  run-Follows ((now, e) ∷ es) c d h = elim (Option-cases (step pb now e c)) [
    | inl refused ↦ absurd (none-ne-some (rw (refused, run) at h))
    | inr (mid, done) ↦
        let one = step-Follows now e c mid done in
        let more = run-Follows es mid d (rw (done, run) at h) in
        (
          more.0
              ∙ rw one.0
                  (append_assoc (c.handed ++ c.posted) (requested_by (now, e)) (requested es)),
          more.1 ∙ one.1,
        )
  ]

  AllValid-append : (ps qs : List RawPayload) → AllValid ps → AllValid qs → AllValid (ps ++ qs)
  AllValid-append [] qs h k = k
  AllValid-append (p ∷ ps) qs h k = (h.0, AllValid-append ps qs h.1 k)

  AllValid-before : (ps qs : List RawPayload) → AllValid (ps ++ qs) → AllValid ps
  AllValid-before [] qs h = tt
  AllValid-before (p ∷ ps) qs h = (h.0, AllValid-before ps qs h.1)

  requested_by-AllValid : (e : ℕ × Event) → AllValid (requested_by e)
  unfolding requested_by serialize_handshake serialize_heartbeat
  requested_by-AllValid (now, handshakes u) =
      (serialize-IsValid handshake _ (refl, omega arith) (pb.handshake_fits _), tt)
  requested_by-AllValid (now, timer_fires) =
      (serialize-IsValid heartbeat _ (refl, omega arith) (pb.heartbeat_fits _), tt)
  requested_by-AllValid (now, _) = tt

  requested-AllValid : (es : List (ℕ × Event)) → AllValid (requested es)
  unfolding requested
  requested-AllValid [] = tt
  requested-AllValid (e ∷ es) =
      AllValid-append (requested_by e) (requested es) (requested_by-AllValid e)
        (requested-AllValid es)

  -- Whatever happens, the sender is handed the payloads that handshakes and heartbeats ask for, in the
  -- order of the requests, each once; those not handed over yet are posted. Each is valid.
  pub requests_handed_over :
      (es : List (ℕ × Event)) (c : Client)
      → run pb es new_client ≡ some c
      → (c.handed ++ c.posted ≡ requested es) × AllValid c.handed
  unfolding new_client
  requests_handed_over es c h =
      let all = (run-Follows es new_client c h).0 in
      (all, AllValid-before c.handed c.posted (rw all (requested-AllValid es)))

  fires_and_runs :
      (c : Client) (now later : ℕ) (s : Sender)
      → c.timer_armed ≡ true
      → c.posted ≡ []
      → send_payload later (serialize_heartbeat pb (record { ts = now })) c.sender ≡ some s
      → run pb ((now, timer_fires) ∷ (later, posted_runs) ∷ []) c
        ≡ some (record c {
          sender = s;
          posted = [];
          handed = c.handed ++ serialize_heartbeat pb (record { ts = now }) ∷ [];
          timer_armed = true;
        })
  unfolding run step on_timer heartbeating send_heartbeat async_send_payload run_posted
  fires_and_runs c now later s armed none_posted sent = ground arith

  -- A heartbeat that falls due while a payload is under way starts a second write on the socket,
  -- and the timer is armed again: in whatever state the client got to, with nothing posted.
  pub heartbeat_overlaps :
      (es : List (ℕ × Event)) (c : Client) (now later : ℕ) (q : RawPayload) (qs : List RawPayload)
      → run pb es new_client ≡ some c
      → c.timer_armed ≡ true
      → c.posted ≡ []
      → c.sender.payload_queue.items ≡ q ∷ qs
      → (d : Client) × (run pb ((now, timer_fires) ∷ (later, posted_runs) ∷ []) c ≡ some d)
        × (d.sender.writes ≡ c.sender.writes ++ type_write ∷ [])
        × (d.sender.buf ≡ q)
        × (d.timer_armed ≡ true)
  heartbeat_overlaps es c now later q qs r armed none_posted waiting =
      let idle : c.sender.is_processing ≡ false =
        (run-Follows es new_client c r).1 ∙ (unfold new_client new_sender in refl) in
      let p = serialize_heartbeat pb (record { ts = now }) in
      let (s, sent, writes, buf, queue) = second_write c.sender later p q qs idle waiting in
      (
        record c { sender = s; posted = []; handed = c.handed ++ p ∷ []; timer_armed = true },
        fires_and_runs c now later s armed none_posted sent,
        writes,
        buf,
        refl,
      )
