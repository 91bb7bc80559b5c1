-- ===== src/Network/Server/Numbers.antt =====
-- The numbers and names of a server's sockets (src/network/Server.cpp), and the identifiers of the
-- payloads in its queue.
use mathlib.Core.Path.{subst}
use mathlib.Core.List.{append_cancel_left}
use understory.Base.{
  ℕ, zero, suc, ◌+◌, ◌≡◌, refl, sym, ap, ◌∙◌, ◌⊎◌, inl, inr, Bool, true, false, List, [], ◌∷◌, ◌++◌,
  some, Option-cases, none-ne-some, eq_of_some, arith,
}
use understory.Base.Decimal.{to_string-injective}
use understory.Network.Queue.{AtomicQueue, new_queue}
use understory.Network.Payloads.{SpawnedRawPayload, new_payload}
use understory.Network.Receiver
use understory.Network.Receiver.{
  Receiver, Arrival, new_receiver, start_receiving, receive_payload_type, async_read,
}
use understory.Network.Receiver.Tags.{complete-Pushes}
use understory.Network.Server.{
  SpawnedSocket, new_spawned_socket, start, Server, accept_connections, new_server, socket_name,
  on_accepted, deliver, Event, accepts, delivers, on_accept_ended, step, run,
}
use understory.Network.Server.Sockets.{
  spawn_id, Numbered, HasSocket, AllTagged, Same, Same-refl, Numbered-Same, HasSocket-Same,
  AllTagged-map, AllTagged-snoc, HasSocket-snoc, Numbered-snoc, Numbered-grow,
}

-- A step of one receiver leaves the sockets the same and queues at most one payload, of its own.
abbrev Delivers :
    List SpawnedSocket
    → AtomicQueue SpawnedRawPayload
    → List SpawnedSocket × AtomicQueue SpawnedRawPayload
    → Type 0
Delivers ks q (ls, q') =
    Same ks ls
    × ((q'.items ≡ q.items)
        ⊎ ((p : SpawnedRawPayload) × (q'.items ≡ q.items ++ p ∷ []) × HasSocket ks p.spawn_id))

deliver-Delivers :
    (now : ℕ) (a : Arrival) (i : ℕ) (ks : List SpawnedSocket) (q : AtomicQueue SpawnedRawPayload)
    (r : List SpawnedSocket × AtomicQueue SpawnedRawPayload)
    → deliver now a i ks q ≡ some r
    → Delivers ks q r
unfolding deliver
deliver-Delivers now a i [] q r e = absurd (none-ne-some e)
deliver-Delivers now a zero (k ∷ ks) q r e =
    elim (Option-cases (Receiver.complete now a (record k.receiver { payload_queue = q }))) [
      | inl stuck ↦ absurd (none-ne-some (rw (stuck, deliver) at e))
      | inr (t, done) ↦
          let p = complete-Pushes now a (record k.receiver { payload_queue = q }) t done in
          subst (Delivers (k ∷ ks) q) (eq_of_some (rw (done, deliver) at e)) (
            (p.0, refl, Same-refl ks),
            elim p.1 [
              | inl same ↦ inl same
              | inr (x, queued, tag) ↦ inr (x, queued, inl (sym tag))
            ],
          )
    ]
deliver-Delivers now a (suc i) (k ∷ ks) q r e = elim (Option-cases (deliver now a i ks q)) [
  | inl stuck ↦ absurd (none-ne-some (rw (stuck, deliver) at e))
  | inr (mid, done) ↦
      let d = deliver-Delivers now a i ks q mid done in
      subst (Delivers (k ∷ ks) q) (eq_of_some (rw (done, deliver) at e)) (
        (refl, refl, d.0),
        elim d.1 [ inl same ↦ inl same | inr (x, queued, h) ↦ inr (x, queued, inr h) ],
      )
]

pub record IsNumbered (prefix : List ℕ) (s : Server) : Type 0 where
  pub same_prefix : s.prefix ≡ prefix
  pub numbered : Numbered prefix 0 s.spawned_sockets s.spawn_count
  pub tagged : AllTagged s.spawned_sockets s.incoming_queue.items
  pub one_accept : s.accepting ≡ 1

started-spawn_id :
    (name : List ℕ) (n : ℕ) (q : AtomicQueue SpawnedRawPayload)
    → (spawn_id (start (new_spawned_socket name n q)) ≡ n)
      × ((start (new_spawned_socket name n q)).name ≡ name)
unfolding start new_spawned_socket start_receiving new_receiver receive_payload_type async_read
    new_payload
started-spawn_id name n q = (refl, refl)

on_accepted-IsNumbered :
    (prefix : List ℕ) (ec : Bool) (s : Server)
    → IsNumbered prefix (record s { accepting = 1 })
    → IsNumbered prefix (on_accepted ec (record s { accepting = 0 }))
unfolding on_accepted accept_connections
on_accepted-IsNumbered prefix true s v = record {
  same_prefix = v.same_prefix;
  numbered =
      Numbered-grow prefix 0 s.spawn_count (s.spawn_count + 1) s.spawned_sockets (omega arith)
        v.numbered;
  tagged = v.tagged;
  one_accept = refl;
}
on_accepted-IsNumbered prefix false s v =
    let n : ℕ = s.spawn_count + 1 in
    let k = start (new_spawned_socket (socket_name s.prefix n) n s.incoming_queue) in
    let (same, named) = started-spawn_id (socket_name s.prefix n) n s.incoming_queue in
    record {
      same_prefix = v.same_prefix;
      numbered =
          Numbered-snoc prefix 0 s.spawn_count n s.spawned_sockets k v.numbered
            (omega (arith, same)) (omega (arith, same))
            (named
              ∙ (ap (λ p. socket_name p n) v.same_prefix ∙ ap (socket_name prefix) (sym same)));
      tagged =
          AllTagged-map s.spawned_sockets (s.spawned_sockets ++ k ∷ []) s.incoming_queue.items
            (HasSocket-snoc s.spawned_sockets k) v.tagged;
      one_accept = refl;
    }

accept_ended-IsNumbered :
    (prefix : List ℕ) (ec : Bool) (n : ℕ) (s t : Server)
    → s.accepting ≡ n
    → IsNumbered prefix s
    → on_accept_ended ec n s ≡ some t
    → IsNumbered prefix t
unfolding on_accept_ended
accept_ended-IsNumbered prefix ec zero s t h v e = absurd (none-ne-some e)
accept_ended-IsNumbered prefix ec (suc n) s t h v e =
    let none_left : n ≡ 0 = omega (arith, v.one_accept) in
    subst (IsNumbered prefix) (eq_of_some (rw none_left at e)) (
      on_accepted-IsNumbered prefix ec s (record {
        same_prefix = v.same_prefix;
        numbered = v.numbered;
        tagged = v.tagged;
        one_accept = refl;
      }))

delivered-IsNumbered :
    (prefix : List ℕ) (s : Server) (r : List SpawnedSocket × AtomicQueue SpawnedRawPayload)
    → IsNumbered prefix s
    → Delivers s.spawned_sockets s.incoming_queue r
    → IsNumbered prefix (record s { spawned_sockets = r.0; incoming_queue = r.1 })
delivered-IsNumbered prefix s r v d =
    let same = HasSocket-Same s.spawned_sockets r.0 in
    let old = λ (ps : List SpawnedRawPayload) (h : AllTagged s.spawned_sockets ps).
      AllTagged-map s.spawned_sockets r.0 ps (λ i. same i d.0) h in
    record {
      same_prefix = v.same_prefix;
      numbered = Numbered-Same prefix 0 s.spawn_count s.spawned_sockets r.0 d.0 v.numbered;
      tagged = elim d.1 [
        | inl kept ↦ rw kept (old s.incoming_queue.items v.tagged)
        | inr (p, queued, h) ↦ rw queued (
            old (s.incoming_queue.items ++ p ∷ [])
              (AllTagged-snoc s.spawned_sockets s.incoming_queue.items p v.tagged h))
      ];
      one_accept = v.one_accept;
    }

step-IsNumbered :
    (prefix : List ℕ) (now : ℕ) (e : Event) (s t : Server)
    → IsNumbered prefix s
    → step now e s ≡ some t
    → IsNumbered prefix t
unfolding step
step-IsNumbered prefix now (accepts ec) s t v h =
    accept_ended-IsNumbered prefix ec s.accepting s t refl v h
step-IsNumbered prefix now (delivers i a) s t v h =
    elim (Option-cases (deliver now a i s.spawned_sockets s.incoming_queue)) [
      | inl stuck ↦ absurd (none-ne-some (rw (stuck, step) at h))
      | inr (r, done) ↦ subst (IsNumbered prefix) (eq_of_some (rw (done, step) at h)) (
          delivered-IsNumbered prefix s r v
            (deliver-Delivers now a i s.spawned_sockets s.incoming_queue r done))
    ]

run-IsNumbered :
    (prefix : List ℕ) (es : List (ℕ × Event)) (s t : Server)
    → IsNumbered prefix s
    → run es s ≡ some t
    → IsNumbered prefix t
unfolding run
run-IsNumbered prefix [] s t v h = subst (IsNumbered prefix) (eq_of_some h) v
run-IsNumbered prefix ((now, e) ∷ es) s t v h = elim (Option-cases (step now e s)) [
  | inl stuck ↦ absurd (none-ne-some (rw (stuck, run) at h))
  | inr (mid, done) ↦
      run-IsNumbered prefix es mid t (step-IsNumbered prefix now e s mid v done)
        (rw (done, run) at h)
]

-- Whatever connections and bytes come in: the numbers of a server's sockets grow along its list and
-- stay within the count of connections, each socket is named after its number, every payload in the
-- incoming queue carries the number of a socket of the list, and one more connection is awaited.
pub server-IsNumbered :
    (prefix : List ℕ) (es : List (ℕ × Event)) (s : Server)
    → run es (new_server prefix) ≡ some s
    → IsNumbered prefix s
unfolding new_server accept_connections new_queue
server-IsNumbered prefix es s h =
    run-IsNumbered prefix es (new_server prefix) s
      (record { same_prefix = refl; numbered = omega arith; tagged = tt; one_accept = refl }) h

-- Sockets of different numbers have different names.
pub socket_name-injective :
    (prefix : List ℕ) (m n : ℕ) → socket_name prefix m ≡ socket_name prefix n → m ≡ n
unfolding socket_name
socket_name-injective prefix m n e =
    to_string-injective m n
      (append_cancel_left (95 ∷ 83 ∷ 111 ∷ 99 ∷ 107 ∷ []) _ _ (append_cancel_left prefix _ _ e))
