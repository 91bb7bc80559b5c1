-- ===== src/Network/Server.antt =====
-- src/network/Server.h and Server.cpp, with src/network/SpawnedSocket.h and SpawnedSocket.cpp. The
-- sockets of a server share its incoming queue: a socket's receiver is lent the queue for each of
-- its steps. The `int` that counts the sockets is unbounded here.
pub mod Sockets
pub mod Numbers
use understory.Base.{
  ℕ, zero, suc, ◌+◌, Bool, true, false, List, [], ◌∷◌, ◌++◌, Option, none, some, if◌then◌else◌,
}
use understory.Base.Decimal.{to_string}
use understory.Network.Queue.{AtomicQueue, new_queue}
use understory.Network.Payloads.{SpawnedRawPayload}
use understory.Network.Sender.{Sender, new_sender}
use understory.Network.Receiver
use understory.Network.Receiver.{Receiver, Arrival, new_receiver, start_receiving}

pub record SpawnedSocket : Type 0 where
  pub name : List ℕ
  pub receiver : Receiver ℕ
  pub sender : Sender

unfoldable pub new_spawned_socket : List ℕ → ℕ → AtomicQueue SpawnedRawPayload → SpawnedSocket
new_spawned_socket name spawn_id queue = record {
  name = name;
  receiver = new_receiver queue spawn_id;
  sender = new_sender;
}

unfoldable pub start : SpawnedSocket → SpawnedSocket
start k = record k { receiver = start_receiving k.receiver }

pub record Server : Type 0 where
  pub prefix : List ℕ
  pub spawn_count : ℕ
  pub spawned_sockets : List SpawnedSocket
  pub incoming_queue : AtomicQueue SpawnedRawPayload
  -- The number of `async_accept` under way.
  pub accepting : ℕ

unfoldable pub accept_connections : Server → Server
accept_connections s = record s { accepting = suc s.accepting }

unfoldable pub new_server : List ℕ → Server
unfolding accept_connections
new_server name = accept_connections (record {
  prefix = name;
  spawn_count = 0;
  spawned_sockets = [];
  incoming_queue = new_queue;
  accepting = 0;
})

-- prefix + "_Sock" + number
unfoldable pub socket_name : List ℕ → ℕ → List ℕ
socket_name prefix n = prefix ++ ((95 ∷ 83 ∷ 111 ∷ 99 ∷ 107 ∷ []) ++ to_string n)

-- The handler of `async_accept`. An error uses up a number, and is logged.
unfoldable pub on_accepted : Bool → Server → Server
on_accepted ec s =
    let n = s.spawn_count + 1 in
    let t = record s { spawn_count = n } in
    let k = start (new_spawned_socket (socket_name s.prefix n) n s.incoming_queue) in
    accept_connections
      (if ec then t else record t { spawned_sockets = s.spawned_sockets ++ k ∷ [] })

-- A step of the receiver of the socket at the given place.
unfoldable pub deliver :
    ℕ
    → Arrival
    → ℕ
    → List SpawnedSocket
    → AtomicQueue SpawnedRawPayload
    → Option (List SpawnedSocket × AtomicQueue SpawnedRawPayload)
deliver now a i [] q = none
deliver now a zero (k ∷ ks) q =
    elim (Receiver.complete now a (record k.receiver { payload_queue = q })) [
      | none ↦ none
      | some r ↦ some (record k { receiver = r } ∷ ks, r.payload_queue)
    ]
deliver now a (suc i) (k ∷ ks) q = elim (deliver now a i ks q) [
  | none ↦ none
  | some (ls, q') ↦ some (k ∷ ls, q')
]

pub data Event : Type 0 where
  accepts : Bool → Event
  delivers : ℕ → Arrival → Event

on_accept_ended : Bool → ℕ → Server → Option Server
on_accept_ended ec zero s = none
on_accept_ended ec (suc n) s = some (on_accepted ec (record s { accepting = n }))

unfoldable pub step : ℕ → Event → Server → Option Server
unfolding on_accept_ended
step now (accepts ec) s = on_accept_ended ec s.accepting s
step now (delivers i a) s = elim (deliver now a i s.spawned_sockets s.incoming_queue) [
  | none ↦ none
  | some (ks, q) ↦ some (record s { spawned_sockets = ks; incoming_queue = q })
]

unfoldable pub run : List (ℕ × Event) → Server → Option Server
unfolding step
run [] s = some s
run ((now, e) ∷ es) s = elim (step now e s) [ none ↦ none | some t ↦ run es t ]
