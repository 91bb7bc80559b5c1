-- ===== src/Network/EndpointTests.antt =====
-- Concrete runs of clients and servers (src/network/).
use understory.Base.{ℕ, ◌≡◌, refl, true, false, List, [], ◌∷◌, some, take, arith, length-take}
use understory.Network.Queue.{new_queue, push, front}
use understory.Network.Payloads.{RawPayload, new_payload, handshake}
use understory.Network.Sender.{type_write, new_sender, send_payload, send_payload_type, async_write}
use understory.Network.Sender.Chunks.{at}
use understory.Network.Sender.Delivery.{AllValid, started}
use understory.Network.Receiver.{new_receiver, start_receiving}
use understory.Network.Logger.{new_logger}
use understory.Network.Marshaller.{Protobuf, serialize, serialize_handshake}
use understory.Network.Client
use understory.Network.Client.{
  Client, handshakes, connects, posted_runs, timer_fires, new_client, app_current_version,
}
use understory.Network.Client.Requests.{requested, requests_handed_over}
use understory.Network.Server
use understory.Network.Server.{new_server, accepts, delivers}
use understory.Network.Server.Numbers.{IsNumbered, server-IsNumbered}

-- An encoding that keeps eight bytes at most.
abbrev short_names : Protobuf
short_names = record {
  handshake_bytes = λ m. take 8 m.username;
  heartbeat_bytes = λ m. m.ts ∷ [];
  handshake_fits = λ m. omega (arith, length-take 8 m.username);
  heartbeat_fits = λ m. omega arith;
}

abbrev greeting : RawPayload
greeting = record { payload_type = handshake; bytes_size = 2; bytes = 65 ∷ 66 ∷ []; spawn_id = tt }

-- Connected, and sending the handshake.
abbrev greeting_client : Client
greeting_client = record new_client {
  sender = at new_sender greeting [] false (started 3 greeting new_logger) 0 type_write [];
  receiver = start_receiving (new_receiver new_queue tt);
  posted = [];
  timer_armed = true;
  handed = greeting ∷ [];
}

abbrev greeting_events : List (ℕ × Client.Event)
greeting_events = (1, connects false) ∷ (2, handshakes (65 ∷ 66 ∷ [])) ∷ (3, posted_runs) ∷ []

run-greeting_events : Client.run short_names greeting_events new_client ≡ some greeting_client
unfolding Client.run new_client Client.on_connected Client.heartbeating Client.initiate_handshake
    Client.async_send_payload serialize_handshake serialize send_payload send_payload_type
    async_write new_sender push front new_queue new_payload started
run-greeting_events = refl

requests_handed_over_example :
    (greeting ∷ [] ≡ requested short_names greeting_events) × AllValid (greeting ∷ [])
unfolding new_client
requests_handed_over_example =
    requests_handed_over short_names greeting_events greeting_client run-greeting_events

abbrev two_accepts : List (ℕ × Server.Event)
two_accepts = (1, accepts false) ∷ (2, accepts true) ∷ (3, accepts false) ∷ []

abbrev two_sockets : Server.Server
two_sockets = record (new_server (83 ∷ [])) {
  spawn_count = 3;
  spawned_sockets =
      Server.start (Server.new_spawned_socket (Server.socket_name (83 ∷ []) 1) 1 new_queue)
      ∷ Server.start (Server.new_spawned_socket (Server.socket_name (83 ∷ []) 3) 3 new_queue)
      ∷ [];
}

run-two_accepts : Server.run two_accepts (new_server (83 ∷ [])) ≡ some two_sockets
unfolding Server.run new_server Server.on_accepted Server.accept_connections
run-two_accepts = refl

server-IsNumbered_example : IsNumbered (83 ∷ []) two_sockets
server-IsNumbered_example = server-IsNumbered (83 ∷ []) two_accepts two_sockets run-two_accepts
