-- ===== src/Network/Client.antt =====
-- src/network/ClientSocket.h and ClientSocket.cpp, with src/network/IClientImpl.h and
-- IClientImpl.cpp. One thread runs the io_context: the handlers below run one after another, in an
-- order that the environment chooses. Other threads may call the functions of IClientImpl.
pub mod Requests
use understory.Base.{ℕ, Bool, true, false, List, [], ◌∷◌, ◌++◌, Option, none, some, if◌then◌else◌}
use understory.Network.Queue.{new_queue}
use understory.Network.Payloads.{RawPayload}
use understory.Network.Sender
use understory.Network.Sender.{Sender, new_sender, send_payload}
use understory.Network.Receiver
use understory.Network.Receiver.{Receiver, new_receiver, start_receiving}
use understory.Network.Marshaller.{
  Protobuf, Handshake, Heartbeat, serialize_handshake, serialize_heartbeat,
}

pub record Client : Type 0 where
  pub sender : Sender
  pub receiver : Receiver (Unit {0})
  -- The handlers that `asio::post` has queued: calls of `_sendPayload`.
  pub posted : List RawPayload
  -- The wait of `_hbTimer` is under way.
  pub timer_armed : Bool
  -- The arguments of `_sendPayload` so far, oldest first.
  pub handed : List RawPayload

unfoldable pub new_client : Client
new_client = record {
  sender = new_sender;
  receiver = new_receiver new_queue tt;
  posted = [];
  timer_armed = false;
  handed = [];
}

unfoldable pub async_send_payload : RawPayload → Client → Client
async_send_payload payload c = record c { posted = c.posted ++ payload ∷ [] }

-- APP_CURRENT_VERSION
abbrev pub app_current_version : List ℕ
app_current_version = 48 ∷ 46 ∷ 48 ∷ 46 ∷ 55 ∷ []

-- What may happen next: a call from another thread, or a handler of the io_context.
pub data Event : Type 0 where
  handshakes : List ℕ → Event
  connects : Bool → Event
  timer_fires : Event
  posted_runs : Event
  write_completes : Sender.Completion → Event
  read_happens : Receiver.Arrival → Event

module _ (pb : Protobuf) where
  unfoldable pub initiate_handshake : List ℕ → Client → Client
  initiate_handshake user_name c =
      async_send_payload
        (serialize_handshake pb
          (record { username = user_name; client_version = app_current_version }))
        c

  unfoldable pub send_heartbeat : ℕ → Client → Client
  send_heartbeat now c = async_send_payload (serialize_heartbeat pb (record { ts = now })) c

  unfoldable pub heartbeating : Client → Client
  heartbeating c = record c { timer_armed = true }

  -- The handler of the wait, which does not look at the error code.
  unfoldable pub on_timer : ℕ → Client → Client
  on_timer now c = heartbeating (send_heartbeat now (record c { timer_armed = false }))

  -- The handler of `async_connect`. An error is only logged.
  unfoldable pub on_connected : Bool → Client → Client
  on_connected ec c =
      if ec then c else heartbeating (record c { receiver = start_receiving c.receiver })

  -- The first posted handler runs.
  unfoldable pub run_posted : ℕ → List RawPayload → Client → Option Client
  run_posted now [] c = none
  run_posted now (p ∷ ps) c = elim (send_payload now p c.sender) [
    | none ↦ none
    | some s ↦ some (record c { sender = s; posted = ps; handed = c.handed ++ p ∷ [] })
  ]

  unfoldable pub step : ℕ → Event → Client → Option Client
  unfolding run_posted
  step now (handshakes user_name) c = some (initiate_handshake user_name c)
  step now (connects ec) c = some (on_connected ec c)
  step now timer_fires c = if c.timer_armed then some (on_timer now c) else none
  step now posted_runs c = run_posted now c.posted c
  step now (write_completes w) c = elim (Sender.complete now w c.sender) [
    | none ↦ none
    | some s ↦ some (record c { sender = s })
  ]
  step now (read_happens a) c = elim (Receiver.complete now a c.receiver) [
    | none ↦ none
    | some r ↦ some (record c { receiver = r })
  ]

  unfoldable pub run : List (ℕ × Event) → Client → Option Client
  unfolding step
  run [] c = some c
  run ((now, e) ∷ es) c = elim (step now e c) [ none ↦ none | some d ↦ run es d ]
