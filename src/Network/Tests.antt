-- ===== src/Network/Tests.antt =====
-- Concrete runs of the network layer (src/network/).
use mathlib.Core.List.{map}
use understory.Base.{
  ℕ, suc, ◌+◌, ◌-◌, ◌≡◌, refl, true, false, List, [], ◌∷◌, ◌++◌, none, some, is_empty, After, arith,
}
use understory.Network.Queue.{new_queue, push, front, pop, pop_into_queue, empty}
use understory.Network.Queue.Fifo.{Call, pushes, consumes, drains, run_fifo, pushed}
use understory.Network.Queue.Fifo
use understory.Network.Payloads.{
  RawPayload, new_payload, handshake, heartbeat, IsValid, integer_bytes, integer_of_bytes,
}
use understory.Network.Payloads.Wire.{encode_all}
use understory.Network.Logger.{new_logger, commit_log, log_payload_type, log_new_payload}
use understory.Network.Logger.Traces.{logged}
use understory.Network.Sender
use understory.Network.Sender.{
  Sender, type_write, size_write, content_write, written, failed, new_sender, send_payload,
  send_payload_type, write_bytes, async_write,
}
use understory.Network.Sender.Chunks.{at, chunks, Sending}
use understory.Network.Sender.Delivery.{
  AllValid, transfers_for, content_size, queue_sent, encode_from, started,
}
use understory.Network.Sender.Faults
use understory.Network.Sender.Faults.{
  send_payload_overlaps, failure_stalls, resend_truncates, overlap_repeats_type, sends,
}
use understory.Network.Receiver
use understory.Network.Receiver.{
  Receiver, on_size_read, on_payload_receive_error, arrives, read, size_read, store, on_type_read,
  receive_payload_bytes_size, new_receiver, start_receiving, receive_payload_type, async_read,
}
use understory.Network.Receiver.Chunks.{Receiving}
use understory.Network.Receiver.Delivery.{received, stream_received}
use understory.Network.Receiver.Safety.{IsSafe, receiver-IsSafe}
use understory.Network.Receiver.Faults.{failed_read_is_final}
use understory.Network.Sender.Handover.{HandsOver}
use understory.Network.Link.{handed_over_cross}
use understory.Network.Processor
use understory.Network.Processor.{new_processing, returned}
use understory.Network.Processor.Order.{handles_in_order, in_hand}
use understory.Network.Processor.Wakeup.{wakeup_lost, busy}

abbrev hello : RawPayload
hello = record {
  payload_type = handshake;
  bytes_size = 3;
  bytes = 104 ∷ 105 ∷ 33 ∷ [];
  spawn_id = tt;
}

abbrev beat : RawPayload
beat = record { payload_type = heartbeat; bytes_size = 2; bytes = 9 ∷ 10 ∷ []; spawn_id = tt }

hello-IsValid : IsValid hello
hello-IsValid = record { typed = (refl, omega arith); sized = refl; fits = omega arith }

beat-IsValid : IsValid beat
beat-IsValid = record { typed = (refl, omega arith); sized = refl; fits = omega arith }

abbrev both : List RawPayload
both = hello ∷ beat ∷ []

both-AllValid : AllValid both
both-AllValid = (hello-IsValid, (beat-IsValid, tt))

-- A sender that has begun with the first payload of two.
abbrev begun : Sender
begun = at new_sender hello (beat ∷ []) false new_logger 0 type_write []

begun-Sending : Sending both [] 0 begun
unfolding logged new_logger new_queue
begun-Sending = (refl, refl, refl, refl, refl, refl)

new_sender-Sending : Sending [] [] 0 new_sender
unfolding new_sender logged new_logger new_queue
new_sender-Sending = (refl, refl, refl, refl, refl)

abbrev listening : Receiver ℕ
listening = start_receiving (new_receiver new_queue 7)

listening-Receiving : Receiving [] [] 0 7 listening
unfolding start_receiving new_receiver receive_payload_type async_read new_payload logged new_logger
    new_queue
listening-Receiving = (refl, refl, refl, refl, refl, refl)

new_sender-idle : new_sender.is_processing ≡ false
unfolding new_sender
new_sender-idle = refl

handed_over_cross_example :
    HandsOver both
      (λ t.
        (r : Receiver ℕ) × (Receiver.complete 50 (arrives t.wire) listening ≡ some r)
        × After
            (λ now. Receiver.complete now read)
            (transfers_for both)
            (Receiving (map (received 7) both) [] (0 + content_size both) 7)
            r)
      new_sender
handed_over_cross_example =
    handed_over_cross both [] 0 0 50 7 new_sender listening both-AllValid new_sender-Sending
      new_sender-idle listening-Receiving

queue_sent_example :
    After
      (λ now. Sender.complete now written)
      (transfers_for both)
      (Sending [] ([] ++ encode_all both) (0 + content_size both))
      begun
queue_sent_example = queue_sent both [] 0 begun both-AllValid begun-Sending

stream_received_example :
    After
      (λ now. Receiver.complete now read)
      (transfers_for both)
      (Receiving ([] ++ map (received 7) both) (1 ∷ []) (0 + content_size both) 7)
      (record listening { inbound = encode_all both ++ 1 ∷ [] })
unfolding start_receiving new_receiver receive_payload_type async_read new_payload logged new_logger
    new_queue
stream_received_example =
    stream_received both [] (1 ∷ []) 0 7 (record listening { inbound = encode_all both ++ 1 ∷ [] })
      both-AllValid (refl, refl, refl, refl, refl, refl)

-- The state after `_sendPayload(hello)`.
abbrev sending_hello : Sender
sending_hello = at new_sender hello [] false (started 0 hello new_logger) 0 type_write []

run-sending_hello : Sender.Faults.run ((0, sends hello) ∷ []) new_sender ≡ some sending_hello
unfolding Sender.Faults.run send_payload send_payload_type async_write new_sender push front
    new_queue new_payload started
run-sending_hello = refl

send_payload_overlaps_example :
    (t : Sender) × (send_payload 9 beat sending_hello ≡ some t)
    × (t.writes ≡ type_write ∷ type_write ∷ [])
    × (t.buf ≡ hello)
    × (t.payload_queue.items ≡ hello ∷ beat ∷ [])
send_payload_overlaps_example =
    send_payload_overlaps ((0, sends hello) ∷ []) sending_hello 9 beat hello [] run-sending_hello
      refl

-- A sender whose second content write failed.
abbrev broken : Sender
broken = record (at new_sender hello [] false new_logger 2 type_write (5 ∷ [])) { writes = [] }

resend_truncates_example :
    (t : Sender) × (send_payload 9 beat broken ≡ some t)
    × After
        (λ later. Sender.complete later written)
        (suc (suc (chunks (3 - 2))))
        (Sending
          ([] ++ beat ∷ [])
          ((5 ∷ []) ++ encode_from 2 hello)
          (logged broken.logger + (3 - 2)))
        t
resend_truncates_example =
    resend_truncates broken 9 beat hello [] hello-IsValid (unfold new_sender in refl) refl refl
      (omega arith)

abbrev arrivals : List (ℕ × Receiver.Arrival)
arrivals = (1, arrives (2 ∷ 0 ∷ 0 ∷ [])) ∷ (2, arrives (0 ∷ 9 ∷ [])) ∷ (3, read) ∷ []

abbrev after_arrivals : Receiver ℕ
after_arrivals = record listening {
  buf = record (new_payload 7) { payload_type = handshake };
  logger = log_payload_type handshake (log_new_payload 3 new_logger);
  reads = size_read ∷ [];
  inbound = 9 ∷ [];
}

run-after_arrivals : Receiver.run arrivals listening ≡ some after_arrivals
unfolding Receiver.run Receiver.complete start_receiving new_receiver receive_payload_type
    async_read new_payload new_logger new_queue store integer_of_bytes on_type_read
    receive_payload_bytes_size integer_bytes log_payload_type log_new_payload
run-after_arrivals = refl

receiver-IsSafe_example : IsSafe after_arrivals
receiver-IsSafe_example =
    receiver-IsSafe new_queue 7 arrivals after_arrivals ((omega arith), ((omega arith), (tt, tt)))
      run-after_arrivals

abbrev failed_size : Receiver ℕ
failed_size = record after_arrivals {
  buf = record after_arrivals.buf { bytes_size = 9 };
  logger = commit_log 4 after_arrivals.logger;
  reads = [];
  inbound = [];
}

complete-failed_size : Receiver.complete 4 (Receiver.failed 1) after_arrivals ≡ some failed_size
unfolding Receiver.complete start_receiving new_receiver receive_payload_type async_read new_payload
    store integer_of_bytes integer_bytes on_size_read on_payload_receive_error
complete-failed_size = refl

failed_read_is_final_example :
    let u = record failed_size { inbound = 6 ∷ [] } in
    (u.reads ≡ [])
    × (start_receiving failed_size ≡ failed_size)
    × (u.payload_queue ≡ after_arrivals.payload_queue)
unfolding Receiver.run Receiver.complete start_receiving new_receiver receive_payload_type
    async_read
failed_read_is_final_example =
    failed_read_is_final after_arrivals failed_size (record failed_size { inbound = 6 ∷ [] })
      size_read 4 1 ((5, arrives (6 ∷ [])) ∷ []) refl refl complete-failed_size refl

abbrev one_and_two : List (Processor.Event ℕ)
one_and_two =
    Processor.runs
    ∷ Processor.pushes 1
    ∷ Processor.pushes 2
    ∷ Processor.notifies
    ∷ Processor.runs
    ∷ Processor.runs
    ∷ []

-- The callback returns `true` at once, with 2 in hand.
abbrev returned_early : Processor.Processing ℕ
returned_early = record {
  queue = record { items = []; is_queue_empty = true };
  phase = returned (2 ∷ []);
  notifying = 1;
  handled = 1 ∷ [];
}

run-returned_early : Processor.run (λ x. true) one_and_two new_processing ≡ some returned_early
unfolding Processor.run Processor.step new_processing new_queue push pop_into_queue
run-returned_early = refl

handles_in_order_example :
    returned_early.handled ++ (in_hand returned_early.phase ++ returned_early.queue.items)
    ≡ 1 ∷ 2 ∷ []
handles_in_order_example =
    handles_in_order (λ x. true) one_and_two returned_early run-returned_early

wakeup_lost_example :
    (t : Processor.Processing ℕ) × (Processor.run (λ x. false) (busy 1 2) new_processing ≡ some t)
    × (t.queue.items ≡ 2 ∷ [])
    × (t.handled ≡ 1 ∷ [])
    × (Processor.step (λ x. false) Processor.runs t ≡ none)
    × (Processor.step (λ x. false) Processor.notifies t ≡ none)
wakeup_lost_example = wakeup_lost (λ x. false) 1 2 refl

abbrev calls : List (Call ℕ)
calls = pushes 4 ∷ pushes 5 ∷ consumes ∷ pushes 6 ∷ drains ∷ pushes 7 ∷ []

run-calls : Fifo.run (new_queue, []) calls ≡ some (push new_queue 7, 4 ∷ 5 ∷ 6 ∷ [])
unfolding Fifo.run Fifo.step new_queue push front pop pop_into_queue
run-calls = refl

run_fifo_example :
    ((4 ∷ 5 ∷ 6 ∷ []) ++ (push {A = ℕ} new_queue 7).items
      ≡ ([] ++ (new_queue {A = ℕ}).items) ++ pushed calls)
    × (empty (push {A = ℕ} new_queue 7) ≡ is_empty (push {A = ℕ} new_queue 7).items)
unfolding new_queue
run_fifo_example = run_fifo calls new_queue (push new_queue 7) [] (4 ∷ 5 ∷ 6 ∷ []) refl run-calls
