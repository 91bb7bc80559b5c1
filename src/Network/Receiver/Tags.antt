-- ===== src/Network/Receiver/Tags.antt =====
-- A receiver (src/network/IPayloadReceiver.cpp) queues payloads of its own spawn identifier only.
use mathlib.Core.Path.{subst}
use understory.Base.{
  ℕ, ◌+◌, ◌%◌, ◌≡◌, refl, ◌⊎◌, Bool, true, false, List, [], ◌∷◌, ◌++◌, some, length, ltb, inl, inr,
  none-ne-some, eq_of_some, Bool-cases,
}
use understory.Network.Queue.{push}
use understory.Network.Payloads.{Payload, size_mod}
use understory.Network.Receiver.{
  Receiver, Read, Arrival, type_read, size_read, content_read, arrives, read, failed, read_length,
  async_read, on_payload_receive_error, on_payload_bytes_downloaded, receive_payload_type,
  receive_payload_bytes_size, receive_payload_bytes, on_type_read, on_size_read, on_payload_read,
  on_content_read, store, finish, complete_first, complete,
}

module _ {S : Type 0} where
  -- The identifier stays, and at most one payload is queued, which carries it.
  abbrev pub Pushes : Receiver S → Receiver S → Type 0
  Pushes s t =
      (t.buf.spawn_id ≡ s.buf.spawn_id)
      × ((t.payload_queue.items ≡ s.payload_queue.items)
          ⊎ ((p : Payload S) × (t.payload_queue.items ≡ s.payload_queue.items ++ p ∷ [])
              × (p.spawn_id ≡ s.buf.spawn_id)))

  finish-Pushes :
      (now : ℕ) (ec : Bool) (r : Read) (n : ℕ) (s : Receiver S) → Pushes s (finish now ec r n s)
  unfolding finish store on_type_read on_size_read on_content_read on_payload_receive_error
      on_payload_bytes_downloaded receive_payload_bytes_size receive_payload_bytes async_read
      on_payload_read receive_payload_type push
  finish-Pushes now true type_read n s = (refl, inl refl)
  finish-Pushes now _ type_read n s = (refl, inl refl)
  finish-Pushes now true size_read n s = (refl, inl refl)
  finish-Pushes now _ size_read n s = (refl, inl refl)
  finish-Pushes now true (content_read k) n s = (refl, inl refl)
  finish-Pushes now _ (content_read k) n s =
      elim (Bool-cases (ltb ((s.buf_content_offset + n) % size_mod) s.buf.bytes_size)) [
        | inl more ↦ rw more (refl, inl refl)
        | inr last ↦ rw last (refl, inr (_, refl, refl))
      ]

  complete_first-Pushes :
      (now : ℕ) (a : Arrival) (rs : List Read) (s t : Receiver S)
      → complete_first now a rs s ≡ some t
      → Pushes s t
  unfolding complete_first
  complete_first-Pushes now (arrives bytes) rs s t e =
      subst (Pushes s) (eq_of_some e) (refl, inl refl)
  complete_first-Pushes now read [] s t e = absurd (none-ne-some e)
  complete_first-Pushes now read (r ∷ rs) s t e =
      elim (Bool-cases (ltb (length s.inbound) (read_length r))) [
        | inl short ↦ absurd (none-ne-some (rw short at e))
        | inr enough ↦
            subst (Pushes s) (eq_of_some (rw enough at e))
              (finish-Pushes now false r (read_length r) (record s { reads = rs }))
      ]
  complete_first-Pushes now (failed n) [] s t e = absurd (none-ne-some e)
  complete_first-Pushes now (failed n) (r ∷ rs) s t e =
      subst (Pushes s) (eq_of_some e) (finish-Pushes now true r _ (record s { reads = rs }))

  pub complete-Pushes :
      (now : ℕ) (a : Arrival) (s t : Receiver S) → complete now a s ≡ some t → Pushes s t
  unfolding complete
  complete-Pushes now a s t e = complete_first-Pushes now a s.reads s t e
