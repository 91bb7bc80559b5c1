-- ===== src/Network/Receiver/Safety.antt =====
-- A receiver (src/network/IPayloadReceiver.cpp) writes inside its buffer, whatever its peer sends.
use mathlib.Core.Path.{subst}
use native.Mathlib.Nat.{pow-suc}
use understory.Base.{
  AllBytes, ℕ, zero, suc, ◌+◌, ◌≤◌, ◌<◌, ◌^◌, ◌%◌, min, ◌≡◌, refl, ◌∙◌, false, List, [], ◌∷◌, ◌++◌,
  some, take, drop, length, length-append, length-take, length-drop, arith, Option-cases, inl, inr,
  ltb, Bool-cases, ltb→lt, le→ltb, lt→ltb, le-or-lt, drop_all, append-nil, none-ne-some, eq_of_some,
}
use understory.Network.Queue.{AtomicQueue}
use understory.Network.Payloads.{
  Payload, integer_bytes, integer_of_bytes, type_width, size_width, size_mod,
}
use understory.Network.Payloads.Wire.{length-integer_bytes}
use understory.Network.Receiver.Delivery.{length-resize}
use understory.Network.Receiver.{
  read_length, Receiver, Read, Arrival, type_read, size_read, content_read, arrives, read, failed,
  new_receiver, async_read, on_payload_receive_error, on_payload_bytes_downloaded,
  receive_payload_type, start_receiving, receive_payload_bytes_size, bytes_to_read,
  receive_payload_bytes, on_type_read, on_size_read, on_payload_read, on_content_read, overwrite,
  store, store_integer, finish, complete_first, complete, run,
}

AllBytes-append : (xs ys : List ℕ) → AllBytes xs → AllBytes ys → AllBytes (xs ++ ys)
AllBytes-append [] ys h k = k
AllBytes-append (x ∷ xs) ys h k = (h.0, AllBytes-append xs ys h.1 k)

AllBytes-take : (n : ℕ) (xs : List ℕ) → AllBytes xs → AllBytes (take n xs)
AllBytes-take zero xs h = tt
AllBytes-take (suc n) [] h = tt
AllBytes-take (suc n) (x ∷ xs) h = (h.0, AllBytes-take n xs h.1)

AllBytes-drop : (n : ℕ) (xs : List ℕ) → AllBytes xs → AllBytes (drop n xs)
AllBytes-drop zero xs h = h
AllBytes-drop (suc n) [] h = tt
AllBytes-drop (suc n) (x ∷ xs) h = AllBytes-drop n xs h.1

integer_of_bytes-lt : (bs : List ℕ) → AllBytes bs → integer_of_bytes bs < 256 ^ length bs
unfolding integer_of_bytes
integer_of_bytes-lt [] h = omega arith
integer_of_bytes-lt (b ∷ bs) h = omega (arith, pow-suc 256 (length bs), integer_of_bytes-lt bs h.1)

-- What the environment may do: the things that arrive are bytes.
abbrev pub IsArrival : Arrival → Type 0
IsArrival (arrives bytes) = AllBytes bytes
IsArrival read = Unit
IsArrival (failed n) = Unit

abbrev pub AllArrivals : List (ℕ × Arrival) → Type 0
AllArrivals [] = Unit
AllArrivals ((now, a) ∷ as') = IsArrival a × AllArrivals as'

length-overwrite :
    (o : ℕ) (bytes memory : List ℕ)
    → o + length bytes ≤ length memory
    → length (overwrite o bytes memory) ≡ length memory
length-overwrite o bytes memory h = omega (
  arith,
  length-append (take o memory) (bytes ++ drop (o + length bytes) memory),
  length-append bytes (drop (o + length bytes) memory),
  length-take o memory,
  length-drop (o + length bytes) memory,
)

store_integer-lt :
    (width old : ℕ) (bytes : List ℕ)
    → length bytes ≡ width
    → AllBytes bytes
    → store_integer width bytes old < 256 ^ width
store_integer-lt width old bytes h b =
    rw
      (
        drop_all (length bytes) (integer_bytes width old)
            (omega (arith, h, length-integer_bytes width old)),
        append-nil,
        ← h,
      )
      (integer_of_bytes-lt bytes b)

module _ {S : Type 0} where
  -- What a read under way needs: the memory that it writes to lies in the buffer.
  abbrev pub ReadFits : Read → Receiver S → Type 0
  ReadFits type_read s = s.buf_content_offset ≡ 0
  ReadFits size_read s = s.buf_content_offset ≡ 0
  ReadFits (content_read n) s =
      (s.buf_content_offset + n ≤ length s.buf.bytes)
      × (length s.buf.bytes ≡ s.buf.bytes_size)
      × (s.buf.bytes_size < size_mod)

  -- One read at most is under way, and it fits.
  abbrev pub ReadsFit : List Read → Receiver S → Type 0
  ReadsFit [] s = Unit
  ReadsFit (r ∷ []) s = ReadFits r s
  ReadsFit (r ∷ q ∷ rs) s = ⊥

  abbrev pub IsSafe : Receiver S → Type 0
  IsSafe s = ReadsFit s.reads s × AllBytes s.inbound

  content_fits :
      (now : ℕ) (n : ℕ) (s : Receiver S)
      → ReadFits (content_read n) s
      → AllBytes s.inbound
      → n ≤ length s.inbound
      → IsSafe (finish now false (content_read n) n (record s { reads = [] }))
  unfolding finish store on_content_read on_payload_bytes_downloaded receive_payload_bytes
      bytes_to_read async_read on_payload_read receive_payload_type
  content_fits now n s h b enough =
      let o = s.buf_content_offset in
      let got : length (take n s.inbound) ≡ n = omega (arith, length-take n s.inbound) in
      let same = length-overwrite o (take n s.inbound) s.buf.bytes (omega (arith, got, h.0)) in
      let exact : (o + n) % size_mod ≡ o + n = omega (arith, h.0, h.1, h.2) in
      let left = AllBytes-drop n s.inbound b in
      elim (Bool-cases (ltb (o + n) s.buf.bytes_size)) [
        | inl more ↦
            rw (exact, more)
              ((
                (
                  omega (arith, same, h.1, h.2, ltb→lt (o + n) s.buf.bytes_size more),
                  same ∙ h.1,
                  h.2,
                ),
                left,
              ))
        | inr last ↦ rw (exact, last) (refl, left)
      ]

  size_fits :
      (now : ℕ) (s : Receiver S)
      → ReadFits size_read s
      → AllBytes s.inbound
      → size_width ≤ length s.inbound
      → IsSafe (finish now false size_read size_width (record s { reads = [] }))
  unfolding finish store on_size_read receive_payload_bytes bytes_to_read async_read
  size_fits now s h b enough =
      let got : length (take size_width s.inbound) ≡ size_width =
        omega (arith, length-take size_width s.inbound) in
      let size = store_integer size_width (take size_width s.inbound) s.buf.bytes_size in
      let small : size < size_mod =
        store_integer-lt size_width s.buf.bytes_size (take size_width s.inbound) got
          (AllBytes-take size_width s.inbound b) in
      let full = length-resize size s.buf.bytes in
      ((omega (arith, h, small, full), full, small), AllBytes-drop size_width s.inbound b)

  one_fits :
      (now : ℕ) (r : Read) (s : Receiver S)
      → ReadFits r s
      → AllBytes s.inbound
      → read_length r ≤ length s.inbound
      → IsSafe (finish now false r (read_length r) (record s { reads = [] }))
  unfolding finish store on_type_read receive_payload_bytes_size async_read
  one_fits now type_read s h b enough = (h, AllBytes-drop type_width s.inbound b)
  one_fits now size_read s h b enough = size_fits now s h b enough
  one_fits now (content_read n) s h b enough = content_fits now n s h b enough

  read_fits :
      (now : ℕ) (rs : List Read) (s t : Receiver S)
      → ReadsFit rs s
      → AllBytes s.inbound
      → complete_first now read rs s ≡ some t
      → IsSafe t
  unfolding complete_first
  read_fits now [] s t h b e = cc
  read_fits now (r ∷ []) s t h b e = elim (le-or-lt (read_length r) (length s.inbound)) [
    | inl enough ↦
        subst IsSafe (eq_of_some (rw (le→ltb (length s.inbound) (read_length r) enough) at e))
          (one_fits now r s h b enough)
    | inr short ↦ absurd (none-ne-some (rw (lt→ltb (length s.inbound) (read_length r) short) at e))
  ]
  read_fits now (r ∷ q ∷ rs) s t h b e = absurd h

  failed_fits :
      (now n : ℕ) (rs : List Read) (s t : Receiver S)
      → ReadsFit rs s
      → AllBytes s.inbound
      → complete_first now (failed n) rs s ≡ some t
      → IsSafe t
  unfolding complete_first finish store on_type_read on_size_read on_content_read
      on_payload_receive_error
  failed_fits now n [] s t h b e = cc
  failed_fits now n (type_read ∷ []) s t h b e =
      subst IsSafe (eq_of_some e) (tt, AllBytes-drop (min n type_width) s.inbound b)
  failed_fits now n (size_read ∷ []) s t h b e =
      subst IsSafe (eq_of_some e) (tt, AllBytes-drop (min n size_width) s.inbound b)
  failed_fits now n (content_read k ∷ []) s t h b e =
      subst IsSafe (eq_of_some e) (tt, AllBytes-drop (min n k) s.inbound b)
  failed_fits now n (r ∷ q ∷ rs) s t h b e = absurd h

  arrival_fits :
      (bytes : List ℕ) (rs : List Read) (s : Receiver S)
      → ReadsFit rs s
      → ReadsFit rs (record s { inbound = s.inbound ++ bytes })
  arrival_fits bytes [] s h = tt
  arrival_fits bytes (type_read ∷ []) s h = h
  arrival_fits bytes (size_read ∷ []) s h = h
  arrival_fits bytes (content_read n ∷ []) s h = h
  arrival_fits bytes (r ∷ q ∷ rs) s h = h

  complete-IsSafe :
      (now : ℕ) (a : Arrival) (s t : Receiver S)
      → IsArrival a
      → IsSafe s
      → complete now a s ≡ some t
      → IsSafe t
  unfolding complete complete_first
  complete-IsSafe now (arrives bytes) s t a h e =
      subst IsSafe (eq_of_some e)
        (arrival_fits bytes s.reads s h.0, AllBytes-append s.inbound bytes h.1 a)
  complete-IsSafe now read s t a h e = read_fits now s.reads s t h.0 h.1 e
  complete-IsSafe now (failed n) s t a h e = failed_fits now n s.reads s t h.0 h.1 e

  run-IsSafe :
      (es : List (ℕ × Arrival)) (s t : Receiver S)
      → AllArrivals es
      → IsSafe s
      → run es s ≡ some t
      → IsSafe t
  unfolding run
  run-IsSafe [] s t a h e = subst IsSafe (eq_of_some e) h
  run-IsSafe ((now, x) ∷ es) s t a h e = elim (Option-cases (complete now x s)) [
    | inl stuck ↦ absurd (none-ne-some (rw (stuck, run) at e))
    | inr (mid, done) ↦
        run-IsSafe es mid t a.1 (complete-IsSafe now x s mid a.0 h done) (rw (done, run) at e)
  ]

  -- Whatever bytes arrive, in whatever pieces, and wherever a read fails: a receiver that was started
  -- has one read under way at most, and a read of content stays inside the buffer.
  pub receiver-IsSafe :
      (queue : AtomicQueue (Payload S)) (id : S) (es : List (ℕ × Arrival)) (t : Receiver S)
      → AllArrivals es
      → run es (start_receiving (new_receiver queue id)) ≡ some t
      → IsSafe t
  unfolding start_receiving new_receiver receive_payload_type async_read
  receiver-IsSafe queue id es t a e =
      run-IsSafe es (start_receiving (new_receiver queue id)) t a (refl, tt) e
