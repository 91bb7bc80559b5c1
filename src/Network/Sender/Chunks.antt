-- ===== src/Network/Sender/Chunks.antt =====
-- The loop of `_sendPayloadBytes` (src/network/IPayloadSender.cpp), one completed write after another.
use native.Mathlib.Nat.{mod-eq_of_lt}
use understory.Base.{
  ℕ, zero, suc, ◌+◌, ◌-◌, ◌/◌, ◌%◌, ◌≤◌, ◌<◌, min, ◌≡◌, refl, ap, Bool, List, [], ◌∷◌, ◌++◌, some,
  take, drop, lt→ltb, le→ltb, arith, After, le-or-lt, take_all, length-drop, drop-drop,
  take-append-drop, append_assoc, ◌∙◌, inl, inr,
}
use understory.Network.Queue.{pop, front}
use understory.Network.Payloads.{RawPayload, IsValid}
use understory.Network.Logger.Traces.{logged, logged-commit_payload_speed}
use understory.Network.Logger.{
  PayloadLogger, commit_payload_speed, commit_log, log_payload_size, log_payload_type,
  log_new_payload,
}
use understory.Network.Payloads.{size_mod, maximum_bytes_as_network_buffer}
use understory.Network.Sender.{
  Sender, Write, content_write, type_write, written, async_write, on_payload_bytes_uploaded,
  send_payload_bytes, bytes_to_write, send_payload_type, on_payload_written, on_content_written,
  write_bytes, complete,
}

-- A sender in the middle of the payload `p`: `w` is under way, `o` bytes of the content are out.
abbrev pub at :
    Sender → RawPayload → List RawPayload → Bool → PayloadLogger → ℕ → Write → List ℕ → Sender
at r p ps b l o w bs = record r {
  payload_queue = record { items = p ∷ ps; is_queue_empty = b };
  buf = p;
  buf_content_offset = o;
  logger = l;
  writes = w ∷ [];
  wire = bs;
}

-- The writes that the content takes: one at least, also for an empty content.
unfoldable pub chunks : ℕ → ℕ
chunks n = (n - 1) / maximum_bytes_as_network_buffer + 1

-- About to send the payloads: the write of the first one's type is under way, or nothing is. The
-- bytes are those on the wire, the number is what the speed log has counted.
abbrev pub Sending : List RawPayload → List ℕ → ℕ → Sender → Type 0
Sending [] bs n t =
    (t.payload_queue.items ≡ [])
    × (t.writes ≡ [])
    × (t.buf_content_offset ≡ 0)
    × (t.wire ≡ bs)
    × (logged t.logger ≡ n)
Sending (p ∷ ps) bs n t =
    (t.payload_queue.items ≡ p ∷ ps)
    × (t.writes ≡ type_write ∷ [])
    × (t.buf_content_offset ≡ 0)
    × (t.wire ≡ bs)
    × (logged t.logger ≡ n)
    × (t.buf ≡ p)

payload_written :
    (r : Sender) (p : RawPayload) (ps : List RawPayload) (b : Bool) (l : PayloadLogger) (o : ℕ)
    (w : Write) (bs out : List ℕ) (total now : ℕ)
    → bs ≡ out
    → logged l ≡ total
    → (t : Sender) × (on_payload_written now (record (at r p ps b l o w bs) { writes = [] })
        ≡ some t)
      × Sending ps out total t
unfolding on_payload_written front pop send_payload_type async_write logged commit_log
    log_payload_size log_payload_type log_new_payload
payload_written r p [] b l o w bs out total now d e = (_, refl, (refl, refl, refl, d, e))
payload_written r p (q ∷ qs) b l o w bs out total now d e =
    (_, refl, (refl, refl, refl, d, e, refl))

module _ (r : Sender) (p : RawPayload) (ps : List RawPayload) (b : Bool) (v : IsValid p) where
  remaining_lem :
      (o : ℕ)
      → o ≤ p.bytes_size
      → min ((p.bytes_size + size_mod - o) % size_mod) maximum_bytes_as_network_buffer
        ≡ min (p.bytes_size - o) maximum_bytes_as_network_buffer
  remaining_lem o h = omega (arith, v.fits)

  -- The subtraction of the sizes does not wrap.
  pub bytes_to_write_lem :
      (l : PayloadLogger) (o : ℕ) (w : Write) (bs : List ℕ)
      → o ≤ p.bytes_size
      → bytes_to_write (at r p ps b l o w bs)
        ≡ min (p.bytes_size - o) maximum_bytes_as_network_buffer
  unfolding bytes_to_write
  bytes_to_write_lem l o w bs h = remaining_lem o h

  content_more :
      (l : PayloadLogger) (o n : ℕ) (bs : List ℕ) (now : ℕ)
      → o + n < p.bytes_size
      → complete now written (at r p ps b l o (content_write n) bs)
        ≡ some (
            at r p ps b
              (commit_payload_speed now n l)
              (o + n)
              (content_write (min (p.bytes_size - (o + n)) maximum_bytes_as_network_buffer))
              (bs ++ take n (drop o p.bytes)))
  unfolding complete on_content_written on_payload_bytes_uploaded send_payload_bytes async_write
      write_bytes
  content_more l o n bs now h =
      rw
        (
          mod-eq_of_lt {n = o + n} {m = size_mod} (omega (arith, v.fits)),
          lt→ltb (o + n) p.bytes_size h,
        )
        (ap
          (λ m. some (
            at r p ps b (commit_payload_speed now n l) (o + n) (content_write m)
              (bs ++ take n (drop o p.bytes))))
          (remaining_lem (o + n) (omega arith)))

  content_last :
      (l : PayloadLogger) (o n : ℕ) (bs : List ℕ) (now : ℕ)
      → o + n ≡ p.bytes_size
      → complete now written (at r p ps b l o (content_write n) bs)
        ≡ on_payload_written now
            (record (at r p ps b
              (commit_payload_speed now n l)
              (o + n)
              (content_write n)
              (bs ++ take n (drop o p.bytes))) { writes = [] })
  unfolding complete on_content_written on_payload_bytes_uploaded send_payload_bytes async_write
      write_bytes
  content_last l o n bs now h =
      rw
        (
          mod-eq_of_lt {n = o + n} {m = size_mod} (omega (arith, v.fits)),
          le→ltb (o + n) p.bytes_size (omega arith),
        )
        refl

  content_finishes :
      (l : PayloadLogger) (o : ℕ) (bs out : List ℕ) (total now : ℕ)
      → o ≤ p.bytes_size
      → bs ++ drop o p.bytes ≡ out
      → logged l + (p.bytes_size - o) ≡ total
      → (t : Sender) × (complete now written (at r p ps b l o (content_write (p.bytes_size - o)) bs)
          ≡ some t)
        × Sending ps out total t
  content_finishes l o bs out total now h d e =
      let m : ℕ = p.bytes_size - o in
      let all = take_all m (drop o p.bytes) (omega (arith, length-drop o p.bytes, v.sized)) in
      let (t, done, s) =
        payload_written r p ps b (commit_payload_speed now m l) (o + m) (content_write m)
          (bs ++ take m (drop o p.bytes)) out total now (rw all d)
          (logged-commit_payload_speed now m l ∙ e) in
      (t, content_last l o m bs now (omega arith) ∙ done, s)

  more_sent :
      (o m : ℕ) (bs : List ℕ)
      → (bs ++ take m (drop o p.bytes)) ++ drop (o + m) p.bytes ≡ bs ++ drop o p.bytes
  more_sent o m bs =
      rw (append_assoc, ← drop-drop o m p.bytes, take-append-drop m (drop o p.bytes)) refl

  -- The rest of the content goes out, whole and once, in as many writes as `chunks` says.
  pub chunk_loop :
      (k : ℕ) (l : PayloadLogger) (o : ℕ) (bs out : List ℕ) (total : ℕ)
      → o ≤ p.bytes_size
      → chunks (p.bytes_size - o) ≡ k
      → bs ++ drop o p.bytes ≡ out
      → logged l + (p.bytes_size - o) ≡ total
      → After
          (λ now. complete now written)
          k
          (Sending ps out total)
          (at r p ps b l o
            (content_write (min (p.bytes_size - o) maximum_bytes_as_network_buffer))
            bs)
  unfolding chunks
  chunk_loop zero l o bs out total h c d e = absurd (omega arith)
  chunk_loop (suc k) l o bs out total h c d e = λ now.
      elim (le-or-lt (p.bytes_size - o) maximum_bytes_as_network_buffer) [
        | inl last ↦
            let none_left : k ≡ 0 = omega arith in
            let whole : min (p.bytes_size - o) maximum_bytes_as_network_buffer ≡ p.bytes_size - o =
              omega arith in
            rw (none_left, whole) (content_finishes l o bs out total now h d e)
        | inr more ↦
            let m : ℕ = min (p.bytes_size - o) maximum_bytes_as_network_buffer in
            (
              _,
              content_more l o m bs now (omega arith),
              chunk_loop k (commit_payload_speed now m l) (o + m) _ out total (omega arith)
                  (omega arith) (more_sent o m bs ∙ d)
                  (omega (arith, e, logged-commit_payload_speed now m l)),
            )
      ]
