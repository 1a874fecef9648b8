-- ===== src/RingQueue/Faults.antt =====
-- Where `try_recv` of src/bgw/ring_queue.rs goes wrong: on a queue that is exactly full it reads
-- the oldest frame as one block, whatever lies behind the end of the buffer.
use pgnats.Common.{
  ℕ, ◌+◌, ◌-◌, ◌%◌, ◌≤◌, ◌<◌, ◌≡◌, sym, ap, ◌∙◌, append_cancel, inl, inr, true, false, none, some,
  List, [], ◌∷◌, done, panic, ◌>>=◌, ok, length, arith, lt-or-ge, ge→ltb, lt→ltb,
}
use native.Mathlib.Nat.{mod_self}
use pgnats.RingQueue.{
  RingQueue, read_wrapped, advance_write, send_between, recv_straight, recv_wrapped, try_send,
  try_recv,
}
use pgnats.RingQueue.Header.{
  header_size, to_le_bytes, length-to_le_bytes, from_le_bytes-to_le_bytes,
}
use pgnats.RingQueue.Slices.{slice, slice_in_range, slice_out_of_range, write_at, length-write_at}
use pgnats.RingQueue.Window.{
  ring_read, ring_read-straight, ring_read-past, ring_write, ring_read-add,
  ring_read-ring_write_self, length-ring_read, length-ring_write,
}
use pgnats.RingQueue.Copies.{usize_add_small, usize_sub_small, read_wrapped_lem, copy_into_to}
use pgnats.RingQueue.Invariant.{Sized, Holds, frame, used, length-frame}
use pgnats.RingQueue.Send.{write_frame_straight}
use pgnats.RingQueue.Recv.{front, header_read, full_indices, try_recv_straight}

module _ {cap : ℕ} (s : Sized cap) {q : RingQueue} (msg : List ℕ) (msgs : List (List ℕ))
    (v : Holds cap q (msg ∷ msgs)) where
  straight_of_full : cap ≤ used (msg ∷ msgs) → try_recv cap q ≡ recv_straight cap q
  straight_of_full f =
      let (w, full) = full_indices s msg msgs v f in
      try_recv_straight s msg msgs v (omega arith) (inr full)

  header_panics : cap < q.read + header_size → recv_straight cap q ≡ panic
  unfolding recv_straight
  header_panics k = rw (
    usize_add_small q.read header_size (omega arith),
    slice_out_of_range q.buffer q.read (q.read + header_size) (omega arith),
  )

  -- Past the header, the code asks for the data at `header..header + msg_len`.
  data_block :
      q.is_full ≡ true
      → q.read + header_size ≤ cap
      → recv_straight cap q ≡ (
          slice q.buffer (q.read + header_size) (q.read + header_size + length msg) >>= λ m.
          done (some m, record q { read = q.read + header_size + length msg; is_full = false }))
  unfolding recv_straight
  data_block full k =
      rw
        (
          usize_add_small q.read header_size (omega arith),
          slice_in_range q.buffer q.read header_size (omega arith),
          sym (ring_read-straight cap q.buffer q.read header_size (omega arith)),
          header_read s msg msgs v,
          usize_add_small (q.read + header_size) (length msg) (omega arith),
        )
        (ground arith)

  -- Where the held messages use up all bytes of the queue and the frame of the oldest one runs
  -- past the end of the buffer, try_recv panics.
  pub try_recv_panics :
      cap ≤ used (msg ∷ msgs) → cap < q.read + header_size + length msg → try_recv cap q ≡ panic
  try_recv_panics f h = straight_of_full f ∙ elim (lt-or-ge cap (q.read + header_size)) [
    | inl header_out ↦ header_panics header_out
    | inr header_in ↦
        data_block (full_indices s msg msgs v f).1 header_in
        ∙ ap
            (λ o. o >>= λ m.
              done (some m, record q { read = q.read + header_size + length msg; is_full = false }))
            (slice_out_of_range q.buffer (q.read + header_size) (q.read + header_size + length msg)
              (omega arith))
  ]

  -- The queue is full and its oldest frame ends where the buffer ends: the message is taken, and
  -- the read index is left outside of the buffer.
  pub try_recv_leaves_range :
      cap ≤ used (msg ∷ msgs)
      → q.read + header_size + length msg ≡ cap
      → try_recv cap q ≡ done (some msg, record q { read = cap; is_full = false })
  try_recv_leaves_range f h =
      straight_of_full f
      ∙ data_block (full_indices s msg msgs v f).1 (omega arith)
      ∙ ap
          (λ o. o >>= λ m.
            done (some m, record q { read = q.read + header_size + length msg; is_full = false }))
          (slice_in_range q.buffer (q.read + header_size) (length msg) (omega arith)
            ∙ ap done (
                sym (
                  ring_read-straight cap q.buffer (q.read + header_size) (length msg) (omega arith))
                ∙ (front s msg msgs v).1))
      ∙ ap (λ r. done (some msg, record q { read = r; is_full = false })) h

-- the state in which a message of the greatest size leaves the queue that held it alone
abbrev overrun : ℕ → List ℕ → RingQueue
overrun cap buf = record { read = cap; write = 0; is_full = false; buffer = buf }

module _ {cap : ℕ} (s : Sized cap) (buf msg : List ℕ) (size : length buf ≡ cap)
    (fills : header_size + length msg ≡ cap) where
  refilled : List ℕ
  refilled = ring_write cap buf 0 (frame msg)

  refill_open : try_send cap (overrun cap buf) msg ≡ send_between cap (overrun cap buf) msg
  unfolding try_send
  refill_open = ground (arith, usize_sub_small cap header_size (omega arith) (omega arith))

  -- The write index comes back to 0 and is compared with the read index `cap`.
  refill_advance :
      advance_write cap (overrun cap buf) (header_size + length msg) refilled
      ≡ done (ok tt, overrun cap refilled)
  unfolding advance_write
  refill_advance =
      rw (usize_add_small 0 (header_size + length msg) (omega arith), turn) (ground arith)
    where
      turn : (0 + (header_size + length msg)) % cap ≡ 0
      turn =
          ap (λ n. n % cap) {x = 0 + (header_size + length msg)} {y = cap} (omega arith)
          ∙ mod_self cap

  refill_accepted : try_send cap (overrun cap buf) msg ≡ done (ok tt, overrun cap refilled)
  unfolding send_between refilled
  refill_accepted =
      refill_open
      ∙ rw
          (
            usize_sub_small cap 0 (omega arith) (omega arith),
            usize_add_small header_size (length msg) (omega arith),
            ge→ltb (cap - 0) (header_size + length msg) (omega arith),
            usize_add_small 0 header_size (omega arith),
            copy_into_to buf 0 (0 + header_size) (to_le_bytes header_size (length msg))
                (omega (arith, length-to_le_bytes header_size (length msg))) (omega arith),
            usize_add_small (0 + header_size) (length msg) (omega arith),
            copy_into_to (write_at buf 0 (to_le_bytes header_size (length msg))) (0 + header_size)
                (0 + header_size + length msg) msg (omega arith)
                (omega (arith, length-write_at buf 0 (to_le_bytes header_size (length msg)))),
            write_frame_straight s buf 0 msg (omega arith),
          )
          refill_advance

  refilled_header :
      read_wrapped cap refilled cap header_size ≡ done (to_le_bytes header_size (length msg))
  unfolding refilled
  refilled_header =
      read_wrapped_lem cap s.small refilled cap header_size
        (length-ring_write cap buf 0 (frame msg) ∙ size) (omega arith) (omega arith)
      ∙ ap done (
          ap (λ p. ring_read cap refilled p header_size) {x = cap} {y = cap + 0} (omega arith)
          ∙ ring_read-past cap refilled 0 header_size
          ∙ sym (ring_read-straight cap refilled 0 header_size (omega arith))
          ∙ (append_cancel (ring_read cap refilled 0 header_size)
              (to_le_bytes header_size (length msg)) _ msg
              (omega (
                arith,
                length-ring_read cap refilled 0 header_size,
                length-to_le_bytes header_size (length msg),
              ))
              (sym (ring_read-add cap refilled 0 header_size (length msg))
                ∙ ap (ring_read cap refilled 0) (sym (length-frame msg))
                ∙ ring_read-ring_write_self cap buf 0 (frame msg) size
                    (omega (arith, length-frame msg)) (omega (arith, length-frame msg)))).0)

  unseen_open : try_recv cap (overrun cap refilled) ≡ recv_wrapped cap (overrun cap refilled)
  unfolding try_recv
  unseen_open = ground arith

  refill_unseen : try_recv cap (overrun cap refilled) ≡ done (none, overrun cap refilled)
  unfolding recv_wrapped refilled
  refill_unseen =
      unseen_open
      ∙ rw (
        refilled_header,
        from_le_bytes-to_le_bytes header_size (length msg) (omega arith),
        usize_sub_small cap 0 (omega arith) (omega arith),
        usize_sub_small cap (cap - 0) (omega arith) (omega arith),
        usize_add_small header_size (length msg) (omega arith),
        lt→ltb (cap - (cap - 0)) (header_size + length msg) (omega arith),
      )

-- Where a queue holds one message that takes its whole buffer from index 0 on: try_recv takes it,
-- try_send then accepts another message of that length, and the next try_recv finds nothing.
pub refill_is_lost :
    {cap : ℕ} {q : RingQueue} (msg next : List ℕ)
    → Sized cap
    → Holds cap q (msg ∷ [])
    → q.read ≡ 0
    → header_size + length msg ≡ cap
    → length next ≡ length msg
    → (q' : RingQueue) × (q'' : RingQueue) × (try_recv cap q ≡ done (some msg, q'))
      × (try_send cap q' next ≡ done (ok tt, q''))
      × (try_recv cap q'' ≡ done (none, q''))
refill_is_lost {cap} {q} msg next s v r h l = (
  overrun cap q.buffer,
  overrun cap (refilled s q.buffer next v.size (omega arith)),
  try_recv_leaves_range s msg [] v (omega arith) (omega arith)
      ∙ ap
          (λ w.
            done (some msg, record { read = cap; write = w; is_full = false; buffer = q.buffer }))
          ((full_indices s msg [] v (omega arith)).0 ∙ r),
  refill_accepted s q.buffer next v.size (omega arith),
  refill_unseen s q.buffer next v.size (omega arith),
)
