-- ===== src/RingQueue/Recv.antt =====
-- `try_recv` of src/bgw/ring_queue.rs takes the oldest message.
use pgnats.Common.{
  ℕ, ◌+◌, ◌-◌, ◌≤◌, ◌<◌, ◌≡◌, sym, ap, ◌∙◌, ◌⊎◌, inl, inr, true, false, not, ◌&&◌, none, some, List,
  [], ◌∷◌, ◌++◌, done, length, arith, lt-or-ge, ltb, append_assoc, append_cancel,
}
use pgnats.RingQueue.{RingQueue, usize_sub, recv_straight, recv_wrapped, try_recv}
use pgnats.RingQueue.Header.{
  header_size, to_le_bytes, from_le_bytes, length-to_le_bytes, from_le_bytes-to_le_bytes,
}
use pgnats.RingQueue.Slices.{slice_in_range}
use pgnats.RingQueue.Window.{
  at, at_low, at_high, mod_at, at-at_add, ring_read, ring_read-add, ring_read-straight,
  ring_read_mod, length-ring_read,
}
use pgnats.RingQueue.Copies.{usize_add_small, usize_sub_small, read_wrapped_lem}
use pgnats.RingQueue.Invariant.{Sized, Holds, stream, used}

-- the queue after its first message was taken
abbrev pub received : ℕ → RingQueue → List ℕ → RingQueue
received cap q msg = record q { read = at cap (q.read + header_size + length msg); is_full = false }

module _ {cap : ℕ} (s : Sized cap) {q : RingQueue} (msg : List ℕ) (msgs : List (List ℕ))
    (v : Holds cap q (msg ∷ msgs)) where
  -- The bytes from the read index on: the length, the message, and the other frames.
  pub front :
      (ring_read cap q.buffer q.read header_size ≡ to_le_bytes header_size (length msg))
      × (ring_read cap q.buffer (q.read + header_size) (length msg) ≡ msg)
      × (ring_read cap q.buffer (q.read + header_size + length msg) (used msgs) ≡ stream msgs)
  front =
      let (h, rest) = cut in
      let (m, tail) =
        append_cancel _ msg _ (stream msgs)
          (length-ring_read cap q.buffer (q.read + header_size) (length msg)) rest in
      (h, m, tail)
    where
      split :
          ring_read cap q.buffer q.read header_size
            ++ (ring_read cap q.buffer (q.read + header_size) (length msg)
                ++ ring_read cap q.buffer (q.read + header_size + length msg) (used msgs))
          ≡ to_le_bytes header_size (length msg) ++ (msg ++ stream msgs)
      split =
          ap (◌++◌ (ring_read cap q.buffer q.read header_size))
            (sym (ring_read-add cap q.buffer (q.read + header_size) (length msg) (used msgs)))
          ∙ sym (ring_read-add cap q.buffer q.read header_size (length msg + used msgs))
          ∙ ap (ring_read cap q.buffer q.read) {x = header_size + (length msg + used msgs)}
              {y = header_size + length msg + used msgs} (omega arith)
          ∙ v.content
          ∙ append_assoc (to_le_bytes header_size (length msg)) msg (stream msgs)

      cut :
          (ring_read cap q.buffer q.read header_size ≡ to_le_bytes header_size (length msg))
          × (ring_read cap q.buffer (q.read + header_size) (length msg)
                ++ ring_read cap q.buffer (q.read + header_size + length msg) (used msgs)
              ≡ msg ++ stream msgs)
      cut =
          append_cancel _ (to_le_bytes header_size (length msg)) _ (msg ++ stream msgs)
            (omega (
              arith,
              length-ring_read cap q.buffer q.read header_size,
              length-to_le_bytes header_size (length msg),
            ))
            split

  pub received-Holds : Holds cap (received cap q msg) msgs
  received-Holds = record {
    size = v.size;
    read_in = ground arith;
    room = omega arith;
    write_at_end =
        v.write_at_end
        ∙ ap (at cap) {x = q.read + used (msg ∷ msgs)}
            {y = q.read + header_size + length msg + used msgs} (omega arith)
        ∙ sym (at-at_add cap (q.read + header_size + length msg) (used msgs) (omega arith));
    full_iff = ground arith;
    content =
        ring_read_mod cap q.buffer (q.read + header_size + length msg) (used msgs) (omega arith)
        ∙ front.2;
  }

  -- The length prefix is read back.
  pub header_read : from_le_bytes (ring_read cap q.buffer q.read header_size) ≡ length msg
  header_read =
      ap from_le_bytes front.0 ∙ from_le_bytes-to_le_bytes header_size (length msg) (omega arith)

  recv_straight_lem :
      q.read + header_size + length msg < cap
      → (not q.is_full && ltb (usize_sub q.write q.read) (header_size + length msg)) ≡ false
      → recv_straight cap q ≡ done (some msg, received cap q msg)
  unfolding recv_straight
  recv_straight_lem h g =
      rw
        (
          usize_add_small q.read header_size (omega arith),
          slice_in_range q.buffer q.read header_size (omega arith),
          sym (ring_read-straight cap q.buffer q.read header_size (omega arith)),
          header_read,
          usize_add_small header_size (length msg) (omega arith),
          g,
          usize_add_small (q.read + header_size) (length msg) (omega arith),
          slice_in_range q.buffer (q.read + header_size) (length msg) (omega arith),
          sym (ring_read-straight cap q.buffer (q.read + header_size) (length msg) (omega arith)),
          front.1,
        )
        (ap (λ r. done (some msg, record q { read = r; is_full = false })) (sym (at_low cap _ h)))

  recv_wrapped_lem :
      (not q.is_full && ltb (usize_sub cap (usize_sub q.read q.write)) (header_size + length msg))
        ≡ false
      → recv_wrapped cap q ≡ done (some msg, received cap q msg)
  unfolding recv_wrapped
  recv_wrapped_lem g = rw (
    read_wrapped_lem cap s.small q.buffer q.read header_size v.size (omega arith) (omega arith),
    header_read,
    usize_add_small header_size (length msg) (omega arith),
    g,
    usize_add_small q.read header_size (omega arith),
    mod_at cap (q.read + header_size) (omega arith),
    read_wrapped_lem cap s.small q.buffer (at cap (q.read + header_size)) (length msg) v.size
        (ground arith) (omega arith),
    ring_read_mod cap q.buffer (q.read + header_size) (length msg) (omega arith),
    front.1,
    usize_add_small (q.read + header_size) (length msg) (omega arith),
    mod_at cap (q.read + header_size + length msg) (omega arith),
  )

  -- `try_recv` goes by the order of the indices.
  pub try_recv_straight :
      q.read ≤ q.write
      → (q.read < q.write) ⊎ (q.is_full ≡ true)
      → try_recv cap q ≡ recv_straight cap q
  unfolding try_recv
  try_recv_straight h k = ground arith

  try_recv_wrapped : q.write < q.read → try_recv cap q ≡ recv_wrapped cap q
  unfolding try_recv
  try_recv_wrapped h = ground arith

  recv_below_end :
      q.read + used (msg ∷ msgs) < cap → try_recv cap q ≡ done (some msg, received cap q msg)
  recv_below_end l =
      let w : q.write ≡ q.read + used (msg ∷ msgs) = v.write_at_end ∙ at_low cap _ l in
      try_recv_straight (omega arith) (inl (omega arith))
      ∙ recv_straight_lem (omega arith)
          (ground (arith, usize_sub_small q.write q.read (omega arith) (omega arith)))

  recv_past_end :
      cap ≤ q.read + used (msg ∷ msgs)
      → used (msg ∷ msgs) < cap
      → try_recv cap q ≡ done (some msg, received cap q msg)
  recv_past_end g u =
      let w : q.write ≡ q.read + used (msg ∷ msgs) - cap = v.write_at_end ∙ at_high cap _ g in
      try_recv_wrapped (omega arith)
      ∙ recv_wrapped_lem (
          ground (
            arith,
            usize_sub_small q.read q.write (omega arith) (omega arith),
            usize_sub_small cap (q.read - q.write) (omega arith) (omega arith),
          ))

  -- A full queue has its indices equal.
  pub full_indices : cap ≤ used (msg ∷ msgs) → (q.write ≡ q.read) × (q.is_full ≡ true)
  full_indices f = (v.write_at_end ∙ at_high cap _ (omega arith) ∙ omega arith, ground arith)

  recv_full :
      cap ≤ used (msg ∷ msgs)
      → q.read + header_size + length msg < cap
      → try_recv cap q ≡ done (some msg, received cap q msg)
  recv_full f h =
      let (w, full) = full_indices f in
      try_recv_straight (omega arith) (inr full) ∙ recv_straight_lem h (rw full)

  -- Where the queue holds a message and others behind it, and is not full or its first frame ends
  -- before the end of the buffer, try_recv takes that message without a panic, and the queue then
  -- holds the others.
  pub try_recv_takes :
      (used (msg ∷ msgs) < cap) ⊎ (q.read + header_size + length msg < cap)
      → (try_recv cap q ≡ done (some msg, received cap q msg)) × Holds cap (received cap q msg) msgs
  try_recv_takes ready = (taken, received-Holds)
    where
      taken : try_recv cap q ≡ done (some msg, received cap q msg)
      taken = elim (lt-or-ge (q.read + used (msg ∷ msgs)) cap) [
        | inl l ↦ recv_below_end l
        | inr g ↦ elim (lt-or-ge (used (msg ∷ msgs)) cap) [
          | inl u ↦ recv_past_end g u
          | inr f ↦ recv_full f (omega arith)
        ]
      ]

-- An empty queue has nothing to take.
pub try_recv_empty :
    {cap : ℕ} {q : RingQueue} → Sized cap → Holds cap q [] → try_recv cap q ≡ done (none, q)
unfolding try_recv
try_recv_empty {cap} {q} s v = ground arith
