-- ===== src/RingQueue/Send.antt =====
-- `try_send` of src/bgw/ring_queue.rs appends a message that fits.
use pgnats.Common.{
  ℕ, ◌+◌, ◌-◌, ◌%◌, ◌^◌, ◌≤◌, ◌<◌, ◌≡◌, sym, ap, ap₂, ◌∙◌, append-nil, inl, inr, false, List, [],
  ◌∷◌, ◌++◌, done, ok, length, arith, lt-or-ge, if◌then◌else◌, leb, ◌==◌, le→leb, gt→leb, ge→ltb,
}
use pgnats.RingQueue.{RingQueue, usize_add, advance_write, send_behind, send_between, try_send}
use pgnats.RingQueue.Header.{header_size, to_le_bytes, length-to_le_bytes}
use pgnats.RingQueue.Slices.{write_at, length-write_at}
use pgnats.RingQueue.Window.{
  at, at_low, at_high, mod_at, at_add-mod, ring_read, ring_write, ring_read-add, ring_write-append,
  ring_write-straight, ring_write_mod, ring_read-ring_write_before, ring_read-ring_write_self,
  length-ring_write,
}
use pgnats.RingQueue.Copies.{usize_add_small, usize_sub_small, copy_wrapped_lem, copy_into_to}
use pgnats.RingQueue.Invariant.{Sized, Holds, frame, used, length-frame, stream-append, used-append}

module _ {cap : ℕ} (s : Sized cap) where
  -- the queue after a message of `n` bytes was written at position `p`
  abbrev pub sent : RingQueue → ℕ → List ℕ → RingQueue
  sent q p msg =
      let write' = at cap (p + header_size + length msg) in
      record q {
        write = write';
        is_full = write' == q.read;
        buffer = ring_write cap q.buffer p (frame msg);
      }

  advance_write_lem :
      (q : RingQueue) (p : ℕ) (msg buffer' : List ℕ)
      → q.write ≡ at cap p
      → p + header_size + length msg < cap + cap
      → q.write + (header_size + length msg) < 2 ^ 64
      → buffer' ≡ ring_write cap q.buffer p (frame msg)
      → advance_write cap q (header_size + length msg) buffer' ≡ done (ok tt, sent q p msg)
  unfolding advance_write
  advance_write_lem q p msg buffer' e h k b =
      ap₂ (λ w b'. done (ok tt, record q { write = w; is_full = w == q.read; buffer = b' })) end b
    where
      end :
          usize_add q.write (header_size + length msg) % cap ≡ at cap (p + header_size + length msg)
      end =
          ap (λ k'. k' % cap) (usize_add_small q.write (header_size + length msg) k)
          ∙ ap (λ w. (w + (header_size + length msg)) % cap) e
          ∙ at_add-mod cap p (header_size + length msg) (omega arith)
          ∙ ap (at cap) {x = p + (header_size + length msg)} {y = p + header_size + length msg}
              (omega arith)

  -- The two copies of a message, one behind the other.
  write_frame :
      (buf : List ℕ) (p : ℕ) (msg : List ℕ)
      → ring_write cap
          (ring_write cap buf p (to_le_bytes header_size (length msg)))
          (p + header_size)
          msg
        ≡ ring_write cap buf p (frame msg)
  write_frame buf p msg =
      ap (λ k. ring_write cap (ring_write cap buf p (to_le_bytes header_size (length msg))) k msg)
        {x = p + header_size} {y = p + length (to_le_bytes header_size (length msg))}
        (omega (arith, length-to_le_bytes header_size (length msg)))
      ∙ sym (ring_write-append cap buf p (to_le_bytes header_size (length msg)) msg)

  -- Short of the end of the buffer the copies go to plain indices.
  pub write_frame_straight :
      (buf : List ℕ) (p : ℕ) (msg : List ℕ)
      → p + header_size + length msg ≤ cap
      → write_at (write_at buf p (to_le_bytes header_size (length msg))) (p + header_size) msg
        ≡ ring_write cap buf p (frame msg)
  write_frame_straight buf p msg h =
      sym (
        ring_write-straight cap (write_at buf p (to_le_bytes header_size (length msg)))
          (p + header_size) msg h)
      ∙ ap (λ b. ring_write cap b (p + header_size) msg)
          (sym (
            ring_write-straight cap buf p (to_le_bytes header_size (length msg))
              (omega (arith, length-to_le_bytes header_size (length msg)))))
      ∙ write_frame buf p msg

  send_behind_lem :
      (q : RingQueue) (n : ℕ) (msg : List ℕ)
      → length q.buffer ≡ cap
      → q.write ≡ q.read + n
      → q.write < cap
      → n + header_size + length msg ≤ cap
      → send_behind cap q msg ≡ done (ok tt, sent q (q.read + n) msg)
  unfolding send_behind
  send_behind_lem q n msg e w l h =
      rw
        (
          usize_sub_small q.write q.read (omega arith) (omega arith),
          usize_sub_small cap (q.write - q.read) (omega arith) (omega arith),
          usize_add_small header_size (length msg) (omega arith),
          ge→ltb (cap - (q.write - q.read)) (header_size + length msg) (omega arith),
          copy_wrapped_lem cap s.small q.buffer q.write (to_le_bytes header_size (length msg)) e l
              (omega (arith, length-to_le_bytes header_size (length msg))),
          usize_add_small q.write header_size (omega arith),
          mod_at cap (q.write + header_size) (omega arith),
          copy_wrapped_lem cap s.small _ (at cap (q.write + header_size)) msg
              (length-ring_write cap q.buffer q.write (to_le_bytes header_size (length msg)) ∙ e)
              (ground arith) (omega arith),
        )
        (advance_write_lem q (q.read + n) msg _ (w ∙ sym (at_low cap (q.read + n) (omega arith)))
          (omega arith) (omega arith)
          (ring_write_mod cap _ (q.write + header_size) msg (omega arith)
            ∙ write_frame q.buffer q.write msg
            ∙ ap (λ k. ring_write cap q.buffer k (frame msg)) w))

  send_between_lem :
      (q : RingQueue) (n : ℕ) (msg : List ℕ)
      → length q.buffer ≡ cap
      → q.read < cap
      → q.write + cap ≡ q.read + n
      → n + header_size + length msg ≤ cap
      → send_between cap q msg ≡ done (ok tt, sent q (q.read + n) msg)
  unfolding send_between
  send_between_lem q n msg e r w h =
      rw
        (
          usize_sub_small q.read q.write (omega arith) (omega arith),
          usize_add_small header_size (length msg) (omega arith),
          ge→ltb (q.read - q.write) (header_size + length msg) (omega arith),
          usize_add_small q.write header_size (omega arith),
          copy_into_to q.buffer q.write (q.write + header_size)
              (to_le_bytes header_size (length msg))
              (omega (arith, length-to_le_bytes header_size (length msg))) (omega arith),
          usize_add_small (q.write + header_size) (length msg) (omega arith),
          copy_into_to (write_at q.buffer q.write (to_le_bytes header_size (length msg)))
              (q.write + header_size) (q.write + header_size + length msg) msg (omega arith)
              (omega
                (arith, length-write_at q.buffer q.write (to_le_bytes header_size (length msg)))),
        )
        (advance_write_lem q (q.read + n) msg _ (ground arith) (omega arith) (omega arith) (
          write_frame_straight q.buffer q.write msg (omega arith)
          ∙ ap (λ k. ring_write cap q.buffer k (frame msg)) {x = q.write} {y = at cap (q.read + n)}
              (ground arith)
          ∙ ring_write_mod cap q.buffer (q.read + n) (frame msg) (omega (arith, length-frame msg))))

  sent-Holds :
      {q : RingQueue} {msgs : List (List ℕ)} (msg : List ℕ)
      → Holds cap q msgs
      → used msgs + header_size + length msg ≤ cap
      → Holds cap (sent q (q.read + used msgs) msg) (msgs ++ msg ∷ [])
  sent-Holds {q} {msgs} msg v h = record {
    size = length-ring_write cap q.buffer (q.read + used msgs) (frame msg) ∙ v.size;
    read_in = v.read_in;
    room = omega (arith, used-append msgs (msg ∷ []));
    write_at_end = ap (at cap) (omega (arith, used-append msgs (msg ∷ [])));
    full_iff = ground (arith, used-append msgs (msg ∷ []));
    content =
        ap (ring_read cap buf q.read) (used-append msgs (msg ∷ []))
        ∙ ring_read-add cap buf q.read (used msgs) (used (msg ∷ []))
        ∙ ap₂ ◌++◌
            (ring_read-ring_write_before cap q.buffer q.read (used msgs) (q.read + used msgs)
                (frame msg) (omega arith) (omega (arith, length-frame msg))
                (omega (arith, length-frame msg))
              ∙ v.content)
            (ap (ring_read cap buf (q.read + used msgs)) (omega (arith, length-frame msg))
              ∙ ring_read-ring_write_self cap q.buffer (q.read + used msgs) (frame msg) v.size
                  (omega (arith, length-frame msg)) (omega (arith, length-frame msg))
              ∙ sym (append-nil (frame msg)))
        ∙ sym (stream-append msgs (msg ∷ []));
  }
    where
      buf : List ℕ
      buf = ring_write cap q.buffer (q.read + used msgs) (frame msg)

  -- Past its two guards `try_send` goes by the order of the indices.
  pub try_send_open :
      (q : RingQueue) (msg : List ℕ)
      → q.is_full ≡ false
      → header_size + length msg ≤ cap
      → try_send cap q msg
        ≡ (if leb q.read q.write then send_behind cap q msg else send_between cap q msg)
  unfolding try_send
  try_send_open q msg f h =
      ground (arith, usize_sub_small cap header_size (omega arith) (omega arith))

  -- Where the queue holds some messages and a further one fits beside them with its header,
  -- try_send accepts it without a panic, and the queue then holds it behind the others.
  pub try_send_accepts :
      {q : RingQueue} {msgs : List (List ℕ)} (msg : List ℕ)
      → Holds cap q msgs
      → used msgs + header_size + length msg ≤ cap
      → (q' : RingQueue) × (try_send cap q msg ≡ done (ok tt, q')) × Holds cap q' (msgs ++ msg ∷ [])
  try_send_accepts {q} {msgs} msg v h = (
    sent q (q.read + used msgs) msg,
    try_send_open q msg (ground arith) (omega arith) ∙ elim (lt-or-ge (q.read + used msgs) cap) [
      | inl l ↦
          let w : q.write ≡ q.read + used msgs = v.write_at_end ∙ at_low cap _ l in
          rw (le→leb q.read q.write (omega arith))
            (send_behind_lem q (used msgs) msg v.size w (omega arith) h)
      | inr g ↦
          let w : q.write ≡ q.read + used msgs - cap = v.write_at_end ∙ at_high cap _ g in
          rw (gt→leb q.read q.write (omega arith))
            (send_between_lem q (used msgs) msg v.size v.read_in (omega arith) h)
    ],
    sent-Holds msg v h,
  )
