-- ===== src/RingQueue/Refuse.antt =====
-- `try_send` of src/bgw/ring_queue.rs refuses a message that does not fit.
use pgnats.Common.{
  ℕ, ◌+◌, ◌-◌, ◌≤◌, ◌<◌, ◌≡◌, ◌∙◌, ◌⊎◌, inl, inr, true, List, done, err, length, arith, lt-or-ge,
  Bool-cases, le→leb, gt→leb, lt→ltb,
}
use pgnats.RingQueue.{RingQueue, send_behind, send_between, try_send}
use pgnats.RingQueue.Header.{header_size}
use pgnats.RingQueue.Window.{at_low, at_high}
use pgnats.RingQueue.Copies.{usize_add_small, usize_sub_small}
use pgnats.RingQueue.Invariant.{Sized, Holds, used}
use pgnats.RingQueue.Send.{try_send_open}

module _ {cap : ℕ} (s : Sized cap) where
  send_behind_full :
      (q : RingQueue) (msg : List ℕ)
      → q.read ≤ q.write
      → q.write < cap
      → header_size + length msg ≤ cap
      → cap < q.write - q.read + header_size + length msg
      → send_behind cap q msg ≡ done (err tt, q)
  unfolding send_behind
  send_behind_full q msg r w f h = rw (
    usize_sub_small q.write q.read (omega arith) (omega arith),
    usize_sub_small cap (q.write - q.read) (omega arith) (omega arith),
    usize_add_small header_size (length msg) (omega arith),
    lt→ltb (cap - (q.write - q.read)) (header_size + length msg) (omega arith),
  )

  send_between_full :
      (q : RingQueue) (msg : List ℕ)
      → q.write < q.read
      → q.read ≤ cap
      → header_size + length msg ≤ cap
      → q.read < q.write + header_size + length msg
      → send_between cap q msg ≡ done (err tt, q)
  unfolding send_between
  send_between_full q msg r w f h = rw (
    usize_sub_small q.read q.write (omega arith) (omega arith),
    usize_add_small header_size (length msg) (omega arith),
    lt→ltb (q.read - q.write) (header_size + length msg) (omega arith),
  )

  -- A full queue refuses, and so does any queue a message longer than the capacity leaves room for.
  try_send_guards :
      (q : RingQueue) (msg : List ℕ)
      → (q.is_full ≡ true) ⊎ (cap < header_size + length msg)
      → try_send cap q msg ≡ done (err tt, q)
  unfolding try_send
  try_send_guards q msg g =
      ground (arith, usize_sub_small cap header_size (omega arith) (omega arith))

  -- Where the queue holds some messages and a further one does not fit beside them with its
  -- header, try_send returns an error, without a panic, and leaves the queue as it was.
  pub try_send_refuses :
      {q : RingQueue} {msgs : List (List ℕ)} (msg : List ℕ)
      → Holds cap q msgs
      → cap < used msgs + header_size + length msg
      → try_send cap q msg ≡ done (err tt, q)
  try_send_refuses {q} {msgs} msg v h = elim (lt-or-ge cap (header_size + length msg)) [
    | inl long ↦ try_send_guards q msg (inr long)
    | inr short ↦ elim (Bool-cases q.is_full) [
      | inl full ↦ try_send_guards q msg (inl full)
      | inr open_ ↦ try_send_open s q msg open_ short ∙ elim (lt-or-ge (q.read + used msgs) cap) [
        | inl l ↦
            let w : q.write ≡ q.read + used msgs = v.write_at_end ∙ at_low cap _ l in
            rw (le→leb q.read q.write (omega arith))
              (send_behind_full q msg (omega arith) (omega arith) short (omega arith))
        | inr g ↦
            let w : q.write ≡ q.read + used msgs - cap = v.write_at_end ∙ at_high cap _ g in
            let less : used msgs < cap = ground arith in
            rw (gt→leb q.read q.write (omega arith))
              (send_between_full q msg (omega arith) (omega arith) short (omega arith))
      ]
    ]
  ]
