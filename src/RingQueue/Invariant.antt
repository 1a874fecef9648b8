-- ===== src/RingQueue/Invariant.antt =====
-- What the ring queue of src/bgw/ring_queue.rs stands for: the queue of the messages whose frames
-- lie from the read index on.
use pgnats.Common.{
  ℕ, ◌+◌, ◌^◌, ◌≤◌, ◌<◌, ◌≡◌, refl, sym, ◌∙◌, List, [], ◌∷◌, ◌++◌, ◌==◌, length, arith,
  length-append, length-replicate, append_assoc, ap,
}
use pgnats.RingQueue.{RingQueue, new}
use pgnats.RingQueue.Header.{header_size, to_le_bytes, length-to_le_bytes}
use pgnats.RingQueue.Window.{at, ring_read}

-- a message behind its length prefix
abbrev pub frame : List ℕ → List ℕ
frame msg = to_le_bytes header_size (length msg) ++ msg

abbrev pub stream : List (List ℕ) → List ℕ
stream [] = []
stream (msg ∷ msgs) = frame msg ++ stream msgs

-- the bytes that the messages take
abbrev pub used : List (List ℕ) → ℕ
used [] = 0
used (msg ∷ msgs) = header_size + length msg + used msgs

pub length-frame : (msg : List ℕ) → length (frame msg) ≡ header_size + length msg
length-frame msg = omega (
  arith,
  length-append (to_le_bytes header_size (length msg)) msg,
  length-to_le_bytes header_size (length msg),
)

pub length-stream : (msgs : List (List ℕ)) → length (stream msgs) ≡ used msgs
length-stream [] = refl
length-stream (msg ∷ msgs) =
    omega (arith, length-append (frame msg) (stream msgs), length-frame msg, length-stream msgs)

pub stream-append : (msgs rest : List (List ℕ)) → stream (msgs ++ rest) ≡ stream msgs ++ stream rest
stream-append [] rest = refl
stream-append (msg ∷ msgs) rest =
    ap (◌++◌ (frame msg)) (stream-append msgs rest)
    ∙ sym (append_assoc (frame msg) (stream msgs) (stream rest))

pub used-append : (msgs rest : List (List ℕ)) → used (msgs ++ rest) ≡ used msgs + used rest
used-append [] rest = omega arith
used-append (msg ∷ msgs) rest = omega (arith, used-append msgs rest)

-- A capacity that holds a header, and is small enough for `usize` sums not to wrap.
pub record Sized (cap : ℕ) : Type 0 where
  pub header_fits : header_size ≤ cap
  pub small : cap < 2 ^ 62

pub record Holds (cap : ℕ) (q : RingQueue) (msgs : List (List ℕ)) : Type 0 where
  pub size : length q.buffer ≡ cap
  pub read_in : q.read < cap
  pub room : used msgs ≤ cap
  pub write_at_end : q.write ≡ at cap (q.read + used msgs)
  pub full_iff : q.is_full ≡ (used msgs == cap)
  pub content : ring_read cap q.buffer q.read (used msgs) ≡ stream msgs

-- A new queue holds no message.
pub new-Holds : {cap : ℕ} → Sized cap → Holds cap (new cap) []
unfolding new ring_read
new-Holds {cap} s = record {
  size = length-replicate cap 0;
  read_in = omega arith;
  room = omega arith;
  write_at_end = ground arith;
  full_iff = ground arith;
  content = refl;
}
