-- ===== src/RingQueue/Tests.antt =====
-- The theorems on src/bgw/ring_queue.rs at small queues.
use pgnats.Common.{
  ℕ, ◌≡◌, refl, false, true, none, some, List, [], ◌∷◌, ◌++◌, done, panic, inl, ok, err, replicate,
  arith,
}
use pgnats.RingQueue.{RingQueue, new, try_send, try_recv}
use pgnats.RingQueue.Header.{to_le_bytes}
use pgnats.RingQueue.Window.{ring_read}
use pgnats.RingQueue.Invariant.{Sized, Holds, new-Holds}
use pgnats.RingQueue.Send.{try_send_accepts}
use pgnats.RingQueue.Refuse.{try_send_refuses}
use pgnats.RingQueue.Recv.{received, try_recv_takes}
use pgnats.RingQueue.Faults.{try_recv_panics, refill_is_lost}
use pgnats.RingQueue.Fifo.{Op, send, recv, run, fifo_run, run_refines}

Sized-32 : Sized 32
Sized-32 = record { header_fits = omega arith; small = omega arith }

Sized-16 : Sized 16
Sized-16 = record { header_fits = omega arith; small = omega arith }

-- a frame at the indices 20 to 29
abbrev one_held : RingQueue
one_held = record {
  read = 20;
  write = 30;
  is_full = false;
  buffer = replicate 20 7 ++ 2 ∷ 0 ∷ 0 ∷ 0 ∷ 0 ∷ 0 ∷ 0 ∷ 0 ∷ 65 ∷ 66 ∷ 7 ∷ 7 ∷ [];
}

one_held-Holds : Holds 32 one_held ((65 ∷ 66 ∷ []) ∷ [])
unfolding ring_read to_le_bytes
one_held-Holds = record {
  size = refl;
  read_in = omega arith;
  room = omega arith;
  write_at_end = refl;
  full_iff = refl;
  content = refl;
}

-- a frame that fills the buffer, from index 8 round to index 7
abbrev full_wrapped : RingQueue
full_wrapped = record {
  read = 8;
  write = 8;
  is_full = true;
  buffer = 1 ∷ 2 ∷ 3 ∷ 4 ∷ 5 ∷ 6 ∷ 7 ∷ 8 ∷ 8 ∷ 0 ∷ 0 ∷ 0 ∷ 0 ∷ 0 ∷ 0 ∷ 0 ∷ [];
}

abbrev eight : List ℕ
eight = 1 ∷ 2 ∷ 3 ∷ 4 ∷ 5 ∷ 6 ∷ 7 ∷ 8 ∷ []

full_wrapped-Holds : Holds 16 full_wrapped (eight ∷ [])
unfolding ring_read to_le_bytes
full_wrapped-Holds = record {
  size = refl;
  read_in = omega arith;
  room = omega arith;
  write_at_end = refl;
  full_iff = refl;
  content = refl;
}

abbrev full_straight : RingQueue
full_straight = record {
  read = 0;
  write = 0;
  is_full = true;
  buffer = 8 ∷ 0 ∷ 0 ∷ 0 ∷ 0 ∷ 0 ∷ 0 ∷ 0 ∷ 1 ∷ 2 ∷ 3 ∷ 4 ∷ 5 ∷ 6 ∷ 7 ∷ 8 ∷ [];
}

full_straight-Holds : Holds 16 full_straight (eight ∷ [])
unfolding ring_read to_le_bytes
full_straight-Holds = record {
  size = refl;
  read_in = omega arith;
  room = omega arith;
  write_at_end = refl;
  full_iff = refl;
  content = refl;
}

-- Two messages, of which the second one is written and read round the end of the buffer.
abbrev calls : List Op
calls =
    send (1 ∷ 2 ∷ 3 ∷ 4 ∷ 5 ∷ [])
    ∷ send (6 ∷ 7 ∷ [])
    ∷ recv
    ∷ send (8 ∷ 9 ∷ [])
    ∷ send eight
    ∷ recv
    ∷ recv
    ∷ recv
    ∷ []

run_refines_example : run 32 (new 32) calls ≡ done (fifo_run 32 [] calls)
run_refines_example = run_refines Sized-32 (new 32) [] calls (new-Holds Sized-32) (
  omega arith,
  (
    omega arith,
    (
      omega arith,
      (omega arith, (omega arith, (omega arith, (omega arith, (omega arith, omega arith))))),
    ),
  ),
)

try_send_accepts_example :
    (q' : RingQueue) × (try_send 32 one_held (67 ∷ 68 ∷ 69 ∷ []) ≡ done (ok tt, q'))
    × Holds 32 q' ((65 ∷ 66 ∷ []) ∷ (67 ∷ 68 ∷ 69 ∷ []) ∷ [])
try_send_accepts_example =
    try_send_accepts Sized-32 (67 ∷ 68 ∷ 69 ∷ []) one_held-Holds (omega arith)

try_send_refuses_example : try_send 32 one_held (replicate 15 1) ≡ done (err tt, one_held)
try_send_refuses_example = try_send_refuses Sized-32 (replicate 15 1) one_held-Holds (omega arith)

try_recv_panics_example : try_recv 16 full_wrapped ≡ panic
try_recv_panics_example =
    try_recv_panics Sized-16 eight [] full_wrapped-Holds (omega arith) (omega arith)

refill_is_lost_example :
    (q' : RingQueue) × (q'' : RingQueue) × (try_recv 16 full_straight ≡ done (some eight, q'))
    × (try_send 16 q' (replicate 8 9) ≡ done (ok tt, q''))
    × (try_recv 16 q'' ≡ done (none, q''))
refill_is_lost_example =
    refill_is_lost eight (replicate 8 9) Sized-16 full_straight-Holds refl refl refl

try_recv_takes_example :
    (try_recv 32 one_held ≡ done (some (65 ∷ 66 ∷ []), received 32 one_held (65 ∷ 66 ∷ [])))
    × Holds 32 (received 32 one_held (65 ∷ 66 ∷ [])) []
try_recv_takes_example =
    try_recv_takes Sized-32 (65 ∷ 66 ∷ []) [] one_held-Holds (inl (omega arith))
