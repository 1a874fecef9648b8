-- ===== src/RingQueue/Fifo.antt =====
-- The ring queue of src/bgw/ring_queue.rs against a FIFO queue of messages with a budget of bytes.
use pgnats.Common.{
  ℕ, ◌+◌, ◌<◌, ◌≡◌, refl, inl, inr, Option, none, some, List, [], ◌∷◌, ◌++◌, Outcome, done, ◌>>=◌,
  Result, ok, err, length, lt-or-ge, leb, le→leb, gt→leb, if◌then◌else◌,
}
use pgnats.RingQueue.{RingQueue, try_send, try_recv}
use pgnats.RingQueue.Header.{header_size}
use pgnats.RingQueue.Invariant.{Sized, Holds, used}
use pgnats.RingQueue.Send.{try_send_accepts}
use pgnats.RingQueue.Refuse.{try_send_refuses}
use pgnats.RingQueue.Recv.{received, try_recv_takes, try_recv_empty}

pub data Op : Type 0 where
  send : List ℕ → Op
  recv : Op

pub data Reply : Type 0 where
  sent : Result (Unit {0}) (Unit {0}) → Reply
  got : Option (List ℕ) → Reply

-- a client's calls in order, with what each returns
pub run : ℕ → RingQueue → List Op → Outcome (List Reply)
run cap q [] = done []
run cap q (send msg ∷ ops) = do
  (r, q') ← try_send cap q msg
  rest ← run cap q' ops
  done (sent r ∷ rest)
run cap q (recv ∷ ops) = do (r, q') ← try_recv cap q; rest ← run cap q' ops; done (got r ∷ rest)

-- The abstract queue: one step, and the calls in order.
abbrev pub fifo_step : ℕ → List (List ℕ) → Op → Reply × List (List ℕ)
fifo_step cap msgs (send msg) =
    if leb (used msgs + header_size + length msg) cap
    then (sent (ok tt), msgs ++ msg ∷ [])
    else (sent (err tt), msgs)
fifo_step cap [] recv = (got none, [])
fifo_step cap (msg ∷ msgs) recv = (got (some msg), msgs)

pub fifo_run : ℕ → List (List ℕ) → List Op → List Reply
fifo_run cap msgs [] = []
fifo_run cap msgs (op ∷ ops) = let (r, msgs') = fifo_step cap msgs op in r ∷ fifo_run cap msgs' ops

-- No state that the calls pass through has its bytes exactly used up.
abbrev pub NeverFull : ℕ → List (List ℕ) → List Op → Type 0
NeverFull cap msgs [] = used msgs < cap
NeverFull cap msgs (op ∷ ops) = (used msgs < cap) × NeverFull cap (fifo_step cap msgs op).1 ops

module _ {cap : ℕ} (s : Sized cap) where
  -- For any sequence of sends and receives on a ring queue that holds some messages (capacity at
  -- least a header and below 2^62), where the abstract FIFO queue never has its bytes exactly
  -- used up: the calls return what those of the FIFO queue with a byte budget return, in order,
  -- and none of them panics.
  pub run_refines :
      (q : RingQueue) (msgs : List (List ℕ)) (ops : List Op)
      → Holds cap q msgs
      → NeverFull cap msgs ops
      → run cap q ops ≡ done (fifo_run cap msgs ops)
  unfolding run fifo_run
  run_refines q msgs [] v n = refl
  run_refines q [] (recv ∷ ops) v n = rw (try_recv_empty s v, run_refines q [] ops v n.1)
  run_refines q (msg ∷ msgs) (recv ∷ ops) v n =
      let (e, v') = try_recv_takes s msg msgs v (inl n.0) in
      rw (e, run_refines (received cap q msg) msgs ops v' n.1)
  run_refines q msgs (send msg ∷ ops) v n =
      elim (lt-or-ge cap (used msgs + header_size + length msg)) [
        | inl over ↦
            rw (try_send_refuses s msg v over, gt→leb _ _ over)
              (rw (run_refines q msgs ops v (rw (gt→leb _ _ over) at n.1)))
        | inr fits ↦
            let (q', e, v') = try_send_accepts s msg v fits in
            rw (e, le→leb _ _ fits)
              (rw (run_refines q' (msgs ++ msg ∷ []) ops v' (rw (le→leb _ _ fits) at n.1)))
      ]
