-- ===== src/Launcher/Retry.antt =====
-- `send_message_to_launcher_with_retry` of src/bgw/launcher/mod.rs.
use pgnats.Common.{
  ℕ, zero, suc, ◌+◌, ◌<◌, ◌≤◌, ◌≡◌, refl, ◌⊎◌, inl, inr, some, List, [], ◌∷◌, ◌++◌, Outcome, done,
  Result, ok, err, length, arith, lt-or-ge,
}
use pgnats.RingQueue.{RingQueue}
use pgnats.RingQueue.Header.{header_size}
use pgnats.RingQueue.Invariant.{Sized, Holds, used}
use pgnats.RingQueue.Send.{try_send_accepts}
use pgnats.RingQueue.Refuse.{try_send_refuses}
use pgnats.Launcher.Bus.{retry, send_message_to_launcher_with_retry}

-- the bus holds some messages
abbrev pub Intact : ℕ → RingQueue → Type 0
Intact cap q = (msgs : List (List ℕ)) × Holds cap q msgs

-- the message stands on the bus, behind all others
abbrev pub Last : ℕ → RingQueue → List ℕ → Type 0
Last cap q msg = (msgs : List (List ℕ)) × Holds cap q (msgs ++ msg ∷ [])

-- A normal return: with success the message is on the bus, without it the bus is intact.
abbrev pub Delivered : ℕ → List ℕ → Outcome (Result (Unit {0}) (Unit {0}) × RingQueue) → Type 0
Delivered cap msg r =
    ((q : RingQueue) × (r ≡ done (ok tt, q)) × Last cap q msg)
    ⊎ ((q : RingQueue) × (r ≡ done (err tt, q)) × Intact cap q)

module _ {cap : ℕ} (s : Sized cap) (others : ℕ → RingQueue → RingQueue)
    (keep : (n : ℕ) (q : RingQueue) → Intact cap q → Intact cap (others n q)) where
  retry-Delivered :
      (n left : ℕ) (q : RingQueue) (msg : List ℕ)
      → Intact cap q
      → Delivered cap msg (retry cap others n left q msg)
  unfolding retry
  retry-Delivered n zero q msg i = inr (q, refl, i)
  retry-Delivered n (suc left) q msg (msgs, v) =
      elim (lt-or-ge cap (used msgs + header_size + length msg)) [
        | inr fits ↦ let (q', e, v') = try_send_accepts s msg v fits in inl (q', rw e, (msgs, v'))
        | inl over ↦
            rw (try_send_refuses s msg v over)
              (retry-Delivered (n + 1) left (others n q) msg (keep n q (msgs, v)))
      ]

  -- Where the bus holds some messages and others keep it a bus that holds some messages,
  -- send_message_to_launcher_with_retry does not panic: either it succeeds and the message is the
  -- last one on the bus, or it fails and the bus holds some messages.
  pub send_message_to_launcher_with_retry-Delivered :
      (tries : ℕ) (q : RingQueue) (msg : List ℕ)
      → Intact cap q
      → Delivered cap msg (send_message_to_launcher_with_retry cap others tries q (some msg))
  unfolding send_message_to_launcher_with_retry
  send_message_to_launcher_with_retry-Delivered tries q msg i = retry-Delivered 0 tries q msg i

  -- the bus after `k` rests
  abbrev pub rested : ℕ → ℕ → RingQueue → RingQueue
  rested n zero q = q
  rested n (suc k) q = rested (n + 1) k (others n q)

  retry_succeeds :
      (n left k : ℕ) (q : RingQueue) (msg : List ℕ) (msgs : List (List ℕ))
      → Intact cap q
      → k < left
      → Holds cap (rested n k q) msgs
      → used msgs + header_size + length msg ≤ cap
      → (q' : RingQueue) × (retry cap others n left q msg ≡ done (ok tt, q')) × Last cap q' msg
  unfolding retry
  retry_succeeds n zero k q msg msgs i l v h = absurd (omega arith)
  retry_succeeds n (suc left) zero q msg msgs i l v h =
      let (q', e, v') = try_send_accepts s msg v h in (q', rw e, (msgs, v'))
  retry_succeeds n (suc left) (suc k) q msg msgs (now, w) l v h =
      elim (lt-or-ge cap (used now + header_size + length msg)) [
        | inr fits ↦ let (q', e, v') = try_send_accepts s msg w fits in (q', rw e, (now, v'))
        | inl over ↦ rw (try_send_refuses s msg w over) (
            retry_succeeds (n + 1) left k (others n q) msg msgs (keep n q (now, w)) (omega arith) v
              h)
      ]

  -- Where the bus holds some messages, others keep it a bus that holds some messages, and after
  -- fewer rests than there are tries (in which only the others changed it) it has room for the
  -- message: send_message_to_launcher_with_retry succeeds, and the message is the last one on the
  -- bus.
  pub send_message_to_launcher_with_retry_succeeds :
      (tries k : ℕ) (q : RingQueue) (msg : List ℕ) (msgs : List (List ℕ))
      → Intact cap q
      → k < tries
      → Holds cap (rested 0 k q) msgs
      → used msgs + header_size + length msg ≤ cap
      → (q' : RingQueue) × (send_message_to_launcher_with_retry cap others tries q (some msg)
          ≡ done (ok tt, q'))
        × Last cap q' msg
  unfolding send_message_to_launcher_with_retry
  send_message_to_launcher_with_retry_succeeds tries k q msg msgs i l v h =
      retry_succeeds 0 tries k q msg msgs i l v h
