-- ===== src/Subscriber/Exit.antt =====
-- `background_worker_subscriber_main` of src/bgw/subscriber/mod.rs from its start to its end.
use pgnats.Common.{
  ℕ, ◌+◌, ◌≡◌, refl, inl, inr, Option, none, some, List, [], ◌∷◌, ◌++◌, done, Result, ok, err,
  length, lt-or-ge,
}
use pgnats.Text.{Text}
use pgnats.Messages.{LauncherMessage}
use pgnats.RingQueue.{RingQueue}
use pgnats.RingQueue.Header.{header_size}
use pgnats.RingQueue.Invariant.{Sized, used}
use pgnats.RingQueue.Send.{try_send_accepts}
use pgnats.RingQueue.Refuse.{try_send_refuses}
use pgnats.Launcher.Bus.{send_message_to_launcher}
use pgnats.Launcher.Retry.{Intact}
use pgnats.Subscriber.Runtime.{Runtime}
use pgnats.Subscriber.Context.{Database}
use pgnats.Subscriber.Main.{
  Wake, Start, announced, reported, background_worker_subscriber_main_internal,
  background_worker_subscriber_main,
}
use pgnats.Subscriber.Lifetime.{Quiet, run_if_installed-Quiet}

send_message_to_launcher-Intact :
    {cap : ℕ} (s : Sized cap) (q : RingQueue) (msg : Option (List ℕ))
    → Intact cap q
    → (r : Result (Unit {0}) (Unit {0})) × (q' : RingQueue) × (send_message_to_launcher cap q msg
        ≡ done (r, q'))
      × Intact cap q'
unfolding send_message_to_launcher
send_message_to_launcher-Intact s q none i = (err tt, q, refl, i)
send_message_to_launcher-Intact {cap} s q (some msg) (msgs, v) =
    elim (lt-or-ge cap (used msgs + header_size + length msg)) [
      | inl over ↦ (err tt, q, try_send_refuses s msg v over, (msgs, v))
      | inr fits ↦
          let (q', e, v') = try_send_accepts s msg v fits in (ok tt, q', e, (msgs ++ msg ∷ [], v'))
    ]

module _ (R : Runtime) (D : Database) (encode : LauncherMessage → Option (List ℕ)) {cap : ℕ}
    (sized : Sized cap) where
  open R use {World}

  announced-Quiet :
      (r : Result (Unit {0}) (Unit {0})) (q : RingQueue) (start : Start R D) (w : World)
      (wakes : List (Wake R D))
      → Quiet R D w
      → Quiet R D (announced R D encode cap (r, q) start w wakes).1
  announced-Quiet (ok u) q start w wakes h = run_if_installed-Quiet R D start.status start w wakes h
  announced-Quiet (err e) q start w wakes h = h

  announced_bus :
      (r : Result (Unit {0}) (Unit {0})) (q : RingQueue) (start : Start R D) (w : World)
      (wakes : List (Wake R D))
      → (announced R D encode cap (r, q) start w wakes).2 ≡ q
  announced_bus (ok u) q start w wakes = refl
  announced_bus (err e) q start w wakes = refl

  -- Where no task lives at first, the bus holds some messages and others keep it so: the main
  -- function of a worker returns without a panic, however it ends, no task lives then, and the
  -- bus holds some messages.
  pub background_worker_subscriber_main-Quiet :
      (others : RingQueue → RingQueue) (db_oid : ℕ) (db_name : Option Text) (q : RingQueue)
      (start : Start R D) (w : World) (wakes : List (Wake R D))
      → ((p : RingQueue) → Intact cap p → Intact cap (others p))
      → Intact cap q
      → Quiet R D w
      → (r : Result (Unit {0}) Text) × (w' : World) × (q' : RingQueue)
        × (background_worker_subscriber_main R D encode cap others db_oid db_name q start w wakes
            ≡ done (r, w', q'))
        × Quiet R D w'
        × Intact cap q'
  unfolding background_worker_subscriber_main background_worker_subscriber_main_internal
  background_worker_subscriber_main-Quiet others db_oid none q start w wakes keep i h =
      (_, w, q, refl, h, i)
  background_worker_subscriber_main-Quiet others db_oid (some db_name) q start w wakes keep i h =
      let (r, q1, e, i1) =
        send_message_to_launcher-Intact sized q
          (encode (LauncherMessage.db_extension_status db_oid start.status)) i in
      let bus = announced_bus r q1 start w wakes in
      let (result, w', q2) = announced R D encode cap (r, q1) start w wakes in
      let (sent, q3, f, i3) =
        send_message_to_launcher-Intact sized (others q2)
          (encode (LauncherMessage.subscriber_exit db_oid result)) (keep q2 (rw bus i1)) in
      (
        reported R D encode cap sent result,
        w',
        q3,
        rw (e, f),
        announced-Quiet r q1 start w wakes h,
        i3,
      )
