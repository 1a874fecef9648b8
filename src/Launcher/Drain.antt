-- ===== src/Launcher/Drain.antt =====
-- `process_launcher_bus` of src/bgw/launcher/mod.rs handles every message of the bus once, in the
-- order in which they were sent, and leaves the bus empty.
use pgnats.Common.{ℕ, zero, suc, ◌<◌, ◌≡◌, inl, Option, some, List, [], ◌∷◌, done, arith, length}
use pgnats.Text.{Text}
use pgnats.Messages.{LauncherMessage}
use pgnats.RingQueue.{RingQueue}
use pgnats.RingQueue.Invariant.{Sized, Holds, used}
use pgnats.RingQueue.Recv.{received, try_recv_takes, try_recv_empty}
use pgnats.Launcher.Postgres.{Postgres}
use pgnats.Launcher.Bus.{State, handle_decoded, process_launcher_bus}

module _ (P : Postgres) (entry_point : Text) (decode : List ℕ → Option LauncherMessage) where
  abbrev Bus : Type 0
  Bus = RingQueue

  -- the messages one after the other
  unfoldable pub handle_all : List (List ℕ) → State P entry_point → State P entry_point
  handle_all [] s = s
  handle_all (msg ∷ msgs) s = handle_all msgs (handle_decoded P entry_point (decode msg) s)

  -- Where the bus holds some messages that do not use up all of its bytes, and the fuel exceeds
  -- their number, process_launcher_bus ends without a panic, with every message handled once in
  -- order and the bus empty.
  pub process_launcher_bus_drains :
      {cap : ℕ} (sized : Sized cap) (fuel : ℕ) (q : RingQueue) (msgs : List (List ℕ))
      (s : State P entry_point)
      → Holds cap q msgs
      → used msgs < cap
      → length msgs < fuel
      → (q' : RingQueue) × (process_launcher_bus P entry_point decode cap fuel q s
          ≡ done (some (q', handle_all msgs s)))
        × Holds cap q' []
  unfolding process_launcher_bus handle_all
  process_launcher_bus_drains sized zero q msgs s v u f = absurd (omega arith)
  process_launcher_bus_drains sized (suc fuel) q [] s v u f = (q, rw (try_recv_empty sized v), v)
  process_launcher_bus_drains {cap} sized (suc fuel) q (msg ∷ msgs) s v u f =
      let (e, v') = try_recv_takes sized msg msgs v (inl u) in
      let (q', r, h) =
        process_launcher_bus_drains sized fuel (received cap q msg) msgs
          (handle_decoded P entry_point (decode msg) s) v' (omega arith) (omega arith) in
      (q', rw (e, r), h)
