-- ===== src/Launcher/Unique.antt =====
-- From its start on, the launcher of src/bgw/launcher has at most one worker that is not terminated
-- for a database.
use pgnats.Common.{ℕ, ◌≡◌, refl, inl, ◌∙◌, Option, none, some, List, [], ◌∷◌, done, ok, err}
use pgnats.Text.{Text}
use pgnats.Messages.{LauncherMessage}
use pgnats.RingQueue.{RingQueue}
use pgnats.RingQueue.Invariant.{Sized, Holds}
use pgnats.Launcher.Postgres.{Postgres}
use pgnats.Launcher.Worker.{Started}
use pgnats.Launcher.Context.{
  LauncherContext, empty, keep_started, start_subscribe_worker, process_terminated_workers,
}
use pgnats.Launcher.Bus.{State, handle_decoded, add_subscribe_workers, wake_up, main_loop}
use pgnats.Launcher.Phases.{Disjoint}
use pgnats.Launcher.Invariant.{handle_message-Disjoint}
use pgnats.Launcher.Drain.{handle_all, process_launcher_bus_drains}
use pgnats.Launcher.Shutdown.{AllFair}

module _ (P : Postgres) (entry_point : Text) where
  open P use {World}

  keep_started-workers :
      (ctx : LauncherContext P) (oid : ℕ) (r : Started P)
      → (keep_started P ctx oid r).1.workers ≡ ctx.workers
  keep_started-workers ctx oid (ok e, w) = refl
  keep_started-workers ctx oid (err e, w) = refl

  -- At the start no worker runs.
  add_subscribe_workers-workers :
      (oids : List ℕ) (ctx : LauncherContext P) (w : World)
      → (add_subscribe_workers P entry_point oids (ctx, w)).0.workers ≡ ctx.workers
  unfolding add_subscribe_workers start_subscribe_worker
  add_subscribe_workers-workers [] ctx w = refl
  add_subscribe_workers-workers (oid ∷ oids) ctx w =
      let (_, ctx', w') = start_subscribe_worker P ctx oid entry_point w in
      add_subscribe_workers-workers oids ctx' w' ∙ keep_started-workers ctx oid _

  started-Disjoint :
      (oids : List ℕ) (w : World)
      → Disjoint P (add_subscribe_workers P entry_point oids (empty P, w)).0
  started-Disjoint oids w db = inl (rw (add_subscribe_workers-workers oids (empty P) w))

  module _ (decode : List ℕ → Option LauncherMessage) where
    handle_decoded-Disjoint :
        (msg : Option LauncherMessage) (s : State P entry_point)
        → Disjoint P s.0
        → Disjoint P (handle_decoded P entry_point msg s).0
    unfolding handle_decoded
    handle_decoded-Disjoint none s d = d
    handle_decoded-Disjoint (some msg) (ctx, w) d =
        handle_message-Disjoint P entry_point msg ctx w d

    handle_all-Disjoint :
        (msgs : List (List ℕ)) (s : State P entry_point)
        → Disjoint P s.0
        → Disjoint P (handle_all P entry_point decode msgs s).0
    unfolding handle_all
    handle_all-Disjoint [] s d = d
    handle_all-Disjoint (msg ∷ msgs) s d =
        handle_all-Disjoint msgs (handle_decoded P entry_point (decode msg) s)
          (handle_decoded-Disjoint (decode msg) s d)

    module _ {cap : ℕ} (sized : Sized cap) (fuel : ℕ) where
      Runs : List (RingQueue → RingQueue) → RingQueue → State P entry_point → Type 0
      Runs sends q s =
          (q' : RingQueue) × (s' : State P entry_point) × (main_loop P entry_point decode cap fuel
              sends q s
            ≡ done (some (q', s')))
          × Disjoint P s'.0

      main_loop-Runs :
          (sends : List (RingQueue → RingQueue)) (q : RingQueue) (s : State P entry_point)
          → Holds cap q []
          → AllFair cap fuel sends
          → Disjoint P s.0
          → Runs sends q s
      unfolding main_loop wake_up process_terminated_workers Runs
      main_loop-Runs [] q s v f d = (q, s, refl, d)
      main_loop-Runs (send ∷ sends) q (ctx, w) v (f, fs) d =
          let (msgs, v', u, l) = f q v in
          let s1 = process_terminated_workers P ctx w in
          let (q', e, v'') =
            process_launcher_bus_drains P entry_point decode sized fuel (send q) msgs s1 v' u l in
          let (q'', s'', e', d') =
            main_loop-Runs sends q' (handle_all P entry_point decode msgs s1) v'' fs
              (handle_all-Disjoint msgs s1 d) in
          (q'', s'', rw (e, e'), d')

      -- Where the bus is empty at first, and what others put on an empty bus before each wake-up
      -- leaves some of its bytes free and is fewer messages than the fuel: the main loop of the
      -- launcher, from the workers of any list of databases on, returns without a panic, and then
      -- no database has both a running and a pending worker.
      pub main_loop-Disjoint :
          (oids : List ℕ) (sends : List (RingQueue → RingQueue)) (q : RingQueue) (w : World)
          → Holds cap q []
          → AllFair cap fuel sends
          → (q' : RingQueue) × (s' : State P entry_point) × (main_loop P entry_point decode cap fuel
                sends q
                (add_subscribe_workers P entry_point oids (empty P, w))
              ≡ done (some (q', s')))
            × Disjoint P s'.0
      unfolding Runs
      main_loop-Disjoint oids sends q w v f =
          main_loop-Runs sends q (add_subscribe_workers P entry_point oids (empty P, w)) v f
            (started-Disjoint oids w)
