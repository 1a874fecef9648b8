-- ===== src/Launcher/Shutdown.antt =====
-- The main loop of src/bgw/launcher/mod.rs, to its end.
use pgnats.Common.{ℕ, ◌<◌, ◌≡◌, refl, ◌∙◌, Option, some, List, [], ◌∷◌, done, length}
use pgnats.Text.{Text}
use pgnats.Messages.{LauncherMessage}
use pgnats.RingQueue.{RingQueue}
use pgnats.RingQueue.Invariant.{Sized, Holds, used}
use pgnats.Launcher.Postgres.{Postgres}
use pgnats.Launcher.Worker.{WorkerEntry}
use pgnats.Launcher.Context.{
  LauncherContext, empty, process_terminated_workers, shutdown_worker_entry, shutdown_entries,
  shutdown_all_workers,
}
use pgnats.Launcher.Bus.{
  State, add_subscribe_workers, wake_up, main_loop, stop, background_worker_launcher_main,
}
use pgnats.Launcher.Drain.{handle_all, process_launcher_bus_drains}

-- What others put on an empty bus leaves some of its bytes free, and is less than the fuel.
abbrev pub Fair : ℕ → ℕ → (RingQueue → RingQueue) → Type 0
Fair cap fuel send =
    (q : RingQueue)
    → Holds cap q []
    → (msgs : List (List ℕ)) × Holds cap (send q) msgs × (used msgs < cap) × (length msgs < fuel)

abbrev pub AllFair : ℕ → ℕ → List (RingQueue → RingQueue) → Type 0
AllFair cap fuel [] = Unit {0}
AllFair cap fuel (send ∷ sends) = Fair cap fuel send × AllFair cap fuel sends

module _ (P : Postgres) where
  open P use {World, Sender, Running}

  shutdown_entries_keeps :
      (ctx : LauncherContext P) (es : List (ℕ × WorkerEntry Sender Running)) (w : World)
      → ((shutdown_entries P ctx es w).0.workers ≡ ctx.workers)
        × ((shutdown_entries P ctx es w).0.pending_workers ≡ ctx.pending_workers)
  unfolding shutdown_entries shutdown_worker_entry
  shutdown_entries_keeps ctx [] w = (refl, refl)
  shutdown_entries_keeps ctx ((k, e) ∷ es) w =
      shutdown_entries_keeps (shutdown_worker_entry P ctx e w).0 es
        (shutdown_worker_entry P ctx e w).1

  shutdown_all_workers_lem :
      (ctx : LauncherContext P) (w : World)
      → ((shutdown_all_workers P ctx w).0.workers ≡ [])
        × ((shutdown_all_workers P ctx w).0.pending_workers ≡ [])
  unfolding shutdown_all_workers
  shutdown_all_workers_lem ctx w =
      let (ctx', w') = shutdown_entries P (record ctx { workers = [] }) ctx.workers w in
      let (a, b) = shutdown_entries_keeps (record ctx { workers = [] }) ctx.workers w in
      let (c, d) =
        shutdown_entries_keeps (record ctx' { pending_workers = [] }) ctx'.pending_workers w' in
      (c ∙ a, d)

  -- no worker, pending, running or terminating
  abbrev pub NoWorker : LauncherContext P → Type 0
  NoWorker ctx = (ctx.workers ≡ []) × (ctx.pending_workers ≡ []) × (ctx.terminated_workers ≡ [])

  module _ (entry_point : Text) (decode : List ℕ → Option LauncherMessage) {cap : ℕ}
      (sized : Sized cap) (fuel : ℕ) where
    stop-NoWorker : (s : State P entry_point) → NoWorker (stop P entry_point decode cap s).0
    unfolding stop process_terminated_workers
    stop-NoWorker (ctx, w) = let (a, b) = shutdown_all_workers_lem ctx w in (a, b, refl)

    main_loop_ends :
        (sends : List (RingQueue → RingQueue)) (q : RingQueue) (s : State P entry_point)
        → Holds cap q []
        → AllFair cap fuel sends
        → (q' : RingQueue) × (s' : State P entry_point) × (main_loop P entry_point decode cap fuel
              sends q s
            ≡ done (some (q', s')))
          × Holds cap q' []
    unfolding main_loop wake_up
    main_loop_ends [] q s v f = (q, s, refl, v)
    main_loop_ends (send ∷ sends) q (ctx, w) v (f, fs) =
        let (msgs, v', u, l) = f q v in
        let s' = process_terminated_workers P ctx w in
        let (q', e, v'') =
          process_launcher_bus_drains P entry_point decode sized fuel (send q) msgs s' v' u l in
        let (q'', s'', e', h) =
          main_loop_ends sends q' (handle_all P entry_point decode msgs s') v'' fs in
        (q'', s'', rw (e, e'), h)

    -- Where the bus is empty at first, and what others put on an empty bus before each wake-up
    -- leaves some of its bytes free and is fewer messages than the fuel: the main function of the
    -- launcher ends without a panic, the bus is empty then, and no pending, running or terminated
    -- worker is left in its maps.
    pub background_worker_launcher_main_ends :
        (database_oids : List ℕ) (sends : List (RingQueue → RingQueue)) (q : RingQueue) (w : World)
        → Holds cap q []
        → AllFair cap fuel sends
        → (q' : RingQueue) × (s : State P entry_point) × (background_worker_launcher_main P
              entry_point decode cap fuel database_oids sends q w
            ≡ done (some (q', s)))
          × Holds cap q' []
          × NoWorker s.0
    unfolding background_worker_launcher_main
    background_worker_launcher_main_ends database_oids sends q w v f =
        let (q', s, e, v') =
          main_loop_ends sends q (add_subscribe_workers P entry_point database_oids (empty P, w)) v
            f in
        (q', stop P entry_point decode cap s, rw e, v', stop-NoWorker s)
