-- ===== src/Launcher/Bus.antt =====
-- src/bgw/launcher/mod.rs: the messages of the shared bus, their handling, and the main loop. What
-- `postcard` decodes is an argument. The bus is locked while it is drained.
use pgnats.Common.{
  ℕ, zero, suc, ◌+◌, Option, none, some, List, [], ◌∷◌, Outcome, done, ◌>>=◌, Result, ok, err,
}
use pgnats.Text.{Text}
use pgnats.Messages.{LauncherMessage, exist, no_extension, no_foreign_server}
use pgnats.RingQueue.{RingQueue, try_send, try_recv}
use pgnats.Launcher.Postgres.{Postgres}
use pgnats.Launcher.Context.{
  LauncherContext, empty, process_terminated_workers, register_worker, start_subscribe_worker,
  handle_new_config_message, handle_subscribe_message, handle_unsubscribe_message, shutdown_worker,
  shutdown_all_workers,
}

-- `send_message_to_launcher`, for a message that `postcard` has encoded (`none` if it failed).
unfoldable pub send_message_to_launcher :
    ℕ → RingQueue → Option (List ℕ) → Outcome (Result (Unit {0}) (Unit {0}) × RingQueue)
send_message_to_launcher cap q none = done (err tt, q)
send_message_to_launcher cap q (some bytes) = try_send cap q bytes

-- The loop of `send_message_to_launcher_with_retry`, with the tries left. `others n` is what the
-- other processes do to the bus while this one sleeps for the `n`-th time.
unfoldable pub retry :
    ℕ
    → (ℕ → RingQueue → RingQueue)
    → ℕ
    → ℕ
    → RingQueue
    → List ℕ
    → Outcome (Result (Unit {0}) (Unit {0}) × RingQueue)
retry cap others n zero q bytes = done (err tt, q)
retry cap others n (suc left) q bytes = do
  (r, q') ← try_send cap q bytes
  elim r [ ok _ ↦ done (ok tt, q') | err _ ↦ retry cap others (n + 1) left (others n q') bytes ]

unfoldable pub send_message_to_launcher_with_retry :
    ℕ
    → (ℕ → RingQueue → RingQueue)
    → ℕ
    → RingQueue
    → Option (List ℕ)
    → Outcome (Result (Unit {0}) (Unit {0}) × RingQueue)
send_message_to_launcher_with_retry cap others tries q none = done (err tt, q)
send_message_to_launcher_with_retry cap others tries q (some bytes) =
    retry cap others 0 tries q bytes

module _ (P : Postgres) (entry_point : Text) where
  open P use {World}

  abbrev pub State : Type 0
  State = LauncherContext P × World

  abbrev pub after_step : {A : Type 0} → A × LauncherContext P × World → State
  after_step (a, ctx, w) = (ctx, w)

  -- One message of the bus. Results are only logged.
  unfoldable pub handle_message : LauncherMessage → State → State
  handle_message (LauncherMessage.db_extension_status db_oid exist) (ctx, w) =
      (register_worker P ctx db_oid, w)
  handle_message (LauncherMessage.db_extension_status db_oid no_extension) (ctx, w) =
      shutdown_worker P ctx db_oid w
  handle_message (LauncherMessage.db_extension_status db_oid no_foreign_server) (ctx, w) =
      shutdown_worker P ctx db_oid w
  handle_message (LauncherMessage.new_config db_oid config) (ctx, w) =
      after_step (handle_new_config_message P ctx db_oid config entry_point w)
  handle_message (LauncherMessage.subscribe db_oid subject fn_name) (ctx, w) =
      after_step (handle_subscribe_message P ctx db_oid subject fn_name w)
  handle_message (LauncherMessage.unsubscribe db_oid subject fn_name) (ctx, w) =
      after_step (handle_unsubscribe_message P ctx db_oid subject fn_name w)
  handle_message (LauncherMessage.subscriber_exit db_oid reason) (ctx, w) =
      shutdown_worker P ctx db_oid w
  handle_message (LauncherMessage.foreign_server_dropped db_oid) (ctx, w) =
      shutdown_worker P ctx db_oid w

  -- The bytes of one message: a message that cannot be decoded is skipped.
  unfoldable pub handle_decoded : Option LauncherMessage → State → State
  unfolding handle_message
  handle_decoded none s = s
  handle_decoded (some msg) s = handle_message msg s

  unfoldable pub add_subscribe_workers : List ℕ → State → State
  add_subscribe_workers [] s = s
  add_subscribe_workers (oid ∷ oids) (ctx, w) =
      add_subscribe_workers oids (after_step (start_subscribe_worker P ctx oid entry_point w))

  module _ (decode : List ℕ → Option LauncherMessage) (cap : ℕ) where
    -- `while let Some(buf) = guard.try_recv()`, on fuel: `none` means that the fuel ran out.
    unfoldable pub process_launcher_bus :
        ℕ → RingQueue → State → Outcome (Option (RingQueue × State))
    process_launcher_bus zero q s = done none
    process_launcher_bus (suc fuel) q s = do
      (r, q') ← try_recv cap q
      elim r [
        | none ↦ done (some (q', s))
        | some buf ↦ process_launcher_bus fuel q' (handle_decoded (decode buf) s)
      ]

    -- The body of the main loop, after each wake-up.
    unfoldable pub wake_up : ℕ → RingQueue → State → Outcome (Option (RingQueue × State))
    wake_up fuel q (ctx, w) = process_launcher_bus fuel q (process_terminated_workers P ctx w)

    -- `background_worker_launcher_main` from the list of databases on: `sends` are the changes
    -- that other processes make to the bus before each wake-up of the launcher, and its end is the
    -- signal to stop.
    unfoldable pub main_loop :
        ℕ → List (RingQueue → RingQueue) → RingQueue → State → Outcome (Option (RingQueue × State))
    main_loop fuel [] q s = done (some (q, s))
    main_loop fuel (send ∷ sends) q s = do
      r ← wake_up fuel (send q) s
      elim r [ none ↦ done none | some (q', s') ↦ main_loop fuel sends q' s' ]

    unfoldable pub stop : State → State
    stop (ctx, w) =
        let (ctx', w') = shutdown_all_workers P ctx w in process_terminated_workers P ctx' w'

    abbrev stopped : Option (RingQueue × State) → Option (RingQueue × State)
    stopped none = none
    stopped (some (q, s)) = some (q, stop s)

    unfoldable pub background_worker_launcher_main :
        ℕ
        → List ℕ
        → List (RingQueue → RingQueue)
        → RingQueue
        → World
        → Outcome (Option (RingQueue × State))
    background_worker_launcher_main fuel database_oids sends q w = do
      r ← main_loop fuel sends q (add_subscribe_workers database_oids (empty P, w))
      done (stopped r)
