-- ===== src/Launcher/Context.antt =====
-- src/bgw/launcher/context.rs: the workers of the launcher and its handlers.
use pgnats.Common.{
  ℕ, ◌+◌, ◌/◌, Option, none, some, List, [], ◌∷◌, ◌++◌, Result, ok, err, if◌then◌else◌,
}
use pgnats.Common.Assoc.{get, contains_key, insert, remove}
use pgnats.Common.Eq.{nat_eq}
use pgnats.Text.{Text, text}
use pgnats.Text.Numbers.{print_uint}
use pgnats.Config.{Config}
use pgnats.Messages.{SubscriberMessage}
use pgnats.Launcher.Postgres.{Postgres}
use pgnats.Launcher.Worker.{
  WorkerEntry, Failure, not_encoded, not_sent, start, terminate_entry, wait_entry,
}

-- `MESSAGE_BUS_SIZE` and `DSM_SIZE` of src/bgw/mod.rs
abbrev pub message_bus_size : ℕ
message_bus_size = 0x10000

abbrev pub dsm_size : ℕ
dsm_size = message_bus_size / 8

module _ (P : Postgres) where
  open P use {World, Sender, Running, Terminating, encode, send}

  pub record LauncherContext : Type 0 where
    pub pending_workers : List (ℕ × WorkerEntry Sender Running)
    pub workers : List (ℕ × WorkerEntry Sender Running)
    pub terminated_workers : List (ℕ × WorkerEntry Sender Terminating)
    pub counter : ℕ

  abbrev pub empty : LauncherContext
  empty = record { pending_workers = []; workers = []; terminated_workers = []; counter = 0 }

  -- What an operation returns, with the state that it leaves.
  abbrev pub Step : Type 0 → Type 0
  Step A = A × LauncherContext × World

  unfoldable pub wait_all : List (ℕ × WorkerEntry Sender Terminating) → World → World
  wait_all [] w = w
  wait_all ((k, e) ∷ es) w = wait_all es (wait_entry P e w).1

  unfoldable pub process_terminated_workers : LauncherContext → World → LauncherContext × World
  process_terminated_workers ctx w =
      (record ctx { terminated_workers = [] }, wait_all ctx.terminated_workers w)

  unfoldable pub register_worker : LauncherContext → ℕ → LauncherContext
  register_worker ctx db_oid = elim (get db_oid ctx.pending_workers) [
    | none ↦ ctx
    | some worker ↦ record ctx {
      pending_workers = remove db_oid ctx.pending_workers;
      workers = insert db_oid worker ctx.workers;
    }
  ]

  unfoldable pub send_bytes : Sender → Option (List ℕ) → World → Result (Unit {0}) Failure × World
  send_bytes sender none w = (err not_encoded, w)
  send_bytes sender (some bytes) w =
      let (sent, w') = send w sender bytes in (if sent then ok tt else err not_sent, w')

  unfoldable pub send_subscriber_message :
      Sender → SubscriberMessage → World → Result (Unit {0}) Failure × World
  unfolding send_bytes
  send_subscriber_message sender msg w = send_bytes sender (encode msg) w

  abbrev pub worker_name : ℕ → Text
  worker_name n = text "PGNats Background Worker Subscriber " ++ print_uint n

  abbrev pub worker_type : ℕ → Text
  worker_type n = text "pgnats_bgw_subscriber_" ++ print_uint n

  abbrev pub keep_started :
      LauncherContext
      → ℕ
      → Result (WorkerEntry Sender Running) Failure × World
      → Step (Result Text Failure)
  keep_started ctx oid (err e, w) = (err e, ctx, w)
  keep_started ctx oid (ok entry, w) = (
    ok entry.db_name,
    record ctx {
      counter = ctx.counter + 1;
      pending_workers = insert oid entry ctx.pending_workers;
    },
    w,
  )

  unfoldable pub start_subscribe_worker :
      LauncherContext → ℕ → Text → World → Step (Result Text Failure)
  start_subscribe_worker ctx oid entry_point w =
      keep_started ctx oid
        (start P oid (worker_name ctx.counter) (worker_type ctx.counter) entry_point dsm_size w)

  abbrev pub as_some : Step (Result Text Failure) → Step (Result (Option Text) Failure)
  as_some (ok name, ctx, w) = (ok (some name), ctx, w)
  as_some (err e, ctx, w) = (err e, ctx, w)

  abbrev pub sent_config :
      LauncherContext → Result (Unit {0}) Failure × World → Step (Result (Option Text) Failure)
  sent_config ctx (ok u, w) = (ok none, ctx, w)
  sent_config ctx (err e, w) = (err e, ctx, w)

  unfoldable pub handle_new_config_message :
      LauncherContext → ℕ → Config → Text → World → Step (Result (Option Text) Failure)
  handle_new_config_message ctx db_oid config entry_point w = elim (get db_oid ctx.workers) [
    | some entry ↦
        sent_config ctx
          (send_subscriber_message entry.sender (SubscriberMessage.new_config config) w)
    | none ↦
        if contains_key db_oid ctx.pending_workers
        then (ok none, ctx, w)
        else as_some (start_subscribe_worker ctx db_oid entry_point w)
  ]

  -- A message to the worker of a database, if it runs.
  unfoldable pub forward :
      LauncherContext → ℕ → SubscriberMessage → World → Step (Result (Unit {0}) Failure)
  forward ctx db_oid msg w = elim (get db_oid ctx.workers) [
    | some entry ↦ let (r, w') = send_subscriber_message entry.sender msg w in (r, ctx, w')
    | none ↦ (ok tt, ctx, w)
  ]

  unfoldable pub handle_subscribe_message :
      LauncherContext → ℕ → Text → Text → World → Step (Result (Unit {0}) Failure)
  unfolding forward
  handle_subscribe_message ctx db_oid subject fn_name w =
      forward ctx db_oid (SubscriberMessage.subscribe subject fn_name) w

  unfoldable pub handle_unsubscribe_message :
      LauncherContext → ℕ → Text → Text → World → Step (Result (Unit {0}) Failure)
  unfolding forward
  handle_unsubscribe_message ctx db_oid subject fn_name w =
      forward ctx db_oid (SubscriberMessage.unsubscribe subject fn_name) w

  unfoldable pub shutdown_worker_entry :
      LauncherContext → WorkerEntry Sender Running → World → LauncherContext × World
  shutdown_worker_entry ctx entry w =
      let (t, w') = terminate_entry P entry w in
      (record ctx { terminated_workers = insert t.oid t ctx.terminated_workers }, w')

  -- `workers.remove(..).or_else(|| pending_workers.remove(..))`
  unfoldable pub shutdown_worker : LauncherContext → ℕ → World → LauncherContext × World
  unfolding shutdown_worker_entry
  shutdown_worker ctx db_oid w = elim (get db_oid ctx.workers) [
    | some entry ↦
        shutdown_worker_entry (record ctx { workers = remove db_oid ctx.workers }) entry w
    | none ↦ elim (get db_oid ctx.pending_workers) [
      | some entry ↦
          shutdown_worker_entry (record ctx { pending_workers = remove db_oid ctx.pending_workers })
            entry w
      | none ↦ (ctx, w)
    ]
  ]

  unfoldable pub shutdown_entries :
      LauncherContext → List (ℕ × WorkerEntry Sender Running) → World → LauncherContext × World
  shutdown_entries ctx [] w = (ctx, w)
  shutdown_entries ctx ((k, e) ∷ es) w =
      let (ctx', w') = shutdown_worker_entry ctx e w in shutdown_entries ctx' es w'

  unfoldable pub shutdown_all_workers : LauncherContext → World → LauncherContext × World
  shutdown_all_workers ctx w =
      let (ctx', w') = shutdown_entries (record ctx { workers = [] }) ctx.workers w in
      shutdown_entries (record ctx' { pending_workers = [] }) ctx'.pending_workers w'
