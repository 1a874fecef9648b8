-- ===== src/Launcher/Phases.antt =====
-- The launcher of src/bgw/launcher as one small state machine for each database.
use pgnats.Common.{
  ℕ, ◌≡◌, refl, ◌⊎◌, Bool, true, false, Option, none, some, Result, ok, err, ◌==◌, if◌then◌else◌,
  arith, ==_iff, Option-cases, inl, inr, ◌∙◌, ap,
}
use pgnats.Common.Assoc.{
  get, get-insert, get-remove, contains_key_of_missing, contains_key_of_present,
}
use pgnats.Common.Eq.{nat_eq}
use pgnats.Text.{Text}
use pgnats.Config.{Config}
use pgnats.Messages.{SubscriberMessage, LauncherMessage, exist, no_extension, no_foreign_server}
use pgnats.Launcher.Postgres.{Postgres}
use pgnats.Launcher.Worker.{Failure, Started, start}
use pgnats.Launcher.Context.{
  Step, as_some, sent_config, LauncherContext, register_worker, start_subscribe_worker, worker_name,
  worker_type, dsm_size, handle_new_config_message, handle_subscribe_message,
  handle_unsubscribe_message, shutdown_worker, forward, keep_started,
}
use pgnats.Launcher.Bus.{handle_message}

-- A database has no worker, one that has not reported yet, or one that runs.
pub data Phase : Type 0 where
  absent pending running : Phase

abbrev pub phase_of {ℓ} : {A : Type ℓ} → Option A → Option A → Phase
phase_of (some r) p = running
phase_of none (some p) = pending
phase_of none none = absent

-- What a message means for its database: `started` says whether a worker could be started.
abbrev pub after_exist : Phase → Phase
after_exist pending = running
after_exist p = p

abbrev pub after_config : Bool → Phase → Phase
after_config true absent = pending
after_config started p = p

pub transition : LauncherMessage → Bool → Phase → Phase
transition (LauncherMessage.db_extension_status db exist) started p = after_exist p
transition (LauncherMessage.db_extension_status db no_extension) started p = absent
transition (LauncherMessage.db_extension_status db no_foreign_server) started p = absent
transition (LauncherMessage.new_config db c) started p = after_config started p
transition (LauncherMessage.subscribe db s f) started p = p
transition (LauncherMessage.unsubscribe db s f) started p = p
transition (LauncherMessage.subscriber_exit db r) started p = absent
transition (LauncherMessage.foreign_server_dropped db) started p = absent

abbrev pub db_of : LauncherMessage → ℕ
db_of (LauncherMessage.db_extension_status db st) = db
db_of (LauncherMessage.new_config db c) = db
db_of (LauncherMessage.subscribe db s f) = db
db_of (LauncherMessage.unsubscribe db s f) = db
db_of (LauncherMessage.subscriber_exit db r) = db
db_of (LauncherMessage.foreign_server_dropped db) = db

abbrev pub is_ok {ℓ κ} : {A : Type ℓ} {E : Type κ} → Result A E → Bool
is_ok (ok a) = true
is_ok (err e) = false

module _ (P : Postgres) where
  open P use {World}

  abbrev pub phase : LauncherContext P → ℕ → Phase
  phase ctx db = phase_of (get db ctx.workers) (get db ctx.pending_workers)

  -- No database has both a running worker and a pending one.
  abbrev pub Disjoint : LauncherContext P → Type 0
  Disjoint ctx = (db : ℕ) → (get db ctx.workers ≡ none) ⊎ (get db ctx.pending_workers ≡ none)

  register_worker-phase :
      (ctx : LauncherContext P) (db k : ℕ)
      → phase (register_worker P ctx db) k
        ≡ (if db == k then after_exist (phase ctx db) else phase ctx k)
  unfolding register_worker
  register_worker-phase ctx db k = elim (Option-cases (get db ctx.pending_workers)) [
    | inl e ↦ ground (arith, ==_iff db k)
    | inr (worker, e) ↦
        rw (e, register_worker)
          (ground (
            arith,
            get-insert db k worker ctx.workers,
            get-remove db k ctx.pending_workers,
            ==_iff db k,
          ))
  ]

  shutdown_worker-phase :
      (ctx : LauncherContext P) (db k : ℕ) (w : World)
      → Disjoint ctx
      → phase (shutdown_worker P ctx db w).0 k ≡ (if db == k then absent else phase ctx k)
  unfolding shutdown_worker
  shutdown_worker-phase ctx db k w d = elim (Option-cases (get db ctx.workers)) [
    | inl e ↦ elim (Option-cases (get db ctx.pending_workers)) [
      | inl f ↦ rw (e, shutdown_worker) (rw (f, shutdown_worker) (ground (arith, ==_iff db k)))
      | inr (entry, f) ↦
          rw (e, shutdown_worker)
            (rw (f, shutdown_worker)
              (ground (arith, get-remove db k ctx.pending_workers, ==_iff db k)))
    ]
    | inr (entry, e) ↦
        rw (e, shutdown_worker) (ground (arith, get-remove db k ctx.workers, ==_iff db k, d db))
  ]

  -- Whether a worker for the database can be started now.
  abbrev pub starts : Text → LauncherContext P → ℕ → World → Bool
  starts entry_point ctx db w =
      is_ok
        (start P db (worker_name P ctx.counter) (worker_type P ctx.counter) entry_point dsm_size
          w).0

  pub keep_started-phase :
      (ctx : LauncherContext P) (db k : ℕ) (r : Started P)
      → get db ctx.workers ≡ none
      → get db ctx.pending_workers ≡ none
      → phase (keep_started P ctx db r).1 k
        ≡ (if db == k then after_config (is_ok r.0) absent else phase ctx k)
  keep_started-phase ctx db k (err x, w) e f = ground (arith, ==_iff db k)
  keep_started-phase ctx db k (ok entry, w) e f =
      ground (arith, get-insert db k entry ctx.pending_workers, ==_iff db k)

  start_subscribe_worker-phase :
      (entry_point : Text) (ctx : LauncherContext P) (db k : ℕ) (w : World)
      → get db ctx.workers ≡ none
      → get db ctx.pending_workers ≡ none
      → phase (start_subscribe_worker P ctx db entry_point w).1 k
        ≡ (if db == k then after_config (starts entry_point ctx db w) absent else phase ctx k)
  unfolding start_subscribe_worker
  start_subscribe_worker-phase entry_point ctx db k w e f = keep_started-phase ctx db k _ e f

  pub forward-phase :
      (ctx : LauncherContext P) (db : ℕ) (msg : SubscriberMessage) (w : World)
      → (forward P ctx db msg w).1 ≡ ctx
  unfolding forward
  forward-phase ctx db msg w = elim (Option-cases (get db ctx.workers)) [
    | inl e ↦ rw (e, forward)
    | inr (entry, e) ↦ rw (e, forward)
  ]

  pub as_some-context : (r : Step P (Result Text Failure)) → (as_some P r).1 ≡ r.1
  as_some-context (ok name, ctx, w) = refl
  as_some-context (err e, ctx, w) = refl

  pub sent_config-context :
      (ctx : LauncherContext P) (r : Result (Unit {0}) Failure × World)
      → (sent_config P ctx r).1 ≡ ctx
  sent_config-context ctx (ok u, w) = refl
  sent_config-context ctx (err e, w) = refl

  new_config-phase :
      (entry_point : Text) (ctx : LauncherContext P) (db k : ℕ) (config : Config) (w : World)
      → phase (handle_new_config_message P ctx db config entry_point w).1 k ≡ (
          if db == k
          then after_config (starts entry_point ctx db w) (phase ctx db)
          else phase ctx k)
  unfolding handle_new_config_message
  new_config-phase entry_point ctx db k config w = elim (Option-cases (get db ctx.workers)) [
    | inr (entry, e) ↦
        rw (e, handle_new_config_message)
          (rw (sent_config-context ctx) (ground (arith, ==_iff db k)))
    | inl e ↦ elim (Option-cases (get db ctx.pending_workers)) [
      | inr (entry, f) ↦
          rw (e, handle_new_config_message)
            (rw (contains_key_of_present db entry ctx.pending_workers f)
              (ground (arith, ==_iff db k)))
      | inl f ↦
          rw (e, handle_new_config_message)
            (rw (contains_key_of_missing db ctx.pending_workers f) (
              ap (λ c. phase c k) (as_some-context (start_subscribe_worker P ctx db entry_point w))
              ∙ start_subscribe_worker-phase entry_point ctx db k w e f
              ∙ ground (arith, ==_iff db k)))
    ]
  ]

  -- Where no database has both a running and a pending worker, handling a message takes the
  -- database that it names through the transition of the state machine of phases (absent,
  -- pending, running), and leaves every other database in its phase.
  pub handle_message-phase :
      (entry_point : Text) (msg : LauncherMessage) (ctx : LauncherContext P) (w : World) (k : ℕ)
      → Disjoint ctx
      → phase (handle_message P entry_point msg (ctx, w)).0 k ≡ (
          if db_of msg == k
          then transition msg (starts entry_point ctx (db_of msg) w) (phase ctx (db_of msg))
          else phase ctx k)
  unfolding handle_message transition handle_subscribe_message handle_unsubscribe_message
  handle_message-phase ep (LauncherMessage.db_extension_status db exist) ctx w k d =
      register_worker-phase ctx db k
  handle_message-phase ep (LauncherMessage.db_extension_status db no_extension) ctx w k d =
      shutdown_worker-phase ctx db k w d
  handle_message-phase ep (LauncherMessage.db_extension_status db no_foreign_server) ctx w k d =
      shutdown_worker-phase ctx db k w d
  handle_message-phase ep (LauncherMessage.new_config db c) ctx w k d =
      new_config-phase ep ctx db k c w
  handle_message-phase ep (LauncherMessage.subscribe db s f) ctx w k d =
      rw (forward-phase ctx db (SubscriberMessage.subscribe s f) w) (ground (arith, ==_iff db k))
  handle_message-phase ep (LauncherMessage.unsubscribe db s f) ctx w k d =
      rw (forward-phase ctx db (SubscriberMessage.unsubscribe s f) w) (ground (arith, ==_iff db k))
  handle_message-phase ep (LauncherMessage.subscriber_exit db r) ctx w k d =
      shutdown_worker-phase ctx db k w d
  handle_message-phase ep (LauncherMessage.foreign_server_dropped db) ctx w k d =
      shutdown_worker-phase ctx db k w d
