-- ===== src/Launcher/Invariant.antt =====
-- No operation of src/bgw/launcher gives a database a running worker beside a pending one.
use pgnats.Common.{ℕ, ◌≡◌, inl, inr, none, arith, ==_iff, Option-cases, ok, err}
use pgnats.Common.Assoc.{
  get, get-insert, get-remove, contains_key_of_present, contains_key_of_missing,
}
use pgnats.Common.Eq.{nat_eq}
use pgnats.Text.{Text}
use pgnats.Config.{Config}
use pgnats.Messages.{SubscriberMessage, LauncherMessage, exist, no_extension, no_foreign_server}
use pgnats.Launcher.Postgres.{Postgres}
use pgnats.Launcher.Worker.{Started}
use pgnats.Launcher.Context.{
  LauncherContext, register_worker, start_subscribe_worker, handle_new_config_message,
  handle_subscribe_message, handle_unsubscribe_message, shutdown_worker, keep_started,
}
use pgnats.Launcher.Bus.{handle_message}
use pgnats.Launcher.Phases.{Disjoint, as_some-context, sent_config-context, forward-phase}

module _ (P : Postgres) where
  open P use {World}

  register_worker-Disjoint :
      (ctx : LauncherContext P) (db : ℕ) → Disjoint P ctx → Disjoint P (register_worker P ctx db)
  unfolding register_worker
  register_worker-Disjoint ctx db d k = elim (Option-cases (get db ctx.pending_workers)) [
    | inl e ↦ rw (e, register_worker) (d k)
    | inr (worker, e) ↦
        rw (e, register_worker)
          (ground
            (arith, d k, get-insert db k worker ctx.workers, get-remove db k ctx.pending_workers))
  ]

  shutdown_worker-Disjoint :
      (ctx : LauncherContext P) (db : ℕ) (w : World)
      → Disjoint P ctx
      → Disjoint P (shutdown_worker P ctx db w).0
  unfolding shutdown_worker
  shutdown_worker-Disjoint ctx db w d k = elim (Option-cases (get db ctx.workers)) [
    | inl e ↦ elim (Option-cases (get db ctx.pending_workers)) [
      | inl f ↦ rw (e, shutdown_worker) (rw (f, shutdown_worker) (d k))
      | inr (entry, f) ↦
          rw (e, shutdown_worker)
            (rw (f, shutdown_worker) (ground (arith, d k, get-remove db k ctx.pending_workers)))
    ]
    | inr (entry, e) ↦ rw (e, shutdown_worker) (ground (arith, d k, get-remove db k ctx.workers))
  ]

  keep_started-Disjoint :
      (ctx : LauncherContext P) (db : ℕ) (r : Started P)
      → get db ctx.workers ≡ none
      → Disjoint P ctx
      → Disjoint P (keep_started P ctx db r).1
  keep_started-Disjoint ctx db (err x, w) e d k = d k
  keep_started-Disjoint ctx db (ok entry, w) e d k =
      ground (arith, d k, get-insert db k entry ctx.pending_workers, ==_iff db k)

  new_config-Disjoint :
      (entry_point : Text) (ctx : LauncherContext P) (db : ℕ) (config : Config) (w : World)
      → Disjoint P ctx
      → Disjoint P (handle_new_config_message P ctx db config entry_point w).1
  unfolding handle_new_config_message start_subscribe_worker
  new_config-Disjoint ep ctx db config w d = elim (Option-cases (get db ctx.workers)) [
    | inr (entry, e) ↦ rw (e, handle_new_config_message) (rw (sent_config-context P ctx) d)
    | inl e ↦ elim (Option-cases (get db ctx.pending_workers)) [
      | inr (entry, f) ↦
          rw (e, handle_new_config_message)
            (rw (contains_key_of_present db entry ctx.pending_workers f) d)
      | inl f ↦
          rw (e, handle_new_config_message)
            (rw (contains_key_of_missing db ctx.pending_workers f)
              (rw (as_some-context P) (keep_started-Disjoint ctx db _ e d)))
    ]
  ]

  -- Where no database has both a running and a pending worker, that is still so after the
  -- handling of any message.
  pub handle_message-Disjoint :
      (entry_point : Text) (msg : LauncherMessage) (ctx : LauncherContext P) (w : World)
      → Disjoint P ctx
      → Disjoint P (handle_message P entry_point msg (ctx, w)).0
  unfolding handle_message handle_subscribe_message handle_unsubscribe_message
  handle_message-Disjoint ep (LauncherMessage.db_extension_status db exist) ctx w d =
      register_worker-Disjoint ctx db d
  handle_message-Disjoint ep (LauncherMessage.db_extension_status db no_extension) ctx w d =
      shutdown_worker-Disjoint ctx db w d
  handle_message-Disjoint ep (LauncherMessage.db_extension_status db no_foreign_server) ctx w d =
      shutdown_worker-Disjoint ctx db w d
  handle_message-Disjoint ep (LauncherMessage.new_config db c) ctx w d =
      new_config-Disjoint ep ctx db c w d
  handle_message-Disjoint ep (LauncherMessage.subscribe db s f) ctx w d =
      rw (forward-phase P ctx db (SubscriberMessage.subscribe s f) w) d
  handle_message-Disjoint ep (LauncherMessage.unsubscribe db s f) ctx w d =
      rw (forward-phase P ctx db (SubscriberMessage.unsubscribe s f) w) d
  handle_message-Disjoint ep (LauncherMessage.subscriber_exit db r) ctx w d =
      shutdown_worker-Disjoint ctx db w d
  handle_message-Disjoint ep (LauncherMessage.foreign_server_dropped db) ctx w d =
      shutdown_worker-Disjoint ctx db w d
