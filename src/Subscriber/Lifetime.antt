-- ===== src/Subscriber/Lifetime.antt =====
-- A worker of src/bgw/subscriber leaves no task behind, however it ends.
use pgnats.Common.{
  ◌≡◌, refl, ◌∙◌, inl, inr, ◌⊎◌, false, Option, List, [], ◌∷◌, Result, ok, err, Option-cases,
  Bool-cases,
}
use pgnats.Text.{Text}
use pgnats.Config.{NatsConnectionOptions}
use pgnats.Messages.{SubscriberMessage, ExtensionStatus, exist, no_extension, no_foreign_server}
use pgnats.Subscriber.Runtime.{Runtime}
use pgnats.Subscriber.Nats.{connect_nats, NatsConnectionState, new, unsubscribe_all}
use pgnats.Subscriber.Ownership.{unsubscribe_all-Good}
use pgnats.Subscriber.Context.{
  PgInstanceStatus, master, replica, Database, SubscriberContext, restored, restore_state,
  check_migration, send_notification, handle_message_from_shared_queue,
}
use pgnats.Subscriber.Invariant.{
  Idle, Valid, push_rows-Valid, send_notification-Valid, check_migration-Valid,
  handle_message_from_shared_queue-Valid, drain_channel-Valid,
}
use pgnats.Subscriber.Main.{
  Wake, Round, again, leave, Start, handle_received, arrive, work, round, bg_loop,
  restored_if_master, dropped, run_worker, connect_and_run, run_if_installed,
}

module _ (R : Runtime) (D : Database) where
  open R use {World, Handle, live}

  -- no task lives
  abbrev pub Quiet : World → Type 0
  Quiet w = (h : Handle) → live w h ≡ false

  abbrev ValidRound : Round R D → Type 0
  ValidRound (again ctx) = Valid R D ctx
  ValidRound (leave r ctx) = Valid R D ctx

  handle_received-Valid :
      (ctx : SubscriberContext R D) (msgs : List (Option SubscriberMessage))
      → Valid R D ctx
      → Valid R D (handle_received R D ctx msgs)
  unfolding handle_received
  handle_received-Valid ctx [] v = v
  handle_received-Valid ctx (msg ∷ msgs) v =
      handle_received-Valid (handle_message_from_shared_queue R D ctx msg) msgs
        (handle_message_from_shared_queue-Valid R D ctx msg v)

  work-Valid :
      (ctx : SubscriberContext R D) (wake : Wake R D)
      → Valid R D ctx
      → ValidRound (work R D ctx wake)
  unfolding work
  work-Valid ctx wake v = elim (Bool-cases wake.is_broken) [
    | inl broken ↦ rw broken now
    | inr fine ↦ rw fine (drain_channel-Valid R D _ (record { owned = now.owned; idle = now.idle }))
  ]
    where
      now : Valid R D (
          handle_received R D
            (check_migration R D (arrive R D ctx wake.waiting) wake.instance).1
            wake.received)
      now = handle_received-Valid _ wake.received (
          check_migration-Valid R D (arrive R D ctx wake.waiting) wake.instance
            (record { owned = v.owned; idle = v.idle }))

  round-Valid :
      (ctx : SubscriberContext R D) (status : ExtensionStatus) (wake : Wake R D)
      → Valid R D ctx
      → ValidRound (round R D ctx status wake)
  unfolding round
  round-Valid ctx no_extension wake v = v
  round-Valid ctx no_foreign_server wake v = v
  round-Valid ctx exist wake v = work-Valid ctx wake v

  pub Round-cases :
      (r : Round R D)
      → ((x : Result (Unit {0}) Text) × (ctx : SubscriberContext R D) × (r ≡ leave x ctx))
        ⊎ ((ctx : SubscriberContext R D) × (r ≡ again ctx))
  Round-cases (leave x ctx) = inl (x, ctx, refl)
  Round-cases (again ctx) = inr (ctx, refl)

  -- Whatever wakes a valid worker and however its main loop ends, it is valid then: each
  -- subscription has a live task of its own, no other task lives, and a replica has no
  -- subscription.
  pub bg_loop-Valid :
      (ctx : SubscriberContext R D) (wakes : List (Wake R D))
      → Valid R D ctx
      → Valid R D (bg_loop R D ctx wakes).1
  unfolding bg_loop
  bg_loop-Valid ctx [] v = v
  bg_loop-Valid ctx (wake ∷ wakes) v = elim (Round-cases (round R D ctx wake.status wake)) [
    | inl (x, ctx', e) ↦ rw (e, bg_loop) (rw e at (round-Valid ctx wake.status wake v))
    | inr (ctx', e) ↦
        rw (e, bg_loop) (bg_loop-Valid ctx' wakes (rw e at (round-Valid ctx wake.status wake v)))
  ]

  dropped-Quiet : (ctx : SubscriberContext R D) → Valid R D ctx → Quiet (dropped R D ctx)
  unfolding unsubscribe_all
  dropped-Quiet ctx v h = (unsubscribe_all-Good R ctx.nats ctx.world v.owned).exactly h

  restored_if_master-Valid :
      (status : PgInstanceStatus) (ctx : SubscriberContext R D)
      → Valid R D ctx
      → Valid R D (restored_if_master R D status ctx)
  unfolding restore_state
  restored_if_master-Valid master ctx v = rows_kept (D.fetch_subject_with_callbacks ctx.table)
    where
      rows_kept : (r : Result (List (Text × Text)) Text) → Valid R D (restored R D ctx r).1
      rows_kept (ok rows) = push_rows-Valid R D ctx rows v
      rows_kept (err e) = v
  restored_if_master-Valid replica ctx v = v

  run_worker-Quiet :
      (start : Start R D) (nats : NatsConnectionState R) (w : World) (wakes : List (Wake R D))
      → nats.subscriptions ≡ []
      → Quiet w
      → Quiet (run_worker R D start nats w wakes).1
  unfolding run_worker
  run_worker-Quiet start nats w wakes e q = elim (Bool-cases start.is_attached) [
    | inl attached ↦
        rw attached
          (dropped-Quiet _ (bg_loop-Valid _ wakes (restored_if_master-Valid _ _ notified)))
    | inr failed ↦ rw failed (dropped-Quiet _ notified)
  ]
    where
      first : SubscriberContext R D
      first = record {
        config = start.config;
        nats = nats;
        status = start.instance;
        channel = [];
        table = start.table;
        world = w;
      }

      idle : (status : PgInstanceStatus) → Idle R D status nats.subscriptions
      idle master = tt
      idle replica = e

      notified : Valid R D (send_notification R D first).1
      notified =
          send_notification-Valid R D first (record {
            owned = rw e (record { tidy = tt; exactly = q });
            idle = idle start.instance;
          })

  -- A new connection has no subscription.
  new_empty :
      (w : World) (o : NatsConnectionOptions)
      → (new R w o ≡ (err tt, (connect_nats R w o).1))
        ⊎ ((s : NatsConnectionState R) × (s.subscriptions ≡ [])
            × (new R w o ≡ (ok s, (connect_nats R w o).1)))
  unfolding new
  new_empty w o = elim (Option-cases (connect_nats R w o).0) [
    | inl e ↦ inl (rw (e, new))
    | inr (client, e) ↦ inr (record { client = client; subscriptions = [] }, refl, rw (e, new))
  ]

  connect_and_run-Quiet :
      (start : Start R D) (w : World) (wakes : List (Wake R D))
      → Quiet w
      → Quiet (connect_and_run R D start w wakes).1
  unfolding connect_and_run
  connect_and_run-Quiet start w wakes q = elim (Bool-cases start.has_runtime) [
    | inr failed ↦ rw failed q
    | inl built ↦ rw built (elim (new_empty w start.config.nats_opt) [
      | inl e ↦ rw e still
      | inr (s, none_yet, e) ↦ rw e (run_worker-Quiet start s _ wakes none_yet still)
    ])
  ]
    where
      still : Quiet (connect_nats R w start.config.nats_opt).1
      still h = R.connect_live w _ _ h ∙ q h

  pub run_if_installed-Quiet :
      (status : ExtensionStatus) (start : Start R D) (w : World) (wakes : List (Wake R D))
      → Quiet w
      → Quiet (run_if_installed R D status start w wakes).1
  run_if_installed-Quiet exist start w wakes q = connect_and_run-Quiet start w wakes q
  run_if_installed-Quiet no_extension start w wakes q = q
  run_if_installed-Quiet no_foreign_server start w wakes q = q
