-- ===== src/Subscriber/Invariant.antt =====
-- The worker of src/bgw/subscriber keeps its tasks in order, and a replica has no subscription.
use pgnats.Common.{
  ◌≡◌, refl, ◌∙◌, inl, inr, Bool, true, false, Option, none, some, List, [], ◌∷◌, Result, ok, err,
  Option-cases, Bool-cases,
}
use pgnats.Common.Eq.{nat_eq, list_eq}
use pgnats.Text.{Text}
use pgnats.Config.{options_beq, Config, NatsConnectionOptions}
use pgnats.Messages.{SubscriberMessage, InternalWorkerMessage}
use pgnats.Subscriber.Runtime.{Runtime}
use pgnats.Subscriber.Nats.{
  connect_nats, NatsConnectionState, unsubscribe_all, reconnect_nats, reconnect_with, respawn,
}
use pgnats.Subscriber.Tasks.{Owned, Subscriptions}
use pgnats.Subscriber.Ownership.{
  subscribe-Good, unsubscribe-Good, unsubscribe_subject-Good, unsubscribe_all-Good,
  run_callbacks-Good, reconnect_nats-Good,
}
use pgnats.Subscriber.Context.{
  PgInstanceStatus, master, replica, Database, SubscriberContext, published, send_notification,
  push, push_rows, restored, restore_state, notify_after, migrate, check_migration, reconnected,
  apply_config, handle_message_from_shared_queue, handle_internal_message, handle_unless_replica,
  handle_messages, drain_channel,
}

module _ (R : Runtime) (D : Database) where
  open R use {World}

  abbrev pub Idle : PgInstanceStatus → Subscriptions R → Type 0
  Idle master subs = Unit {0}
  Idle replica subs = subs ≡ []

  pub record Valid (ctx : SubscriberContext R D) : Type 0 where
    pub owned : Owned R ctx.nats.subscriptions ctx.world
    pub idle : Idle ctx.status ctx.nats.subscriptions

  -- Changes that the invariant does not look at
  published-Valid :
      (ctx : SubscriberContext R D) (b : Bool) (w : World)
      → Owned R ctx.nats.subscriptions w
      → Valid ctx
      → Valid (published R D ctx (b, w)).1
  published-Valid ctx true w o v = record { owned = o; idle = v.idle }
  published-Valid ctx false w o v = record { owned = o; idle = v.idle }

  pub send_notification-Valid :
      (ctx : SubscriberContext R D) → Valid ctx → Valid (send_notification R D ctx).1
  unfolding send_notification
  send_notification-Valid ctx v =
      elim (Option-cases (D.notification ctx.status ctx.config.patroni_url)) [
        | inl e ↦ rw (e, send_notification) v
        | inr (body, e) ↦
            rw (e, send_notification)
              (published-Valid ctx _ _
                (record {
                  tidy = v.owned.tidy;
                  exactly = λ h.
                      R.publish_live ctx.world ctx.nats.client ctx.config.notify_subject body h
                      ∙ v.owned.exactly h;
                })
                v)
      ]

  pub push_rows-Valid :
      (ctx : SubscriberContext R D) (rows : List (Text × Text))
      → Valid ctx
      → Valid (push_rows R D ctx rows)
  unfolding push_rows
  push_rows-Valid ctx [] v = v
  push_rows-Valid ctx ((subject, f) ∷ rows) v =
      push_rows-Valid (push R D ctx (InternalWorkerMessage.subscribe false subject f)) rows
        (record { owned = v.owned; idle = v.idle })

  restored-Valid :
      (ctx : SubscriberContext R D) (r : Result (List (Text × Text)) Text)
      → Valid ctx
      → Valid (notify_after R D (restored R D ctx r)).1
  restored-Valid ctx (ok rows) v = send_notification-Valid _ (push_rows-Valid ctx rows v)
  restored-Valid ctx (err e) v = v

  migrate-Valid :
      (ctx : SubscriberContext R D) (old new : PgInstanceStatus)
      → Valid ctx
      → Valid (migrate R D ctx old new).1
  unfolding migrate restore_state unsubscribe_all
  migrate-Valid ctx master replica v =
      send_notification-Valid _
        (record { owned = unsubscribe_all-Good R ctx.nats ctx.world v.owned; idle = refl })
  migrate-Valid ctx replica master v =
      restored-Valid (record ctx { status = master }) (D.fetch_subject_with_callbacks ctx.table)
        (record { owned = v.owned; idle = tt })
  migrate-Valid ctx master master v = v
  migrate-Valid ctx replica replica v = v

  -- A check of the role of the instance keeps a worker valid: each subscription has a live task
  -- of its own, no other task lives, and a replica has no subscription.
  pub check_migration-Valid :
      (ctx : SubscriberContext R D) (state : PgInstanceStatus)
      → Valid ctx
      → Valid (check_migration R D ctx state).1
  unfolding check_migration
  check_migration-Valid ctx state v = migrate-Valid ctx ctx.status state v

  reconnect_nats-Idle :
      (s : NatsConnectionState R) (w : World) (options : NatsConnectionOptions)
      (status : PgInstanceStatus)
      → Idle status s.subscriptions
      → Idle status (reconnect_nats R s w options).1.subscriptions
  unfolding reconnect_nats reconnect_with unsubscribe_all respawn
  reconnect_nats-Idle s w options master i = tt
  reconnect_nats-Idle s w options replica i = elim (Option-cases (connect_nats R w options).0) [
    | inl e ↦ rw (e, reconnect_nats) i
    | inr (client, e) ↦ rw (e, reconnect_nats) (rw (i, respawn))
  ]

  reconnected-Valid :
      (ctx : SubscriberContext R D) (config : Config)
      (r : Result (Unit {0}) (Unit {0}) × NatsConnectionState R × World)
      → Owned R r.1.subscriptions r.2
      → Idle ctx.status r.1.subscriptions
      → Valid (reconnected R D ctx config r).1
  reconnected-Valid ctx config (ok u, s, w) o i = record { owned = o; idle = i }
  reconnected-Valid ctx config (err u, s, w) o i = record { owned = o; idle = i }

  apply_config-Valid :
      (ctx : SubscriberContext R D) (config : Config)
      → Valid ctx
      → Valid (apply_config R D ctx config).1
  unfolding apply_config
  apply_config-Valid ctx config v =
      elim (Bool-cases (options_beq ctx.config.nats_opt config.nats_opt)) [
        | inl same ↦ rw same (record { owned = v.owned; idle = v.idle })
        | inr differ ↦ rw differ (
            reconnected-Valid ctx config _
              (reconnect_nats-Good R ctx.nats ctx.world config.nats_opt v.owned)
              (reconnect_nats-Idle ctx.nats ctx.world config.nats_opt ctx.status v.idle))
      ]

  -- A message of the launcher, decoded or not, keeps a worker valid: each subscription has a live
  -- task of its own, no other task lives, and a replica has no subscription.
  pub handle_message_from_shared_queue-Valid :
      (ctx : SubscriberContext R D) (msg : Option SubscriberMessage)
      → Valid ctx
      → Valid (handle_message_from_shared_queue R D ctx msg)
  unfolding handle_message_from_shared_queue
  handle_message_from_shared_queue-Valid ctx none v = v
  handle_message_from_shared_queue-Valid ctx (some (SubscriberMessage.new_config config)) v =
      apply_config-Valid ctx config v
  handle_message_from_shared_queue-Valid ctx (some (SubscriberMessage.subscribe subject f)) v =
      record { owned = v.owned; idle = v.idle }
  handle_message_from_shared_queue-Valid ctx (some (SubscriberMessage.unsubscribe subject f)) v =
      record { owned = v.owned; idle = v.idle }

  handle_internal_message-Owned :
      (ctx : SubscriberContext R D) (msg : InternalWorkerMessage)
      → Owned R ctx.nats.subscriptions ctx.world
      → let ctx' = handle_internal_message R D ctx msg in Owned R ctx'.nats.subscriptions ctx'.world
  unfolding handle_internal_message
  handle_internal_message-Owned ctx (InternalWorkerMessage.subscribe r subject f) o =
      subscribe-Good R ctx.nats ctx.world subject f o
  handle_internal_message-Owned ctx (InternalWorkerMessage.unsubscribe subject f) o =
      unsubscribe-Good R ctx.nats ctx.world subject f o
  handle_internal_message-Owned ctx (InternalWorkerMessage.callback_call subject payload) o =
      run_callbacks-Good R ctx.nats ctx.world subject payload (D.call_function ctx.table) o
  handle_internal_message-Owned ctx (InternalWorkerMessage.unsubscribe_subject subject reason) o =
      unsubscribe_subject-Good R ctx.nats ctx.world subject o

  pub handle_internal_message-status :
      (ctx : SubscriberContext R D) (msg : InternalWorkerMessage)
      → (handle_internal_message R D ctx msg).status ≡ ctx.status
  unfolding handle_internal_message
  handle_internal_message-status ctx (InternalWorkerMessage.subscribe r subject f) = refl
  handle_internal_message-status ctx (InternalWorkerMessage.unsubscribe subject f) = refl
  handle_internal_message-status ctx (InternalWorkerMessage.callback_call subject payload) = refl
  handle_internal_message-status ctx (InternalWorkerMessage.unsubscribe_subject subject reason) =
      refl

  handle_unless_replica-Valid :
      (ctx : SubscriberContext R D) (status : PgInstanceStatus) (msg : InternalWorkerMessage)
      → ctx.status ≡ status
      → Valid ctx
      → Valid (handle_unless_replica R D ctx status msg)
  unfolding handle_unless_replica
  handle_unless_replica-Valid ctx replica msg e v = v
  handle_unless_replica-Valid ctx master msg e v = record {
    owned = handle_internal_message-Owned ctx msg v.owned;
    idle = rw (handle_internal_message-status ctx msg, e) tt;
  }

  handle_messages-Valid :
      (ctx : SubscriberContext R D) (msgs : List InternalWorkerMessage)
      → Valid ctx
      → Valid (handle_messages R D ctx msgs)
  unfolding handle_messages
  handle_messages-Valid ctx [] v = v
  handle_messages-Valid ctx (msg ∷ msgs) v =
      handle_messages-Valid (handle_unless_replica R D ctx ctx.status msg) msgs
        (handle_unless_replica-Valid ctx ctx.status msg refl v)

  -- The handling of all internal messages of the channel keeps a worker valid: each subscription
  -- has a live task of its own, no other task lives, and a replica has no subscription.
  pub drain_channel-Valid :
      (ctx : SubscriberContext R D) → Valid ctx → Valid (drain_channel R D ctx)
  unfolding drain_channel
  drain_channel-Valid ctx v =
      handle_messages-Valid _ ctx.channel (record { owned = v.owned; idle = v.idle })
