-- ===== src/Subscriber/Context.antt =====
-- src/bgw/subscriber/context.rs and the handlers of src/bgw/subscriber/mod.rs, as built without the
-- `pg_test` feature. The channel of internal messages is a list, oldest first.
use pgnats.Common.{
  ℕ, Bool, true, false, not, Option, none, some, List, [], ◌∷◌, ◌++◌, Result, ok, err,
  if◌then◌else◌,
}
use pgnats.Common.Eq.{nat_eq, list_eq}
use pgnats.Text.{Text}
use pgnats.Config.{options_beq, Config}
use pgnats.Messages.{SubscriberMessage, InternalWorkerMessage}
use pgnats.Subscriber.Runtime.{Runtime}
use pgnats.Subscriber.Nats.{
  NatsConnectionState, CallError, subscribe, unsubscribe, unsubscribe_subject, unsubscribe_all,
  run_callbacks, reconnect_nats,
}

pub data PgInstanceStatus : Type 0 where
  master replica : PgInstanceStatus

-- What the worker asks of its database. `Table` is the content of `pgnats.subscriptions`; a
-- statement that fails changes nothing.
pub record Database : Type 1 where
  pub Table : Type 0
  pub fetch_subject_with_callbacks : Table → Result (List (Text × Text)) Text
  pub insert_subject_callback : Table → Text → Text → Result Table Text
  pub delete_subject_callback : Table → Text → Text → Result Table Text
  pub call_function : Table → Text → List ℕ → Result (Unit {0}) CallError
  -- `PgInstanceNotification::new`, as JSON
  pub notification : PgInstanceStatus → Option Text → Option (List ℕ)

module _ (R : Runtime) (D : Database) where
  open R use {World, publish}
  open D use {
    Table, fetch_subject_with_callbacks, insert_subject_callback, delete_subject_callback,
    call_function, notification,
  }

  pub record SubscriberContext : Type 0 where
    pub config : Config
    pub nats : NatsConnectionState R
    pub status : PgInstanceStatus
    pub channel : List InternalWorkerMessage
    pub table : Table
    pub world : World

  abbrev pub Answer : Type 0
  Answer = Result (Unit {0}) (Unit {0}) × SubscriberContext

  -- `send` on the channel, whose receiver lives as long as the worker.
  abbrev pub push : SubscriberContext → InternalWorkerMessage → SubscriberContext
  push ctx msg = record ctx { channel = ctx.channel ++ msg ∷ [] }

  abbrev pub published : SubscriberContext → Bool × World → Answer
  published ctx (true, w) = (ok tt, record ctx { world = w })
  published ctx (false, w) = (err tt, record ctx { world = w })

  unfoldable pub send_notification : SubscriberContext → Answer
  send_notification ctx = elim (notification ctx.status ctx.config.patroni_url) [
    | none ↦ (err tt, ctx)
    | some body ↦ published ctx (publish ctx.world ctx.nats.client ctx.config.notify_subject body)
  ]

  unfoldable pub push_rows : SubscriberContext → List (Text × Text) → SubscriberContext
  push_rows ctx [] = ctx
  push_rows ctx ((subject, fn_name) ∷ rows) =
      push_rows (push ctx (InternalWorkerMessage.subscribe false subject fn_name)) rows

  abbrev pub restored : SubscriberContext → Result (List (Text × Text)) Text → Answer
  restored ctx (ok rows) = (ok tt, push_rows ctx rows)
  restored ctx (err e) = (err tt, ctx)

  unfoldable pub restore_state : SubscriberContext → Answer
  unfolding push_rows
  restore_state ctx = restored ctx (fetch_subject_with_callbacks ctx.table)

  -- `self.restore_state(..)?; self.send_notification()?`
  abbrev pub notify_after : Answer → Answer
  notify_after (ok u, ctx) = send_notification ctx
  notify_after (err e, ctx) = (err e, ctx)

  abbrev pub with_nats : SubscriberContext → NatsConnectionState R × World → SubscriberContext
  with_nats ctx (s, w) = record ctx { nats = s; world = w }

  -- `state` is what `fetch_status` says now.
  unfoldable pub migrate : SubscriberContext → PgInstanceStatus → PgInstanceStatus → Answer
  migrate ctx master replica =
      let (subs, s, w) = unsubscribe_all R ctx.nats ctx.world in
      send_notification (record ctx { status = replica; nats = s; world = w })
  migrate ctx replica master = notify_after (restore_state (record ctx { status = master }))
  migrate ctx _ _ = (ok tt, ctx)

  unfoldable pub check_migration : SubscriberContext → PgInstanceStatus → Answer
  unfolding migrate
  check_migration ctx state = migrate ctx ctx.status state

  abbrev pub reconnected :
      SubscriberContext
      → Config
      → Result (Unit {0}) (Unit {0}) × NatsConnectionState R × World
      → Answer
  reconnected ctx config (ok u, s, w) = (ok tt, record ctx { nats = s; world = w; config = config })
  reconnected ctx config (err e, s, w) = (err e, record ctx { nats = s; world = w })

  unfoldable pub apply_config : SubscriberContext → Config → Answer
  apply_config ctx config =
      if not (options_beq ctx.config.nats_opt config.nats_opt)
      then reconnected ctx config (reconnect_nats R ctx.nats ctx.world config.nats_opt)
      else (ok tt, record ctx { config = config })

  -- `handle_message_from_shared_queue`, for what `postcard` decodes
  unfoldable pub handle_message_from_shared_queue :
      SubscriberContext → Option SubscriberMessage → SubscriberContext
  handle_message_from_shared_queue ctx none = ctx
  handle_message_from_shared_queue ctx (some (SubscriberMessage.new_config config)) =
      (apply_config ctx config).1
  handle_message_from_shared_queue ctx (some (SubscriberMessage.subscribe subject fn_name)) =
      push ctx (InternalWorkerMessage.subscribe true subject fn_name)
  handle_message_from_shared_queue ctx (some (SubscriberMessage.unsubscribe subject fn_name)) =
      push ctx (InternalWorkerMessage.unsubscribe subject fn_name)

  abbrev pub table_after : Table → Result Table Text → Table
  table_after t (ok t') = t'
  table_after t (err e) = t

  unfoldable pub handle_internal_message :
      SubscriberContext → InternalWorkerMessage → SubscriberContext
  handle_internal_message ctx (InternalWorkerMessage.subscribe register subject fn_name) =
      let table' =
        if register
        then table_after ctx.table (insert_subject_callback ctx.table subject fn_name)
        else ctx.table in
      with_nats (record ctx { table = table' }) (subscribe R ctx.nats ctx.world subject fn_name)
  handle_internal_message ctx (InternalWorkerMessage.unsubscribe subject fn_name) =
      let table' = table_after ctx.table (delete_subject_callback ctx.table subject fn_name) in
      with_nats (record ctx { table = table' }) (unsubscribe R ctx.nats ctx.world subject fn_name)
  handle_internal_message ctx (InternalWorkerMessage.callback_call subject payload) = record ctx {
    nats = run_callbacks R ctx.nats subject payload (call_function ctx.table);
  }
  handle_internal_message ctx (InternalWorkerMessage.unsubscribe_subject subject reason) =
      with_nats ctx (unsubscribe_subject R ctx.nats ctx.world subject)

  -- On a replica an internal message is dropped.
  unfoldable pub handle_unless_replica :
      SubscriberContext → PgInstanceStatus → InternalWorkerMessage → SubscriberContext
  unfolding handle_internal_message
  handle_unless_replica ctx replica msg = ctx
  handle_unless_replica ctx master msg = handle_internal_message ctx msg

  -- `while let Ok(message) = msg_receiver.try_recv()`, over the messages in the channel. Handling
  -- one puts no other into it.
  unfoldable pub handle_messages :
      SubscriberContext → List InternalWorkerMessage → SubscriberContext
  unfolding handle_unless_replica
  handle_messages ctx [] = ctx
  handle_messages ctx (msg ∷ msgs) = handle_messages (handle_unless_replica ctx ctx.status msg) msgs

  unfoldable pub drain_channel : SubscriberContext → SubscriberContext
  unfolding handle_messages
  drain_channel ctx = handle_messages (record ctx { channel = [] }) ctx.channel
