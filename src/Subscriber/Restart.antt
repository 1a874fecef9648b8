-- ===== src/Subscriber/Restart.antt =====
-- A worker of src/bgw/subscriber that takes over from an earlier one.
use pgnats.Common.{
  ℕ, ◌≡◌, refl, ap, ◌∙◌, true, false, Option, List, [], ◌++◌, map, Result, append-nil,
}
use pgnats.Text.{Text}
use pgnats.Messages.{InternalWorkerMessage, exist}
use pgnats.Subscriber.Runtime.{Runtime}
use pgnats.Subscriber.Nats.{CallError, NatsConnectionState}
use pgnats.Subscriber.Relation.{subscribed}
use pgnats.Subscriber.Context.{
  Database, SubscriberContext, PgInstanceStatus, master, restore_state, migrate, check_migration,
  send_notification, drain_channel, handle_messages,
}
use pgnats.Subscriber.Restore.{
  listed, request, push_rows_lem, send_notification_world, handle_messages-subscribed,
}
use pgnats.Subscriber.Main.{
  Wake, Start, Round, again, arrive, handle_received, work, round, bg_loop, restored_if_master,
}
use pgnats.Subscriber.Stored.{db}
use pgnats.Subscriber.Durable.{AllFair, worker-Stored}

module _ (R : Runtime) (call : Text → List ℕ → Result (Unit {0}) CallError)
    (notification : PgInstanceStatus → Option Text → Option (List ℕ)) where
  abbrev D : Database
  D = db R call notification

  -- A master wakes up and finds no message.
  abbrev pub quiet_wake : Wake R D
  quiet_wake = record {
    waiting = [];
    status = exist;
    instance = master;
    received = [];
    is_broken = false;
    arrived = [];
  }

  -- The worker before its first message, with the rows of the table in its channel.
  abbrev with_rows : SubscriberContext R D → SubscriberContext R D
  with_rows base = record base { channel = base.channel ++ map (request R D) base.table }

  round-quiet_wake :
      (ctx : SubscriberContext R D)
      → ctx.status ≡ master
      → round R D ctx exist quiet_wake
        ≡ again (drain_channel R D (record ctx { channel = (ctx.channel ++ []) ++ [] }))
  unfolding round work handle_received check_migration migrate
  round-quiet_wake ctx e =
      ap
        (λ st.
          again (drain_channel R D (arrive R D (migrate R D (arrive R D ctx []) st master).1 [])))
        e

  drained-listed :
      (base : SubscriberContext R D) (a b : Text)
      → base.status ≡ master
      → base.channel ≡ []
      → base.nats.subscriptions ≡ []
      → subscribed R
          (drain_channel R D (record base {
            channel = ((base.channel ++ map (request R D) base.table) ++ []) ++ [];
          })).nats
          a
          b
        ≡ listed base.table a b
  unfolding drain_channel
  drained-listed base a b e idle none_yet =
      let rows : List InternalWorkerMessage = map (request R D) base.table in
      let start : SubscriberContext R D = record base { channel = [] } in
      ap (λ c. subscribed R (handle_messages R D start c).nats a b)
        (append-nil ((base.channel ++ rows) ++ [])
          ∙ (append-nil (base.channel ++ rows) ∙ ap (λ c. c ++ rows) idle))
      ∙ (handle_messages-subscribed R D start base.table a b e ∙ rw none_yet refl)

  -- The first round of a worker that starts as a master.
  abbrev pub first_round : SubscriberContext R D → Round R D
  first_round ctx = round R D (restored_if_master R D ctx.status ctx) exist quiet_wake

  first_round-listed :
      (base : SubscriberContext R D)
      → base.status ≡ master
      → base.channel ≡ []
      → base.nats.subscriptions ≡ []
      → (ctx : SubscriberContext R D) × (first_round base ≡ again ctx)
        × ((a b : Text) → subscribed R ctx.nats a b ≡ listed base.table a b)
  unfolding restore_state
  first_round-listed base e idle none_yet = (
    _,
    ap (λ st. round R D (restored_if_master R D st base) exist quiet_wake) e
        ∙ (ap (λ c. round R D c exist quiet_wake) (push_rows_lem R D base base.table)
            ∙ round-quiet_wake (with_rows base) e),
    λ a b. drained-listed base a b e idle none_yet,
  )

  -- A worker as it is made, before its first notification.
  abbrev pub made : Start R D → NatsConnectionState R → R.World → SubscriberContext R D
  made start nats w = record {
    config = start.config;
    nats = nats;
    status = start.instance;
    channel = [];
    table = start.table;
    world = w;
  }

  abbrev pub notified : SubscriberContext R D → SubscriberContext R D
  notified ctx = (send_notification R D ctx).1

  -- The end of the main loop of a worker.
  abbrev pub last_state :
      Start R D → NatsConnectionState R → R.World → List (Wake R D) → SubscriberContext R D
  last_state start nats w wakes =
      let ctx : SubscriberContext R D = notified (made start nats w) in
      (bg_loop R D (restored_if_master R D ctx.status ctx) wakes).1

  -- Where statements fail for the unique constraint only, nobody else changes the table, and
  -- tasks send only messages that tasks send: if a function was subscribed to a subject when the
  -- main loop of a worker that started without subscriptions ended, and the next worker starts as
  -- a master without subscriptions on the same table, it has the function subscribed to the
  -- subject after a first round without messages.
  pub restart-subscribed :
      (start next : Start R D) (nats nats' : NatsConnectionState R) (w w' : R.World)
      (wakes : List (Wake R D)) (a b : Text)
      → nats.subscriptions ≡ []
      → AllFair R call notification wakes
      → subscribed R (last_state start nats w wakes).nats a b ≡ true
      → next.instance ≡ master
      → next.table ≡ (last_state start nats w wakes).table
      → nats'.subscriptions ≡ []
      → (ctx : SubscriberContext R D) × (first_round (notified (made next nats' w')) ≡ again ctx)
        × (subscribed R ctx.nats a b ≡ true)
  restart-subscribed start next nats nats' w w' wakes a b none_yet f was m same none_there =
      let second : SubscriberContext R D = made next nats' w' in
      let (v, sent) = send_notification_world R D second in
      let (ctx, r, h) =
        first_round-listed (notified second) (ap (λ (c : SubscriberContext R D). c.status) sent ∙ m)
          (ap (λ (c : SubscriberContext R D). c.channel) sent)
          (ap (λ (c : SubscriberContext R D). c.nats.subscriptions) sent ∙ none_there) in
      (
        ctx,
        r,
        h a b
            ∙ (ap (λ (c : SubscriberContext R D). listed c.table a b) sent
                ∙ (ap (λ t. listed t a b) same
                    ∙ worker-Stored R call notification start nats w wakes none_yet f a b was)),
      )
