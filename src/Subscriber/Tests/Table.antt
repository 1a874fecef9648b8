-- ===== src/Subscriber/Tests/Table.antt =====
-- The theorems on the table of subscriptions and on the abstract worker at small inputs.
use pgnats.Subscriber.Main.{again}
use pgnats.Subscriber.Restart.{first_round, made, notified, last_state, restart-subscribed}
use pgnats.Common.{
  ℕ, ◌≡◌, refl, true, false, not, ◌&&◌, Option, none, some, List, [], ◌∷◌, ◌++◌, ok, arith, Result,
}
use pgnats.Common.Eq.{nat_eq, list_eq}
use pgnats.Common.Eq.{list_beq}
use pgnats.Text.{Text, text}
use pgnats.Config.{parse_config}
use pgnats.Messages.{InternalWorkerMessage, SubscriberMessage, exist}
use pgnats.Subscriber.Nats.{CallError, NatsConnectionState}
use pgnats.Subscriber.Main.{round, work, handle_received}
use pgnats.Subscriber.Nats.{subscribe, run_callbacks}
use pgnats.Subscriber.Table.{insert_subject_callback}
use pgnats.Subscriber.Context.{
  restore_state, push_rows, check_migration, migrate, handle_message_from_shared_queue,
  handle_messages, handle_unless_replica, handle_internal_message, PgInstanceStatus, master,
  SubscriberContext, drain_channel, send_notification,
}
use pgnats.Subscriber.Relation.{same, subscribed}
use pgnats.Subscriber.Restore.{listed}
use pgnats.Subscriber.Invariant.{Valid}
use pgnats.Subscriber.Lifetime.{bg_loop-Valid}
use pgnats.Subscriber.Small.{tasks, rows_db, ctx_master, ctx_master-Valid}
use pgnats.Subscriber.Main.{Wake, Start, bg_loop, restored_if_master}
use pgnats.Subscriber.Refinement.{Worker, Represents, run_if_master, drain_channel-Represents}
use pgnats.Subscriber.Table.{cleanup_subscriptions_on_drop, cleanup-listed}
use pgnats.Subscriber.Stored.{db, Stored}
use pgnats.Subscriber.Durable.{worker-Stored}

abbrev worker_master : Worker tasks rows_db
worker_master = record { pairs = subscribed tasks ctx_master.nats; table = ctx_master.table }

drain_channel-Represents_example :
    Represents tasks rows_db
      (drain_channel tasks rows_db ctx_master)
      (run_if_master tasks rows_db master worker_master ctx_master.channel)
drain_channel-Represents_example =
    drain_channel-Represents tasks rows_db ctx_master worker_master
      (record { pairs_of = λ a b. refl; table_of = refl })

abbrev known : Text → List ℕ → Result (Unit {0}) CallError
known f payload = ok tt

abbrev no_body : PgInstanceStatus → Option Text → Option (List ℕ)
no_body status url = none

abbrev start_rows : Start tasks (db tasks known no_body)
start_rows = record {
  status = exist;
  has_runtime = true;
  config = parse_config [];
  instance = master;
  table = (text "orders", text "on_order") ∷ [];
  is_attached = true;
}

abbrev no_subscription : NatsConnectionState tasks
no_subscription = record { client = 4222; subscriptions = [] }

abbrev two_wakes : List (Wake tasks (db tasks known no_body))
two_wakes =
    record {
      waiting = [];
      status = exist;
      instance = master;
      received = some (SubscriberMessage.subscribe (text "bills") (text "on_bill")) ∷ [];
      is_broken = false;
      arrived = InternalWorkerMessage.callback_call (text "orders") (1 ∷ []) ∷ [];
    }
    ∷ record {
      waiting = InternalWorkerMessage.callback_call (text "bills") [] ∷ [];
      status = exist;
      instance = PgInstanceStatus.replica;
      received = [];
      is_broken = false;
      arrived = [];
    }
    ∷ []

abbrev first : SubscriberContext tasks (db tasks known no_body)
first = record {
  config = parse_config [];
  nats = no_subscription;
  status = master;
  channel = [];
  table = (text "orders", text "on_order") ∷ [];
  world = [];
}

abbrev announced_first : SubscriberContext tasks (db tasks known no_body)
announced_first = (send_notification tasks (db tasks known no_body) first).1

worker-Stored_example :
    Stored tasks known no_body
      (bg_loop tasks
        (db tasks known no_body)
        (restored_if_master tasks (db tasks known no_body) announced_first.status announced_first)
        two_wakes).1
worker-Stored_example =
    worker-Stored tasks known no_body start_rows no_subscription [] two_wakes refl
      ((tt, tt), ((tt, tt), tt))

cleanup-listed_example :
    listed
      (cleanup_subscriptions_on_drop
        (record { is_function = true; object_identity = text "f" ++ b'(' ∷ text "integer)" } ∷ [])
        ((text "orders", text "f") ∷ []))
      (text "orders")
      (text "f")
    ≡ (not (same (text "f") (text "f"))
        && listed ((text "orders", text "f") ∷ []) (text "orders") (text "f"))
cleanup-listed_example =
    cleanup-listed (text "f") (text "integer)") (text "orders") (text "f")
      ((text "orders", text "f") ∷ []) (omega arith, tt)

abbrev one_wake : List (Wake tasks rows_db)
one_wake =
    record {
      waiting = InternalWorkerMessage.callback_call (text "orders") (1 ∷ []) ∷ [];
      status = exist;
      instance = PgInstanceStatus.replica;
      received = some (SubscriberMessage.subscribe (text "bills") (text "on_bill")) ∷ none ∷ [];
      is_broken = false;
      arrived = [];
    }
    ∷ []

bg_loop-Valid_example : Valid tasks rows_db (bg_loop tasks rows_db ctx_master one_wake).1
bg_loop-Valid_example = bg_loop-Valid tasks rows_db ctx_master one_wake ctx_master-Valid

-- The first worker subscribes on_bill to bills and stops.
abbrev one_subscription : List (Wake tasks (db tasks known no_body))
one_subscription =
    record {
      waiting = [];
      status = exist;
      instance = master;
      received = some (SubscriberMessage.subscribe (text "bills") (text "on_bill")) ∷ [];
      is_broken = false;
      arrived = [];
    }
    ∷ []

abbrev next_start : Start tasks (db tasks known no_body)
next_start = record start_rows {
  table = (last_state tasks known no_body start_rows no_subscription [] one_subscription).table;
}

was_subscribed :
    subscribed tasks
      (last_state tasks known no_body start_rows no_subscription [] one_subscription).nats
      (text "bills")
      (text "on_bill")
    ≡ true
unfolding bg_loop round work handle_received restore_state push_rows send_notification
    check_migration migrate handle_message_from_shared_queue drain_channel handle_messages
    handle_unless_replica handle_internal_message subscribe run_callbacks list_beq
    insert_subject_callback
was_subscribed = refl

restart-subscribed_example :
    (ctx : SubscriberContext tasks (db tasks known no_body)) × (first_round tasks known no_body
        (notified tasks known no_body (made tasks known no_body next_start no_subscription []))
      ≡ again ctx)
    × (subscribed tasks ctx.nats (text "bills") (text "on_bill") ≡ true)
restart-subscribed_example =
    restart-subscribed tasks known no_body start_rows next_start no_subscription no_subscription []
      [] one_subscription (text "bills") (text "on_bill") refl ((tt, tt), tt) was_subscribed refl
      refl refl
