-- ===== src/Subscriber/Tests/Arrival.antt =====
-- A subscription on its way to a worker, with one queue in memory.
use pgnats.Common.{ℕ, ◌≡◌, refl, true, Option, none, some, List, [], ◌∷◌, ◌++◌}
use pgnats.Common.Eq.{nat_eq, list_eq}
use pgnats.Text.{text}
use pgnats.Messages.{LauncherMessage, SubscriberMessage, exist}
use pgnats.Launcher.Postgres.{Postgres}
use pgnats.Launcher.Worker.{WorkerEntry}
use pgnats.Launcher.Context.{LauncherContext}
use pgnats.Launcher.Bus.{handle_message}
use pgnats.Launcher.Small.{entry_point}
use pgnats.Subscriber.Relation.{subscribed}
use pgnats.Subscriber.Context.{SubscriberContext}
use pgnats.Subscriber.Small.{tasks, rows_db, ctx_master}
use pgnats.Subscriber.Main.{again, round}
use pgnats.Subscriber.Arrival.{wake_of, subscription_arrives}

-- The state of the launcher is the queue of its one worker.
abbrev queued_postgres : Postgres
queued_postgres = record {
  World = List (List ℕ);
  Sender = Unit {0};
  Running = Unit {0};
  Terminating = Unit {0};
  get_database_name = λ w oid. (some (text "db"), w);
  shm_mq_minimum_size = 104;
  dsm_new = λ w size. (some 1, w);
  sender_new = λ w handle size. (some tt, w);
  load_dynamic = λ w spec. (some tt, w);
  send = λ w sender bytes. (true, w ++ bytes ∷ []);
  terminate = λ w r. (tt, w);
  wait_for_shutdown = λ w t. (true, w);
  encode = encode_bill;
}
  where
    encode_bill : SubscriberMessage → Option (List ℕ)
    encode_bill m = some (7 ∷ [])

abbrev decode_bill : List ℕ → Option SubscriberMessage
decode_bill [] = none
decode_bill (b ∷ bytes) = some (SubscriberMessage.subscribe (text "bills") (text "on_late"))

abbrev bills_entry : WorkerEntry (Unit {0}) (Unit {0})
bills_entry = record { db_name = text "db"; sender = tt; oid = 5; state = tt }

abbrev launcher : LauncherContext queued_postgres
launcher = record {
  pending_workers = [];
  workers = (5, bills_entry) ∷ [];
  terminated_workers = [];
  counter = 1;
}

abbrev queue_after : List (List ℕ)
queue_after =
    (handle_message queued_postgres entry_point
      (LauncherMessage.subscribe 5 (text "bills") (text "on_late")) (launcher, [] ∷ [])).1

subscription_arrives_example :
    (worker : SubscriberContext tasks rows_db) × (round tasks rows_db ctx_master exist (
        wake_of queued_postgres entry_point decode_bill
          (λ w sender. w)
          (λ w sender bytes e. refl)
          tasks
          rows_db
          []
          queue_after
          bills_entry)
      ≡ again worker)
    × (subscribed tasks worker.nats (text "bills") (text "on_late") ≡ true)
subscription_arrives_example =
    subscription_arrives queued_postgres entry_point decode_bill (λ w sender. w)
      (λ w sender bytes e. refl) tasks rows_db launcher ([] ∷ []) 5 bills_entry (text "bills")
      (text "on_late") (7 ∷ []) ctx_master [] refl refl refl refl refl
