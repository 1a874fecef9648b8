-- ===== src/Subscriber/Tests/Worker.antt =====
-- The theorems on whole workers and on calls of functions at small inputs.
use pgnats.Common.{
  ℕ, ◌≡◌, refl, Bool, true, false, not, ◌&&◌, ◌||◌, Option, none, some, List, [], ◌∷◌, Result, ok,
  err, done, if◌then◌else◌, arith, ◌==◌,
}
use pgnats.Common.Eq.{nat_eq, list_eq, list_beq}
use pgnats.Text.{Text, text}
use pgnats.Config.{parse_config}
use pgnats.Messages.{LauncherMessage, SubscriberMessage, InternalWorkerMessage, exist, no_extension}
use pgnats.RingQueue.{RingQueue, new}
use pgnats.RingQueue.Invariant.{Sized, new-Holds}
use pgnats.Launcher.Retry.{Intact}
use pgnats.Common.Assoc.{get}
use pgnats.Subscriber.Tasks.{owns}
use pgnats.Subscriber.Orphan.{run_callbacks_orphan}
use pgnats.Subscriber.Nats.{not_found, run_callbacks}
use pgnats.Subscriber.Relation.{same, subscribed}
use pgnats.Subscriber.Context.{
  SubscriberContext, Database, master, replica, check_migration, drain_channel,
}
use pgnats.Subscriber.Small.{tasks, rows_db, orders}
use pgnats.Subscriber.PgApi.{
  Ending, finished, postgres_error, call_function, unknown, call_function-subscribed,
}
use pgnats.Subscriber.Main.{Wake, Start, bg_loop, background_worker_subscriber_main}
use pgnats.Subscriber.Lifetime.{Quiet}
use pgnats.Subscriber.Exit.{background_worker_subscriber_main-Quiet}
use pgnats.Subscriber.Restore.{listed, promotion-subscribed}
use pgnats.Subscriber.Lost.{AllSilent, failed_restore_is_final}

abbrev select : Text → List ℕ → Ending
select f payload = if list_beq ◌==◌ f (text "gone") then postgres_error true else finished

call_function-subscribed_example :
    subscribed tasks
      (run_callbacks tasks orders (text "orders") (1 ∷ []) (call_function select))
      (text "orders")
      (text "gone")
    ≡ ((not (same (text "orders") (text "orders"))
          || not (unknown tasks select (text "gone") (1 ∷ [])))
        && subscribed tasks orders (text "orders") (text "gone"))
call_function-subscribed_example =
    call_function-subscribed tasks select orders (text "orders") (1 ∷ []) (text "orders")
      (text "gone")

Sized-64 : Sized 64
Sized-64 = record { header_fits = omega arith; small = omega arith }

abbrev start_master : Start tasks rows_db
start_master = record {
  status = exist;
  has_runtime = true;
  config = parse_config [];
  instance = master;
  table = (text "orders", text "on_order") ∷ [];
  is_attached = true;
}

-- A subscription from the launcher, a message from a task, and then the dropping of the extension.
abbrev wakes : List (Wake tasks rows_db)
wakes =
    record {
      waiting = [];
      status = exist;
      instance = master;
      received = some (SubscriberMessage.subscribe (text "bills") (text "on_bill")) ∷ [];
      is_broken = false;
      arrived = InternalWorkerMessage.callback_call (text "orders") (1 ∷ []) ∷ [];
    }
    ∷ record {
      waiting = [];
      status = no_extension;
      instance = master;
      received = [];
      is_broken = false;
      arrived = [];
    }
    ∷ []

abbrev encode_short : LauncherMessage → Option (List ℕ)
encode_short m = some (1 ∷ 2 ∷ [])

background_worker_subscriber_main-Quiet_example :
    (r : Result (Unit {0}) Text) × (w' : List Bool) × (q' : RingQueue)
    × (background_worker_subscriber_main tasks rows_db encode_short 64
          (λ q. q)
          5
          (some (text "db"))
          (new 64)
          start_master
          []
          wakes
        ≡ done (r, w', q'))
    × Quiet tasks rows_db w'
    × Intact 64 q'
background_worker_subscriber_main-Quiet_example =
    background_worker_subscriber_main-Quiet tasks rows_db encode_short Sized-64 (λ q. q) 5
      (some (text "db")) (new 64) start_master [] wakes (λ p i. i) ([], new-Holds Sized-64)
      (λ h. refl)

abbrev ctx_replica : SubscriberContext tasks rows_db
ctx_replica = record {
  config = parse_config [];
  nats = record { client = 4222; subscriptions = [] };
  status = replica;
  channel = [];
  table = (text "orders", text "on_order") ∷ (text "orders", text "on_late") ∷ [];
  world = [];
}

promotion-subscribed_example :
    subscribed tasks
      (drain_channel tasks rows_db (check_migration tasks rows_db ctx_replica master).1).nats
      (text "orders")
      (text "on_late")
    ≡ listed
        ((text "orders", text "on_order") ∷ (text "orders", text "on_late") ∷ [])
        (text "orders")
        (text "on_late")
promotion-subscribed_example =
    promotion-subscribed tasks rows_db ctx_replica
      ((text "orders", text "on_order") ∷ (text "orders", text "on_late") ∷ []) (text "orders")
      (text "on_late") refl refl refl refl

-- A table that can be read or not.
abbrev moody_db : Database
moody_db = record {
  Table = Bool;
  fetch_subject_with_callbacks =
      λ t. if t then ok ((text "orders", text "on_order") ∷ []) else err (text "no table");
  insert_subject_callback = λ t subject f. ok t;
  delete_subject_callback = λ t subject f. ok t;
  call_function = λ t f payload. ok tt;
  notification = λ status url. none;
}

abbrev ctx_moody : SubscriberContext tasks moody_db
ctx_moody = record {
  config = parse_config [];
  nats = record { client = 4222; subscriptions = [] };
  status = replica;
  channel = [];
  table = false;
  world = [];
}

-- A wake-up on the master, and one with another port.
abbrev two_wakes : List (Wake tasks moody_db)
two_wakes =
    record {
      waiting = [];
      status = exist;
      instance = master;
      received = [];
      is_broken = false;
      arrived = [];
    }
    ∷ record {
      waiting = [];
      status = exist;
      instance = master;
      received =
          some (SubscriberMessage.new_config (parse_config ((text "port", text "4223") ∷ []))) ∷ [];
      is_broken = false;
      arrived = [];
    }
    ∷ []

two_wakes-AllSilent : AllSilent tasks moody_db two_wakes
two_wakes-AllSilent = (
  record { still = refl; none_waiting = refl; none_arrived = refl; configs = tt },
  (record { still = refl; none_waiting = refl; none_arrived = refl; configs = (tt, tt) }, tt),
)

failed_restore_is_final_example :
    ((check_migration tasks moody_db ctx_moody master).0 ≡ err tt)
    × (subscribed tasks
          (bg_loop tasks moody_db
            (record (check_migration tasks moody_db ctx_moody master).1 { table = true })
            two_wakes).1.nats
          (text "orders")
          (text "on_order")
        ≡ false)
failed_restore_is_final_example =
    failed_restore_is_final tasks moody_db ctx_moody (text "no table") true two_wakes
      (text "orders") (text "on_order") refl refl refl refl two_wakes-AllSilent

run_callbacks_orphan_example :
    (get
        (text "orders")
        (run_callbacks tasks orders (text "orders") [] (λ f payload. err not_found)).subscriptions
      ≡ some (record { handler = 0; funcs = [] }))
    × (owns tasks
          (run_callbacks tasks orders (text "orders") [] (λ f payload. err not_found)).subscriptions
          0
        ≡ owns tasks orders.subscriptions 0)
unfolding list_beq
run_callbacks_orphan_example =
    run_callbacks_orphan tasks orders (text "orders") [] (λ f payload. err not_found)
      (record { handler = 0; funcs = text "on_order" ∷ text "gone" ∷ [] }) 0 refl (λ f. refl)
