-- ===== src/Subscriber/Small.antt =====
-- A small runtime and a small database, with which the tests run src/bgw/subscriber.
use pgnats.Common.{
  ℕ, zero, suc, ◌≡◌, refl, Bool, true, false, not, ◌&&◌, Option, none, some, List, [], ◌∷◌, ◌++◌,
  ok, err, ◌==◌, if◌then◌else◌, length, arith,
}
use pgnats.Common.Eq.{nat_eq, list_eq, list_beq, pair_eq}
use pgnats.Common.Sets.{retain}
use pgnats.Text.{Text, text}
use pgnats.Config.{parse_config}
use pgnats.Connect.Small.{small_builder}
use pgnats.Messages.{InternalWorkerMessage}
use pgnats.Subscriber.Runtime.{Runtime}
use pgnats.Subscriber.Nats.{NatsConnectionState, not_found}
use pgnats.Subscriber.Tasks.{owns}
use pgnats.Subscriber.Ownership.{Good}
use pgnats.Subscriber.Context.{Database, SubscriberContext, master}
use pgnats.Subscriber.Invariant.{Valid}

-- Tasks are numbered in the order in which they are spawned: the state tells which of them live.
abbrev pub nth : List Bool → ℕ → Bool
nth [] h = false
nth (b ∷ bs) zero = b
nth (b ∷ bs) (suc h) = nth bs h

abbrev pub clear : List Bool → ℕ → List Bool
clear [] k = []
clear (b ∷ bs) zero = false ∷ bs
clear (b ∷ bs) (suc k) = b ∷ clear bs k

pub nth_past : (w : List Bool) → nth w (length w) ≡ false
nth_past [] = refl
nth_past (b ∷ w) = nth_past w

pub nth-spawned :
    (w : List Bool) (h : ℕ) → nth (w ++ true ∷ []) h ≡ (if length w == h then true else nth w h)
nth-spawned [] zero = refl
nth-spawned [] (suc h) = ground arith
nth-spawned (b ∷ w) zero = ground arith
nth-spawned (b ∷ w) (suc h) = ground (arith, nth-spawned w h)

pub nth-clear : (w : List Bool) (k h : ℕ) → nth (clear w k) h ≡ (if k == h then false else nth w h)
nth-clear [] k h = ground arith
nth-clear (b ∷ w) zero zero = refl
nth-clear (b ∷ w) zero (suc h) = ground arith
nth-clear (b ∷ w) (suc k) zero = ground arith
nth-clear (b ∷ w) (suc k) (suc h) = ground (arith, nth-clear w k h)

-- A client is the length of its address.
abbrev pub connected : Text → Option ℕ
connected address = if length address == 0 then none else some (length address)

abbrev pub tasks : Runtime
tasks = record {
  World = List Bool;
  Client = ℕ;
  Handle = ℕ;
  handle_eq = nat_eq;
  live = nth;
  builder = small_builder;
  current_dir = λ w. none;
  connect = λ w o address. (connected address, w);
  spawn = λ w c s. (length w, w ++ true ∷ []);
  abort = clear;
  publish = λ w c s body. (true, w);
  publish_live = λ w c s body h. refl;
  connect_live = λ w o address h. refl;
  spawn_fresh = λ w c s. nth_past w;
  spawn_live = λ w c s h. nth-spawned w h;
  abort_live = nth-clear;
}

-- A table of rows, in a database that knows every function but `gone`.
abbrev pub rows_db : Database
rows_db = record {
  Table = List (Text × Text);
  fetch_subject_with_callbacks = λ t. ok t;
  insert_subject_callback = λ t subject f. ok ((subject, f) ∷ t);
  delete_subject_callback =
      λ t subject f. ok (retain (λ r. not (list_beq ◌==◌ r.0 subject && list_beq ◌==◌ r.1 f)) t);
  call_function = λ t f payload. if list_beq ◌==◌ f (text "gone") then err not_found else ok tt;
  notification = λ status url. some (text "{}");
}

abbrev pub orders : NatsConnectionState tasks
orders = record {
  client = 4222;
  subscriptions =
      (text "orders", record { handler = 0; funcs = text "on_order" ∷ text "gone" ∷ [] })
      ∷ (text "bills", record { handler = 2; funcs = text "on_bill" ∷ [] })
      ∷ [];
}

abbrev pub live_tasks : List Bool
live_tasks = true ∷ false ∷ true ∷ []

pub orders-Good : Good tasks (orders, live_tasks)
unfolding list_beq
orders-Good = record { tidy = (refl, refl, (refl, refl, tt)); exactly = tasks_exactly }
  where
    tasks_exactly : (h : ℕ) → nth live_tasks h ≡ owns tasks orders.subscriptions h
    tasks_exactly zero = refl
    tasks_exactly (suc zero) = refl
    tasks_exactly (suc (suc zero)) = refl
    tasks_exactly (suc (suc (suc h))) = ground arith

abbrev pub ctx_master : SubscriberContext tasks rows_db
ctx_master = record {
  config = parse_config [];
  nats = orders;
  status = master;
  channel =
      InternalWorkerMessage.subscribe true (text "bills") (text "on_late")
      ∷ InternalWorkerMessage.callback_call (text "orders") (1 ∷ 2 ∷ [])
      ∷ InternalWorkerMessage.unsubscribe (text "orders") (text "on_order")
      ∷ [];
  table = (text "orders", text "on_order") ∷ [];
  world = live_tasks;
}

pub ctx_master-Valid : Valid tasks rows_db ctx_master
ctx_master-Valid = record { owned = orders-Good; idle = tt }
