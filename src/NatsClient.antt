-- ===== src/NatsClient.antt =====
-- src/nats_client.rs: the connection of a backend to NATS, and the stores that it has opened. An
-- `expect` that does not hold is a panic.
pub mod Interface
pub mod Operations
pub mod Invariant
pub mod Stores
pub mod Reload
pub mod Files
pub mod Safety
pub mod Small
mod Tests
use pgnats.Common.{
  ℕ, Bool, true, false, not, Option, none, some, List, [], ◌∷◌, ◌++◌, ◌==◌, Outcome, done, panic,
  ◌>>=◌, Result, ok, err, if◌then◌else◌,
}
use pgnats.Common.Assoc.{get, contains_key, insert}
use pgnats.Common.Eq.{nat_eq, list_eq}
use pgnats.Text.{Text}
use pgnats.Connect.{connect_options, address}
use pgnats.Config.{Config, NatsTlsOptions, tls, mutual_tls, NatsConnectionOptions, options_beq}
use Interface.{Nats}

module _ (N : Nats) where
  open N use {World, Client, Jetstream, Store, ObjectStore}

  pub record NatsClient : Type 0 where
    pub connection : Option Client
    pub jetstream : Option Jetstream
    pub cached_buckets : List (Text × Store)
    pub cached_object_stores : List (Text × ObjectStore)
    pub current_config : Option Config

  -- What an operation returns, with the state that it leaves.
  abbrev pub Step : Type 0 → Type 0
  Step A = Outcome (Result A (Unit {0}) × NatsClient × World)

  abbrev pub andthen : {A B : Type 0} → Step A → (A → NatsClient → World → Step B) → Step B
  andthen panic f = panic
  andthen (done (err e, c, w)) f = done (err e, c, w)
  andthen (done (ok a, c, w)) f = f a c w

  unfoldable pub new : Option Config → NatsClient
  new config = record {
    connection = none;
    jetstream = none;
    cached_buckets = [];
    cached_object_stores = [];
    current_config = config;
  }

  -- `get_or_insert_with(self.config_fetcher)`
  abbrev pub config_or_fetched : Option Config → World → Config × World
  config_or_fetched (some config) w = (config, w)
  config_or_fetched none w = N.config_fetcher w

  abbrev pub connected : NatsClient → Config → Option Client × World → Step (Unit {0})
  connected c config (none, w) = done (err tt, record c { current_config = none }, w)
  connected c config (some connection, w) = done (
    ok tt,
    record c {
      connection = some connection;
      jetstream = some (N.jetstream_new connection);
      current_config = some config;
    },
    w,
  )

  unfoldable pub initialize_connection : NatsClient → World → Step (Unit {0})
  initialize_connection c w =
      let (config, w') = config_or_fetched c.current_config w in
      connected c config (
        N.connect w' (connect_options N.builder config.nats_opt (N.current_dir w'))
          (address config.nats_opt))

  -- `expect`
  abbrev pub expect : {A : Type 0} → Option A → NatsClient → World → Step A
  expect none c w = panic
  expect (some a) c w = done (ok a, c, w)

  abbrev pub ensure_connection : Option Client → NatsClient → World → Step (Unit {0})
  ensure_connection none c w = initialize_connection c w
  ensure_connection (some connection) c w = done (ok tt, c, w)

  unfoldable pub get_connection : NatsClient → World → Step Client
  unfolding initialize_connection
  get_connection c w =
      andthen (ensure_connection c.connection c w) (λ _ c' w'. expect c'.connection c' w')

  unfoldable pub get_jetstream : NatsClient → World → Step Jetstream
  unfolding initialize_connection
  get_jetstream c w =
      andthen (ensure_connection c.connection c w) (λ _ c' w'. expect c'.jetstream c' w')

  -- A store that is there, or else a new one.
  abbrev pub or_create :
      {S : Type 0} → NatsClient → Option S × World → (World → Option S × World) → Step S
  or_create c (some store, w) create = done (ok store, c, w)
  or_create c (none, w) create =
      let (r, w') = create w in
      elim r [ none ↦ done (err tt, c, w') | some store ↦ done (ok store, c, w') ]

  abbrev pub open_bucket : Text → Jetstream → NatsClient → World → Step Store
  open_bucket bucket js c w =
      or_create c (N.get_key_value w js bucket) (λ w'. N.create_key_value w' js bucket)

  abbrev pub keep_bucket : Text → Store → NatsClient → World → Step (Unit {0})
  keep_bucket bucket store c w =
      done (ok tt, record c { cached_buckets = insert bucket store c.cached_buckets }, w)

  abbrev pub ensure_bucket : Text → Bool → NatsClient → World → Step (Unit {0})
  ensure_bucket bucket true c w = done (ok tt, c, w)
  ensure_bucket bucket false c w =
      andthen (andthen (get_jetstream c w) (open_bucket bucket)) (keep_bucket bucket)

  unfoldable pub get_or_create_bucket : NatsClient → World → Text → Step Store
  unfolding get_jetstream
  get_or_create_bucket c w bucket =
      andthen (ensure_bucket bucket (contains_key bucket c.cached_buckets) c w)
        (λ _ c' w'. expect (get bucket c'.cached_buckets) c' w')

  abbrev pub open_object_store : Text → Jetstream → NatsClient → World → Step ObjectStore
  open_object_store bucket js c w =
      or_create c (N.get_object_store w js bucket) (λ w'. N.create_object_store w' js bucket)

  abbrev pub keep_object_store : Text → ObjectStore → NatsClient → World → Step (Unit {0})
  keep_object_store bucket store c w =
      done
        (ok tt, record c { cached_object_stores = insert bucket store c.cached_object_stores }, w)

  abbrev pub ensure_object_store : Text → Bool → NatsClient → World → Step (Unit {0})
  ensure_object_store bucket true c w = done (ok tt, c, w)
  ensure_object_store bucket false c w =
      andthen (andthen (get_jetstream c w) (open_object_store bucket)) (keep_object_store bucket)

  unfoldable pub get_or_create_object_store : NatsClient → World → Text → Step ObjectStore
  unfolding get_jetstream
  get_or_create_object_store c w bucket =
      andthen (ensure_object_store bucket (contains_key bucket c.cached_object_stores) c w)
        (λ _ c' w'. expect (get bucket c'.cached_object_stores) c' w')

  abbrev pub drained : Option Client → World → World
  drained none w = w
  drained (some connection) w = N.drain w connection

  unfoldable pub invalidate_connection : NatsClient → World → NatsClient × World
  invalidate_connection c w = (
    record c { connection = none; cached_buckets = []; jetstream = none; current_config = none },
    drained c.connection w,
  )

  abbrev pub changed : Option Config → Config → Bool
  changed none new_config = true
  changed (some config) new_config = not (options_beq config.nats_opt new_config.nats_opt)

  unfoldable pub check_and_invalidate_connection : NatsClient → World → Config → NatsClient × World
  unfolding invalidate_connection
  check_and_invalidate_connection c w new_config =
      if changed c.current_config new_config
      then (let (c', w') = invalidate_connection c w in
          (record c' { current_config = some new_config }, w'))
      else (c, w)
