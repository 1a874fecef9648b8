-- ===== src/Subscriber/Nats.antt =====
-- src/bgw/subscriber/nats.rs: the subscriptions of a worker, each with its task and the functions
-- that it calls.
use pgnats.Common.{ℕ, Bool, true, false, Option, none, some, List, [], ◌∷◌, Result, ok, err}
use pgnats.Common.Assoc.{get, insert, remove}
use pgnats.Common.Sets.{set_insert, set_remove, retain}
use pgnats.Common.Eq.{nat_eq, list_eq}
use pgnats.Text.{Text}
use pgnats.Config.{NatsConnectionOptions}
use pgnats.Connect.{connect_options, address}
use pgnats.Subscriber.Runtime.{Runtime}

-- `CallError` of src/bgw/subscriber/pg_api.rs, without the text of other errors
pub data CallError : Type 0 where
  not_found other : CallError

module _ (R : Runtime) where
  open R use {World, Client, Handle, spawn, abort}

  abbrev pub connect_nats : World → NatsConnectionOptions → Option Client × World
  connect_nats w config =
      R.connect w (connect_options R.builder config (R.current_dir w)) (address config)

  pub record NatsSubscription : Type 0 where
    pub handler : Handle
    pub funcs : List Text

  pub record NatsConnectionState : Type 0 where
    pub client : Client
    pub subscriptions : List (Text × NatsSubscription)

  unfoldable pub new : World → NatsConnectionOptions → Result NatsConnectionState (Unit {0}) × World
  new w config =
      let (r, w') = connect_nats w config in
      elim r [
        | none ↦ (err tt, w')
        | some client ↦ (ok (record { client = client; subscriptions = [] }), w')
      ]

  unfoldable pub subscribe : NatsConnectionState → World → Text → Text → NatsConnectionState × World
  subscribe s w subject fn_name = elim (get subject s.subscriptions) [
    | some sub ↦ (
      record s {
        subscriptions =
            insert subject (record sub { funcs = set_insert fn_name sub.funcs }) s.subscriptions;
      },
      w,
    )
    | none ↦
        let (handler, w') = spawn w s.client subject in
        (
          record s {
            subscriptions =
                insert subject (record { handler = handler; funcs = fn_name ∷ [] }) s.subscriptions;
          },
          w',
        )
  ]

  -- What is left of a subscription without `fn_name`: it goes with its last function.
  unfoldable pub drop_function :
      NatsConnectionState
      → World
      → Text
      → NatsSubscription
      → List Text
      → NatsConnectionState × World
  drop_function s w subject sub [] =
      (record s { subscriptions = remove subject s.subscriptions }, abort w sub.handler)
  drop_function s w subject sub (f ∷ fs) = (
    record s { subscriptions = insert subject (record sub { funcs = f ∷ fs }) s.subscriptions },
    w,
  )

  unfoldable pub unsubscribe :
      NatsConnectionState → World → Text → Text → NatsConnectionState × World
  unfolding drop_function
  unsubscribe s w subject fn_name = elim (get subject s.subscriptions) [
    | none ↦ (s, w)
    | some sub ↦ drop_function s w subject sub (set_remove fn_name sub.funcs)
  ]

  unfoldable pub unsubscribe_subject :
      NatsConnectionState → World → Text → NatsConnectionState × World
  unsubscribe_subject s w subject = elim (get subject s.subscriptions) [
    | none ↦ (s, w)
    | some sub ↦ (record s { subscriptions = remove subject s.subscriptions }, abort w sub.handler)
  ]

  unfoldable pub abort_all : List (Text × NatsSubscription) → World → World
  abort_all [] w = w
  abort_all ((subject, sub) ∷ subs) w = abort_all subs (abort w sub.handler)

  unfoldable pub unsubscribe_all :
      NatsConnectionState → World → List (Text × NatsSubscription) × NatsConnectionState × World
  unfolding abort_all
  unsubscribe_all s w =
      (s.subscriptions, record s { subscriptions = [] }, abort_all s.subscriptions w)

  -- The closure of `retain`: a function that the database does not know is dropped.
  abbrev pub keeps : Result (Unit {0}) CallError → Bool
  keeps (ok u) = true
  keeps (err not_found) = false
  keeps (err other) = true

  unfoldable pub run_callbacks :
      NatsConnectionState
      → Text
      → List ℕ
      → (Text → List ℕ → Result (Unit {0}) CallError)
      → NatsConnectionState
  run_callbacks s subject payload callback = elim (get subject s.subscriptions) [
    | none ↦ s
    | some sub ↦ record s {
      subscriptions =
          insert subject (record sub { funcs = retain (λ f. keeps (callback f payload)) sub.funcs })
            s.subscriptions;
    }
  ]

  unfoldable pub respawn :
      Client → List (Text × NatsSubscription) → World → List (Text × NatsSubscription) × World
  respawn client [] w = ([], w)
  respawn client ((subject, sub) ∷ subs) w =
      let (handler, w') = spawn w client subject in
      let (rest, w'') = respawn client subs w' in
      ((subject, record sub { handler = handler }) ∷ rest, w'')

  unfoldable pub reconnect_with : NatsConnectionState → World → Client → NatsConnectionState × World
  unfolding unsubscribe_all respawn
  reconnect_with s w client =
      let (subs, s', w') = unsubscribe_all s w in
      let (subs', w'') = respawn client subs w' in
      (record s' { client = client; subscriptions = subs' }, w'')

  unfoldable pub reconnect_nats :
      NatsConnectionState
      → World
      → NatsConnectionOptions
      → Result (Unit {0}) (Unit {0}) × NatsConnectionState × World
  unfolding reconnect_with
  reconnect_nats s w config =
      let (r, w') = connect_nats w config in
      elim r [
        | none ↦ (err tt, s, w')
        | some client ↦ let (s', w'') = reconnect_with s w' client in (ok tt, s', w'')
      ]
