-- ===== src/NatsClient/Invariant.antt =====
-- The state that src/nats_client.rs keeps fits together, and its `expect`s hold.
use Prim.{⊥}
use pgnats.Common.{
  ◌≡◌, refl, sym, ap, ◌∙◌, inl, inr, true, false, Option, none, some, done, panic, ok, err, arith,
  Option-cases,
}
use pgnats.Common.Assoc.{get, get-insert}
use pgnats.Common.Eq.{nat_eq, list_eq}
use pgnats.Text.{Text}
use pgnats.Config.{Config, NatsConnectionOptions, text_eq}
use pgnats.Connect.{address, connect_options}
use pgnats.NatsClient.{
  NatsClient, Step, andthen, new, config_or_fetched, connected, initialize_connection, expect,
  ensure_connection, get_connection, get_jetstream, or_create, open_bucket, keep_bucket,
}
use pgnats.NatsClient.Interface.{Nats}

module _ (N : Nats) where
  open N use {World, Client, Jetstream, Store, ObjectStore}

  abbrev context_of : Option Client → Option Jetstream
  context_of none = none
  context_of (some connection) = some (N.jetstream_new connection)

  -- A connection was made with what the options are in some current directory, or in none.
  abbrev pub MadeWith : Client → NatsConnectionOptions → Type 0
  MadeWith conn o =
      (dir : Option Text) × (N.connected_with conn ≡ (connect_options N.builder o dir, address o))

  -- The context is that of the connection, the connection was made with the current options, and
  -- every bucket was opened over the context.
  pub record Sound (c : NatsClient N) : Type 0 where
    pub linked : c.jetstream ≡ context_of c.connection
    pub configured :
        (conn : Client)
        → c.connection ≡ some conn
        → (config : Config) × (c.current_config ≡ some config) × MadeWith conn config.nats_opt
    pub fresh :
        (bucket : Text) (s : Store)
        → get bucket c.cached_buckets ≡ some s
        → c.jetstream ≡ some (N.home s)

  -- No panic; the state is sound, and a value stands in a relation to it.
  abbrev pub Yields : {A : Type 0} → (A → NatsClient N → Type 0) → Step N A → Type 0
  Yields Q panic = true ≡ false
  Yields Q (done (ok a, c, w)) = Sound c × Q a c
  Yields Q (done (err e, c, w)) = Sound c

  pub Yields-andthen :
      {A B : Type 0} (Q : A → NatsClient N → Type 0) (Q' : B → NatsClient N → Type 0) (r : Step N A)
      (f : A → NatsClient N → World → Step N B)
      → Yields Q r
      → ((a : A) (c : NatsClient N) (w : World) → Sound c → Q a c → Yields Q' (f a c w))
      → Yields Q' (andthen N r f)
  Yields-andthen Q Q' panic f y k = cc
  Yields-andthen Q Q' (done (ok a, c, w)) f y k = k a c w y.0 y.1
  Yields-andthen Q Q' (done (err e, c, w)) f y k = y

  pub new-Sound : (config : Option Config) → Sound (new N config)
  unfolding new
  new-Sound config = record { linked = refl; configured = λ conn e. cc; fresh = λ b s e. cc }

  abbrev pub Any : {A : Type 0} → A → NatsClient N → Type 0
  Any a c = Unit {0}

  abbrev Connected : Unit {0} → NatsClient N → Type 0
  Connected u c = (conn : Client) × (c.connection ≡ some conn)

  abbrev connect_now : Config → World → Option Client × World
  connect_now config w =
      N.connect w (connect_options N.builder config.nats_opt (N.current_dir w))
        (address config.nats_opt)

  connected-Yields :
      (c : NatsClient N) (config : Config) (w : World) (r : Option Client)
      → Sound c
      → c.connection ≡ none
      → (connect_now config w).0 ≡ r
      → (w' : World) → Yields Connected (connected N c config (r, w'))
  connected-Yields c config w none s n e w' = record {
    linked = s.linked;
    configured = λ conn h. cc;
    fresh = s.fresh;
  }
  connected-Yields c config w (some conn) s n e w' = (
    record {
      linked = refl;
      configured = λ k h. (
        config,
        refl,
        (N.current_dir w, ap N.connected_with (inj h) ∙ N.connect_with w _ _ conn e),
      );
      fresh = λ b st h. absurd (no_bucket b st h);
    },
    (conn, refl),
  )
    where
      inj : {k : Client} → some conn ≡ some k → k ≡ conn
      inj h = cc

      no_bucket : (b : Text) (st : Store) → get b c.cached_buckets ≡ some st → ⊥
      no_bucket b st h = ground (arith, s.fresh b st h, s.linked)

  ensure_connection-Yields :
      (c : NatsClient N) (w : World) (r : Option Client)
      → c.connection ≡ r
      → Sound c
      → Yields Connected (ensure_connection N r c w)
  unfolding initialize_connection
  ensure_connection-Yields c w none e s =
      let (config, w') = config_or_fetched N c.current_config w in
      connected-Yields c config w' (connect_now config w').0 s e refl (connect_now config w').1
  ensure_connection-Yields c w (some conn) e s = (s, (conn, e))

  -- Where what is expected is there, `expect` gives it.
  pub expect-Yields :
      {A : Type 0} (Q : A → NatsClient N → Type 0) (r : Option A) (c : NatsClient N) (w : World)
      (a : A)
      → r ≡ some a
      → Sound c
      → Q a c
      → Yields Q (expect N r c w)
  expect-Yields Q r c w a e s q = rw (e, expect) (s, q)

  abbrev pub Current : Client → NatsClient N → Type 0
  Current conn c = c.connection ≡ some conn

  abbrev pub CurrentContext : Jetstream → NatsClient N → Type 0
  CurrentContext js c = c.jetstream ≡ some js

  abbrev pub OfContext : Store → NatsClient N → Type 0
  OfContext store c = c.jetstream ≡ some (N.home store)

  pub get_connection-Yields :
      (c : NatsClient N) (w : World) → Sound c → Yields Current (get_connection N c w)
  unfolding get_connection
  get_connection-Yields c w s =
      Yields-andthen Connected Current _ _ (ensure_connection-Yields c w c.connection refl s)
        (λ _ c' w' s' q. expect-Yields Current c'.connection c' w' q.0 q.1 s' q.1)

  pub get_jetstream-Yields :
      (c : NatsClient N) (w : World) → Sound c → Yields CurrentContext (get_jetstream N c w)
  unfolding get_jetstream
  get_jetstream-Yields c w s =
      Yields-andthen Connected CurrentContext _ _ (ensure_connection-Yields c w c.connection refl s)
        (λ _ c' w' s' q.
          let e : c'.jetstream ≡ some (N.jetstream_new q.0) = s'.linked ∙ ap context_of q.1 in
          expect-Yields CurrentContext c'.jetstream c' w' (N.jetstream_new q.0) e s' e)

  pub open_bucket-Yields :
      (c : NatsClient N) (js : Jetstream) (bucket : Text) (w : World)
      → Sound c
      → CurrentContext js c
      → Yields OfContext (open_bucket N bucket js c w)
  open_bucket-Yields c js bucket w s q = elim (Option-cases (N.get_key_value w js bucket).0) [
    | inr (store, e) ↦ rw (e, or_create) (s, q ∙ ap some (sym (N.get_home w js bucket store e)))
    | inl e ↦
        let w' : World = (N.get_key_value w js bucket).1 in
        elim (Option-cases (N.create_key_value w' js bucket).0) [
          | inl f ↦ rw (e, or_create) (rw (f, or_create) s)
          | inr (store, f) ↦
              rw (e, or_create)
                (rw (f, or_create) (s, q ∙ ap some (sym (N.create_home w' js bucket store f))))
        ]
  ]

  abbrev pub Kept : Text → Unit {0} → NatsClient N → Type 0
  Kept bucket u c = (store : Store) × (get bucket c.cached_buckets ≡ some store)

  pub keep_bucket-Yields :
      (bucket : Text) (store : Store) (c : NatsClient N) (w : World)
      → Sound c
      → OfContext store c
      → Yields (Kept bucket) (keep_bucket N bucket store c w)
  keep_bucket-Yields bucket store c w s q = (
    record {
      linked = s.linked;
      configured = s.configured;
      fresh = λ b st h. ground (arith, get-insert bucket b store c.cached_buckets, s.fresh b st, q);
    },
    (
      store,
      ground
          (arith, get-insert bucket bucket store c.cached_buckets, text_eq.beq_iff bucket bucket),
    ),
  )
