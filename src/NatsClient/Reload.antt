-- ===== src/NatsClient/Reload.antt =====
-- `check_and_invalidate_connection` of src/nats_client.rs, which `pgnats_reload_conf` calls.
use pgnats.Common.{◌≡◌, refl, ap, ◌∙◌, inl, inr, false, Option, none, some, arith, Bool-cases}
use mathlib.Core.Path.{subst}
use pgnats.Config.{Config, options_beq_iff, NatsConnectionOptions}
use pgnats.NatsClient.{NatsClient, changed, invalidate_connection, check_and_invalidate_connection}
use pgnats.NatsClient.Interface.{Nats}
use pgnats.NatsClient.Invariant.{Sound, MadeWith}

module _ (N : Nats) where
  open N use {World, Client}

  -- No connection, or one that was made with the options.
  abbrev pub UpToDate : NatsClient N → NatsConnectionOptions → Type 0
  UpToDate c o = (conn : Client) → c.connection ≡ some conn → MadeWith N conn o

  pub invalidated-Sound :
      (c : NatsClient N) (w : World) (config : Option Config)
      → Sound N (record (invalidate_connection N c w).0 { current_config = config })
  unfolding invalidate_connection
  invalidated-Sound c w config = record {
    linked = refl;
    configured = λ conn e. cc;
    fresh = λ bucket s e. cc;
  }

  unchanged :
      (c : NatsClient N) (config : Config) (r : Option Config)
      → c.current_config ≡ r
      → changed N r config ≡ false
      → Sound N c
      → UpToDate c config.nats_opt
  unchanged c config (some old) e h s conn k =
      let (now, f, o) = s.configured conn k in
      let same : old.nats_opt ≡ config.nats_opt =
        (options_beq_iff old.nats_opt config.nats_opt).0 (ground arith) in
      let current : now ≡ old = cc in
      subst (MadeWith N conn) (ap (λ g. g.nats_opt) current ∙ same) o
  unchanged c config none e h s conn k = absurd cc

  -- Where the state of a client fits together, it still does after
  -- check_and_invalidate_connection, and a connection that is left was made with the connection
  -- options of the new configuration, as they are in some current directory or without one.
  pub check_and_invalidate_connection-UpToDate :
      (c : NatsClient N) (w : World) (config : Config)
      → Sound N c
      → let c' = (check_and_invalidate_connection N c w config).0 in
        Sound N c' × UpToDate c' config.nats_opt
  unfolding check_and_invalidate_connection invalidate_connection
  check_and_invalidate_connection-UpToDate c w config s =
      elim (Bool-cases (changed N c.current_config config)) [
        | inl differ ↦ rw differ (invalidated-Sound c w (some config), outdated)
        | inr same ↦ rw same (s, unchanged c config c.current_config refl same s)
      ]
    where
      outdated :
          UpToDate
            (record (invalidate_connection N c w).0 { current_config = some config })
            config.nats_opt
      outdated conn e = cc
