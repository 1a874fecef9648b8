-- ===== src/Subscriber/Lost.antt =====
-- A restoring of the subscriptions that fails in src/bgw/subscriber/context.rs is not tried again by
-- the main loop of src/bgw/subscriber/mod.rs.
use Prim.{⊥}
use pgnats.Common.{
  ◌≡◌, refl, inl, inr, false, not, Option, none, some, List, [], ◌∷◌, Result, ok, err, Bool-cases,
  Option-cases,
}
use pgnats.Text.{Text}
use pgnats.Config.{Config, NatsConnectionOptions, options_beq}
use pgnats.Messages.{
  InternalWorkerMessage, SubscriberMessage, ExtensionStatus, exist, no_extension, no_foreign_server,
}
use pgnats.Subscriber.Runtime.{Runtime}
use pgnats.Subscriber.Nats.{
  connect_nats, NatsConnectionState, NatsSubscription, reconnect_nats, reconnect_with,
  unsubscribe_all, respawn,
}
use pgnats.Subscriber.Relation.{subscribed}
use pgnats.Subscriber.Context.{
  PgInstanceStatus, master, replica, Database, SubscriberContext, restore_state, migrate,
  check_migration, apply_config, reconnected, handle_message_from_shared_queue, drain_channel,
  handle_messages,
}
use pgnats.Subscriber.Main.{
  Wake, Round, again, leave, handle_received, arrive, work, round, bg_loop,
}

-- A message that cannot be decoded, or one with a configuration.
abbrev pub IsConfig : Option SubscriberMessage → Type 0
IsConfig none = Unit {0}
IsConfig (some (SubscriberMessage.new_config config)) = Unit {0}
IsConfig (some (SubscriberMessage.subscribe subject fn_name)) = ⊥
IsConfig (some (SubscriberMessage.unsubscribe subject fn_name)) = ⊥

abbrev pub AllConfigs : List (Option SubscriberMessage) → Type 0
AllConfigs [] = Unit {0}
AllConfigs (msg ∷ msgs) = IsConfig msg × AllConfigs msgs

module _ (R : Runtime) (D : Database) where
  -- The instance is still the master, and nothing comes in but configurations.
  pub record Silent (wake : Wake R D) : Type 0 where
    pub still : wake.instance ≡ master
    pub none_waiting : wake.waiting ≡ []
    pub none_arrived : wake.arrived ≡ []
    pub configs : AllConfigs wake.received

  abbrev pub AllSilent : List (Wake R D) → Type 0
  AllSilent [] = Unit {0}
  AllSilent (wake ∷ wakes) = Silent wake × AllSilent wakes

  -- A master without subscriptions and with an empty channel.
  pub record Bare (ctx : SubscriberContext R D) : Type 0 where
    pub leads : ctx.status ≡ master
    pub idle : ctx.channel ≡ []
    pub empty : ctx.nats.subscriptions ≡ []

  respawn_none :
      (client : R.Client) (subs : List (Text × NatsSubscription R)) (w : R.World)
      → subs ≡ []
      → (respawn R client subs w).0 ≡ []
  unfolding respawn
  respawn_none client [] w e = refl
  respawn_none client (sub ∷ subs) w e = absurd cc

  reconnect_nats_empty :
      (s : NatsConnectionState R) (w : R.World) (options : NatsConnectionOptions)
      → s.subscriptions ≡ []
      → (reconnect_nats R s w options).1.subscriptions ≡ []
  unfolding reconnect_nats reconnect_with unsubscribe_all
  reconnect_nats_empty s w options h = elim (Option-cases (connect_nats R w options).0) [
    | inl e ↦ rw (e, reconnect_nats) h
    | inr (client, e) ↦ rw (e, reconnect_nats) (respawn_none client s.subscriptions _ h)
  ]

  reconnected-Bare :
      (ctx : SubscriberContext R D) (config : Config)
      (r : Result (Unit {0}) (Unit {0}) × NatsConnectionState R × R.World)
      → r.1.subscriptions ≡ []
      → Bare ctx
      → Bare (reconnected R D ctx config r).1
  reconnected-Bare ctx config (ok u, s, w) e b = record {
    leads = b.leads;
    idle = b.idle;
    empty = e;
  }
  reconnected-Bare ctx config (err u, s, w) e b = record {
    leads = b.leads;
    idle = b.idle;
    empty = e;
  }

  apply_config-Bare :
      (ctx : SubscriberContext R D) (config : Config)
      → Bare ctx
      → Bare (apply_config R D ctx config).1
  unfolding apply_config
  apply_config-Bare ctx config b =
      elim (Bool-cases (not (options_beq ctx.config.nats_opt config.nats_opt))) [
        | inl differ ↦
            rw (differ, apply_config)
              (reconnected-Bare ctx config _
                (reconnect_nats_empty ctx.nats ctx.world config.nats_opt b.empty) b)
        | inr same ↦
            rw (same, apply_config) (record { leads = b.leads; idle = b.idle; empty = b.empty })
      ]

  handle_received-Bare :
      (ctx : SubscriberContext R D) (msgs : List (Option SubscriberMessage))
      → AllConfigs msgs
      → Bare ctx
      → Bare (handle_received R D ctx msgs)
  unfolding handle_received handle_message_from_shared_queue
  handle_received-Bare ctx [] h b = b
  handle_received-Bare ctx (none ∷ msgs) h b = handle_received-Bare ctx msgs h.1 b
  handle_received-Bare ctx (some (SubscriberMessage.new_config config) ∷ msgs) h b =
      handle_received-Bare (apply_config R D ctx config).1 msgs h.1 (apply_config-Bare ctx config b)
  handle_received-Bare ctx (some (SubscriberMessage.subscribe subject f) ∷ msgs) h b = absurd h.0
  handle_received-Bare ctx (some (SubscriberMessage.unsubscribe subject f) ∷ msgs) h b = absurd h.0

  arrive-Bare :
      (ctx : SubscriberContext R D) (msgs : List InternalWorkerMessage)
      → msgs ≡ []
      → Bare ctx
      → Bare (arrive R D ctx msgs)
  arrive-Bare ctx msgs e b = record { leads = b.leads; idle = rw (e, b.idle) refl; empty = b.empty }

  check_migration-Bare :
      (ctx : SubscriberContext R D) (state : PgInstanceStatus)
      → state ≡ master
      → Bare ctx
      → Bare (check_migration R D ctx state).1
  unfolding check_migration migrate
  check_migration-Bare ctx state e b =
      rw (b.leads, e, check_migration) (record { leads = refl; idle = b.idle; empty = b.empty })

  drain_channel-Bare : (ctx : SubscriberContext R D) → Bare ctx → Bare (drain_channel R D ctx)
  unfolding drain_channel handle_messages
  drain_channel-Bare ctx b =
      rw (b.idle, drain_channel) (record { leads = b.leads; idle = refl; empty = b.empty })

  -- The state that a round leaves.
  abbrev left : Round R D → SubscriberContext R D
  left (again ctx) = ctx
  left (leave r ctx) = ctx

  work-Bare :
      (ctx : SubscriberContext R D) (wake : Wake R D)
      → Silent wake
      → Bare ctx
      → Bare (left (work R D ctx wake))
  unfolding work
  work-Bare ctx wake q b =
      let received = handle_received-Bare _ wake.received q.configs (
        check_migration-Bare _ wake.instance q.still
          (arrive-Bare ctx wake.waiting q.none_waiting b)) in
      elim (Bool-cases wake.is_broken) [
        | inl e ↦ rw (e, work) received
        | inr e ↦
            rw (e, work) (drain_channel-Bare _ (arrive-Bare _ wake.arrived q.none_arrived received))
      ]

  round-Bare :
      (ctx : SubscriberContext R D) (status : ExtensionStatus) (wake : Wake R D)
      → Silent wake
      → Bare ctx
      → Bare (left (round R D ctx status wake))
  unfolding round
  round-Bare ctx no_extension wake q b = b
  round-Bare ctx no_foreign_server wake q b = b
  round-Bare ctx exist wake q b = work-Bare ctx wake q b

  after_round :
      (wakes : List (Wake R D)) (r : Round R D)
      → ((ctx : SubscriberContext R D) → Bare ctx → Bare (bg_loop R D ctx wakes).1)
      → Bare (left r)
      → let ending : Result (Unit {0}) Text × SubscriberContext R D = elim r [
        | leave r ctx' ↦ (r, ctx')
        | again ctx' ↦ bg_loop R D ctx' wakes
      ] in
        Bare ending.1
  after_round wakes (again ctx) rest b = rest ctx b
  after_round wakes (leave r ctx) rest b = b

  bg_loop-Bare :
      (ctx : SubscriberContext R D) (wakes : List (Wake R D))
      → AllSilent wakes
      → Bare ctx
      → Bare (bg_loop R D ctx wakes).1
  unfolding bg_loop
  bg_loop-Bare ctx [] q b = b
  bg_loop-Bare ctx (wake ∷ wakes) q b =
      after_round wakes (round R D ctx wake.status wake) (λ c h. bg_loop-Bare c wakes q.1 h)
        (round-Bare ctx wake.status wake q.0 b)

  -- Where a replica without subscriptions and with an empty channel finds itself the master and
  -- cannot read its table: the check fails, and whatever the table is from then on, the main loop
  -- subscribes nothing while the instance stays the master and nothing but configurations comes
  -- in.
  pub failed_restore_is_final :
      (ctx : SubscriberContext R D) (e : Text) (table : D.Table) (wakes : List (Wake R D))
      (a b : Text)
      → ctx.status ≡ replica
      → ctx.nats.subscriptions ≡ []
      → ctx.channel ≡ []
      → D.fetch_subject_with_callbacks ctx.table ≡ err e
      → AllSilent wakes
      → let (r, ctx') = check_migration R D ctx master in
        (r ≡ err tt)
        × (subscribed R (bg_loop R D (record ctx' { table = table }) wakes).1.nats a b ≡ false)
  unfolding check_migration migrate restore_state
  failed_restore_is_final ctx e table wakes a b st none_yet idle f q =
      let base : SubscriberContext R D = record ctx { status = master; table = table } in
      let bare : Bare base = record { leads = refl; idle = idle; empty = none_yet } in
      let final = bg_loop-Bare base wakes q bare in
      rw (st, check_migration) (rw f (refl, rw final.empty refl))
