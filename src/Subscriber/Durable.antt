-- ===== src/Subscriber/Durable.antt =====
-- The main loop of src/bgw/subscriber/mod.rs and the table: the channel holds no request that the
-- table does not back.
use pgnats.Common.{
  ℕ, ◌≡◌, refl, sym, ap, ◌∙◌, inl, inr, true, false, Option, none, some, List, [], ◌∷◌, ◌++◌, map,
  Result, ok, err, arith, Bool-cases,
}
use Prim.{⊥}
use mathlib.Core.Path.{subst}
use pgnats.Text.{Text}
use pgnats.Subscriber.Lifetime.{Round-cases}
use pgnats.Messages.{
  ExtensionStatus, exist, no_extension, no_foreign_server, InternalWorkerMessage, subscribe,
  unsubscribe, callback_call, unsubscribe_subject, SubscriberMessage,
}
use pgnats.Subscriber.Runtime.{Runtime}
use pgnats.Config.{Config, NatsConnectionOptions, options_beq}
use pgnats.Common.{Option-cases}
use pgnats.Subscriber.Main.{
  Wake, Start, Round, restored_if_master, again, leave, arrive, handle_received, work, round,
  bg_loop,
}
use pgnats.Subscriber.Nats.{
  connect_nats, CallError, NatsConnectionState, reconnect_nats, unsubscribe_all,
}
use pgnats.Subscriber.Relation.{same, subscribed, text_eq, reconnect_with-subscribed}
use pgnats.Subscriber.Context.{
  Database, SubscriberContext, PgInstanceStatus, master, replica, drain_channel, handle_messages,
  handle_unless_replica, handle_internal_message, send_notification, migrate, check_migration,
  restore_state, apply_config, reconnected, handle_message_from_shared_queue,
}
use pgnats.Subscriber.Restore.{listed, request, push_rows_lem, send_notification_world}
use pgnats.Subscriber.Table.{Rows}
use pgnats.Subscriber.Stored.{db, table_step, Backed, Stored, drain_channel-Stored}

-- What the tasks send.
abbrev pub FromTasks : List InternalWorkerMessage → Type 0
FromTasks [] = Unit {0}
FromTasks (subscribe register subject f ∷ msgs) = true ≡ false
FromTasks (unsubscribe subject f ∷ msgs) = true ≡ false
FromTasks (callback_call subject payload ∷ msgs) = FromTasks msgs
FromTasks (unsubscribe_subject subject reason ∷ msgs) = FromTasks msgs

-- No request of the restoring.
abbrev Registered : List InternalWorkerMessage → Type 0
Registered [] = Unit {0}
Registered (subscribe true subject f ∷ msgs) = Registered msgs
Registered (subscribe false subject f ∷ msgs) = true ≡ false
Registered (unsubscribe subject f ∷ msgs) = Registered msgs
Registered (callback_call subject payload ∷ msgs) = Registered msgs
Registered (unsubscribe_subject subject reason ∷ msgs) = Registered msgs

FromTasks-Registered : (msgs : List InternalWorkerMessage) → FromTasks msgs → Registered msgs
FromTasks-Registered [] h = tt
FromTasks-Registered (subscribe register subject f ∷ msgs) h = absurd cc
FromTasks-Registered (unsubscribe subject f ∷ msgs) h = absurd cc
FromTasks-Registered (callback_call subject payload ∷ msgs) h = FromTasks-Registered msgs h
FromTasks-Registered (unsubscribe_subject subject reason ∷ msgs) h = FromTasks-Registered msgs h

FromTasks-append :
    (msgs more : List InternalWorkerMessage)
    → FromTasks msgs
    → FromTasks more
    → FromTasks (msgs ++ more)
FromTasks-append [] more h k = k
FromTasks-append (subscribe register subject f ∷ msgs) more h k = absurd cc
FromTasks-append (unsubscribe subject f ∷ msgs) more h k = absurd cc
FromTasks-append (callback_call subject payload ∷ msgs) more h k = FromTasks-append msgs more h k
FromTasks-append (unsubscribe_subject subject reason ∷ msgs) more h k =
    FromTasks-append msgs more h k

-- Every one of the rows is in the table.
abbrev AllListed : Rows → Rows → Type 0
AllListed t [] = Unit {0}
AllListed t ((subject, f) ∷ rows) = (listed t subject f ≡ true) × AllListed t rows

AllListed-cons : (s f : Text) (t rows : Rows) → AllListed t rows → AllListed ((s, f) ∷ t) rows
AllListed-cons s f t [] h = tt
AllListed-cons s f t ((subject, g) ∷ rows) (h, hs) =
    (ground (arith, h), AllListed-cons s f t rows hs)

all_listed : (t : Rows) → AllListed t t
all_listed [] = tt
all_listed ((s, f) ∷ t) = (
  ground (arith, text_eq.beq_iff s s, text_eq.beq_iff f f),
  AllListed-cons s f t t (all_listed t),
)

module _ (R : Runtime) (call : Text → List ℕ → Result (Unit {0}) CallError)
    (notification : PgInstanceStatus → Option Text → Option (List ℕ)) where
  abbrev D : Database
  D = db R call notification

  abbrev Safe : Rows → List InternalWorkerMessage → Type 0
  Safe t msgs = Backed R call notification t msgs

  Backed-Registered : (msgs : List InternalWorkerMessage) (t : Rows) → Registered msgs → Safe t msgs
  Backed-Registered [] t h = tt
  Backed-Registered (subscribe true subject f ∷ msgs) t h = (tt, Backed-Registered msgs _ h)
  Backed-Registered (subscribe false subject f ∷ msgs) t h = absurd cc
  Backed-Registered (unsubscribe subject f ∷ msgs) t h = (tt, Backed-Registered msgs _ h)
  Backed-Registered (callback_call subject payload ∷ msgs) t h = (tt, Backed-Registered msgs _ h)
  Backed-Registered (unsubscribe_subject subject reason ∷ msgs) t h =
      (tt, Backed-Registered msgs _ h)

  Backed-append :
      (t : Rows) (msgs more : List InternalWorkerMessage)
      → Safe t msgs
      → Registered more
      → Safe t (msgs ++ more)
  Backed-append t [] more b h = Backed-Registered more t h
  Backed-append t (msg ∷ msgs) more (n, b) h =
      (n, Backed-append (table_step R call notification t msg) msgs more b h)

  Backed-rows :
      (t : Rows) (msgs : List InternalWorkerMessage) (rows : Rows)
      → FromTasks msgs
      → AllListed t rows
      → Safe t (msgs ++ map (request R D) rows)
  Backed-rows t [] [] c h = tt
  Backed-rows t [] ((subject, f) ∷ rows) c (h, hs) = (h, Backed-rows t [] rows tt hs)
  Backed-rows t (subscribe register subject f ∷ msgs) rows c h = absurd cc
  Backed-rows t (unsubscribe subject f ∷ msgs) rows c h = absurd cc
  Backed-rows t (callback_call subject payload ∷ msgs) rows c h = (tt, Backed-rows t msgs rows c h)
  Backed-rows t (unsubscribe_subject subject reason ∷ msgs) rows c h =
      (tt, Backed-rows t msgs rows c h)

  -- The subscriptions stand in the table, and the channel is backed by it.
  abbrev Half : SubscriberContext R D → Type 0
  Half ctx = Stored R call notification ctx × Safe ctx.table ctx.channel

  -- Between two rounds; the requests of a restoring that stand in the channel are those of a master.
  pub record Ready (ctx : SubscriberContext R D) : Type 0 where
    pub stored : Stored R call notification ctx
    pub backed : Safe ctx.table ctx.channel
    pub calm : ctx.status ≡ replica → FromTasks ctx.channel

  arrive-Ready :
      (ctx : SubscriberContext R D) (msgs : List InternalWorkerMessage)
      → FromTasks msgs
      → Ready ctx
      → Ready (arrive R D ctx msgs)
  arrive-Ready ctx msgs h r = record {
    stored = r.stored;
    backed = Backed-append ctx.table ctx.channel msgs r.backed (FromTasks-Registered msgs h);
    calm = λ e. FromTasks-append ctx.channel msgs (r.calm e) h;
  }

  send_notification-Half :
      (ctx : SubscriberContext R D) → Half ctx → Half (send_notification R D ctx).1
  send_notification-Half ctx h =
      let (w, sent) = send_notification_world R D ctx in subst Half (sym sent) (h.0, h.1)

  migrate-Half :
      (ctx : SubscriberContext R D) (old new : PgInstanceStatus)
      → (old ≡ replica → FromTasks ctx.channel)
      → Half ctx
      → Half (migrate R D ctx old new).1
  unfolding migrate restore_state unsubscribe_all
  migrate-Half ctx master replica c h = send_notification-Half _ ((λ a b e. absurd cc), h.1)
  migrate-Half ctx replica master c h = send_notification-Half _ (
      subst Half (sym (push_rows_lem R D (record ctx { status = master }) ctx.table))
        (h.0, Backed-rows ctx.table ctx.channel ctx.table (c refl) (all_listed ctx.table)))
  migrate-Half ctx master master c h = h
  migrate-Half ctx replica replica c h = h

  reconnect_nats-subscribed :
      (s : NatsConnectionState R) (w : R.World) (options : NatsConnectionOptions) (a b : Text)
      → subscribed R (reconnect_nats R s w options).1 a b ≡ subscribed R s a b
  unfolding reconnect_nats
  reconnect_nats-subscribed s w options a b = elim (Option-cases (connect_nats R w options).0) [
    | inl e ↦ rw (e, reconnect_nats)
    | inr (client, e) ↦
        rw (e, reconnect_nats)
          (reconnect_with-subscribed R s (connect_nats R w options).1 client a b)
  ]

  reconnected-Half :
      (ctx : SubscriberContext R D) (config : Config)
      (r : Result (Unit {0}) (Unit {0}) × NatsConnectionState R × R.World)
      → ((a b : Text) → subscribed R r.1 a b ≡ subscribed R ctx.nats a b)
      → Half ctx
      → Half (reconnected R D ctx config r).1
  reconnected-Half ctx config (ok u, s, w) e h = ((λ a b k. h.0 a b (sym (e a b) ∙ k)), h.1)
  reconnected-Half ctx config (err u, s, w) e h = ((λ a b k. h.0 a b (sym (e a b) ∙ k)), h.1)

  apply_config-Half :
      (ctx : SubscriberContext R D) (config : Config)
      → Half ctx
      → Half (apply_config R D ctx config).1
  unfolding apply_config
  apply_config-Half ctx config h =
      elim (Bool-cases (options_beq ctx.config.nats_opt config.nats_opt)) [
        | inl same ↦ rw same h
        | inr differ ↦ rw differ (
            reconnected-Half ctx config _
              (reconnect_nats-subscribed ctx.nats ctx.world config.nats_opt) h)
      ]

  handle_message_from_shared_queue-Half :
      (ctx : SubscriberContext R D) (msg : Option SubscriberMessage)
      → Half ctx
      → Half (handle_message_from_shared_queue R D ctx msg)
  unfolding handle_message_from_shared_queue
  handle_message_from_shared_queue-Half ctx none h = h
  handle_message_from_shared_queue-Half ctx (some (SubscriberMessage.new_config config)) h =
      apply_config-Half ctx config h
  handle_message_from_shared_queue-Half ctx (some (SubscriberMessage.subscribe subject f)) h =
      (h.0, Backed-append ctx.table ctx.channel _ h.1 tt)
  handle_message_from_shared_queue-Half ctx (some (SubscriberMessage.unsubscribe subject f)) h =
      (h.0, Backed-append ctx.table ctx.channel _ h.1 tt)

  handle_received-Half :
      (ctx : SubscriberContext R D) (msgs : List (Option SubscriberMessage))
      → Half ctx
      → Half (handle_received R D ctx msgs)
  unfolding handle_received
  handle_received-Half ctx [] h = h
  handle_received-Half ctx (msg ∷ msgs) h =
      handle_received-Half (handle_message_from_shared_queue R D ctx msg) msgs
        (handle_message_from_shared_queue-Half ctx msg h)

  handle_internal_message-channel :
      (ctx : SubscriberContext R D) (msg : InternalWorkerMessage)
      → (handle_internal_message R D ctx msg).channel ≡ ctx.channel
  unfolding handle_internal_message
  handle_internal_message-channel ctx (subscribe register subject f) = refl
  handle_internal_message-channel ctx (unsubscribe subject f) = refl
  handle_internal_message-channel ctx (callback_call subject payload) = refl
  handle_internal_message-channel ctx (unsubscribe_subject subject reason) = refl

  handle_unless_replica-channel :
      (ctx : SubscriberContext R D) (status : PgInstanceStatus) (msg : InternalWorkerMessage)
      → (handle_unless_replica R D ctx status msg).channel ≡ ctx.channel
  unfolding handle_unless_replica
  handle_unless_replica-channel ctx master msg = handle_internal_message-channel ctx msg
  handle_unless_replica-channel ctx replica msg = refl

  handle_messages-channel :
      (ctx : SubscriberContext R D) (msgs : List InternalWorkerMessage)
      → (handle_messages R D ctx msgs).channel ≡ ctx.channel
  unfolding handle_messages
  handle_messages-channel ctx [] = refl
  handle_messages-channel ctx (msg ∷ msgs) =
      handle_messages-channel (handle_unless_replica R D ctx ctx.status msg) msgs
      ∙ handle_unless_replica-channel ctx ctx.status msg

  drain_channel-Ready : (ctx : SubscriberContext R D) → Half ctx → Ready (drain_channel R D ctx)
  unfolding drain_channel
  drain_channel-Ready ctx h =
      let empty : (drain_channel R D ctx).channel ≡ [] =
        handle_messages-channel (record ctx { channel = [] }) ctx.channel in
      record {
        stored = drain_channel-Stored R call notification ctx h.0 h.1;
        backed = subst (Safe _) (sym empty) tt;
        calm = λ e. subst FromTasks (sym empty) tt;
      }

  -- The messages that arrive come from the tasks.
  abbrev pub Fair : Wake R D → Type 0
  Fair wake = FromTasks wake.waiting × FromTasks wake.arrived

  abbrev ReadyRound : Round R D → Type 0
  ReadyRound (again ctx) = Ready ctx
  ReadyRound (leave r ctx) = Stored R call notification ctx

  work-Ready :
      (ctx : SubscriberContext R D) (wake : Wake R D)
      → Fair wake
      → Ready ctx
      → ReadyRound (work R D ctx wake)
  unfolding work check_migration
  work-Ready ctx wake f r = elim (Bool-cases wake.is_broken) [
    | inl broken ↦ rw broken now.0
    | inr fine ↦ rw fine (
        drain_channel-Ready _
          (now.0, Backed-append _ _ wake.arrived now.1 (FromTasks-Registered wake.arrived f.1)))
  ]
    where
      before : Ready (arrive R D ctx wake.waiting)
      before = arrive-Ready ctx wake.waiting f.0 r

      now : Half (
          handle_received R D
            (check_migration R D (arrive R D ctx wake.waiting) wake.instance).1
            wake.received)
      now = handle_received-Half _ wake.received (
          migrate-Half (arrive R D ctx wake.waiting) ctx.status wake.instance before.calm
            (before.stored, before.backed))

  round-Ready :
      (ctx : SubscriberContext R D) (status : ExtensionStatus) (wake : Wake R D)
      → Fair wake
      → Ready ctx
      → ReadyRound (round R D ctx status wake)
  unfolding round
  round-Ready ctx no_extension wake f r = r.stored
  round-Ready ctx no_foreign_server wake f r = r.stored
  round-Ready ctx exist wake f r = work-Ready ctx wake f r

  abbrev pub AllFair : List (Wake R D) → Type 0
  AllFair [] = Unit {0}
  AllFair (wake ∷ wakes) = Fair wake × AllFair wakes

  -- However the main loop ends, every subscription stands in the table then.
  pub bg_loop-Stored :
      (ctx : SubscriberContext R D) (wakes : List (Wake R D))
      → AllFair wakes
      → Ready ctx
      → Stored R call notification (bg_loop R D ctx wakes).1
  unfolding bg_loop
  bg_loop-Stored ctx [] f r = r.stored
  bg_loop-Stored ctx (wake ∷ wakes) (f, fs) r =
      elim (Round-cases R D (round R D ctx wake.status wake)) [
        | inl (x, ctx', e) ↦ rw (e, bg_loop) (rw e at (round-Ready ctx wake.status wake f r))
        | inr (ctx', e) ↦
            rw (e, bg_loop)
              (bg_loop-Stored ctx' wakes fs (rw e at (round-Ready ctx wake.status wake f r)))
      ]

  restored_if_master-Ready :
      (status : PgInstanceStatus) (ctx : SubscriberContext R D)
      → ctx.status ≡ status
      → ctx.channel ≡ []
      → ctx.nats.subscriptions ≡ []
      → Ready (restored_if_master R D status ctx)
  unfolding restore_state
  restored_if_master-Ready replica ctx e idle none_yet = record {
    stored = λ a b h. absurd (no_pair a b h);
    backed = subst (Safe ctx.table) (sym idle) tt;
    calm = λ _. subst FromTasks (sym idle) tt;
  }
    where
      no_pair : (a b : Text) → subscribed R ctx.nats a b ≡ true → ⊥
      no_pair a b h = ground (arith, none_yet)
  restored_if_master-Ready master ctx e idle none_yet =
      subst Ready (sym (push_rows_lem R D ctx ctx.table)) (record {
        stored = λ a b h. absurd (no_pair a b h);
        backed =
            Backed-rows ctx.table ctx.channel ctx.table (subst FromTasks (sym idle) tt)
              (all_listed ctx.table);
        calm = λ k. absurd cc;
      })
    where
      no_pair : (a b : Text) → subscribed R ctx.nats a b ≡ true → ⊥
      no_pair a b h = ground (arith, none_yet)

  -- Where statements fail for the unique constraint only, nobody else changes the table, and
  -- tasks send only messages that tasks send: for a worker that starts without subscriptions,
  -- whatever roles, messages and configurations it meets and however its main loop ends, every
  -- function that is subscribed to a subject then stands with it in the table.
  pub worker-Stored :
      (start : Start R D) (nats : NatsConnectionState R) (w : R.World) (wakes : List (Wake R D))
      → nats.subscriptions ≡ []
      → AllFair wakes
      → let ctx : SubscriberContext R D = record {
        config = start.config;
        nats = nats;
        status = start.instance;
        channel = [];
        table = start.table;
        world = w;
      } in
        let ctx' = (send_notification R D ctx).1 in
        Stored R call notification (bg_loop R D (restored_if_master R D ctx'.status ctx') wakes).1
  worker-Stored start nats w wakes none_yet f =
      let first : SubscriberContext R D = record {
        config = start.config;
        nats = nats;
        status = start.instance;
        channel = [];
        table = start.table;
        world = w;
      } in
      let ctx : SubscriberContext R D = (send_notification R D first).1 in
      let (v, sent) = send_notification_world R D first in
      bg_loop-Stored (restored_if_master R D ctx.status ctx) wakes f (
        restored_if_master-Ready ctx.status ctx refl
          (ap (λ (c : SubscriberContext R D). c.channel) sent)
          (ap (λ (c : SubscriberContext R D). c.nats.subscriptions) sent ∙ none_yet))
