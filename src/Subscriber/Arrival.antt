-- ===== src/Subscriber/Arrival.antt =====
-- A subscription on its way from the launcher (src/bgw/launcher/context.rs) over the message queue to
-- the worker (src/bgw/subscriber/mod.rs).
use pgnats.Common.{
  ℕ, ◌≡◌, refl, ap, ◌∙◌, inl, inr, Bool, true, false, Option, none, some, List, [], ◌∷◌, ◌++◌, map,
  append-nil, Result, ok, err, arith, Bool-cases,
}
use pgnats.Common.Assoc.{get}
use pgnats.Common.Eq.{nat_eq, list_eq}
use pgnats.Text.{Text}
use pgnats.Config.{Config, options_beq}
use pgnats.Messages.{LauncherMessage, SubscriberMessage, InternalWorkerMessage, exist}
use pgnats.Launcher.Postgres.{Postgres}
use pgnats.Launcher.Worker.{WorkerEntry}
use pgnats.Launcher.Context.{
  LauncherContext, handle_subscribe_message, forward, send_subscriber_message, send_bytes,
}
use pgnats.Launcher.Bus.{handle_message}
use pgnats.Subscriber.Runtime.{Runtime}
use pgnats.Subscriber.Nats.{NatsConnectionState}
use pgnats.Subscriber.Relation.{subscribed, text_eq}
use pgnats.Subscriber.Context.{
  Database, SubscriberContext, master, push, reconnected, apply_config, migrate, check_migration,
  handle_message_from_shared_queue, drain_channel,
}
use pgnats.Subscriber.Main.{Wake, again, arrive, handle_received, work, round}
use pgnats.Subscriber.Refinement.{
  Worker, step, run, Represents, run_if_master, drain_channel-Represents,
}

module _ (R : Runtime) (D : Database) where
  handle_received-append :
      (ctx : SubscriberContext R D) (msgs more : List (Option SubscriberMessage))
      → handle_received R D ctx (msgs ++ more)
        ≡ handle_received R D (handle_received R D ctx msgs) more
  unfolding handle_received
  handle_received-append ctx [] more = refl
  handle_received-append ctx (msg ∷ msgs) more =
      handle_received-append (handle_message_from_shared_queue R D ctx msg) msgs more

  reconnected-status :
      (ctx : SubscriberContext R D) (config : Config)
      (r : Result (Unit {0}) (Unit {0}) × NatsConnectionState R × R.World)
      → (reconnected R D ctx config r).1.status ≡ ctx.status
  reconnected-status ctx config (ok u, s, w) = refl
  reconnected-status ctx config (err e, s, w) = refl

  apply_config-status :
      (ctx : SubscriberContext R D) (config : Config)
      → (apply_config R D ctx config).1.status ≡ ctx.status
  unfolding apply_config
  apply_config-status ctx config =
      elim (Bool-cases (options_beq ctx.config.nats_opt config.nats_opt)) [
        | inl e ↦ rw e refl
        | inr e ↦ rw e (reconnected-status ctx config _)
      ]

  handle_message_from_shared_queue-status :
      (ctx : SubscriberContext R D) (msg : Option SubscriberMessage)
      → (handle_message_from_shared_queue R D ctx msg).status ≡ ctx.status
  unfolding handle_message_from_shared_queue
  handle_message_from_shared_queue-status ctx none = refl
  handle_message_from_shared_queue-status ctx (some (SubscriberMessage.new_config config)) =
      apply_config-status ctx config
  handle_message_from_shared_queue-status ctx (some (SubscriberMessage.subscribe subject f)) = refl
  handle_message_from_shared_queue-status ctx (some (SubscriberMessage.unsubscribe subject f)) =
      refl

  handle_received-status :
      (ctx : SubscriberContext R D) (msgs : List (Option SubscriberMessage))
      → (handle_received R D ctx msgs).status ≡ ctx.status
  unfolding handle_received
  handle_received-status ctx [] = refl
  handle_received-status ctx (msg ∷ msgs) =
      handle_received-status (handle_message_from_shared_queue R D ctx msg) msgs
      ∙ handle_message_from_shared_queue-status ctx msg

  run-append :
      (s : Worker R D) (msgs : List InternalWorkerMessage) (msg : InternalWorkerMessage)
      → run R D s (msgs ++ msg ∷ []) ≡ step R D (run R D s msgs) msg
  run-append s [] msg = refl
  run-append s (m ∷ msgs) msg = run-append (step R D s m) msgs msg

  -- A request at the end of the channel of a master is in effect when the channel is drained.
  drained-subscribed :
      (ctx : SubscriberContext R D) (msgs : List InternalWorkerMessage) (register : Bool)
      (subject f : Text)
      → ctx.status ≡ master
      → ctx.channel ≡ msgs ++ InternalWorkerMessage.subscribe register subject f ∷ []
      → subscribed R (drain_channel R D ctx).nats subject f ≡ true
  drained-subscribed ctx msgs register subject f e k =
      let s : Worker R D = record { pairs = subscribed R ctx.nats; table = ctx.table } in
      let r : Represents R D (drain_channel R D ctx) (run_if_master R D ctx.status s ctx.channel) =
        drain_channel-Represents R D ctx s (record { pairs_of = λ a b. refl; table_of = refl }) in
      r.pairs_of subject f
      ∙ (ap (λ st. (run_if_master R D st s ctx.channel).pairs subject f) e
          ∙ (ap (λ c. (run R D s c).pairs subject f) k
              ∙ (ap (λ (t : Worker R D). t.pairs subject f)
                    (run-append s msgs (InternalWorkerMessage.subscribe register subject f))
                  ∙ ground (arith, text_eq.beq_iff subject subject, text_eq.beq_iff f f))))

  -- A round of a master whose last message from the launcher is a subscription.
  round-subscribed :
      (ctx : SubscriberContext R D) (waiting : List InternalWorkerMessage)
      (msgs : List (Option SubscriberMessage)) (subject f : Text)
      → ctx.status ≡ master
      → let wake : Wake R D = record {
        waiting = waiting;
        status = exist;
        instance = master;
        received = msgs ++ some (SubscriberMessage.subscribe subject f) ∷ [];
        is_broken = false;
        arrived = [];
      } in
        (ctx' : SubscriberContext R D) × (round R D ctx exist wake ≡ again ctx')
        × (subscribed R ctx'.nats subject f ≡ true)
  unfolding round work check_migration migrate handle_received handle_message_from_shared_queue
  round-subscribed ctx waiting msgs subject f e =
      let base : SubscriberContext R D = arrive R D ctx waiting in
      let now : SubscriberContext R D = (check_migration R D base master).1 in
      let read : SubscriberContext R D = handle_received R D now msgs in
      let last : Option SubscriberMessage = some (SubscriberMessage.subscribe subject f) in
      let all : SubscriberContext R D = handle_received R D now (msgs ++ last ∷ []) in
      let same_end : all ≡ push R D read (InternalWorkerMessage.subscribe true subject f) =
        handle_received-append now msgs (last ∷ []) in
      let status : all.status ≡ master =
        handle_received-status now (msgs ++ last ∷ [])
        ∙ (ap (λ st. (migrate R D base st master).1.status) e ∙ e) in
      (
        drain_channel R D (arrive R D all []),
        refl,
        drained-subscribed (arrive R D all []) read.channel true subject f status
            (append-nil all.channel ∙ ap (λ (c : SubscriberContext R D). c.channel) same_end),
      )

-- The launcher sends a subscription on to the worker of its database.
module _ (P : Postgres) (entry_point : Text) where
  open P use {World, Sender, Running, send, encode}

  forwarded :
      (ctx : LauncherContext P) (w : World) (db_oid : ℕ) (entry : WorkerEntry Sender Running)
      (subject f : Text) (bytes : List ℕ)
      → get db_oid ctx.workers ≡ some entry
      → encode (SubscriberMessage.subscribe subject f) ≡ some bytes
      → handle_message P entry_point (LauncherMessage.subscribe db_oid subject f) (ctx, w)
        ≡ (ctx, (send w entry.sender bytes).1)
  unfolding handle_message handle_subscribe_message forward send_subscriber_message send_bytes
  forwarded ctx w db_oid entry subject f bytes e k = rw (e, forward) (rw (k, send_bytes) refl)

map-append : {A B : Type 0} (g : A → B) (xs ys : List A) → map g (xs ++ ys) ≡ map g xs ++ map g ys
map-append g [] ys = refl
map-append g (x ∷ xs) ys = ap (λ rest. g x ∷ rest) (map-append g xs ys)

-- `unread` is what the worker of a sender reads from its queue; a send that succeeds puts its bytes
-- behind it.
module _ (P : Postgres) (entry_point : Text) (decode : List ℕ → Option SubscriberMessage)
    (unread : P.World → P.Sender → List (List ℕ))
    (unread-send : (w : P.World) (sender : P.Sender) (bytes : List ℕ)
      → (P.send w sender bytes).0 ≡ true
      → unread (P.send w sender bytes).1 sender ≡ unread w sender ++ bytes ∷ [])
    (R : Runtime) (D : Database) where
  -- What the worker of an entry finds when it wakes up as a master and reads its queue.
  abbrev pub wake_of :
      List InternalWorkerMessage → P.World → WorkerEntry P.Sender P.Running → Wake R D
  wake_of waiting w entry = record {
    waiting = waiting;
    status = exist;
    instance = master;
    received = map decode (unread w entry.sender);
    is_broken = false;
    arrived = [];
  }

  -- Where the worker of a database runs, a subscription can be encoded and decoded, the send of
  -- its bytes succeeds and puts them behind what the worker has not read yet: after the launcher
  -- handles a subscription for that database, a worker that is a master and reads its queue at
  -- its next wake-up, with no message of a task behind the reading, has subscribed the function
  -- to the subject at the end of that round.
  pub subscription_arrives :
      (ctx : LauncherContext P) (w : P.World) (db_oid : ℕ) (entry : WorkerEntry P.Sender P.Running)
      (subject f : Text) (bytes : List ℕ) (worker : SubscriberContext R D)
      (waiting : List InternalWorkerMessage)
      → get db_oid ctx.workers ≡ some entry
      → P.encode (SubscriberMessage.subscribe subject f) ≡ some bytes
      → decode bytes ≡ some (SubscriberMessage.subscribe subject f)
      → (P.send w entry.sender bytes).0 ≡ true
      → worker.status ≡ master
      → let w' =
          (handle_message P entry_point (LauncherMessage.subscribe db_oid subject f) (ctx, w)).1 in
        (worker' : SubscriberContext R D) × (round R D worker exist (wake_of waiting w' entry)
          ≡ again worker')
        × (subscribed R worker'.nats subject f ≡ true)
  subscription_arrives ctx w db_oid entry subject f bytes worker waiting e k d sent m =
      let received : map decode (unread (P.send w entry.sender bytes).1 entry.sender)
          ≡ map decode (unread w entry.sender)
            ++ some (SubscriberMessage.subscribe subject f) ∷ [] =
        ap (map decode) (unread-send w entry.sender bytes sent)
        ∙ (map-append decode (unread w entry.sender) (bytes ∷ [])
            ∙ ap (λ x. map decode (unread w entry.sender) ++ x ∷ []) d) in
      let v = ap (λ s. s.1) (forwarded P entry_point ctx w db_oid entry subject f bytes e k) in
      let (worker', r, h) =
        round-subscribed R D worker waiting (map decode (unread w entry.sender)) subject f m in
      (
        worker',
        ap (λ u. round R D worker exist (wake_of waiting u entry)) v
            ∙ (ap
                  (λ msgs. round R D worker exist (record {
                    waiting = waiting;
                    status = exist;
                    instance = master;
                    received = msgs;
                    is_broken = false;
                    arrived = [];
                  }))
                  received
                ∙ r),
        h,
      )
