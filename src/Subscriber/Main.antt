-- ===== src/Subscriber/Main.antt =====
-- The start, the main loop and the end of a worker in src/bgw/subscriber/mod.rs.
use pgnats.Common.{
  ℕ, zero, suc, Bool, true, false, Option, none, some, List, [], ◌∷◌, ◌++◌, Outcome, done, ◌>>=◌,
  Result, ok, err, if◌then◌else◌,
}
use pgnats.Text.{Text, text}
use pgnats.Config.{Config}
use pgnats.Messages.{
  LauncherMessage, SubscriberMessage, InternalWorkerMessage, ExtensionStatus, exist, no_extension,
  no_foreign_server,
}
use pgnats.RingQueue.{RingQueue}
use pgnats.Launcher.Bus.{send_message_to_launcher}
use pgnats.Subscriber.Runtime.{Runtime}
use pgnats.Subscriber.Nats.{NatsConnectionState, new, unsubscribe_all}
use pgnats.Subscriber.Context.{
  PgInstanceStatus, master, replica, Database, SubscriberContext, send_notification, restore_state,
  check_migration, handle_message_from_shared_queue, drain_channel,
}

-- `rows` is the number of rows that the database answers, `none` for an error.
unfoldable pub is_extension_installed : (rows : Option ℕ) → Bool
is_extension_installed none = false
is_extension_installed (some zero) = false
is_extension_installed (some (suc n)) = true

-- `is_installed` and the name of the server are what the database answers.
unfoldable pub check_extension_status :
    (is_installed : Bool) → (server : Option Text) → ExtensionStatus
check_extension_status true (some name) = exist
check_extension_status true none = no_foreign_server
check_extension_status false server = no_extension

module _ (R : Runtime) (D : Database) where
  open R use {World}

  -- What the worker finds when it wakes up: the messages that its tasks sent while it waited, the
  -- status of the extension, the role of the instance, the messages of the launcher as decoded,
  -- whether reading them ends with an error, and the messages of tasks that arrive by then.
  pub record Wake : Type 0 where
    pub waiting : List InternalWorkerMessage
    pub status : ExtensionStatus
    pub instance : PgInstanceStatus
    pub received : List (Option SubscriberMessage)
    pub is_broken : Bool
    pub arrived : List InternalWorkerMessage

  -- A round of the loop, or its end with what the worker returns.
  pub data Round : Type 0 where
    again : SubscriberContext R D → Round
    leave : Result (Unit {0}) Text → SubscriberContext R D → Round

  unfoldable pub handle_received :
      SubscriberContext R D → List (Option SubscriberMessage) → SubscriberContext R D
  handle_received ctx [] = ctx
  handle_received ctx (msg ∷ msgs) =
      handle_received (handle_message_from_shared_queue R D ctx msg) msgs

  abbrev pub arrive : SubscriberContext R D → List InternalWorkerMessage → SubscriberContext R D
  arrive ctx msgs = record ctx { channel = ctx.channel ++ msgs }

  unfoldable pub work : SubscriberContext R D → Wake → Round
  unfolding handle_received
  work ctx wake =
      let ctx' =
        handle_received (check_migration R D (arrive ctx wake.waiting) wake.instance).1
          wake.received in
      if wake.is_broken
      then leave (ok tt) ctx'
      else again (drain_channel R D (arrive ctx' wake.arrived))

  unfoldable pub round : SubscriberContext R D → ExtensionStatus → Wake → Round
  unfolding work
  round ctx no_extension wake = leave (err (text "Extension 'pgnats' was dropped")) ctx
  round ctx no_foreign_server wake =
      leave (err (text "Foreign server for 'pgnats_fdw' was dropped")) ctx
  round ctx exist wake = work ctx wake

  -- The end of the list is the signal to stop.
  unfoldable pub bg_loop :
      SubscriberContext R D → List Wake → Result (Unit {0}) Text × SubscriberContext R D
  unfolding round
  bg_loop ctx [] = (ok tt, ctx)
  bg_loop ctx (wake ∷ wakes) = elim (round ctx wake.status wake) [
    | leave r ctx' ↦ (r, ctx')
    | again ctx' ↦ bg_loop ctx' wakes
  ]

  abbrev pub restored_if_master : PgInstanceStatus → SubscriberContext R D → SubscriberContext R D
  restored_if_master master ctx = (restore_state R D ctx).1
  restored_if_master replica ctx = ctx

  -- Dropping the context aborts the tasks.
  abbrev pub dropped : SubscriberContext R D → World
  dropped ctx = (unsubscribe_all R ctx.nats ctx.world).2

  abbrev pub ended : Result (Unit {0}) Text × SubscriberContext R D → Result (Unit {0}) Text × World
  ended (r, ctx) = (r, dropped ctx)

  -- The answers that the worker gets as it starts.
  pub record Start : Type 0 where
    pub status : ExtensionStatus
    -- whether the tokio runtime can be built
    pub has_runtime : Bool
    pub config : Config
    pub instance : PgInstanceStatus
    pub table : D.Table
    -- whether the segment and its queue can be attached
    pub is_attached : Bool

  -- From `SubscriberContext::new` on.
  unfoldable pub run_worker :
      Start → NatsConnectionState R → World → List Wake → Result (Unit {0}) Text × World
  unfolding bg_loop
  run_worker start nats w wakes =
      let ctx : SubscriberContext R D = record {
        config = start.config;
        nats = nats;
        status = start.instance;
        channel = [];
        table = start.table;
        world = w;
      } in
      let ctx' = (send_notification R D ctx).1 in
      if start.is_attached
      then ended (bg_loop (restored_if_master ctx'.status ctx') wakes)
      else (err (text "Failed to attach"), dropped ctx')

  -- `NatsConnectionState::new(..)?`
  abbrev pub after_connect :
      Start
      → Result (NatsConnectionState R) (Unit {0}) × World
      → List Wake
      → Result (Unit {0}) Text × World
  after_connect start (err e, w) wakes = (err (text "Failed to connect"), w)
  after_connect start (ok nats, w) wakes = run_worker start nats w wakes

  unfoldable pub connect_and_run : Start → World → List Wake → Result (Unit {0}) Text × World
  unfolding run_worker
  connect_and_run start w wakes =
      if start.has_runtime
      then after_connect start (new R w start.config.nats_opt) wakes
      else (err (text "Failed to initialize Tokio runtime"), w)

  abbrev pub run_if_installed :
      ExtensionStatus → Start → World → List Wake → Result (Unit {0}) Text × World
  run_if_installed exist start w wakes = connect_and_run start w wakes
  run_if_installed no_extension start w wakes = (ok tt, w)
  run_if_installed no_foreign_server start w wakes = (ok tt, w)

  module _ (encode : LauncherMessage → Option (List ℕ)) (cap : ℕ) where
    abbrev pub announced :
        Result (Unit {0}) (Unit {0}) × RingQueue
        → Start
        → World
        → List Wake
        → Result (Unit {0}) Text × World × RingQueue
    announced (err e, q) start w wakes = (err (text "Failed to send to launcher message"), w, q)
    announced (ok u, q) start w wakes =
        let (r, w') = run_if_installed start.status start w wakes in (r, w', q)

    unfoldable pub background_worker_subscriber_main_internal :
        ℕ
        → RingQueue
        → Start
        → World
        → List Wake
        → Outcome (Result (Unit {0}) Text × World × RingQueue)
    background_worker_subscriber_main_internal db_oid q start w wakes = do
      r ←
          send_message_to_launcher cap q
            (encode (LauncherMessage.db_extension_status db_oid start.status))
      done (announced r start w wakes)

    -- A failure to report is returned in place of the result.
    abbrev pub reported :
        Result (Unit {0}) (Unit {0}) → Result (Unit {0}) Text → Result (Unit {0}) Text
    reported (ok u) result = result
    reported (err e) result = err (text "Failed to send to launcher message")

    -- `others` is what other processes do to the bus while the worker runs.
    unfoldable pub background_worker_subscriber_main :
        (others : RingQueue → RingQueue)
        → ℕ
        → (db_name : Option Text) → RingQueue
        → Start
        → World
        → List Wake
        → Outcome (Result (Unit {0}) Text × World × RingQueue)
    unfolding background_worker_subscriber_main_internal
    background_worker_subscriber_main others db_oid none q start w wakes =
        done (err (text "Subscriber: failed to resolve database name"), w, q)
    background_worker_subscriber_main others db_oid (some db_name) q start w wakes = do
      (result, w', q') ← background_worker_subscriber_main_internal db_oid q start w wakes
      (sent, q'') ←
          send_message_to_launcher cap (others q')
            (encode (LauncherMessage.subscriber_exit db_oid result))
      done (reported sent result, w', q'')
