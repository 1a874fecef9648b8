-- ===== src/Messages.antt =====
-- The messages between the backends, the launcher and the subscriber workers:
-- src/bgw/launcher/message.rs and src/bgw/subscriber/message.rs, as built without the `pg_test`
-- feature (the variant `ChangeStatus` exists in test builds only). A database OID is a number.
use pgnats.Common.{ℕ, Bool, List, Result}
use pgnats.Text.{Text}
use pgnats.Config.{Config}

pub data ExtensionStatus : Type 0 where
  exist no_extension no_foreign_server : ExtensionStatus

pub data LauncherMessage : Type 0 where
  db_extension_status : (db_oid : ℕ) → ExtensionStatus → LauncherMessage
  new_config : (db_oid : ℕ) → Config → LauncherMessage
  subscribe : (db_oid : ℕ) (subject fn_name : Text) → LauncherMessage
  unsubscribe : (db_oid : ℕ) (subject fn_name : Text) → LauncherMessage
  subscriber_exit : (db_oid : ℕ) → Result (Unit {0}) Text → LauncherMessage
  foreign_server_dropped : (db_oid : ℕ) → LauncherMessage

pub data SubscriberMessage : Type 0 where
  new_config : Config → SubscriberMessage
  subscribe : (subject fn_name : Text) → SubscriberMessage
  unsubscribe : (subject fn_name : Text) → SubscriberMessage

-- What the tasks of a subscriber worker and its main loop send to each other.
pub data InternalWorkerMessage : Type 0 where
  subscribe : (register : Bool) (subject fn_name : Text) → InternalWorkerMessage
  unsubscribe : (subject fn_name : Text) → InternalWorkerMessage
  callback_call : (subject : Text) (payload : List ℕ) → InternalWorkerMessage
  unsubscribe_subject : (subject reason : Text) → InternalWorkerMessage
