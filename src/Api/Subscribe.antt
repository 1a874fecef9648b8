-- ===== src/Api/Subscribe.antt =====
-- `nats_subscribe` and `nats_unsubscribe` of src/api/nats.rs.
use pgnats.Common.{ℕ, Bool, true, false, Option, none, some, List, Outcome, done, Result, ok, err}
use pgnats.Text.{Text}
use pgnats.Messages.{LauncherMessage}
use pgnats.RingQueue.{RingQueue}
use pgnats.Launcher.Bus.{send_message_to_launcher_with_retry}
use pgnats.Api.Functions.{FunctionInfo, resolve_bytea_name}

abbrev pub Answer : Type 0
Answer = Outcome (Result (Unit {0}) (Unit {0}) × RingQueue)

module _ (encode : LauncherMessage → Option (List ℕ)) (cap : ℕ) (others : ℕ → RingQueue → RingQueue)
    (my_database_id : ℕ) where
  abbrev pub post : LauncherMessage → RingQueue → Answer
  post msg q = send_message_to_launcher_with_retry cap others 5 q (encode msg)

  -- `?` and `ok_or_else`
  abbrev pub with_name : Result (Option Text) (Unit {0}) → RingQueue → (Text → Answer) → Answer
  with_name (err e) q f = done (err tt, q)
  with_name (ok none) q f = done (err tt, q)
  with_name (ok (some fn_name)) q f = f fn_name

  -- `in_recovery` is `RecoveryInProgress`.
  unfoldable pub nats_subscribe : (in_recovery : Bool) → Text → FunctionInfo → RingQueue → Answer
  nats_subscribe true subject f q = done (err tt, q)
  nats_subscribe false subject f q =
      with_name (resolve_bytea_name f) q
        (λ fn_name. post (LauncherMessage.subscribe my_database_id subject fn_name) q)

  unfoldable pub nats_unsubscribe : (in_recovery : Bool) → Text → FunctionInfo → RingQueue → Answer
  nats_unsubscribe true subject f q = done (err tt, q)
  nats_unsubscribe false subject f q =
      with_name (resolve_bytea_name f) q
        (λ fn_name. post (LauncherMessage.unsubscribe my_database_id subject fn_name) q)
