-- ===== src/Launcher/Postgres.antt =====
-- What src/bgw/launcher uses of Postgres, pgrx and postcard, as an interface over the state `World`
-- of all that is outside of the launcher: every call may change it, and may fail as it decides.
use pgnats.Common.{ℕ, Bool, Option, List}
use pgnats.Common.Int.{ℤ}
use pgnats.Text.{Text}
use pgnats.Messages.{SubscriberMessage}

-- the settings of `BackgroundWorkerBuilder`
pub record WorkerSpec : Type 0 where
  pub name : Text
  pub kind : Text
  pub library : Text
  pub function : Text
  pub argument : ℤ

pub record Postgres : Type 1 where
  pub World : Type 0
  -- a `ShmMqSender` with the segment that it lives in
  pub Sender : Type 0
  -- `DynamicBackgroundWorker` and `TerminatingDynamicBackgroundWorker`
  pub Running : Type 0
  pub Terminating : Type 0
  pub get_database_name : World → ℕ → Option Text × World
  pub shm_mq_minimum_size : ℕ
  -- `DynamicSharedMemory::new` gives the handle of the segment.
  pub dsm_new : World → ℕ → Option ℕ × World
  pub sender_new : World → ℕ → ℕ → Option Sender × World
  pub load_dynamic : World → WorkerSpec → Option Running × World
  pub send : World → Sender → List ℕ → Bool × World
  pub terminate : World → Running → Terminating × World
  pub wait_for_shutdown : World → Terminating → Bool × World
  -- `postcard::to_stdvec`
  pub encode : SubscriberMessage → Option (List ℕ)
