-- ===== src/Launcher/Worker.antt =====
-- src/bgw/launcher/worker_entry.rs: the entry of a subscriber worker.
use pgnats.Common.{ℕ, ◌+◌, min, true, false, none, some, Result, ok, err}
use pgnats.Common.Int.{ℤ}
use pgnats.Text.{Text}
use pgnats.Config.{extension_name}
use pgnats.Utils.Handles.{pack_oid_dsmh_to_i64}
use pgnats.Launcher.Postgres.{Postgres, WorkerSpec}

-- the steps at which an operation of the launcher can fail
pub data Failure : Type 0 where
  no_database_name no_segment no_queue no_worker not_encoded not_sent not_stopped : Failure

abbrev pub approx_shm_header_size : ℕ
approx_shm_header_size = 64

pub record WorkerEntry (Sender State : Type 0) : Type 0 where
  pub db_name : Text
  pub sender : Sender
  pub oid : ℕ
  pub state : State

module _ (P : Postgres) where
  open P use {
    World, Sender, Running, Terminating, get_database_name, shm_mq_minimum_size, dsm_new,
    sender_new, load_dynamic, terminate, wait_for_shutdown,
  }

  abbrev pub Started : Type 0
  Started = Result (WorkerEntry Sender Running) Failure × World

  abbrev pub queue_size : ℕ → ℕ
  queue_size shm_size = min shm_size shm_mq_minimum_size

  abbrev pub worker_spec : Text → Text → Text → ℤ → WorkerSpec
  worker_spec name ty entrypoint argument = record {
    name = name;
    kind = ty;
    library = extension_name;
    function = entrypoint;
    argument = argument;
  }

  -- The steps of `start` behind the database name, the segment and the queue.
  unfoldable pub load : Text → Sender → ℕ → WorkerSpec → World → Started
  load db_name sender oid spec w =
      let (r, w') = load_dynamic w spec in
      elim r [
        | none ↦ (err no_worker, w')
        | some worker ↦
            (ok (record { db_name = db_name; sender = sender; oid = oid; state = worker }), w')
      ]

  unfoldable pub open_queue : Text → ℕ → (ℤ → WorkerSpec) → ℕ → ℕ → World → Started
  unfolding load
  open_queue db_name oid spec size handle w =
      let (r, w') = sender_new w handle size in
      elim r [
        | none ↦ (err no_queue, w')
        | some sender ↦ load db_name sender oid (spec (pack_oid_dsmh_to_i64 oid handle)) w'
      ]

  unfoldable pub open_segment : Text → ℕ → (ℤ → WorkerSpec) → ℕ → World → Started
  unfolding open_queue
  open_segment db_name oid spec size w =
      let (r, w') = dsm_new w (size + approx_shm_header_size) in
      elim r [
        | none ↦ (err no_segment, w')
        | some handle ↦ open_queue db_name oid spec size handle w'
      ]

  unfoldable pub start : ℕ → Text → Text → Text → ℕ → World → Started
  unfolding open_segment
  start oid name ty entrypoint shm_size w =
      let (r, w') = get_database_name w oid in
      elim r [
        | none ↦ (err no_database_name, w')
        | some db_name ↦
            open_segment db_name oid (worker_spec name ty entrypoint) (queue_size shm_size) w'
      ]

  -- `WorkerEntry<RunningState>::terminate`
  unfoldable pub terminate_entry :
      WorkerEntry Sender Running → World → WorkerEntry Sender Terminating × World
  terminate_entry e w =
      let (t, w') = terminate w e.state in
      (record { db_name = e.db_name; sender = e.sender; oid = e.oid; state = t }, w')

  -- `WorkerEntry<TerminatedState>::wait_for_shutdown`
  unfoldable pub wait_entry :
      WorkerEntry Sender Terminating → World → Result (Unit {0}) Failure × World
  wait_entry e w =
      let (stopped, w') = wait_for_shutdown w e.state in
      elim stopped [ true ↦ (ok tt, w') | false ↦ (err not_stopped, w') ]
