-- ===== src/Launcher/Argument.antt =====
-- What a worker is started with by src/bgw/launcher/worker_entry.rs, and what its entry point in
-- src/bgw/subscriber/mod.rs makes of it.
use pgnats.Common.{
  ℕ, ◌+◌, ◌^◌, ◌<◌, ◌≡◌, refl, ap, ◌∙◌, inl, inr, Option, none, some, ok, err, Option-cases,
}
use pgnats.Common.Int.{ℤ}
use pgnats.Text.{Text}
use pgnats.Utils.Handles.{pack_oid_dsmh_to_i64, unpack_i64_to_oid_dsmh, unpack-pack}
use pgnats.Launcher.Postgres.{Postgres, WorkerSpec}
use pgnats.Launcher.Worker.{
  Started, WorkerEntry, Failure, no_worker, no_segment, no_queue, no_database_name, worker_spec,
  queue_size, approx_shm_header_size, start, open_segment, open_queue, load,
}

-- The OID of the database and the handle of the segment, from the argument (`none` if it is no
-- number).
unfoldable pub entry_point_arguments : Option ℤ → Option (ℕ × ℕ)
entry_point_arguments none = none
entry_point_arguments (some arg) = some (unpack_i64_to_oid_dsmh arg)

module _ (P : Postgres) where
  open P use {World, Sender, Running}

  abbrev failed : Failure → World → Started P
  failed x v = (err x, v)

  abbrev started : WorkerEntry Sender Running → World → Started P
  started entry w = (ok entry, w)

  not_started :
      {A : Type 0} (x : Failure) (v w : World) (entry : WorkerEntry Sender Running)
      → failed x v ≡ started entry w
      → A
  not_started x v w entry h = let e : err x ≡ ok entry = ap (λ (r : Started P). r.0) h in absurd cc

  one_entry : (a b : WorkerEntry Sender Running) (v w : World) → started a v ≡ started b w → a ≡ b
  one_entry a b v w h = cc

  load-ok :
      (db_name : Text) (sender : Sender) (oid : ℕ) (spec : WorkerSpec) (w w' : World)
      (entry : WorkerEntry Sender Running)
      → load P db_name sender oid spec w ≡ started entry w'
      → ((P.load_dynamic w spec).0 ≡ some entry.state) × (sender ≡ entry.sender)
  unfolding load
  load-ok db_name sender oid spec w w' entry h = elim (Option-cases (P.load_dynamic w spec).0) [
    | inl e ↦ not_started no_worker (P.load_dynamic w spec).1 w' entry (rw (e, load) at h)
    | inr (worker, e) ↦
        let made : WorkerEntry Sender Running = record {
          db_name = db_name;
          sender = sender;
          oid = oid;
          state = worker;
        } in
        let k : started made (P.load_dynamic w spec).1 ≡ started entry w' = rw (e, load) at h in
        let same : made ≡ entry = one_entry made entry (P.load_dynamic w spec).1 w' k in
        (
          e ∙ ap (λ (x : WorkerEntry Sender Running). some x.state) same,
          ap (λ (x : WorkerEntry Sender Running). x.sender) same,
        )
  ]

  open_queue-ok :
      (db_name : Text) (oid : ℕ) (spec : ℤ → WorkerSpec) (size handle : ℕ) (w w' : World)
      (entry : WorkerEntry Sender Running)
      → open_queue P db_name oid spec size handle w ≡ started entry w'
      → ((P.sender_new w handle size).0 ≡ some entry.sender)
        × ((P.load_dynamic
              (P.sender_new w handle size).1
              (spec (pack_oid_dsmh_to_i64 oid handle))).0
            ≡ some entry.state)
  unfolding open_queue
  open_queue-ok db_name oid spec size handle w w' entry h =
      elim (Option-cases (P.sender_new w handle size).0) [
        | inl e ↦
            not_started no_queue (P.sender_new w handle size).1 w' entry (rw (e, open_queue) at h)
        | inr (sender, e) ↦
            let (l, same) =
              load-ok db_name sender oid (spec (pack_oid_dsmh_to_i64 oid handle))
                (P.sender_new w handle size).1 w' entry (rw (e, open_queue) at h) in
            (e ∙ ap some same, l)
      ]

  -- The queue of an entry lies in the segment of the handle, and Postgres was asked to start the
  -- entry point with an argument from which it gets the OID and the handle.
  abbrev pub Handed : ℕ → Text → ℕ → WorkerEntry Sender Running → Type 0
  Handed oid entrypoint shm_size entry =
      (handle : ℕ) × (w1 : World) × (w2 : World) × (spec : WorkerSpec) × ((P.dsm_new w1
          (queue_size P shm_size + approx_shm_header_size)).0
        ≡ some handle)
      × ((P.sender_new (P.dsm_new w1 (queue_size P shm_size + approx_shm_header_size)).1 handle
            (queue_size P shm_size)).0
          ≡ some entry.sender)
      × ((P.load_dynamic w2 spec).0 ≡ some entry.state)
      × (spec.function ≡ entrypoint)
      × (entry_point_arguments (some spec.argument) ≡ some (oid, handle))

  -- Where the OID of a database and the handles of segments are 32-bit numbers, and start gives
  -- an entry: its queue lies in a segment that was made for it, and the worker of the entry was
  -- loaded with the entry point that start was given and an argument from which the entry point
  -- gets this OID and the handle of this segment.
  pub start-Handed :
      (oid : ℕ) (name ty entrypoint : Text) (shm_size : ℕ) (w w' : World)
      (entry : WorkerEntry Sender Running)
      → oid < 2 ^ 32
      → ((v : World) (size handle : ℕ) → (P.dsm_new v size).0 ≡ some handle → handle < 2 ^ 32)
      → start P oid name ty entrypoint shm_size w ≡ (ok entry, w')
      → Handed oid entrypoint shm_size entry
  unfolding start open_segment entry_point_arguments
  start-Handed oid name ty entrypoint shm_size w w' entry small small_handle h =
      let w1 : World = (P.get_database_name w oid).1 in
      let size : ℕ = queue_size P shm_size in
      let segment : Option ℕ × World = P.dsm_new w1 (size + approx_shm_header_size) in
      elim (Option-cases (P.get_database_name w oid).0) [
        | inl e ↦ not_started no_database_name w1 w' entry (rw (e, start) at h)
        | inr (db_name, e) ↦ elim (Option-cases segment.0) [
          | inl f ↦
              not_started no_segment segment.1 w' entry
                (rw (f, open_segment) at (rw (e, start) at h))
          | inr (handle, f) ↦
              let (sender, worker) =
                open_queue-ok db_name oid (worker_spec P name ty entrypoint) size handle segment.1
                  w' entry (rw (f, open_segment) at (rw (e, start) at h)) in
              (
                handle,
                w1,
                (P.sender_new segment.1 handle size).1,
                worker_spec P name ty entrypoint (pack_oid_dsmh_to_i64 oid handle),
                f,
                sender,
                worker,
                refl,
                ap some (unpack-pack oid handle small (small_handle w1 _ handle f)),
              )
        ]
      ]
