-- ===== src/Launcher/Databases.antt =====
-- src/bgw/launcher/pg_api.rs: the databases that the launcher starts workers for.
use pgnats.Common.{
  ℕ, ◌≡◌, ◌↔◌, refl, sym, ap, ◌∙◌, Bool, true, false, ==_iff, Bool-cases, inl, inr, not, ◌&&◌, ◌||◌,
  List, [], ◌∷◌, ok, ◌==◌, if◌then◌else◌, arith,
}
use mathlib.Core.Path.{subst}
use pgnats.Common.Assoc.{contains_key, contains_key-insert}
use pgnats.Common.Sets.{contains}
use pgnats.Common.Eq.{nat_eq}
use pgnats.Text.{Text}
use pgnats.Launcher.Postgres.{Postgres}
use pgnats.Launcher.Worker.{WorkerEntry, start}
use pgnats.Launcher.Context.{
  LauncherContext, empty, start_subscribe_worker, keep_started, worker_name, worker_type, dsm_size,
}
use pgnats.Launcher.Bus.{add_subscribe_workers, after_step, State}

-- what the code reads of a row of `pg_database`
pub record FormPgDatabase : Type 0 where
  pub oid : ℕ
  pub datallowconn : Bool
  pub datistemplate : Bool

abbrev pub is_connectable : FormPgDatabase → Bool
is_connectable pgdb = pgdb.datallowconn && not pgdb.datistemplate

-- The scan gives one row after the other, up to a null pointer at its end.
unfoldable pub fetch_database_oids : List FormPgDatabase → List ℕ
fetch_database_oids [] = []
fetch_database_oids (pgdb ∷ tuples) =
    if is_connectable pgdb
    then pgdb.oid ∷ fetch_database_oids tuples
    else fetch_database_oids tuples

-- A row with the OID is of a database that allows connections and is no template.
pub data Connectable : List FormPgDatabase → ℕ → Type 0 where
  here :
      (oid : ℕ) (tuples : List FormPgDatabase)
      → Connectable (record { oid = oid; datallowconn = true; datistemplate = false } ∷ tuples) oid
  there :
      (pgdb : FormPgDatabase) (tuples : List FormPgDatabase) (oid : ℕ)
      → Connectable tuples oid
      → Connectable (pgdb ∷ tuples) oid

Connectable-fetched :
    (tuples : List FormPgDatabase) (oid : ℕ)
    → Connectable tuples oid
    → contains (fetch_database_oids tuples) oid ≡ true
unfolding fetch_database_oids
Connectable-fetched _ _ (here oid tuples) = ground (arith, ==_iff oid oid)
Connectable-fetched _ _ (there pgdb tuples oid h) = ground (arith, Connectable-fetched tuples oid h)

fetched_row :
    (id oid : ℕ) (datallowconn datistemplate : Bool) (tuples : List FormPgDatabase)
    → (contains (fetch_database_oids tuples) oid ≡ true → Connectable tuples oid)
    → let pgdb : FormPgDatabase = record {
      oid = id;
      datallowconn = datallowconn;
      datistemplate = datistemplate;
    } in
      contains (fetch_database_oids (pgdb ∷ tuples)) oid ≡ true → Connectable (pgdb ∷ tuples) oid
unfolding fetch_database_oids
fetched_row id oid false datistemplate tuples rest h = there _ tuples oid (rest h)
fetched_row id oid true true tuples rest h = there _ tuples oid (rest h)
fetched_row id oid true false tuples rest h = elim (Bool-cases (id == oid)) [
  | inl e ↦
      subst
        (λ k.
          Connectable (record { oid = id; datallowconn = true; datistemplate = false } ∷ tuples) k)
        ((==_iff id oid).0 e) (here id tuples)
  | inr e ↦ there _ tuples oid (rest (ground arith))
]

fetched-Connectable :
    (tuples : List FormPgDatabase) (oid : ℕ)
    → contains (fetch_database_oids tuples) oid ≡ true
    → Connectable tuples oid
unfolding fetch_database_oids
fetched-Connectable [] oid h = absurd cc
fetched-Connectable (pgdb ∷ tuples) oid h =
    fetched_row pgdb.oid oid pgdb.datallowconn pgdb.datistemplate tuples
      (fetched-Connectable tuples oid) h

module _ (P : Postgres) (entry_point : Text) where
  open P use {World, Sender, Running}

  -- Workers start.
  abbrev pub Starts : Type 0
  Starts =
      (oid : ℕ) (name ty : Text) (w : World)
      → (entry : WorkerEntry Sender Running) × (w' : World) × (start P oid name ty entry_point
            dsm_size w
          ≡ (ok entry, w'))

  abbrev pub pending_after : List ℕ → State P entry_point → ℕ → Bool
  pending_after oids s k =
      contains_key k (add_subscribe_workers P entry_point oids s).0.pending_workers

  add_subscribe_workers-pending :
      (oids : List ℕ) (ctx : LauncherContext P) (w : World) (k : ℕ)
      → Starts
      → pending_after oids (ctx, w) k ≡ (contains oids k || contains_key k ctx.pending_workers)
  unfolding add_subscribe_workers start_subscribe_worker
  add_subscribe_workers-pending [] ctx w k h = refl
  add_subscribe_workers-pending (oid ∷ oids) ctx w k h =
      let (entry, w', e) = h oid (worker_name P ctx.counter) (worker_type P ctx.counter) w in
      ap (λ r. pending_after oids (after_step P entry_point (keep_started P ctx oid r)) k) e
      ∙ (add_subscribe_workers-pending oids _ w' k h
          ∙ ground (arith, contains_key-insert oid k entry ctx.pending_workers))

  -- Where every worker can be started, the launcher has, after its start, a pending worker for
  -- exactly the databases that allow connections and are no templates.
  pub databases-pending :
      (tuples : List FormPgDatabase) (w : World) (oid : ℕ)
      → Starts
      → (pending_after (fetch_database_oids tuples) (empty P, w) oid ≡ true)
        ↔ Connectable tuples oid
  databases-pending tuples w oid h =
      let fetched = contains (fetch_database_oids tuples) oid in
      let e : pending_after (fetch_database_oids tuples) (empty P, w) oid ≡ fetched =
        add_subscribe_workers-pending (fetch_database_oids tuples) (empty P) w oid h
        ∙ ground arith in
      (λ p. fetched-Connectable tuples oid (sym e ∙ p), λ c. e ∙ Connectable-fetched tuples oid c)
