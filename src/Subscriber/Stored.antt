-- ===== src/Subscriber/Stored.antt =====
-- Every subscription of a worker stands in the table `pgnats.subscriptions`, from which a later worker
-- restores it.
use pgnats.Common.{
  ℕ, ◌≡◌, refl, sym, ap, ◌∙◌, inl, inr, true, false, not, ◌&&◌, ◌||◌, Option, List, [], ◌∷◌, ◌++◌,
  Result, ok, err, arith, Bool-cases,
}
use pgnats.Common.Sets.{retain}
use pgnats.Common.Eq.{nat_eq, list_eq, pair_eq}
use mathlib.Core.Path.{subst}
use pgnats.Text.{Text}
use pgnats.Messages.{
  InternalWorkerMessage, subscribe, unsubscribe, callback_call, unsubscribe_subject,
}
use pgnats.Subscriber.Runtime.{Runtime}
use pgnats.Subscriber.Nats.{CallError}
use pgnats.Subscriber.Relation.{same, subscribed, text_eq}
use pgnats.Subscriber.Context.{
  Database, SubscriberContext, PgInstanceStatus, master, replica, table_after, drain_channel,
}
use pgnats.Subscriber.Restore.{listed}
use pgnats.Subscriber.Table.{Rows, table_db, insert_subject_callback, delete_subject_callback}
use pgnats.Subscriber.Refinement.{
  Worker, step, run, Represents, run_if_master, drain_channel-Represents,
}

-- The table after a statement.
abbrev after_statement : Rows → Result Rows Text → Rows
after_statement t (ok t') = t'
after_statement t (err e) = t

pub listed-append : (t u : Rows) (a b : Text) → listed (t ++ u) a b ≡ (listed t a b || listed u a b)
listed-append [] u a b = refl
listed-append ((s, f) ∷ t) u a b = ground (arith, listed-append t u a b)

listed-insert_subject_callback :
    (t : Rows) (subject f a b : Text)
    → listed (after_statement t (insert_subject_callback t subject f)) a b
      ≡ (same subject a && same f b || listed t a b)
unfolding insert_subject_callback
listed-insert_subject_callback t subject f a b = elim (Bool-cases (listed t subject f)) [
  | inl there ↦ rw there (ground (arith, text_eq.beq_iff subject a, text_eq.beq_iff f b))
  | inr missing ↦ rw missing (ground (arith, listed-append t ((subject, f) ∷ []) a b))
]

listed-retain :
    (subject f : Text) (t : Rows) (a b : Text)
    → listed (retain (λ r. not (same r.0 subject && same r.1 f)) t) a b
      ≡ (not (same subject a && same f b) && listed t a b)
listed-retain subject f [] a b = ground arith
listed-retain subject f ((s, g) ∷ t) a b = ground (
  arith,
  listed-retain subject f t a b,
  text_eq.beq_iff s subject,
  text_eq.beq_iff g f,
  text_eq.beq_iff s a,
  text_eq.beq_iff g b,
  text_eq.beq_iff subject a,
  text_eq.beq_iff f b,
)

listed-delete_subject_callback :
    (t : Rows) (subject f a b : Text)
    → listed (after_statement t (delete_subject_callback t subject f)) a b
      ≡ (not (same subject a && same f b) && listed t a b)
unfolding delete_subject_callback
listed-delete_subject_callback t subject f a b = listed-retain subject f t a b

module _ (R : Runtime) (call : Text → List ℕ → Result (Unit {0}) CallError)
    (notification : PgInstanceStatus → Option Text → Option (List ℕ)) where
  abbrev pub db : Database
  db = table_db call notification

  abbrev pub Covers : Worker R db → Type 0
  Covers s = (a b : Text) → s.pairs a b ≡ true → listed s.table a b ≡ true

  -- What a message asks of the table: a subscription that is not registered stands in it.
  abbrev pub Needs : Rows → InternalWorkerMessage → Type 0
  Needs t (subscribe false subject f) = listed t subject f ≡ true
  Needs t (subscribe true subject f) = Unit {0}
  Needs t (unsubscribe subject f) = Unit {0}
  Needs t (callback_call subject payload) = Unit {0}
  Needs t (unsubscribe_subject subject reason) = Unit {0}

  step-Covers :
      (s : Worker R db) (msg : InternalWorkerMessage)
      → Covers s
      → Needs s.table msg
      → Covers (step R db s msg)
  step-Covers s (subscribe true subject f) c n a b h =
      ground (arith, listed-insert_subject_callback s.table subject f a b, c a b)
  step-Covers s (subscribe false subject f) c n a b h =
      ground (arith, c a b, text_eq.beq_iff subject a, text_eq.beq_iff f b)
  step-Covers s (unsubscribe subject f) c n a b h =
      ground (arith, listed-delete_subject_callback s.table subject f a b, c a b)
  step-Covers s (callback_call subject payload) c n a b h = ground (arith, c a b)
  step-Covers s (unsubscribe_subject subject reason) c n a b h = ground (arith, c a b)

  -- The table after a message.
  abbrev pub table_step : Rows → InternalWorkerMessage → Rows
  table_step t (subscribe true subject f) = table_after R db t (insert_subject_callback t subject f)
  table_step t (subscribe false subject f) = t
  table_step t (unsubscribe subject f) = table_after R db t (delete_subject_callback t subject f)
  table_step t (callback_call subject payload) = t
  table_step t (unsubscribe_subject subject reason) = t

  step_table :
      (s : Worker R db) (msg : InternalWorkerMessage)
      → (step R db s msg).table ≡ table_step s.table msg
  step_table s (subscribe true subject f) = refl
  step_table s (subscribe false subject f) = refl
  step_table s (unsubscribe subject f) = refl
  step_table s (callback_call subject payload) = refl
  step_table s (unsubscribe_subject subject reason) = refl

  -- Each message has what it needs when its turn comes.
  abbrev pub Backed : Rows → List InternalWorkerMessage → Type 0
  Backed t [] = Unit {0}
  Backed t (msg ∷ msgs) = Needs t msg × Backed (table_step t msg) msgs

  run-Covers :
      (s : Worker R db) (msgs : List InternalWorkerMessage)
      → Covers s
      → Backed s.table msgs
      → Covers (run R db s msgs)
  run-Covers s [] c b = c
  run-Covers s (msg ∷ msgs) c (n, b) =
      run-Covers (step R db s msg) msgs (step-Covers s msg c n)
        (subst (λ t. Backed t msgs) (sym (step_table s msg)) b)

  abbrev pub abstract_worker : SubscriberContext R db → Worker R db
  abstract_worker ctx = record { pairs = subscribed R ctx.nats; table = ctx.table }

  abstract_worker-Represents :
      (ctx : SubscriberContext R db) → Represents R db ctx (abstract_worker ctx)
  abstract_worker-Represents ctx = record { pairs_of = λ a b. refl; table_of = refl }

  -- Every subscription of the worker stands in the table.
  abbrev pub Stored : SubscriberContext R db → Type 0
  Stored ctx = Covers (abstract_worker ctx)

  Represents-Covers :
      (ctx : SubscriberContext R db) (s : Worker R db)
      → Represents R db ctx s
      → Covers s
      → Stored ctx
  Represents-Covers ctx s r c a b h =
      ap (λ t. listed t a b) r.table_of ∙ c a b (sym (r.pairs_of a b) ∙ h)

  run_if_master-Covers :
      (status : PgInstanceStatus) (s : Worker R db) (msgs : List InternalWorkerMessage)
      → Covers s
      → Backed s.table msgs
      → Covers (run_if_master R db status s msgs)
  run_if_master-Covers master s msgs c b = run-Covers s msgs c b
  run_if_master-Covers replica s msgs c b = c

  pub drain_channel-Stored :
      (ctx : SubscriberContext R db)
      → Stored ctx
      → Backed ctx.table ctx.channel
      → Stored (drain_channel R db ctx)
  drain_channel-Stored ctx c b =
      Represents-Covers _ _
        (drain_channel-Represents R db ctx (abstract_worker ctx) (abstract_worker-Represents ctx))
        (run_if_master-Covers ctx.status (abstract_worker ctx) ctx.channel c b)
