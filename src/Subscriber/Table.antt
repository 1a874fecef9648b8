-- ===== src/Subscriber/Table.antt =====
-- The table `pgnats.subscriptions` of src/bgw/mod.rs with the statements of
-- src/bgw/subscriber/pg_api.rs, and the trigger that cleans it up.
use pgnats.Common.{
  ℕ, ◌≡◌, ap, ◌∙◌, Bool, true, not, ◌&&◌, Option, none, some, List, [], ◌∷◌, ◌++◌, Result, ok, err,
  if◌then◌else◌, arith,
}
use pgnats.Common.Sets.{retain}
use pgnats.Common.Eq.{nat_eq, list_eq, pair_eq}
use pgnats.Text.{Text, text}
use pgnats.Text.Split.{split_once, Free, split_once_lem}
use pgnats.Subscriber.Nats.{CallError}
use pgnats.Subscriber.Relation.{same, text_eq}
use pgnats.Subscriber.Context.{Database, PgInstanceStatus}
use pgnats.Subscriber.Restore.{listed}

abbrev pub Rows : Type 0
Rows = List (Text × Text)

-- `INSERT`, which `UNIQUE(subject, callback)` refuses for a row that is there.
unfoldable pub insert_subject_callback : Rows → Text → Text → Result Rows Text
insert_subject_callback t subject fn_name =
    if listed t subject fn_name
    then err (text "duplicate key value violates unique constraint")
    else ok (t ++ (subject, fn_name) ∷ [])

-- `DELETE ... WHERE subject = $1 AND callback = $2`
unfoldable pub delete_subject_callback : Rows → Text → Text → Result Rows Text
delete_subject_callback t subject fn_name =
    ok (retain (λ r. not (same r.0 subject && same r.1 fn_name)) t)

-- A database whose statements succeed but for the unique constraint.
abbrev pub table_db :
    (Text → List ℕ → Result (Unit {0}) CallError)
    → (PgInstanceStatus → Option Text → Option (List ℕ))
    → Database
table_db call notification = record {
  Table = Rows;
  fetch_subject_with_callbacks = λ t. ok t;
  insert_subject_callback = insert_subject_callback;
  delete_subject_callback = delete_subject_callback;
  call_function = λ t. call;
  notification = notification;
}

-- What `pg_event_trigger_dropped_objects()` tells of an object: whether `object_type` is 'function',
-- and its identity.
pub record DroppedObject : Type 0 where
  pub is_function : Bool
  pub object_identity : Text

abbrev before_first : Text → Option (Text × Text) → Text
before_first t none = t
before_first t (some (before, after)) = before

-- `split_part(object_identity, '(', 1)`
unfoldable pub clean_name : Text → Text
unfolding split_once
clean_name identity = before_first identity (split_once b'(' identity)

unfoldable pub drop_object : DroppedObject → Rows → Rows
unfolding clean_name
drop_object obj t =
    if obj.is_function then retain (λ r. not (same r.1 (clean_name obj.object_identity))) t else t

unfoldable pub cleanup_subscriptions_on_drop : List DroppedObject → Rows → Rows
unfolding drop_object
cleanup_subscriptions_on_drop [] t = t
cleanup_subscriptions_on_drop (obj ∷ objects) t =
    cleanup_subscriptions_on_drop objects (drop_object obj t)

listed-retain_callback :
    (name : Text) (t : Rows) (a b : Text)
    → listed (retain (λ r. not (same r.1 name)) t) a b ≡ (not (same b name) && listed t a b)
listed-retain_callback name [] a b = ground arith
listed-retain_callback name ((s, g) ∷ t) a b = ground (
  arith,
  listed-retain_callback name t a b,
  text_eq.beq_iff s a,
  text_eq.beq_iff g b,
  text_eq.beq_iff g name,
  text_eq.beq_iff b name,
)

clean_name_lem : (name args : Text) → Free b'(' name → clean_name (name ++ b'(' ∷ args) ≡ name
unfolding clean_name
clean_name_lem name args free =
    ap (before_first (name ++ b'(' ∷ args)) (split_once_lem b'(' name args free)

-- When a function with a name without an opening parenthesis is dropped, the trigger removes
-- exactly the rows of the table that name it as their callback, whatever its arguments are.
pub cleanup-listed :
    (name args a b : Text) (t : Rows)
    → Free b'(' name
    → let obj : DroppedObject = record {
      is_function = true;
      object_identity = name ++ b'(' ∷ args;
    } in
      listed (cleanup_subscriptions_on_drop (obj ∷ []) t) a b ≡ (not (same b name) && listed t a b)
unfolding cleanup_subscriptions_on_drop drop_object
cleanup-listed name args a b t free =
    ap (λ n. listed (retain (λ r. not (same r.1 n)) t) a b) (clean_name_lem name args free)
    ∙ listed-retain_callback name t a b
