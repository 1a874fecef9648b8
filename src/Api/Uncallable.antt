-- ===== src/Api/Uncallable.antt =====
-- A function that src/api/nats.rs accepts for a subscription and src/bgw/subscriber/pg_api.rs never
-- calls: its name has a character that `call_function` does not allow.
use pgnats.Common.{
  ℕ, ◌≡◌, refl, ◌∙◌, false, Option, none, some, List, [], ◌∷◌, ◌++◌, ok, err, arith,
}
use pgnats.Text.{Text}
use pgnats.Api.Functions.{FunctionInfo, bytea_oid, qualified, resolve_bytea_name}
use pgnats.Subscriber.Runtime.{Runtime}
use pgnats.Subscriber.Nats.{NatsConnectionState, other, run_callbacks}
use pgnats.Subscriber.Relation.{subscribed, run_callbacks-subscribed}
use pgnats.Subscriber.PgApi.{Ending, is_callback_name, call_function}

is_callback_name-append :
    (s n : Text) → is_callback_name n ≡ false → is_callback_name (s ++ n) ≡ false
unfolding is_callback_name
is_callback_name-append [] n h = h
is_callback_name-append (c ∷ s) n h = ground (arith, is_callback_name-append s n h)

qualified-is_callback_name :
    (schema : Option Text) (n : Text)
    → is_callback_name n ≡ false
    → is_callback_name (qualified schema n) ≡ false
unfolding is_callback_name
qualified-is_callback_name none n h = h
qualified-is_callback_name (some s) n h =
    is_callback_name-append s (b'.' ∷ n) (unfold is_callback_name in ground (arith, h))

never_called :
    (select : Text → List ℕ → Ending) (f : Text) (payload : List ℕ)
    → is_callback_name f ≡ false
    → call_function select f payload ≡ err other
unfolding call_function
never_called select f payload h = rw h refl

-- Where a function takes one bytea and its name has a character that is no ASCII letter or digit,
-- underscore or dot: its name is resolved for a subscription, call_function returns an error
-- other than not found whatever Postgres would answer, and the calls for a message leave the
-- function subscribed as it was.
pub uncallable_is_kept :
    (R : Runtime) (info : FunctionInfo) (name : Text) (select : Text → List ℕ → Ending)
    (s : NatsConnectionState R) (subject a : Text) (payload : List ℕ)
    → info.fn_name ≡ some name
    → info.arguments ≡ some (1, some bytea_oid)
    → is_callback_name name ≡ false
    → let f = qualified info.schema_name name in
      (resolve_bytea_name info ≡ ok (some f))
      × (call_function select f payload ≡ err other)
      × (subscribed R (run_callbacks R s subject payload (call_function select)) a f
          ≡ subscribed R s a f)
unfolding resolve_bytea_name
uncallable_is_kept R info name select s subject a payload n e h =
    let f : Text = qualified info.schema_name name in
    let never =
      never_called select f payload (qualified-is_callback_name info.schema_name name h) in
    (
      rw (n, resolve_bytea_name) (rw e refl),
      never,
      run_callbacks-subscribed R s subject payload (call_function select) a f
          ∙ rw never (ground arith),
    )
