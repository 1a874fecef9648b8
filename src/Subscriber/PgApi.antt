-- ===== src/Subscriber/PgApi.antt =====
-- src/bgw/subscriber/pg_api.rs, over what Postgres answers to its statements.
use pgnats.Common.{
  ℕ, ◌≡◌, refl, Bool, true, false, not, ◌&&◌, ◌||◌, Option, none, some, List, [], ◌∷◌, Result, ok,
  err, leb, ◌==◌, if◌then◌else◌, Bool-cases, inl, inr, ◌∙◌,
}
use pgnats.Text.{Text}
use pgnats.Subscriber.Runtime.{Runtime}
use pgnats.Subscriber.Nats.{NatsConnectionState, CallError, not_found, other, keeps, run_callbacks}
use pgnats.Subscriber.Relation.{same, subscribed, run_callbacks-subscribed}
use pgnats.Subscriber.Context.{PgInstanceStatus, master, replica}

-- `in_recovery` is `RecoveryInProgress`.
unfoldable pub fetch_status : (in_recovery : Bool) → PgInstanceStatus
fetch_status true = replica
fetch_status false = master

-- The rows of a table: a row without a subject or without a callback is left out.
unfoldable pub rows_of : List (Option Text × Option Text) → List (Text × Text)
rows_of [] = []
rows_of ((some subject, some fn_name) ∷ rows) = (subject, fn_name) ∷ rows_of rows
rows_of ((none, fn_name) ∷ rows) = rows_of rows
rows_of ((some subject, none) ∷ rows) = rows_of rows

abbrev pub is_ascii_alphanumeric : ℕ → Bool
is_ascii_alphanumeric c =
    leb b'0' c && leb c b'9' || leb b'A' c && leb c b'Z' || leb b'a' c && leb c b'z'

-- The characters that the name of a callback may have.
unfoldable pub is_callback_name : Text → Bool
is_callback_name [] = true
is_callback_name (c ∷ cs) =
    (is_ascii_alphanumeric c || c == b'_' || c == b'.') && is_callback_name cs

-- How a statement ends: as it should, with an error of SPI, with an error of Postgres whose code is
-- `ERRCODE_UNDEFINED_FUNCTION` or not, or with another panic.
pub data Ending : Type 0 where
  finished spi_error other_error : Ending
  postgres_error : (undefined_function : Bool) → Ending

abbrev pub call_result : Ending → Result (Unit {0}) CallError
call_result finished = ok tt
call_result spi_error = err other
call_result other_error = err other
call_result (postgres_error true) = err not_found
call_result (postgres_error false) = err other

-- `select callback payload` is the statement that calls the function.
unfoldable pub call_function :
    (select : Text → List ℕ → Ending) → Text → List ℕ → Result (Unit {0}) CallError
call_function select callback payload =
    if not (is_callback_name callback) then err other else call_result (select callback payload)

-- Whether Postgres was asked for the function, and does not know it.
abbrev pub is_undefined : Ending → Bool
is_undefined (postgres_error b) = b
is_undefined finished = false
is_undefined spi_error = false
is_undefined other_error = false

module _ (R : Runtime) (select : Text → List ℕ → Ending) where
  abbrev pub unknown : Text → List ℕ → Bool
  unknown f payload = is_callback_name f && is_undefined (select f payload)

  keeps-call_result : (e : Ending) → keeps R (call_result e) ≡ not (is_undefined e)
  keeps-call_result finished = refl
  keeps-call_result spi_error = refl
  keeps-call_result other_error = refl
  keeps-call_result (postgres_error true) = refl
  keeps-call_result (postgres_error false) = refl

  keeps-call_function :
      (f : Text) (payload : List ℕ)
      → keeps R (call_function select f payload) ≡ not (unknown f payload)
  unfolding call_function
  keeps-call_function f payload = elim (Bool-cases (is_callback_name f)) [
    | inl valid ↦ rw valid (keeps-call_result (select f payload))
    | inr invalid ↦ rw invalid
  ]

  -- After the functions of a subject were called with a message, a function is subscribed to a
  -- subject exactly if it was before and it is another subject or not both its name is valid and
  -- Postgres answered that the function is undefined.
  pub call_function-subscribed :
      (s : NatsConnectionState R) (subject : Text) (payload : List ℕ) (a b : Text)
      → subscribed R (run_callbacks R s subject payload (call_function select)) a b
        ≡ ((not (same subject a) || not (unknown b payload)) && subscribed R s a b)
  call_function-subscribed s subject payload a b =
      run_callbacks-subscribed R s subject payload (call_function select) a b
      ∙ rw (keeps-call_function b payload)
