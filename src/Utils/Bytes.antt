-- ===== src/Utils/Bytes.antt =====
-- `ToBytes` and `FromBytes` of src/utils.rs for the types of the SQL functions.
pub mod Exact
use pgnats.Common.{ℕ, ◌≡◌, refl, Option, none, some, List}
use pgnats.Text.{Text}
use pgnats.Text.Utf8.{into_bytes, from_utf8, IsText, from_utf8-into_bytes}
use pgnats.NatsClient.Interface.{Nats}

module _ (N : Nats) where
  open N use {Value}

  -- The type of a payload: `Vec<u8>`, `String` or `&str`, `pgrx::Json`, `pgrx::JsonB`.
  pub data Kind : Type 0 where
    binary text json jsonb : Kind

  pub data Payload : Type 0 where
    binary : List ℕ → Payload
    text : Text → Payload
    json : Value → Payload
    jsonb : Value → Payload

  unfoldable pub to_bytes : Payload → Option (List ℕ)
  to_bytes (binary bytes) = some bytes
  to_bytes (text t) = some (into_bytes t)
  to_bytes (json v) = N.to_vec v
  to_bytes (jsonb v) = N.to_vec v

  abbrev as_text : Option Text → Option Payload
  as_text none = none
  as_text (some t) = some (text t)

  abbrev value_from_bytes : List ℕ → Option Value
  value_from_bytes bytes = elim (from_utf8 bytes) [ none ↦ none | some t ↦ N.from_str t ]

  abbrev as_json : (Value → Payload) → Option Value → Option Payload
  as_json wrap none = none
  as_json wrap (some v) = some (wrap v)

  unfoldable pub from_bytes : Kind → List ℕ → Option Payload
  from_bytes binary bytes = some (binary bytes)
  from_bytes text bytes = as_text (from_utf8 bytes)
  from_bytes json bytes = as_json json (value_from_bytes bytes)
  from_bytes jsonb bytes = as_json jsonb (value_from_bytes bytes)

  unfoldable pub kind_of : Payload → Kind
  kind_of (binary bytes) = binary
  kind_of (text t) = text
  kind_of (json v) = json
  kind_of (jsonb v) = jsonb

  -- serde_json writes the value as a text that it reads as the same value.
  abbrev pub IsKept : Value → Type 0
  IsKept v = (t : Text) × IsText t × (N.to_vec v ≡ some (into_bytes t)) × (N.from_str t ≡ some v)

  abbrev pub IsPlain : Payload → Type 0
  IsPlain (binary bytes) = Unit {0}
  IsPlain (text t) = IsText t
  IsPlain (json v) = IsKept v
  IsPlain (jsonb v) = IsKept v
