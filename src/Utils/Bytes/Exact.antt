-- ===== src/Utils/Bytes/Exact.antt =====
-- Which bytes `FromBytes` of src/utils.rs accepts.
use pgnats.Common.{
  ℕ, ◌≡◌, ◌↔◌, refl, sym, ap, ◌∙◌, Option, none, some, List, Option-cases, inl, inr,
}
use mathlib.Core.Path.{subst}
use pgnats.Text.{Text}
use pgnats.Text.Utf8.{into_bytes, from_utf8, IsText, from_utf8-into_bytes}
use pgnats.Text.Utf8.Exact.{from_utf8_sound}
use pgnats.NatsClient.Interface.{Nats}
use pgnats.Utils.Bytes.{
  Kind, Payload, IsPlain, to_bytes, binary, text, json, jsonb, from_bytes, kind_of,
  value_from_bytes, as_json, as_text,
}

-- the text that the bytes are the UTF-8 of
abbrev pub IsUtf8 : List ℕ → Text → Type 0
IsUtf8 bytes t = (into_bytes t ≡ bytes) × IsText t

from_utf8_iff : (bytes : List ℕ) (t : Text) → (from_utf8 bytes ≡ some t) ↔ IsUtf8 bytes t
from_utf8_iff bytes t =
    (from_utf8_sound bytes t, λ (e, h). ap from_utf8 (sym e) ∙ from_utf8-into_bytes t h)

module _ (N : Nats) where
  open N use {Value}

  abbrev pub IsJson : List ℕ → Value → Type 0
  IsJson bytes v = (t : Text) × IsUtf8 bytes t × (N.from_str t ≡ some v)

  -- What the bytes of a payload are.
  abbrev pub IsRead : List ℕ → Payload N → Type 0
  IsRead bytes (binary bytes') = bytes ≡ bytes'
  IsRead bytes (text t) = IsUtf8 bytes t
  IsRead bytes (json v) = IsJson bytes v
  IsRead bytes (jsonb v) = IsJson bytes v

  value_iff : (bytes : List ℕ) (v : Value) → (value_from_bytes N bytes ≡ some v) ↔ IsJson bytes v
  value_iff bytes v = (
    λ e. elim (Option-cases (from_utf8 bytes)) [
      | inl h ↦ let bad : none ≡ some v = rw (h, value_from_bytes) at e in absurd cc
      | inr (t, h) ↦ (t, from_utf8_sound bytes t h, rw (h, value_from_bytes) at e)
    ],
    λ (t, h, e). rw ((from_utf8_iff bytes t).1 h, value_from_bytes) e,
  )

  as_json_iff :
      (wrap : Value → Payload N) (r : Option Value) (p : Payload N)
      → (as_json N wrap r ≡ some p) ↔ ((v : Value) × (r ≡ some v) × (wrap v ≡ p))
  as_json_iff wrap none p = (λ e. absurd cc, λ (v, e, h). absurd cc)
  as_json_iff wrap (some v) p = (λ e. (v, refl, cc), λ (w, e, h). cc)

  as_text_iff :
      (r : Option Text) (p : Payload N)
      → (as_text N r ≡ some p) ↔ ((t : Text) × (r ≡ some t) × (Payload.text t ≡ p))
  as_text_iff none p = (λ e. absurd cc, λ (t, e, h). absurd cc)
  as_text_iff (some v) p = (λ e. (v, refl, cc), λ (w, e, h). cc)

  from_bytes_sound :
      (k : Kind N) (bytes : List ℕ) (p : Payload N)
      → from_bytes N k bytes ≡ some p
      → (kind_of N p ≡ k) × IsRead bytes p
  unfolding from_bytes kind_of
  from_bytes_sound binary bytes p e =
      let h : binary bytes ≡ p = cc in
      subst (λ p. (kind_of N p ≡ binary) × IsRead bytes p) h (refl, refl)
  from_bytes_sound text bytes p e =
      let (t, h, f) = (as_text_iff (from_utf8 bytes) p).0 e in
      subst (λ p. (kind_of N p ≡ text) × IsRead bytes p) f (refl, from_utf8_sound bytes t h)
  from_bytes_sound json bytes p e =
      let (v, h, f) = (as_json_iff json (value_from_bytes N bytes) p).0 e in
      subst (λ p. (kind_of N p ≡ json) × IsRead bytes p) f (refl, (value_iff bytes v).0 h)
  from_bytes_sound jsonb bytes p e =
      let (v, h, f) = (as_json_iff jsonb (value_from_bytes N bytes) p).0 e in
      subst (λ p. (kind_of N p ≡ jsonb) × IsRead bytes p) f (refl, (value_iff bytes v).0 h)

  from_bytes_complete :
      (bytes : List ℕ) (p : Payload N) → IsRead bytes p → from_bytes N (kind_of N p) bytes ≡ some p
  unfolding from_bytes kind_of
  from_bytes_complete bytes (binary bytes') h = ap (λ b. some (binary b)) h
  from_bytes_complete bytes (text t) h =
      (as_text_iff (from_utf8 bytes) (text t)).1 (t, (from_utf8_iff bytes t).1 h, refl)
  from_bytes_complete bytes (json v) h =
      (as_json_iff json (value_from_bytes N bytes) (json v)).1 (v, (value_iff bytes v).1 h, refl)
  from_bytes_complete bytes (jsonb v) h =
      (as_json_iff jsonb (value_from_bytes N bytes) (jsonb v)).1 (v, (value_iff bytes v).1 h, refl)

  -- Bytes are accepted as a payload of a kind exactly if the payload is of that kind and the
  -- bytes are: its bytes, the UTF-8 of its text, or the UTF-8 of a text that serde_json reads as
  -- its value.
  pub from_bytes_iff :
      (k : Kind N) (bytes : List ℕ) (p : Payload N)
      → (from_bytes N k bytes ≡ some p) ↔ ((kind_of N p ≡ k) × IsRead bytes p)
  from_bytes_iff k bytes p = (
    from_bytes_sound k bytes p,
    λ (e, h). subst (λ k. from_bytes N k bytes ≡ some p) e (from_bytes_complete bytes p h),
  )

  -- What was written is read back.
  pub from_bytes-to_bytes :
      (p : Payload N)
      → IsPlain N p
      → (bytes : List ℕ) × (to_bytes N p ≡ some bytes) × (from_bytes N (kind_of N p) bytes ≡ some p)
  unfolding to_bytes
  from_bytes-to_bytes (binary bytes) h =
      (bytes, refl, from_bytes_complete bytes (binary bytes) refl)
  from_bytes-to_bytes (text t) h =
      (into_bytes t, refl, from_bytes_complete (into_bytes t) (text t) (refl, h))
  from_bytes-to_bytes (json v) (t, h, w, r) =
      (into_bytes t, w, from_bytes_complete (into_bytes t) (json v) (t, (refl, h), r))
  from_bytes-to_bytes (jsonb v) (t, h, w, r) =
      (into_bytes t, w, from_bytes_complete (into_bytes t) (jsonb v) (t, (refl, h), r))
