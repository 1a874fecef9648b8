-- ===== src/Api/Accepted.antt =====
-- Which functions `resolve_bytea_name` of src/utils.rs accepts.
use pgnats.Common.{
  ℕ, ◌≡◌, ◌&&◌, Bool-cases, ==_iff, inl, inr, arith, Option, none, some, ◌∷◌, ◌++◌, ok, err, ◌==◌,
}
use pgnats.Text.{Text}
use pgnats.Api.Functions.{FunctionInfo, bytea_oid, qualified, resolve_bytea_name}

-- A function that takes one `bytea`, whose OID is 17, and how a subscription names it.
pub data TakesBytea : FunctionInfo → Text → Type 0 where
  bare :
      (fn_name : Text)
      → TakesBytea
          (record { schema_name = none; fn_name = some fn_name; arguments = some (1, some 17) })
          fn_name
  in_schema :
      (schema_name fn_name : Text)
      → TakesBytea
          (record {
            schema_name = some schema_name;
            fn_name = some fn_name;
            arguments = some (1, some 17);
          })
          (schema_name ++ b'.' ∷ fn_name)

name-TakesBytea :
    (schema_name : Option Text) (fn_name : Text)
    → TakesBytea
        (record {
          schema_name = schema_name;
          fn_name = some fn_name;
          arguments = some (1, some 17);
        })
        (qualified schema_name fn_name)
name-TakesBytea none fn_name = bare fn_name
name-TakesBytea (some schema_name) fn_name = in_schema schema_name fn_name

resolved :
    (schema_name fn_name : Option Text) (arguments : Option (ℕ × Option ℕ)) (name : Text)
    → let f : FunctionInfo = record {
      schema_name = schema_name;
      fn_name = fn_name;
      arguments = arguments;
    } in
      resolve_bytea_name f ≡ ok (some name) → TakesBytea f name
unfolding resolve_bytea_name
resolved schema_name none arguments name e = absurd cc
resolved schema_name (some fn_name) none name e = absurd cc
resolved schema_name (some fn_name) (some (num_args, none)) name e = absurd cc
resolved schema_name (some fn_name) (some (num_args, some type)) name e =
    elim (Bool-cases ((num_args == 1) && (type == bytea_oid))) [
      | inl h ↦
          let one : num_args ≡ 1 = ground (arith, ==_iff num_args 1) in
          let bytea : type ≡ 17 = ground (arith, ==_iff type 17) in
          let same : ok (some (qualified schema_name fn_name)) ≡ ok (some name) = rw (h) at e in
          let q : name ≡ qualified schema_name fn_name = cc in
          rw (one, bytea, q) (name-TakesBytea schema_name fn_name)
      | inr h ↦ let bad : err tt ≡ ok (some name) = rw (h) at e in absurd cc
    ]

-- A name that is resolved is that of a function that takes one `bytea`.
pub resolve_bytea_name-TakesBytea :
    (f : FunctionInfo) (name : Text) → resolve_bytea_name f ≡ ok (some name) → TakesBytea f name
resolve_bytea_name-TakesBytea f name = resolved f.schema_name f.fn_name f.arguments name
