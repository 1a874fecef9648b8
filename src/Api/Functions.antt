-- ===== src/Api/Functions.antt =====
-- `resolve_bytea_name` of src/utils.rs: the name of a function that takes one `bytea`.
use pgnats.Common.{
  ℕ, Bool, false, ◌&&◌, Option, none, some, ◌∷◌, ◌++◌, Result, ok, err, ◌==◌, if◌then◌else◌,
}
use pgnats.Text.{Text}

-- What the system catalog says of a function: the names (`none` for a null pointer), and the number
-- of arguments with the type of the first one.
pub record FunctionInfo : Type 0 where
  pub schema_name : Option Text
  pub fn_name : Option Text
  pub arguments : Option (ℕ × Option ℕ)

-- `BYTEAOID` of Postgres
abbrev pub bytea_oid : ℕ
bytea_oid = 17

abbrev pub qualified : Option Text → Text → Text
qualified none fn_name = fn_name
qualified (some schema_name) fn_name = schema_name ++ b'.' ∷ fn_name

-- the three `ensure!`s
abbrev pub takes_bytea : ℕ × Option ℕ → Bool
takes_bytea (num_args, none) = false
takes_bytea (num_args, some type) = (num_args == 1) && (type == bytea_oid)

unfoldable pub resolve_bytea_name : FunctionInfo → Result (Option Text) (Unit {0})
resolve_bytea_name f = elim f.fn_name [
  | none ↦ ok none
  | some fn_name ↦ elim f.arguments [
    | none ↦ ok none
    | some arguments ↦
        if takes_bytea arguments then ok (some (qualified f.schema_name fn_name)) else err tt
  ]
]
