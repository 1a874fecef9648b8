-- ===== src/Config/Fetch.antt =====
-- `fetch_config` of src/config.rs: the options of the foreign server as Postgres lists them. What
-- Postgres answers is an argument: the name of the server, and its list of options (`none` for a
-- null pointer). A text of a C string holds no NUL.
use pgnats.Common.{
  ◌≡◌, refl, ap, ◌∙◌, Bool, false, ◌||◌, Option, none, some, List, [], ◌∷◌, ◌==◌, if◌then◌else◌,
}
use pgnats.Common.Assoc.{insert}
use pgnats.Common.Eq.{nat_eq, list_eq, list_beq}
use pgnats.Text.{Text}
use pgnats.Config.Options.{InRange, entries, to_options, parse_config-to_options}
use pgnats.Config.{tls, mutual_tls, NatsTlsOptions, Config, Options, parse_config}

-- A node of a parse tree: a string value, or some other node.
pub data Node : Type 0 where
  string : Option Text → Node
  other : Node

-- `DefElem`, with `none` for null pointers
pub record DefElem : Type 0 where
  pub defname : Option Text
  pub arg : Option Node

-- One round of the loop over the list: every `continue` leaves the options as they are.
unfoldable pub add_value : Options → Text → Option Node → Options
add_value options key none = options
add_value options key (some other) = options
add_value options key (some (string none)) = options
add_value options key (some (string (some value))) = insert key value options

unfoldable pub add_elem : Options → Option DefElem → Options
unfolding add_value
add_elem options none = options
add_elem options (some e) = elim e.defname [
  | none ↦ options
  | some key ↦ add_value options key e.arg
]

unfoldable pub add_elems : Options → List (Option DefElem) → Options
add_elems options [] = options
add_elems options (e ∷ es) = add_elems (add_elem options e) es

abbrev pub has_nul : Text → Bool
has_nul [] = false
has_nul (c ∷ cs) = c == 0 || has_nul cs

unfoldable pub fetch_config :
    Option Text → (Text → Option (Option (List (Option DefElem)))) → Config
fetch_config none get_server = parse_config []
fetch_config (some server_name) get_server =
    if has_nul server_name then parse_config [] else elim (get_server server_name) [
      | none ↦ parse_config []
      | some none ↦ parse_config []
      | some (some es) ↦ parse_config (add_elems [] es)
    ]

-- A well-formed entry of the list.
abbrev pub entry : Text × Text → Option DefElem
entry (key, value) = some (record { defname = some key; arg = some (string (some value)) })

-- An entry that the loop skips.
pub data Skipped : Option DefElem → Type 0 where
  no_elem : Skipped none
  no_name : (arg : Option Node) → Skipped (some (record { defname = none; arg = arg }))
  no_arg : (key : Text) → Skipped (some (record { defname = some key; arg = none }))
  no_string : (key : Text) → Skipped (some (record { defname = some key; arg = some other }))
  no_value : (key : Text) → Skipped (some (record { defname = some key; arg = some (string none) }))

-- The list has the options as its well-formed entries, in their order.
pub data Lists : List (Option DefElem) → Options → Type 0 where
  end : Lists [] []
  keep :
      {es : List (Option DefElem)} {os : Options} (o : Text × Text)
      → Lists es os
      → Lists (entry o ∷ es) (o ∷ os)
  skip :
      {es : List (Option DefElem)} {os : Options} (e : Option DefElem)
      → Skipped e
      → Lists es os
      → Lists (e ∷ es) os

abbrev insert_all : Options → Options → Options
insert_all options [] = options
insert_all options ((key, value) ∷ os) = insert_all (insert key value options) os

add_elem-Skipped :
    (options : Options) (e : Option DefElem) → Skipped e → add_elem options e ≡ options
unfolding add_elem
add_elem-Skipped options _ no_elem = refl
add_elem-Skipped options _ (no_name arg) = refl
add_elem-Skipped options _ (no_arg key) = refl
add_elem-Skipped options _ (no_string key) = refl
add_elem-Skipped options _ (no_value key) = refl

add_elems-Lists :
    {es : List (Option DefElem)} {os : Options} (options : Options)
    → Lists es os
    → add_elems options es ≡ insert_all options os
unfolding add_elems add_elem
add_elems-Lists options end = refl
add_elems-Lists options (keep (key, value) l) = add_elems-Lists (insert key value options) l
add_elems-Lists options (skip {es} e s l) =
    ap (λ o. add_elems o es) (add_elem-Skipped options e s) ∙ add_elems-Lists options l

inserted :
    (c : Config) (t : Option NatsTlsOptions) (url : Option Text)
    → insert_all [] (entries c t url) ≡ entries c t url
unfolding list_beq
inserted c none none = refl
inserted c none (some url) = refl
inserted c (some (tls ca)) none = refl
inserted c (some (tls ca)) (some url) = refl
inserted c (some (mutual_tls ca cert key)) none = refl
inserted c (some (mutual_tls ca cert key)) (some url) = refl

-- Where the options of the server, as Postgres lists them, have as their well-formed entries
-- those that spell out a configuration whose port and capacity are in range, whatever other
-- entries stand in between, and the name of the server has no NUL: fetch_config gives that
-- configuration.
pub fetch_config-Lists :
    {es : List (Option DefElem)} (c : Config) (server_name : Text)
    (get_server : Text → Option (Option (List (Option DefElem))))
    → InRange c
    → has_nul server_name ≡ false
    → get_server server_name ≡ some (some es)
    → Lists es (to_options c)
    → fetch_config (some server_name) get_server ≡ c
unfolding fetch_config
fetch_config-Lists {es} c server_name get_server v n g l =
    rw (n, fetch_config)
      (rw g (
        ap parse_config (add_elems-Lists [] l ∙ inserted c c.nats_opt.tls_options c.patroni_url)
        ∙ parse_config-to_options c v))
