-- ===== src/Api/Validator.antt =====
-- `fdw_validator` of src/bgw/fdw.rs: the options of a new or changed server go to the launcher as a
-- configuration. An option is a text `key=value`.
use pgnats.Common.{
  ℕ, ◌≡◌, refl, ap, ◌∙◌, Bool, true, false, Option, none, some, List, [], ◌∷◌, ◌++◌, Outcome, done,
  Result, ok, map,
}
use pgnats.Common.Assoc.{insert}
use pgnats.Common.Eq.{nat_eq, list_eq, list_beq}
use pgnats.Text.{Text}
use pgnats.Text.Split.{split_once}
use pgnats.Config.{Config, NatsTlsOptions, tls, mutual_tls, Options, parse_config}
use pgnats.Config.Options.{InRange, entries, to_options, parse_config-to_options}
use pgnats.Messages.{LauncherMessage}
use pgnats.RingQueue.{RingQueue}
use pgnats.Launcher.Bus.{send_message_to_launcher_with_retry}

abbrev add_option : Options → Option (Text × Text) → Options
add_option options none = options
add_option options (some (key, value)) = insert key value options

-- Texts without `=` are left out; a later option replaces an earlier one.
unfoldable pub collect_options : Options → List Text → Options
collect_options options [] = options
collect_options options (opt ∷ opts) =
    collect_options (add_option options (split_once b'=' opt)) opts

-- an option as Postgres passes it on
abbrev pub spell : Text × Text → Text
spell (key, value) = key ++ b'=' ∷ value

module _ (encode : LauncherMessage → Option (List ℕ)) (cap : ℕ) (others : ℕ → RingQueue → RingQueue)
    (my_database_id : ℕ) where
  -- `is_server` says whether the OID is `ForeignServerRelationId`. A failure becomes a Postgres error.
  unfoldable pub fdw_validator :
      List Text
      → (is_server : Bool) → RingQueue
      → Outcome (Result (Unit {0}) (Unit {0}) × RingQueue)
  unfolding collect_options
  fdw_validator options true q = send_message_to_launcher_with_retry cap others 5 q (
      encode
        (LauncherMessage.new_config my_database_id (parse_config (collect_options [] options))))
  fdw_validator options false q = done (ok tt, q)

  collected :
      (c : Config) (t : Option NatsTlsOptions) (url : Option Text)
      → collect_options [] (map spell (entries c t url)) ≡ entries c t url
  unfolding collect_options split_once list_beq
  collected c none none = refl
  collected c none (some url) = refl
  collected c (some (tls ca)) none = refl
  collected c (some (tls ca)) (some url) = refl
  collected c (some (mutual_tls ca cert key)) none = refl
  collected c (some (mutual_tls ca cert key)) (some url) = refl

  -- Given the options of a server that spell out a configuration whose port and capacity are in
  -- range, fdw_validator does what send_message_to_launcher_with_retry does in five tries for the
  -- message with that configuration.
  pub fdw_validator-spell :
      (c : Config) (q : RingQueue)
      → InRange c
      → fdw_validator (map spell (to_options c)) true q
        ≡ send_message_to_launcher_with_retry cap others 5 q
            (encode (LauncherMessage.new_config my_database_id c))
  unfolding fdw_validator
  fdw_validator-spell c q v =
      ap
        (λ config.
          send_message_to_launcher_with_retry cap others 5 q
            (encode (LauncherMessage.new_config my_database_id config)))
        (ap parse_config (collected c c.nats_opt.tls_options c.patroni_url)
          ∙ parse_config-to_options c v)
