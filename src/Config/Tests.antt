-- ===== src/Config/Tests.antt =====
-- The theorems on src/config.rs at a small configuration.
use pgnats.Common.Eq.{list_beq}
use pgnats.Config.Servers.{
  Command, create_server, execute, execute_all, enforce_single_pgnats_fdw_server,
  fetch_fdw_server_name, fetch_fdw_server_name_only,
}
use pgnats.Config.{fdw_extension_name}
use pgnats.Common.{List, [], ◌∷◌, none, refl, Option, ◌≡◌, some, none, [], ◌∷◌, arith}
use pgnats.Text.{text}
use pgnats.Config.{Config, mutual_tls, parse_config}
use pgnats.Text.Numbers.{print_uint}
use pgnats.Config.Fetch.{
  DefElem, other, entry, Lists, end, keep, skip, no_elem, no_string, fetch_config,
  fetch_config-Lists,
}
use pgnats.Config.Options.{to_options, parse_config-to_options}

abbrev secured : Config
secured = record {
  nats_opt = record {
    host = text "nats.example";
    port = 4223;
    capacity = 256;
    tls_options = some (mutual_tls (text "ca.pem") (text "cert.pem") (text "key.pem"));
  };
  notify_subject = text "status";
  patroni_url = none;
}

parse_config-to_options_example : parse_config (to_options secured) ≡ secured
parse_config-to_options_example =
    parse_config-to_options secured (record { port_in = omega arith; capacity_in = omega arith })

-- The options of the server, with entries in between that are skipped.
abbrev list_of_server : List (Option DefElem)
list_of_server =
    none
    ∷ entry (text "host", text "nats.example")
    ∷ entry (text "port", print_uint 4223)
    ∷ some (record { defname = some (text "port"); arg = some other })
    ∷ entry (text "capacity", print_uint 256)
    ∷ entry (text "notify_subject", text "status")
    ∷ entry (text "tls_ca_path", text "ca.pem")
    ∷ entry (text "tls_cert_path", text "cert.pem")
    ∷ entry (text "tls_key_path", text "key.pem")
    ∷ []

list_of_server-Lists : Lists list_of_server (to_options secured)
list_of_server-Lists =
    skip _ no_elem
      (keep _ (keep _ (skip _ (no_string _) (keep _ (keep _ (keep _ (keep _ (keep _ end))))))))

fetch_config-Lists_example :
    fetch_config (some (text "nats_server")) (λ name. some (some list_of_server)) ≡ secured
fetch_config-Lists_example =
    fetch_config-Lists secured (text "nats_server") (λ name. some (some list_of_server))
      (record { port_in = omega arith; capacity_in = omega arith }) refl refl list_of_server-Lists

-- The second server is refused, and one of another wrapper is not.
abbrev server_commands : List Command
server_commands =
    create_server (record { srvname = text "one"; fdwname = text "pgnats_fdw" })
    ∷ create_server (record { srvname = text "two"; fdwname = text "pgnats_fdw" })
    ∷ create_server (record { srvname = text "other"; fdwname = text "postgres_fdw" })
    ∷ []

fetch_fdw_server_name_only_example :
    fetch_fdw_server_name fdw_extension_name (some (execute_all server_commands []))
    ≡ some (text "one")
unfolding execute_all execute enforce_single_pgnats_fdw_server list_beq
fetch_fdw_server_name_only_example = fetch_fdw_server_name_only server_commands (text "one") refl
