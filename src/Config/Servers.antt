-- ===== src/Config/Servers.antt =====
-- The foreign servers of `pgnats_fdw`: the trigger `enforce_single_pgnats_fdw_server` of src/bgw/fdw.rs,
-- and `fetch_fdw_server_name` of src/config.rs.
use pgnats.Common.{
  ℕ, ◌≤◌, ◌≡◌, inl, inr, Bool, true, false, not, Option, none, some, List, [], ◌∷◌, ltb,
  if◌then◌else◌, arith, length, Bool-cases,
}
use pgnats.Common.Sets.{contains}
use pgnats.Common.Eq.{nat_eq, list_eq}
use pgnats.Text.{Text, text}
use pgnats.Config.{text_eq, fdw_extension_name}

-- A row of `pg_foreign_server` with the name of its wrapper.
pub record ForeignServer : Type 0 where
  pub srvname : Text
  pub fdwname : Text

abbrev pub is_of : Text → ForeignServer → Bool
is_of fdw_name srv = text_eq.beq srv.fdwname fdw_name

abbrev pub servers_of : Text → List ForeignServer → List ForeignServer
servers_of fdw_name [] = []
servers_of fdw_name (srv ∷ servers) =
    if is_of fdw_name srv then srv ∷ servers_of fdw_name servers else servers_of fdw_name servers

-- What the trigger says at the end of a command: `false` for the exception.
unfoldable pub enforce_single_pgnats_fdw_server : List ForeignServer → Bool
enforce_single_pgnats_fdw_server servers =
    not (ltb 1 (length (servers_of (text "pgnats_fdw") servers)))

-- The commands on foreign servers. `CREATE SERVER` is undone where the trigger raises its exception.
pub data Command : Type 0 where
  create_server : ForeignServer → Command
  drop_server : (srvname : Text) → Command

abbrev drop_named : Text → List ForeignServer → List ForeignServer
drop_named srvname [] = []
drop_named srvname (srv ∷ servers) =
    if text_eq.beq srv.srvname srvname
    then drop_named srvname servers
    else srv ∷ drop_named srvname servers

unfoldable pub execute : Command → List ForeignServer → List ForeignServer
unfolding enforce_single_pgnats_fdw_server
execute (create_server srv) servers =
    if enforce_single_pgnats_fdw_server (srv ∷ servers) then srv ∷ servers else servers
execute (drop_server srvname) servers = drop_named srvname servers

unfoldable pub execute_all : List Command → List ForeignServer → List ForeignServer
unfolding execute
execute_all [] servers = servers
execute_all (c ∷ commands) servers = execute_all commands (execute c servers)

abbrev first_name : List ForeignServer → Option Text
first_name [] = none
first_name (srv ∷ servers) = some srv.srvname

-- `rows` is the answer to the statement, `none` for an error.
unfoldable pub fetch_fdw_server_name : Text → Option (List ForeignServer) → Option Text
fetch_fdw_server_name fdw_name none = none
fetch_fdw_server_name fdw_name (some servers) = first_name (servers_of fdw_name servers)

-- At most one server of the wrapper.
abbrev AtMostOne : List ForeignServer → Type 0
AtMostOne servers = length (servers_of fdw_extension_name servers) ≤ 1

dropped_length :
    (fdw_name srvname : Text) (servers : List ForeignServer)
    → length (servers_of fdw_name (drop_named srvname servers))
      ≤ length (servers_of fdw_name servers)
dropped_length fdw_name srvname [] = omega arith
dropped_length fdw_name srvname (srv ∷ servers) =
    ground (arith, dropped_length fdw_name srvname servers)

at_most : (n : ℕ) → ltb 1 n ≡ false → n ≤ 1
at_most n h = ground arith

execute-AtMostOne :
    (c : Command) (servers : List ForeignServer) → AtMostOne servers → AtMostOne (execute c servers)
unfolding execute enforce_single_pgnats_fdw_server
execute-AtMostOne (create_server srv) servers h =
    elim (Bool-cases (ltb 1 (length (servers_of fdw_extension_name (srv ∷ servers))))) [
      | inl over ↦ rw over h
      | inr fits ↦ rw fits (at_most _ fits)
    ]
execute-AtMostOne (drop_server srvname) servers h =
    omega (arith, dropped_length fdw_extension_name srvname servers)

execute_all-AtMostOne :
    (commands : List Command) (servers : List ForeignServer)
    → AtMostOne servers
    → AtMostOne (execute_all commands servers)
unfolding execute_all
execute_all-AtMostOne [] servers h = h
execute_all-AtMostOne (c ∷ commands) servers h =
    execute_all-AtMostOne commands (execute c servers) (execute-AtMostOne c servers h)

abbrev pub names : List ForeignServer → List Text
names [] = []
names (srv ∷ servers) = srv.srvname ∷ names servers

only_name :
    (servers : List ForeignServer) (n : Text)
    → length servers ≤ 1
    → contains (names servers) n ≡ true
    → first_name servers ≡ some n
only_name [] n h k = absurd cc
only_name (srv ∷ []) n h k = ground (arith, text_eq.beq_iff srv.srvname n)
only_name (srv ∷ other ∷ servers) n h k = absurd (omega arith)

-- After any sequence of commands that create and drop foreign servers, one after the other from
-- none on, a server of the wrapper pgnats_fdw that is there is the one that fetch_fdw_server_name
-- finds.
pub fetch_fdw_server_name_only :
    (commands : List Command) (n : Text)
    → let servers = execute_all commands [] in
      contains (names (servers_of fdw_extension_name servers)) n ≡ true
      → fetch_fdw_server_name fdw_extension_name (some servers) ≡ some n
unfolding fetch_fdw_server_name
fetch_fdw_server_name_only commands n h =
    only_name (servers_of fdw_extension_name (execute_all commands [])) n
      (execute_all-AtMostOne commands [] (omega arith)) h
