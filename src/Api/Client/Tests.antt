-- ===== src/Api/Client/Tests.antt =====
-- The SQL functions over the client, with the small server.
use pgnats.Common.{
  ℕ, ◌≤◌, ◌≡◌, ◌↔◌, refl, true, none, some, List, [], ◌∷◌, map, done, panic, ok, inl, ◌^◌, ◌-◌,
  arith,
}
use pgnats.Common.Int.{pos, negsuc}
use pgnats.Text.{text}
use pgnats.Common.Eq.{list_beq}
use pgnats.Utils.Bytes.{Payload, Kind, IsPlain, to_bytes, from_bytes, kind_of}
use pgnats.Utils.Bytes.Exact.{IsRead, from_bytes_iff}
use pgnats.Text.Utf8.{into_bytes}
use pgnats.NatsClient.Small.{server, small_object}
use pgnats.NatsClient.{NatsClient, new, get_or_create_bucket, get_jetstream, initialize_connection}
use pgnats.NatsClient.Operations.{isize_max, put_value}
use pgnats.NatsClient.Safety.{Allocatable}
use pgnats.Api.Rows.{
  map_object_info, summary, description_of, convertible, map_object_info-convertible,
}
use pgnats.Api.Client.{create_context, nats_put, nats_get, saturated, timeout_of}
use pgnats.Api.Client.Calls.{Call, session}
use pgnats.Api.Client.Sessions.{EndsSound, session_never_panics}
use pgnats.Api.Client.Buckets.{nats_get-nats_put}

abbrev hello : Payload server
hello = Payload.json true

abbrev some_calls : List (Call server)
some_calls =
    Call.publish (text "events") hello none none
    ∷ Call.put (text "kv") (text "k") hello
    ∷ Call.reload_conf_force
    ∷ Call.get_file (text "files") (text "file")
    ∷ Call.get_file_list (text "files")
    ∷ []

-- Every object has a size of 4096.
server-Allocatable : Allocatable server
server-Allocatable w store name file e = small file e
  where
    small : (size : ℕ) → some 4096 ≡ some size → size ≤ isize_max
    small size e = let same : size ≡ 4096 = cc in omega arith

session_never_panics_example :
    EndsSound server (session server some_calls (create_context server) none)
session_never_panics_example = session_never_panics server some_calls none server-Allocatable

abbrev after_put : NatsClient server × server.World
after_put = elim (nats_put server (create_context server) none (text "kv") (text "k") hello) [
  | panic ↦ (create_context server, none)
  | done (r, c, w) ↦ (c, w)
]

hello-IsPlain : IsPlain server hello
unfolding list_beq
hello-IsPlain = (
  text "true",
  (inl (omega arith), (inl (omega arith), (inl (omega arith), (inl (omega arith), tt)))),
  refl,
  refl,
)

put_succeeds :
    nats_put server (create_context server) none (text "kv") (text "k") hello
    ≡ done (ok (pos 1), after_put.0, after_put.1)
unfolding nats_put create_context new put_value to_bytes get_or_create_bucket get_jetstream
    initialize_connection list_beq saturated
put_succeeds = refl

nats_get-nats_put_example :
    (w : server.World) × (nats_get server
        (kind_of server hello)
        after_put.0
        after_put.1
        (text "kv")
        (text "k")
      ≡ done (ok (some hello), after_put.0, w))
nats_get-nats_put_example =
    nats_get-nats_put server (create_context server) none (text "kv") (text "k") hello (pos 1)
      after_put.0 after_put.1 (λ w store key bytes revision e. refl) hello-IsPlain put_succeeds

map_object_info-convertible_example :
    map (summary server) (map_object_info server (small_object ∷ []))
    ≡ map (description_of server) (convertible server (small_object ∷ []))
map_object_info-convertible_example =
    map_object_info-convertible server (small_object ∷ []) (omega arith, omega arith, tt)

saturated_example : saturated (2 ^ 64 - 1) ≡ pos (2 ^ 63 - 1)
unfolding saturated
saturated_example = refl

timeout_of_example : timeout_of (some (negsuc 0)) ≡ none
unfolding timeout_of
timeout_of_example = refl

from_bytes_iff_example :
    (from_bytes server Kind.json (into_bytes (text "true")) ≡ some hello)
    ↔ ((kind_of server hello ≡ Kind.json) × IsRead server (into_bytes (text "true")) hello)
from_bytes_iff_example = from_bytes_iff server Kind.json (into_bytes (text "true")) hello
