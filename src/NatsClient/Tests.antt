-- ===== src/NatsClient/Tests.antt =====
-- The theorems on src/nats_client.rs with a small NATS.
use pgnats.Common.{
  ◌↔◌, panic, ◌^◌, ◌≡◌, refl, Bool, true, false, none, some, [], ◌∷◌, done, ok, ◌==◌, if◌then◌else◌,
}
use pgnats.Common.Eq.{nat_eq, list_eq, list_beq}
use pgnats.Text.{text}
use pgnats.Config.{Config, parse_config}
use pgnats.Connect.{address, with_tls, connect_options}
use pgnats.NatsClient.{
  NatsClient, new, get_jetstream, initialize_connection, invalidate_connection,
  get_or_create_object_store, check_and_invalidate_connection,
}
use pgnats.NatsClient.Small.{Link, server, some_injective}
use pgnats.NatsClient.Interface.{Nats}
use pgnats.NatsClient.Operations.{get_file}
use pgnats.NatsClient.Files.{GivesTooLarge, get_file_panics}
use pgnats.NatsClient.Invariant.{Sound, new-Sound}
use pgnats.NatsClient.Stores.{object_store_outlives}
use pgnats.NatsClient.Reload.{UpToDate, check_and_invalidate_connection-UpToDate}

abbrev before : Config
before = parse_config []

abbrev after : Config
after = parse_config ((text "port", text "4223") ∷ [])

-- The connection with the first configuration.
abbrev link : Link
link = (connect_options server.builder before.nats_opt none, address before.nats_opt)

abbrev client : NatsClient server
client = record {
  connection = some link;
  jetstream = some link;
  cached_buckets = (text "kv", link) ∷ [];
  cached_object_stores = (text "files", link) ∷ [];
  current_config = some before;
}

client-Sound : Sound server client
client-Sound = record {
  linked = refl;
  configured = λ conn e. (before, refl, (none, some_injective e));
  fresh = λ bucket s e. only (list_beq ◌==◌ (text "kv") bucket) s e;
}
  where
    only : (b : Bool) (s : Link) → (if b then some link else none) ≡ some s → some link ≡ some s
    only true s e = e
    only false s e = absurd cc

object_store_outlives_example :
    ((invalidate_connection server client none).0.connection ≡ none)
    × (get_or_create_object_store server
          (invalidate_connection server client none).0
          none
          (text "files")
        ≡ done (ok link, (invalidate_connection server client none).0, none))
unfolding list_beq
object_store_outlives_example =
    object_store_outlives server client none none (text "files") link refl

check_and_invalidate_connection-UpToDate_example :
    Sound server (check_and_invalidate_connection server client none after).0
    × UpToDate server (check_and_invalidate_connection server client none after).0 after.nats_opt
check_and_invalidate_connection-UpToDate_example =
    check_and_invalidate_connection-UpToDate server client none after client-Sound

-- A server that gives a size of 2^63 for every object.
abbrev boastful : Nats
boastful = record server { object_size = λ size. 2 ^ 63 }

get_file_panics_example :
    (get_file boastful (new boastful none) none (text "files") (text "file") ≡ panic)
    ↔ GivesTooLarge boastful (new boastful none) none (text "files") (text "file")
get_file_panics_example =
    get_file_panics boastful (new boastful none) none (text "files") (text "file")
      (new-Sound boastful none)

boastful_panics : get_file boastful (new boastful none) none (text "files") (text "file") ≡ panic
unfolding get_file new get_or_create_object_store get_jetstream initialize_connection list_beq
    with_tls
boastful_panics = refl
