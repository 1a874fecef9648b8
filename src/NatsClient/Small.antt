-- ===== src/NatsClient/Small.antt =====
-- A small server to try src/nats_client.rs on: a client is its options with its address, a store its
-- client, and the one JSON document is a Boolean. The state is the last value that was put.
use pgnats.Common.{
  ℕ, Bool, true, false, Option, none, some, List, [], ◌∷◌, ◌==◌, if◌then◌else◌, ◌≡◌,
}
use pgnats.Common.Eq.{nat_eq, list_eq, list_beq}
use pgnats.Common.Int.{pos}
use pgnats.Text.{Text, text}
use pgnats.Text.Utf8.{into_bytes}
use pgnats.Config.{parse_config}
use pgnats.Connect.Small.{SmallOptions, small_builder}
use pgnats.NatsClient.Interface.{Nats, ServerInfo, ObjectInfo}

pub some_injective : {A : Type 0} {a b : A} → some a ≡ some b → b ≡ a
some_injective e = cc

pub none_apart : {A : Type 0} {a : A} {P : Type 0} → none ≡ some a → P
none_apart e = absurd cc

abbrev spelled : Bool → Text
spelled true = text "true"
spelled false = text "false"

abbrev value_of : Text → Option Bool
value_of t =
    if list_beq ◌==◌ t (text "true")
    then some true
    else if list_beq ◌==◌ t (text "false")
    then some false
    else none

abbrev pub small_server_info : ServerInfo
small_server_info = record {
  server_id = text "id";
  server_name = text "name";
  host = text "localhost";
  port = 4222;
  version = text "2";
  auth_required = false;
  tls_required = false;
  max_payload = 1024;
  proto = pos 1;
  client_id = 7;
  go = text "go";
  nonce = [];
  connect_urls = [];
  client_ip = text "127.0.0.1";
  headers = true;
  lame_duck_mode = false;
}

abbrev pub small_object : ObjectInfo (List Text) (Unit {0}) ℕ
small_object = record {
  name = text "file";
  description = none;
  metadata = [];
  headers = none;
  options = some tt;
  bucket = text "files";
  nuid = text "n";
  size = 4096;
  chunks = 1;
  modified = some 0;
  digest = none;
  deleted = false;
}

abbrev pub Link : Type 0
Link = SmallOptions × Text

abbrev pub server : Nats
server = record {
  World = Option (List ℕ);
  Client = Link;
  Jetstream = Link;
  Store = Link;
  ObjectStore = Link;
  Object = ℕ;
  builder = small_builder;
  ObjectOptions = Unit {0};
  DateTime = ℕ;
  Value = Bool;
  HeaderMap = List Text;
  to_vec = λ v. some (into_bytes (spelled v));
  from_str = λ t. value_of t;
  urls_to_value = λ urls. some true;
  metadata_to_value = λ m. some false;
  headers_to_value = λ h. none;
  options_to_value = λ o. some true;
  date_to_string = λ d. [];
  as_object = λ v. none;
  as_str = λ v. none;
  no_headers = [];
  append = λ m k v. v ∷ m;
  config_fetcher = λ w. (parse_config [], w);
  current_dir = λ w. some (text "/var/lib/postgresql");
  connect = λ w o address. (some (o, address), w);
  jetstream_new = λ c. c;
  drain = λ w c. w;
  get_key_value = λ w js b. (none, w);
  create_key_value = λ w js b. (some js, w);
  get_object_store = λ w js b. (none, w);
  create_object_store = λ w js b. (some js, w);
  publish = λ w c s m. (true, w);
  publish_with_headers = λ w c s h m. (true, w);
  publish_with_reply = λ w c s r m. (true, w);
  publish_with_reply_and_headers = λ w c s r h m. (true, w);
  js_publish = λ w js s m. (true, w);
  js_publish_with_headers = λ w js s h m. (true, w);
  send_request = λ w c s t m. (some m, w);
  server_info = λ w c. small_server_info;
  put = λ w s k v. (some 1, some v);
  lookup = λ w s k. (some w, w);
  delete = λ w s k. (true, w);
  get_object = λ w s n. (some 4096, w);
  object_size = λ size. size;
  read_to_end = λ w size. (some [], w);
  put_object = λ w s n b. (true, w);
  delete_object = λ w s n. (true, w);
  info = λ w s n. (some small_object, w);
  list = λ w s. (some (some small_object ∷ []), w);
  connected_with = λ c. c;
  home = λ s. s;
  object_home = λ s. s;
  connect_with = λ w o address c e. some_injective e;
  get_home = λ w js b s e. none_apart e;
  create_home = λ w js b s e. some_injective e;
}
