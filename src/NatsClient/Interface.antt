-- ===== src/NatsClient/Interface.antt =====
-- What src/nats_client.rs uses of async-nats, serde_json and tokio, as an interface over the state
-- `World` of all that is outside of the client. A handle to a store works over the context that it
-- was asked from, and a client keeps the options and the address that it was connected with:
-- `home`, `object_home` and `connected_with` say which.
use pgnats.Common.{ℕ, ◌≡◌, Bool, Option, some, List}
use pgnats.Common.Int.{ℤ}
use pgnats.Text.{Text}
use pgnats.Config.{Config}
use pgnats.Connect.{Builder}

-- the fields of `async_nats::ServerInfo` that the code reads
pub record ServerInfo : Type 0 where
  pub server_id : Text
  pub server_name : Text
  pub host : Text
  pub port : ℕ
  pub version : Text
  pub auth_required : Bool
  pub tls_required : Bool
  pub max_payload : ℕ
  pub proto : ℤ
  pub client_id : ℕ
  pub go : Text
  pub nonce : Text
  pub connect_urls : List Text
  pub client_ip : Text
  pub headers : Bool
  pub lame_duck_mode : Bool

-- the fields of `object_store::ObjectInfo` that the code reads
pub record ObjectInfo (HeaderMap ObjectOptions DateTime : Type 0) : Type 0 where
  pub name : Text
  pub description : Option Text
  pub metadata : List (Text × Text)
  pub headers : Option HeaderMap
  pub options : Option ObjectOptions
  pub bucket : Text
  pub nuid : Text
  pub size : ℕ
  pub chunks : ℕ
  pub modified : Option DateTime
  pub digest : Option Text
  pub deleted : Bool

pub record Nats : Type 1 where
  pub World : Type 0
  pub Client : Type 0
  pub Jetstream : Type 0
  pub Store : Type 0
  pub ObjectStore : Type 0
  -- `object_store::Object`, from which an object is read
  pub Object : Type 0
  pub builder : Builder
  pub ObjectOptions : Type 0
  pub DateTime : Type 0
  -- `serde_json::Value` and `HeaderMap`
  pub Value : Type 0
  pub HeaderMap : Type 0
  -- `serde_json::to_vec` and `from_str`, and `to_value` for each type that the code converts
  pub to_vec : Value → Option (List ℕ)
  pub from_str : Text → Option Value
  pub urls_to_value : List Text → Option Value
  pub metadata_to_value : List (Text × Text) → Option Value
  pub headers_to_value : HeaderMap → Option Value
  pub options_to_value : ObjectOptions → Option Value
  pub date_to_string : DateTime → Text
  pub as_object : Value → Option (List (Text × Value))
  pub as_str : Value → Option Text
  pub no_headers : HeaderMap
  pub append : HeaderMap → Text → Text → HeaderMap
  -- `fetch_config` in the database of the backend
  pub config_fetcher : World → Config × World
  -- `std::env::current_dir`
  pub current_dir : World → Option Text
  pub connect : World → builder.ConnectOptions → (address : Text) → Option Client × World
  -- `jetstream::new`, with the timeout that is set on it
  pub jetstream_new : Client → Jetstream
  pub drain : World → Client → World
  pub get_key_value : World → Jetstream → Text → Option Store × World
  pub create_key_value : World → Jetstream → Text → Option Store × World
  pub get_object_store : World → Jetstream → Text → Option ObjectStore × World
  pub create_object_store : World → Jetstream → Text → Option ObjectStore × World
  pub publish : World → Client → Text → List ℕ → Bool × World
  pub publish_with_headers : World → Client → Text → HeaderMap → List ℕ → Bool × World
  pub publish_with_reply : World → Client → Text → Text → List ℕ → Bool × World
  pub publish_with_reply_and_headers :
      World → Client → Text → Text → HeaderMap → List ℕ → Bool × World
  pub js_publish : World → Jetstream → Text → List ℕ → Bool × World
  pub js_publish_with_headers : World → Jetstream → Text → HeaderMap → List ℕ → Bool × World
  pub send_request : World → Client → Text → Option ℕ → List ℕ → Option (List ℕ) × World
  pub server_info : World → Client → ServerInfo
  pub put : World → Store → Text → List ℕ → Option ℕ × World
  -- an error, or the value of the key if it has one
  pub lookup : World → Store → Text → Option (Option (List ℕ)) × World
  pub delete : World → Store → Text → Bool × World
  -- `ObjectStore::get`, the size that the server gives for an object, and `read_to_end`
  pub get_object : World → ObjectStore → Text → Option Object × World
  pub object_size : Object → ℕ
  pub read_to_end : World → Object → Option (List ℕ) × World
  pub put_object : World → ObjectStore → Text → List ℕ → Bool × World
  pub delete_object : World → ObjectStore → Text → Bool × World
  pub info :
      World → ObjectStore → Text → Option (ObjectInfo HeaderMap ObjectOptions DateTime) × World
  -- the stream of a listing: an error at its start, or its items
  pub list :
      World
      → ObjectStore
      → Option (List (Option (ObjectInfo HeaderMap ObjectOptions DateTime))) × World
  pub connected_with : Client → builder.ConnectOptions × Text
  pub home : Store → Jetstream
  pub object_home : ObjectStore → Jetstream
  pub connect_with :
      (w : World) (o : builder.ConnectOptions) (address : Text) (c : Client)
      → (connect w o address).0 ≡ some c
      → connected_with c ≡ (o, address)
  pub get_home :
      (w : World) (js : Jetstream) (b : Text) (s : Store)
      → (get_key_value w js b).0 ≡ some s
      → home s ≡ js
  pub create_home :
      (w : World) (js : Jetstream) (b : Text) (s : Store)
      → (create_key_value w js b).0 ≡ some s
      → home s ≡ js
