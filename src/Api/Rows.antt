-- ===== src/Api/Rows.antt =====
-- src/api/conv.rs: what the client answers about the server and about files, as rows.
use pgnats.Common.{
  ◌^◌, ◌<◌, ◌≡◌, refl, ap, Bool, Option, none, some, List, [], ◌∷◌, map, Option-cases, inl, inr,
  lt→ltb,
}
use pgnats.Common.Int.{ℤ, pos, as_i64}
use pgnats.Text.{Text}
use pgnats.NatsClient.Interface.{Nats, ServerInfo}
use pgnats.NatsClient.Operations.{Object}

-- `filter_map`
abbrev pub filter_map : {A B : Type 0} → (A → Option B) → List A → List B
filter_map f [] = []
filter_map f (a ∷ rest) = elim (f a) [ none ↦ filter_map f rest | some b ↦ b ∷ filter_map f rest ]

module _ (N : Nats) where
  open N use {Value}

  pub record ServerRow : Type 0 where
    pub server_id : Text
    pub server_name : Text
    pub host : Text
    pub port : ℤ
    pub version : Text
    pub auth_required : Bool
    pub tls_requiered : Bool
    pub max_payload : ℤ
    pub proto : ℤ
    pub client_id : ℤ
    pub go : Text
    pub nonce : Text
    pub connect_urls : Value
    pub client_ip : Text
    pub headers : Bool
    pub lame_duck_mode : Bool

  abbrev pub server_row : ServerInfo → Value → ServerRow
  server_row v urls = record {
    server_id = v.server_id;
    server_name = v.server_name;
    host = v.host;
    port = pos v.port;
    version = v.version;
    auth_required = v.auth_required;
    tls_requiered = v.tls_required;
    max_payload = as_i64 v.max_payload;
    proto = v.proto;
    client_id = as_i64 v.client_id;
    go = v.go;
    nonce = v.nonce;
    connect_urls = urls;
    client_ip = v.client_ip;
    headers = v.headers;
    lame_duck_mode = v.lame_duck_mode;
  }

  abbrev pub to_server_row : ServerInfo → Option ServerRow
  to_server_row v = elim (N.urls_to_value v.connect_urls) [
    | none ↦ none
    | some urls ↦ some (server_row v urls)
  ]

  unfoldable pub map_server_info : List ServerInfo → List ServerRow
  map_server_info infos = filter_map to_server_row infos

  pub record ObjectRow : Type 0 where
    pub name : Text
    pub description : Option Text
    pub metadata : Value
    pub headers : Option Value
    pub options : Option Value
    pub bucket : Text
    pub nuid : Text
    pub size : ℤ
    pub chunks : ℤ
    pub modified : Option Text
    pub digest : Option Text
    pub delete : Bool

  abbrev and_then : {A B : Type 0} → (A → Option B) → Option A → Option B
  and_then f none = none
  and_then f (some a) = f a

  abbrev pub object_row : Object N → Value → ObjectRow
  object_row v metadata = record {
    name = v.name;
    description = v.description;
    metadata = metadata;
    headers = and_then N.headers_to_value v.headers;
    options = and_then N.options_to_value v.options;
    bucket = v.bucket;
    nuid = v.nuid;
    size = as_i64 v.size;
    chunks = as_i64 v.chunks;
    modified = and_then (λ d. some (N.date_to_string d)) v.modified;
    digest = v.digest;
    delete = v.deleted;
  }

  abbrev pub to_object_row : Object N → Option ObjectRow
  to_object_row v = elim (N.metadata_to_value v.metadata) [
    | none ↦ none
    | some metadata ↦ some (object_row v metadata)
  ]

  unfoldable pub map_object_info : List (Object N) → List ObjectRow
  map_object_info objects = filter_map to_object_row objects

  -- What a row tells of a file whose size fits.
  abbrev pub summary : ObjectRow → Text × Text × ℤ × ℤ × Bool
  summary r = (r.bucket, r.name, r.size, r.chunks, r.delete)

  abbrev pub description_of : Object N → Text × Text × ℤ × ℤ × Bool
  description_of v = (v.bucket, v.name, pos v.size, pos v.chunks, v.deleted)

  abbrev pub AreSmall : List (Object N) → Type 0
  AreSmall [] = Unit {0}
  AreSmall (v ∷ objects) = (v.size < 2 ^ 63) × (v.chunks < 2 ^ 63) × AreSmall objects

  -- The files whose metadata can be converted.
  abbrev pub convertible : List (Object N) → List (Object N)
  convertible [] = []
  convertible (v ∷ objects) = elim (N.metadata_to_value v.metadata) [
    | none ↦ convertible objects
    | some metadata ↦ v ∷ convertible objects
  ]

  -- For files with sizes and numbers of chunks below 2^63, map_object_info answers one row for
  -- each file whose metadata can be converted, in their order and with their buckets, names,
  -- sizes, chunks and deletions, and no row for the others.
  pub map_object_info-convertible :
      (objects : List (Object N))
      → AreSmall objects
      → map summary (map_object_info objects) ≡ map description_of (convertible objects)
  unfolding map_object_info
  map_object_info-convertible [] h = refl
  map_object_info-convertible (v ∷ objects) (h, k, hs) =
      elim (Option-cases (N.metadata_to_value v.metadata)) [
        | inl e ↦ rw (e, map) (map_object_info-convertible objects hs)
        | inr (metadata, e) ↦
            rw (e, map)
              (rw (lt→ltb v.size (2 ^ 63) h, lt→ltb v.chunks (2 ^ 63) k)
                (ap (λ rest. description_of v ∷ rest) (map_object_info-convertible objects hs)))
      ]
