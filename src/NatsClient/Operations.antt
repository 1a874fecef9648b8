-- ===== src/NatsClient/Operations.antt =====
-- The operations of src/nats_client.rs on subjects, buckets and object stores, and `extract_headers`
-- of src/utils.rs. The bytes of a message are what `to_bytes` makes of it, `none` for an error.
use pgnats.Common.{
  ℕ, Bool, true, false, Option, none, some, List, [], ◌∷◌, done, panic, ok, err, leb, if◌then◌else◌,
  ◌^◌, ◌-◌,
}
use pgnats.Text.{Text}
use pgnats.NatsClient.{
  NatsClient, Step, andthen, get_connection, get_jetstream, get_or_create_bucket,
  get_or_create_object_store,
}
use pgnats.NatsClient.Interface.{Nats, ServerInfo, ObjectInfo}

-- the greatest value of `isize`
abbrev pub isize_max : ℕ
isize_max = 2 ^ 63 - 1

module _ (N : Nats) where
  open N use {
    World, Client, Jetstream, Store, ObjectStore, Value, HeaderMap, ObjectOptions, DateTime,
  }

  abbrev pub Object : Type 0
  Object = ObjectInfo HeaderMap ObjectOptions DateTime

  abbrev add_header : HeaderMap → Text → Option Text → HeaderMap
  add_header map k none = map
  add_header map k (some v) = N.append map k v

  unfoldable pub add_headers : HeaderMap → List (Text × Value) → HeaderMap
  add_headers map [] = map
  add_headers map ((k, v) ∷ obj) = add_headers (add_header map k (N.as_str v)) obj

  -- Members that are no strings are left out, and a value that is no object has no headers.
  unfoldable pub extract_headers : Value → HeaderMap
  unfolding add_headers
  extract_headers v = elim (N.as_object v) [
    | none ↦ N.no_headers
    | some obj ↦ add_headers N.no_headers obj
  ]

  abbrev pub to_step : {A : Type 0} → NatsClient N → Option A × World → Step N A
  to_step c (none, w) = done (err tt, c, w)
  to_step c (some a, w) = done (ok a, c, w)

  abbrev pub done_step : NatsClient N → Bool × World → Step N (Unit {0})
  done_step c (true, w) = done (ok tt, c, w)
  done_step c (false, w) = done (err tt, c, w)

  -- `to_bytes()?`
  abbrev pub with_bytes :
      {A : Type 0} → Option (List ℕ) → NatsClient N → World → (List ℕ → Step N A) → Step N A
  with_bytes none c w f = done (err tt, c, w)
  with_bytes (some bytes) c w f = f bytes

  abbrev publish_on : World → Client → Text → List ℕ → Option Text → Option HeaderMap → Bool × World
  publish_on w conn subject message (some reply) (some headers) =
      N.publish_with_reply_and_headers w conn subject reply headers message
  publish_on w conn subject message (some reply) none =
      N.publish_with_reply w conn subject reply message
  publish_on w conn subject message none (some headers) =
      N.publish_with_headers w conn subject headers message
  publish_on w conn subject message none none = N.publish w conn subject message

  abbrev headers_of : Option Value → Option HeaderMap
  headers_of none = none
  headers_of (some v) = some (extract_headers v)

  unfoldable pub publish :
      NatsClient N → World → Text → Option (List ℕ) → Option Text → Option Value → Step N (Unit {0})
  unfolding extract_headers
  publish c w subject message reply headers = with_bytes message c w (λ bytes.
      andthen N (get_connection N c w)
        (λ conn c' w'. done_step c' (publish_on w' conn subject bytes reply (headers_of headers))))

  unfoldable pub request :
      NatsClient N → World → Text → Option (List ℕ) → Option ℕ → Step N (List ℕ)
  request c w subject message timeout = with_bytes message c w (λ bytes.
      andthen N (get_connection N c w)
        (λ conn c' w'. to_step c' (N.send_request w' conn subject timeout bytes)))

  abbrev publish_js : World → Jetstream → Text → List ℕ → Option HeaderMap → Bool × World
  publish_js w js subject message (some headers) =
      N.js_publish_with_headers w js subject headers message
  publish_js w js subject message none = N.js_publish w js subject message

  unfoldable pub publish_stream :
      NatsClient N → World → Text → Option (List ℕ) → Option Value → Step N (Unit {0})
  unfolding extract_headers
  publish_stream c w subject message headers = with_bytes message c w (λ bytes.
      andthen N (get_jetstream N c w)
        (λ js c' w'. done_step c' (publish_js w' js subject bytes (headers_of headers))))

  -- The bucket is opened before the data is converted.
  unfoldable pub put_value : NatsClient N → World → Text → Text → Option (List ℕ) → Step N ℕ
  put_value c w bucket key value =
      andthen N (get_or_create_bucket N c w bucket)
        (λ store c' w'. with_bytes value c' w' (λ bytes. to_step c' (N.put w' store key bytes)))

  -- `from_bytes` of the value, if there is one
  abbrev pub read_value :
      {T : Type 0}
      → (List ℕ → Option T)
      → NatsClient N
      → Option (Option (List ℕ)) × World
      → Step N (Option T)
  read_value from_bytes c (none, w) = done (err tt, c, w)
  read_value from_bytes c (some none, w) = done (ok none, c, w)
  read_value from_bytes c (some (some d), w) = elim (from_bytes d) [
    | none ↦ done (err tt, c, w)
    | some v ↦ done (ok (some v), c, w)
  ]

  unfoldable pub get_value :
      {T : Type 0} → (List ℕ → Option T) → NatsClient N → World → Text → Text → Step N (Option T)
  get_value from_bytes c w bucket key =
      andthen N (get_or_create_bucket N c w bucket)
        (λ store c' w'. read_value from_bytes c' (N.lookup w' store key))

  unfoldable pub delete_value : NatsClient N → World → Text → Text → Step N (Unit {0})
  delete_value c w bucket key =
      andthen N (get_or_create_bucket N c w bucket)
        (λ store c' w'. done_step c' (N.delete w' store key))

  unfoldable pub get_server_info : NatsClient N → World → Step N ServerInfo
  get_server_info c w =
      andthen N (get_connection N c w) (λ conn c' w'. done (ok (N.server_info w' conn), c', w'))

  -- `Vec::with_capacity`, which panics on a capacity above `isize::MAX`
  abbrev pub with_capacity : {A : Type 0} → ℕ → Step N A → Step N A
  with_capacity size rest = if leb size isize_max then rest else panic

  -- The size is the one that the server gives.
  abbrev pub read_file : NatsClient N → Option N.Object × World → Step N (List ℕ)
  read_file c (none, w) = done (err tt, c, w)
  read_file c (some file, w) = with_capacity (N.object_size file) (to_step c (N.read_to_end w file))

  unfoldable pub get_file : NatsClient N → World → Text → Text → Step N (List ℕ)
  get_file c w store name =
      andthen N (get_or_create_object_store N c w store)
        (λ s c' w'. read_file c' (N.get_object w' s name))

  unfoldable pub put_file : NatsClient N → World → Text → Text → List ℕ → Step N (Unit {0})
  put_file c w store name content =
      andthen N (get_or_create_object_store N c w store)
        (λ s c' w'. done_step c' (N.put_object w' s name content))

  unfoldable pub delete_file : NatsClient N → World → Text → Text → Step N (Unit {0})
  delete_file c w store name =
      andthen N (get_or_create_object_store N c w store)
        (λ s c' w'. done_step c' (N.delete_object w' s name))

  unfoldable pub get_file_info : NatsClient N → World → Text → Text → Step N Object
  get_file_info c w store name =
      andthen N (get_or_create_object_store N c w store) (λ s c' w'. to_step c' (N.info w' s name))

  -- `vec.push(object?)` for the items of the listing
  unfoldable pub collect : List (Option Object) → Option (List Object)
  collect [] = some []
  collect (none ∷ items) = none
  collect (some object ∷ items) = elim (collect items) [
    | none ↦ none
    | some objects ↦ some (object ∷ objects)
  ]

  abbrev pub listed : NatsClient N → Option (List (Option Object)) × World → Step N (List Object)
  listed c (none, w) = done (err tt, c, w)
  listed c (some items, w) = to_step c (collect items, w)

  unfoldable pub get_file_list : NatsClient N → World → Text → Step N (List Object)
  unfolding collect
  get_file_list c w store =
      andthen N (get_or_create_object_store N c w store) (λ s c' w'. listed c' (N.list w' s))
