-- ===== src/NatsClient/Safety.antt =====
-- The panics of src/nats_client.rs, and the state that its operations leave.
use pgnats.Common.{
  ◌≤◌, ◌≡◌, refl, le→leb, ℕ, Bool, true, false, Option, none, some, List, done, ok, err,
}
use pgnats.Text.{Text}
use pgnats.NatsClient.{
  andthen, NatsClient, Step, get_connection, get_jetstream, get_or_create_bucket,
  get_or_create_object_store,
}
use pgnats.NatsClient.Interface.{Nats}
use pgnats.NatsClient.Operations.{
  Object, isize_max, read_file, to_step, done_step, with_bytes, read_value, listed, collect,
  publish, publish_stream, request, put_value, get_value, delete_value, get_server_info, get_file,
  put_file, delete_file, get_file_info, get_file_list,
}
use pgnats.NatsClient.Invariant.{
  Sound, Any, Yields, Yields-andthen, Current, CurrentContext, OfContext, get_connection-Yields,
  get_jetstream-Yields,
}
use pgnats.NatsClient.Stores.{get_or_create_bucket-Yields, get_or_create_object_store-Yields}

module _ (N : Nats) where
  open N use {World, Client, Jetstream, Store, ObjectStore, Value}

  -- No panic, whatever is returned.
  abbrev pub Safe : {A : Type 0} → Step N A → Type 0
  Safe r = Yields N (Any N) r

  to_step-Safe :
      {A : Type 0} (c : NatsClient N) (r : Option A × World) → Sound N c → Safe (to_step N c r)
  to_step-Safe c (none, w) s = s
  to_step-Safe c (some a, w) s = (s, tt)

  done_step-Safe : (c : NatsClient N) (r : Bool × World) → Sound N c → Safe (done_step N c r)
  done_step-Safe c (true, w) s = (s, tt)
  done_step-Safe c (false, w) s = s

  with_bytes-Safe :
      {A : Type 0} (r : Option (List ℕ)) (c : NatsClient N) (w : World) (f : List ℕ → Step N A)
      → Sound N c
      → ((bytes : List ℕ) → Safe (f bytes))
      → Safe (with_bytes N r c w f)
  with_bytes-Safe none c w f s h = s
  with_bytes-Safe (some bytes) c w f s h = h bytes

  read_value-Safe :
      {T : Type 0} (from_bytes : List ℕ → Option T) (c : NatsClient N)
      (r : Option (Option (List ℕ)) × World)
      → Sound N c
      → Safe (read_value N from_bytes c r)
  read_value-Safe from_bytes c (none, w) s = s
  read_value-Safe from_bytes c (some none, w) s = (s, tt)
  read_value-Safe {T = T} from_bytes c (some (some d), w) s = read (from_bytes d)
    where
      read :
          (r : Option T)
          → Safe (elim r [ none ↦ done (err tt, c, w) | some v ↦ done (ok (some v), c, w) ])
      read none = s
      read (some v) = (s, tt)

  listed-Safe :
      (c : NatsClient N) (r : Option (List (Option (Object N))) × World)
      → Sound N c
      → Safe (listed N c r)
  listed-Safe c (none, w) s = s
  listed-Safe c (some items, w) s = to_step-Safe c (collect N items, w) s

  read_file-Safe :
      (c : NatsClient N) (r : Option N.Object × World)
      → Sound N c
      → ((file : N.Object) → r.0 ≡ some file → N.object_size file ≤ isize_max)
      → Safe (read_file N c r)
  read_file-Safe c (none, w) s h = s
  read_file-Safe c (some file, w) s h =
      rw (le→leb (N.object_size file) isize_max (h file refl))
        (to_step-Safe c (N.read_to_end w file) s)

  -- The server gives no object a size above `isize::MAX`.
  abbrev pub Allocatable : Type 0
  Allocatable =
      (w : World) (store : ObjectStore) (name : Text) (file : N.Object)
      → (N.get_object w store name).0 ≡ some file
      → N.object_size file ≤ isize_max

  module _ (c : NatsClient N) (w : World) (s : Sound N c) where
    over_connection :
        {A : Type 0} (f : Client → NatsClient N → World → Step N A)
        → ((conn : Client) (c' : NatsClient N) (w' : World) → Sound N c' → Safe (f conn c' w'))
        → Safe (andthen N (get_connection N c w) f)
    over_connection f h =
        Yields-andthen N (Current N) (Any N) _ f (get_connection-Yields N c w s)
          (λ conn c' w' s' q. h conn c' w' s')

    over_jetstream :
        {A : Type 0} (f : Jetstream → NatsClient N → World → Step N A)
        → ((js : Jetstream) (c' : NatsClient N) (w' : World) → Sound N c' → Safe (f js c' w'))
        → Safe (andthen N (get_jetstream N c w) f)
    over_jetstream f h =
        Yields-andthen N (CurrentContext N) (Any N) _ f (get_jetstream-Yields N c w s)
          (λ js c' w' s' q. h js c' w' s')

    over_bucket :
        {A : Type 0} (bucket : Text) (f : Store → NatsClient N → World → Step N A)
        → ((store : Store) (c' : NatsClient N) (w' : World) → Sound N c' → Safe (f store c' w'))
        → Safe (andthen N (get_or_create_bucket N c w bucket) f)
    over_bucket bucket f h =
        Yields-andthen N (OfContext N) (Any N) _ f (get_or_create_bucket-Yields N c w bucket s)
          (λ store c' w' s' q. h store c' w' s')

    over_object_store :
        {A : Type 0} (bucket : Text) (f : ObjectStore → NatsClient N → World → Step N A)
        → ((store : ObjectStore) (c' : NatsClient N) (w' : World)
            → Sound N c'
            → Safe (f store c' w'))
        → Safe (andthen N (get_or_create_object_store N c w bucket) f)
    over_object_store bucket f h =
        Yields-andthen N (Any N) (Any N) _ f (get_or_create_object_store-Yields N c w bucket s)
          (λ store c' w' s' q. h store c' w' s')

    pub publish-Safe :
        (subject : Text) (message : Option (List ℕ)) (reply : Option Text) (headers : Option Value)
        → Safe (publish N c w subject message reply headers)
    unfolding publish
    publish-Safe subject message reply headers =
        with_bytes-Safe message c w _ s
          (λ bytes. over_connection _ (λ conn c' w' s'. done_step-Safe c' _ s'))

    pub publish_stream-Safe :
        (subject : Text) (message : Option (List ℕ)) (headers : Option Value)
        → Safe (publish_stream N c w subject message headers)
    unfolding publish_stream
    publish_stream-Safe subject message headers =
        with_bytes-Safe message c w _ s
          (λ bytes. over_jetstream _ (λ js c' w' s'. done_step-Safe c' _ s'))

    pub request-Safe :
        (subject : Text) (message : Option (List ℕ)) (timeout : Option ℕ)
        → Safe (request N c w subject message timeout)
    unfolding request
    request-Safe subject message timeout =
        with_bytes-Safe message c w _ s
          (λ bytes. over_connection _ (λ conn c' w' s'. to_step-Safe c' _ s'))

    pub put_value-Safe :
        (bucket key : Text) (value : Option (List ℕ)) → Safe (put_value N c w bucket key value)
    unfolding put_value
    put_value-Safe bucket key value =
        over_bucket bucket _
          (λ store c' w' s'. with_bytes-Safe value c' w' _ s' (λ bytes. to_step-Safe c' _ s'))

    pub get_value-Safe :
        {T : Type 0} (from_bytes : List ℕ → Option T) (bucket key : Text)
        → Safe (get_value N from_bytes c w bucket key)
    unfolding get_value
    get_value-Safe from_bytes bucket key =
        over_bucket bucket _ (λ store c' w' s'. read_value-Safe from_bytes c' _ s')

    pub delete_value-Safe : (bucket key : Text) → Safe (delete_value N c w bucket key)
    unfolding delete_value
    delete_value-Safe bucket key = over_bucket bucket _ (λ store c' w' s'. done_step-Safe c' _ s')

    pub get_server_info-Safe : Safe (get_server_info N c w)
    unfolding get_server_info
    get_server_info-Safe = over_connection _ (λ conn c' w' s'. (s', tt))

    pub get_file-Safe : (store name : Text) → Allocatable → Safe (get_file N c w store name)
    unfolding get_file
    get_file-Safe store name h =
        over_object_store store _ (λ o c' w' s'. read_file-Safe c' _ s' (h w' o name))

    pub put_file-Safe :
        (store name : Text) (content : List ℕ) → Safe (put_file N c w store name content)
    unfolding put_file
    put_file-Safe store name content =
        over_object_store store _ (λ o c' w' s'. done_step-Safe c' _ s')

    pub delete_file-Safe : (store name : Text) → Safe (delete_file N c w store name)
    unfolding delete_file
    delete_file-Safe store name = over_object_store store _ (λ o c' w' s'. done_step-Safe c' _ s')

    pub get_file_info-Safe : (store name : Text) → Safe (get_file_info N c w store name)
    unfolding get_file_info
    get_file_info-Safe store name = over_object_store store _ (λ o c' w' s'. to_step-Safe c' _ s')

    pub get_file_list-Safe : (store : Text) → Safe (get_file_list N c w store)
    unfolding get_file_list
    get_file_list-Safe store =
        over_object_store store _ (λ o c' w' s'. listed-Safe c' (N.list w' o) s')
