-- ===== src/Api/Client/Buckets.antt =====
-- A value that is put in a bucket and got again: the SQL functions of src/api/nats.rs on buckets.
use pgnats.Common.{ℕ, ◌≡◌, refl, sym, ap, ◌∙◌, Option, none, some, List, done, panic, ok, err}
use pgnats.Common.Assoc.{get, contains_key, contains_key_of_present}
use pgnats.Common.Eq.{nat_eq, list_eq}
use pgnats.Common.Int.{ℤ}
use pgnats.Text.{Text}
use pgnats.Utils.Bytes.{Payload, to_bytes, from_bytes, kind_of, IsPlain}
use pgnats.Utils.Bytes.Exact.{from_bytes-to_bytes}
use pgnats.NatsClient.{NatsClient, Step, andthen, expect, ensure_bucket, get_or_create_bucket}
use pgnats.NatsClient.Interface.{Nats}
use pgnats.NatsClient.Operations.{with_bytes, to_step, put_value, get_value, read_value}
use pgnats.Api.Client.{mapped, saturated, nats_put, nats_get}

module _ (N : Nats) where
  open N use {World, Store}

  -- Where the whole succeeds, both parts do.
  andthen-ok :
      {A B : Type 0} (r : Step N A) (f : A → NatsClient N → World → Step N B) (b : B)
      (c : NatsClient N) (w : World)
      → andthen N r f ≡ done (ok b, c, w)
      → (a : A) × (c' : NatsClient N) × (w' : World) × (r ≡ done (ok a, c', w'))
        × (f a c' w' ≡ done (ok b, c, w))
  andthen-ok panic f b c w e = absurd cc
  andthen-ok (done (err x, c', w')) f b c w e = absurd cc
  andthen-ok (done (ok a, c', w')) f b c w e = (a, c', w', refl, e)

  expect-ok :
      {A : Type 0} (r : Option A) (c : NatsClient N) (w : World) (a : A) (c' : NatsClient N)
      (w' : World)
      → expect N r c w ≡ done (ok a, c', w')
      → (r ≡ some a) × (c ≡ c') × (w ≡ w')
  expect-ok none c w a c' w' e = absurd cc
  expect-ok (some b) c w a c' w' e = (cc, cc, cc)

  with_bytes-ok :
      {A : Type 0} (r : Option (List ℕ)) (c : NatsClient N) (w : World) (f : List ℕ → Step N A)
      (a : A) (c' : NatsClient N) (w' : World)
      → with_bytes N r c w f ≡ done (ok a, c', w')
      → (bytes : List ℕ) × (r ≡ some bytes) × (f bytes ≡ done (ok a, c', w'))
  with_bytes-ok none c w f a c' w' e = absurd cc
  with_bytes-ok (some bytes) c w f a c' w' e = (bytes, refl, e)

  to_step-ok :
      {A : Type 0} (c : NatsClient N) (r : Option A × World) (a : A) (c' : NatsClient N)
      (w' : World)
      → to_step N c r ≡ done (ok a, c', w')
      → (r.0 ≡ some a) × (c ≡ c') × (r.1 ≡ w')
  to_step-ok c (none, w) a c' w' e = absurd cc
  to_step-ok c (some b, w) a c' w' e = (cc, cc, cc)

  mapped-ok :
      {A B : Type 0} (f : A → B) (r : Step N A) (b : B) (c : NatsClient N) (w : World)
      → mapped N f r ≡ done (ok b, c, w)
      → (a : A) × (r ≡ done (ok a, c, w)) × (f a ≡ b)
  mapped-ok f panic b c w e = absurd cc
  mapped-ok f (done (err x, c', w')) b c w e = absurd cc
  mapped-ok f (done (ok a, c', w')) b c w e = (a, cc, cc)

  -- A bucket that was returned is in the cache.
  cached_bucket :
      (c : NatsClient N) (w : World) (bucket : Text) (store : Store) (c' : NatsClient N)
      (w' : World)
      → get_or_create_bucket N c w bucket ≡ done (ok store, c', w')
      → get bucket c'.cached_buckets ≡ some store
  unfolding get_or_create_bucket
  cached_bucket c w bucket store c' w' e =
      let (u, d, v, h, k) =
        andthen-ok (ensure_bucket N bucket (contains_key bucket c.cached_buckets) c w)
          (λ _ x y. expect N (get bucket x.cached_buckets) x y) store c' w' e in
      let (g, same, _) = expect-ok (get bucket d.cached_buckets) d v store c' w' k in
      ap (λ (x : NatsClient N). get bucket x.cached_buckets) (sym same) ∙ g

  get_or_create_bucket_cached :
      (c : NatsClient N) (w : World) (bucket : Text) (store : Store)
      → get bucket c.cached_buckets ≡ some store
      → get_or_create_bucket N c w bucket ≡ done (ok store, c, w)
  unfolding get_or_create_bucket
  get_or_create_bucket_cached c w bucket store e =
      rw (contains_key_of_present bucket store c.cached_buckets e) (rw e refl)

  -- What the server stores under a key, it finds under that key.
  abbrev pub KeepsValues : Type 0
  KeepsValues =
      (w : World) (store : Store) (key : Text) (bytes : List ℕ) (revision : ℕ)
      → (N.put w store key bytes).0 ≡ some revision
      → (N.lookup (N.put w store key bytes).1 store key).0 ≡ some (some bytes)

  got :
      (p : Payload N) (bytes : List ℕ) (c : NatsClient N) (r : Option (Option (List ℕ)) × World)
      → from_bytes N (kind_of N p) bytes ≡ some p
      → r.0 ≡ some (some bytes)
      → read_value N (from_bytes N (kind_of N p)) c r ≡ done (ok (some p), c, r.1)
  got p bytes c (r, w) e h = rw (h, read_value) (rw e refl)

  get_cached :
      (c : NatsClient N) (w : World) (bucket key : Text) (p : Payload N) (store : Store)
      (bytes : List ℕ)
      → get bucket c.cached_buckets ≡ some store
      → (N.lookup w store key).0 ≡ some (some bytes)
      → from_bytes N (kind_of N p) bytes ≡ some p
      → nats_get N (kind_of N p) c w bucket key ≡ done (ok (some p), c, (N.lookup w store key).1)
  unfolding nats_get get_value
  get_cached c w bucket key p store bytes e h k =
      rw (get_or_create_bucket_cached c w bucket store e) (got p bytes c (N.lookup w store key) k h)

  abbrev put_by : NatsClient N → World → Store → Text → List ℕ → Step N ℕ
  put_by d x store key bytes = to_step N d (N.put x store key bytes)

  abbrev stored_by : Text → Payload N → Store → NatsClient N → World → Step N ℕ
  stored_by key p store d x = with_bytes N (to_bytes N p) d x (put_by d x store key)

  -- Where the server finds under a key what it stored there, a text consists of characters and
  -- JSON is read as it was written: after a nats_put that returned a revision, nats_get of the
  -- same type, bucket and key returns the payload and leaves the client as it was.
  pub nats_get-nats_put :
      (c : NatsClient N) (w : World) (bucket key : Text) (p : Payload N) (revision : ℤ)
      (c' : NatsClient N) (w' : World)
      → KeepsValues
      → IsPlain N p
      → nats_put N c w bucket key p ≡ done (ok revision, c', w')
      → (w'' : World) × (nats_get N (kind_of N p) c' w' bucket key ≡ done (ok (some p), c', w''))
  unfolding nats_put put_value
  nats_get-nats_put c w bucket key p revision c' w' keeps plain e =
      let (v, put, _) =
        mapped-ok saturated (put_value N c w bucket key (to_bytes N p)) revision c' w' e in
      let (store, d, x, opened, h) =
        andthen-ok (get_or_create_bucket N c w bucket) (stored_by key p) v c' w' put in
      let (bytes, b, k) = with_bytes-ok (to_bytes N p) d x (put_by d x store key) v c' w' h in
      let (stored, same, after) = to_step-ok d (N.put x store key bytes) v c' w' k in
      let (bytes', b', read) = from_bytes-to_bytes N p plain in
      let one : bytes ≡ bytes' = cc in
      (
        (N.lookup w' store key).1,
        get_cached c' w' bucket key p store bytes
            (ap (λ (y : NatsClient N). get bucket y.cached_buckets) (sym same)
              ∙ cached_bucket c w bucket store d x opened)
            (ap (λ (y : World). (N.lookup y store key).0) (sym after)
              ∙ keeps x store key bytes v stored)
            (ap (from_bytes N (kind_of N p)) one ∙ read),
      )
