-- ===== src/NatsClient/Stores.antt =====
-- The caches of src/nats_client.rs: a bucket belongs to the current connection, an object store may
-- belong to an earlier one.
use pgnats.Common.{◌≡◌, refl, Option, none, some, done, ok, inl, inr, Option-cases}
use pgnats.Common.Assoc.{
  get, contains_key, contains_key_of_present, contains_key_of_missing, get-insert_self,
}
use pgnats.Common.Eq.{nat_eq, list_eq}
use pgnats.Text.{Text}
use pgnats.NatsClient.{
  NatsClient, ensure_bucket, get_or_create_bucket, ensure_object_store, or_create,
  keep_object_store, get_or_create_object_store, invalidate_connection,
}
use pgnats.NatsClient.Interface.{Nats}
use pgnats.NatsClient.Invariant.{
  Sound, Any, Yields, Yields-andthen, OfContext, Kept, CurrentContext, expect-Yields,
  get_jetstream-Yields, open_bucket-Yields, keep_bucket-Yields,
}

module _ (N : Nats) where
  open N use {World, Store, ObjectStore}

  ensure_bucket-Yields :
      (c : NatsClient N) (w : World) (bucket : Text) (r : Option (Store))
      → get bucket c.cached_buckets ≡ r
      → Sound N c
      → Yields N (Kept N bucket) (ensure_bucket N bucket (contains_key bucket c.cached_buckets) c w)
  ensure_bucket-Yields c w bucket (some store) e s =
      rw (contains_key_of_present bucket store c.cached_buckets e) (s, (store, e))
  ensure_bucket-Yields c w bucket none e s =
      rw (contains_key_of_missing bucket c.cached_buckets e) (
        Yields-andthen N (OfContext N) (Kept N bucket) _ _
          (Yields-andthen N (CurrentContext N) (OfContext N) _ _ (get_jetstream-Yields N c w s)
            (λ js c' w' s' q. open_bucket-Yields N c' js bucket w' s' q))
          (λ store c' w' s' q. keep_bucket-Yields N bucket store c' w' s' q))

  -- Where the state of a client fits together, get_or_create_bucket does not panic, the state
  -- still fits together, and a bucket that it returns works over the current context.
  pub get_or_create_bucket-Yields :
      (c : NatsClient N) (w : World) (bucket : Text)
      → Sound N c
      → Yields N (OfContext N) (get_or_create_bucket N c w bucket)
  unfolding get_or_create_bucket
  get_or_create_bucket-Yields c w bucket s =
      Yields-andthen N (Kept N bucket) (OfContext N) _ _ (ensure_bucket-Yields c w bucket _ refl s)
        (λ _ c' w' s' q.
          expect-Yields N (OfContext N) (get bucket c'.cached_buckets) c' w' q.0 q.1 s'
            (s'.fresh bucket q.0 q.1))

  or_create-Yields :
      {S : Type 0} (c : NatsClient N) (r : Option S × World) (create : World → Option S × World)
      → Sound N c
      → Yields N (Any N) (or_create N c r create)
  or_create-Yields c (some store, w) create s = (s, tt)
  or_create-Yields c (none, w) create s = elim (Option-cases (create w).0) [
    | inl e ↦ rw (e, or_create) s
    | inr (store, e) ↦ rw (e, or_create) (s, tt)
  ]

  abbrev KeptObject : Text → Unit {0} → NatsClient N → Type 0
  KeptObject bucket u c = (store : ObjectStore) × (get bucket c.cached_object_stores ≡ some store)

  keep_object_store-Yields :
      (bucket : Text) (store : ObjectStore) (c : NatsClient N) (w : World)
      → Sound N c
      → Yields N (KeptObject bucket) (keep_object_store N bucket store c w)
  keep_object_store-Yields bucket store c w s = (
    record { linked = s.linked; configured = s.configured; fresh = s.fresh },
    (store, get-insert_self bucket store c.cached_object_stores),
  )

  ensure_object_store-Yields :
      (c : NatsClient N) (w : World) (bucket : Text) (r : Option ObjectStore)
      → get bucket c.cached_object_stores ≡ r
      → Sound N c
      → Yields N
          (KeptObject bucket)
          (ensure_object_store N bucket (contains_key bucket c.cached_object_stores) c w)
  ensure_object_store-Yields c w bucket (some store) e s =
      rw (contains_key_of_present bucket store c.cached_object_stores e) (s, (store, e))
  ensure_object_store-Yields c w bucket none e s =
      rw (contains_key_of_missing bucket c.cached_object_stores e) (
        Yields-andthen N (Any N) (KeptObject bucket) _ _
          (Yields-andthen N (CurrentContext N) (Any N) _ _ (get_jetstream-Yields N c w s)
            (λ js c' w' s' q.
              or_create-Yields c' (N.get_object_store w' js bucket)
                (λ v. N.create_object_store v js bucket) s'))
          (λ store c' w' s' q. keep_object_store-Yields bucket store c' w' s'))

  -- An object store is returned, or an error.
  pub get_or_create_object_store-Yields :
      (c : NatsClient N) (w : World) (bucket : Text)
      → Sound N c
      → Yields N (Any N) (get_or_create_object_store N c w bucket)
  unfolding get_or_create_object_store
  get_or_create_object_store-Yields c w bucket s =
      Yields-andthen N (KeptObject bucket) (Any N) _ _
        (ensure_object_store-Yields c w bucket _ refl s)
        (λ _ c' w' s' q.
          expect-Yields N (Any N) (get bucket c'.cached_object_stores) c' w' q.0 q.1 s' tt)

  cached_object_store :
      (c : NatsClient N) (w : World) (bucket : Text) (store : ObjectStore)
      → get bucket c.cached_object_stores ≡ some store
      → get_or_create_object_store N c w bucket ≡ done (ok store, c, w)
  unfolding get_or_create_object_store
  cached_object_store c w bucket store e =
      rw (contains_key_of_present bucket store c.cached_object_stores e) (rw e)

  -- After invalidate_connection the client has no connection, and get_or_create_object_store
  -- returns an object store that was cached before, without connecting.
  pub object_store_outlives :
      (c : NatsClient N) (w w' : World) (bucket : Text) (store : ObjectStore)
      → get bucket c.cached_object_stores ≡ some store
      → let c' = (invalidate_connection N c w).0 in
        (c'.connection ≡ none)
        × (get_or_create_object_store N c' w' bucket ≡ done (ok store, c', w'))
  unfolding invalidate_connection
  object_store_outlives c w w' bucket store e =
      (refl, cached_object_store (invalidate_connection N c w).0 w' bucket store e)
