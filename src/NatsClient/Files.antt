-- ===== src/NatsClient/Files.antt =====
-- When `get_file` of src/nats_client.rs panics: it allocates what the server says.
use pgnats.Common.{
  ◌≡◌, ◌<◌, ◌↔◌, refl, lt-or-ge, inl, inr, Option, none, some, done, panic, ok, err, le→leb, gt→leb,
}
use pgnats.Text.{Text}
use pgnats.NatsClient.{NatsClient, Step, andthen, get_or_create_object_store}
use pgnats.NatsClient.Interface.{Nats}
use pgnats.NatsClient.Operations.{isize_max, to_step, read_file, get_file}
use pgnats.NatsClient.Invariant.{Sound, Any, Yields}
use pgnats.NatsClient.Stores.{get_or_create_object_store-Yields}

module _ (N : Nats) where
  open N use {World, ObjectStore, Object}

  -- The object store is opened, and the server gives a size above `isize::MAX` for the object.
  abbrev pub GivesTooLarge : NatsClient N → World → Text → Text → Type 0
  GivesTooLarge c w store name =
      (s : ObjectStore) × (c' : NatsClient N) × (w' : World) × (get_or_create_object_store N c w
          store
        ≡ done (ok s, c', w'))
      × (file : Object) × ((N.get_object w' s name).0 ≡ some file)
      × (isize_max < N.object_size file)

  -- What panics after something that does not.
  andthen_panics :
      {A B : Type 0} (r : Step N A) (f : A → NatsClient N → World → Step N B)
      → Yields N (Any N) r
      → andthen N r f ≡ panic
      → (a : A) × (c : NatsClient N) × (w : World) × (r ≡ done (ok a, c, w)) × (f a c w ≡ panic)
  andthen_panics panic f y e = absurd cc
  andthen_panics (done (ok a, c, w)) f y e = (a, c, w, refl, e)
  andthen_panics (done (err u, c, w)) f y e = absurd cc

  to_step_returns :
      {A P : Type 0} (c : NatsClient N) (r : Option A × World) → to_step N c r ≡ panic → P
  to_step_returns c (none, w) e = absurd cc
  to_step_returns c (some a, w) e = absurd cc

  read_file_panics :
      (c : NatsClient N) (r : Option Object × World)
      → read_file N c r ≡ panic
      → (file : Object) × (r.0 ≡ some file) × (isize_max < N.object_size file)
  read_file_panics c (none, w) e = absurd cc
  read_file_panics c (some file, w) e = elim (lt-or-ge isize_max (N.object_size file)) [
    | inl h ↦ (file, refl, h)
    | inr h ↦
        to_step_returns c (N.read_to_end w file) (rw (le→leb (N.object_size file) isize_max h) at e)
  ]

  too_large_panics :
      (c : NatsClient N) (r : Option Object × World) (file : Object)
      → r.0 ≡ some file
      → isize_max < N.object_size file
      → read_file N c r ≡ panic
  too_large_panics c (none, w) file e h = absurd cc
  too_large_panics c (some f, w) file e h =
      let same : f ≡ file = cc in rw (same, gt→leb (N.object_size file) isize_max h) refl

  -- Where the state of a client fits together, get_file panics exactly if the object store is
  -- opened and the server gives a size above isize::MAX for the object.
  pub get_file_panics :
      (c : NatsClient N) (w : World) (store name : Text)
      → Sound N c
      → (get_file N c w store name ≡ panic) ↔ GivesTooLarge c w store name
  unfolding get_file
  get_file_panics c w store name s = (
    λ e.
        let (o, c', w', opened, p) =
          andthen_panics _ _ (get_or_create_object_store-Yields N c w store s) e in
        let (file, given, h) = read_file_panics c' (N.get_object w' o name) p in
        (o, c', w', opened, file, given, h),
    λ (o, c', w', opened, file, e, h).
        rw opened (too_large_panics c' (N.get_object w' o name) file e h),
  )
