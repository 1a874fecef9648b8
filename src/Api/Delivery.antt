-- ===== src/Api/Delivery.antt =====
-- A subscription that src/api/nats.rs reports as made reaches the handler of the launcher.
use pgnats.Common.{
  ℕ, ◌≡◌, refl, sym, ap, ◌∙◌, inl, inr, Bool, true, false, Option, none, some, List, [], ◌∷◌, ◌++◌,
  done, Result, ok, err, Option-cases,
}
use pgnats.Text.{Text}
use pgnats.Messages.{LauncherMessage}
use pgnats.RingQueue.{RingQueue}
use pgnats.RingQueue.Invariant.{Sized, Holds}
use pgnats.Launcher.Postgres.{Postgres}
use pgnats.Launcher.Bus.{State, handle_message, handle_decoded, send_message_to_launcher_with_retry}
use pgnats.Launcher.Drain.{handle_all}
use pgnats.Launcher.Retry.{Intact, Delivered, send_message_to_launcher_with_retry-Delivered}
use pgnats.Api.Functions.{FunctionInfo, resolve_bytea_name}
use pgnats.Api.Accepted.{TakesBytea, resolve_bytea_name-TakesBytea}
use pgnats.Api.Subscribe.{post, with_name, nats_subscribe}

module _ (P : Postgres) (entry_point : Text) (decode : List ℕ → Option LauncherMessage) where
  handle_all-append :
      (msgs : List (List ℕ)) (bytes : List ℕ) (m : LauncherMessage) (s : State P entry_point)
      → decode bytes ≡ some m
      → handle_all P entry_point decode (msgs ++ bytes ∷ []) s
        ≡ handle_message P entry_point m (handle_all P entry_point decode msgs s)
  unfolding handle_all handle_decoded
  handle_all-append [] bytes m s e = rw e
  handle_all-append (msg ∷ msgs) bytes m s e =
      handle_all-append msgs bytes m (handle_decoded P entry_point (decode msg) s) e

module _ (encode : LauncherMessage → Option (List ℕ)) (decode : List ℕ → Option LauncherMessage)
    (decode-encode : (m : LauncherMessage) (bytes : List ℕ)
      → encode m ≡ some bytes
      → decode bytes ≡ some m)
    {cap : ℕ} (sized : Sized cap) (others : ℕ → RingQueue → RingQueue)
    (keep : (n : ℕ) (q : RingQueue) → Intact cap q → Intact cap (others n q))
    (my_database_id : ℕ) where
  abbrev pub Posted : LauncherMessage → RingQueue → Type 0
  Posted m q =
      (msgs : List (List ℕ)) × (bytes : List ℕ) × (decode bytes ≡ some m)
      × Holds cap q (msgs ++ bytes ∷ [])

  bytes-Posted :
      (m : LauncherMessage) (q q' : RingQueue) (bytes : List ℕ)
      → encode m ≡ some bytes
      → send_message_to_launcher_with_retry cap others 5 q (some bytes) ≡ done (ok tt, q')
      → Delivered cap bytes (send_message_to_launcher_with_retry cap others 5 q (some bytes))
      → Posted m q'
  bytes-Posted m q q' bytes e r (inl (p, f, (msgs, v))) =
      let same : p ≡ q' = cc in (msgs, bytes, decode-encode m bytes e, rw⁻¹ same v)
  bytes-Posted m q q' bytes e r (inr (p, f, i)) = absurd cc

  post-Posted :
      (m : LauncherMessage) (q q' : RingQueue)
      → Intact cap q
      → post encode cap others my_database_id m q ≡ done (ok tt, q')
      → Posted m q'
  post-Posted m q q' i r = elim (Option-cases (encode m)) [
    | inl e ↦ absurd (unfold send_message_to_launcher_with_retry in cc)
    | inr (bytes, e) ↦
        bytes-Posted m q q' bytes e
          (ap (send_message_to_launcher_with_retry cap others 5 q) (sym e) ∙ r)
          (send_message_to_launcher_with_retry-Delivered sized others keep 5 q bytes i)
  ]

  named :
      (r : Result (Option Text) (Unit {0})) (subject : Text) (q q' : RingQueue)
      → Intact cap q
      → with_name encode cap others my_database_id r q (λ fn_name.
        post encode cap others my_database_id
          (LauncherMessage.subscribe my_database_id subject fn_name)
          q)
        ≡ done (ok tt, q')
      → (fn_name : Text) × (r ≡ ok (some fn_name))
        × Posted (LauncherMessage.subscribe my_database_id subject fn_name) q'
  named (err e) subject q q' i r = absurd cc
  named (ok none) subject q q' i r = absurd cc
  named (ok (some fn_name)) subject q q' i r = (
    fn_name,
    refl,
    post-Posted (LauncherMessage.subscribe my_database_id subject fn_name) q q' i r,
  )

  nats_subscribe-Posted :
      (in_recovery : Bool) (subject : Text) (f : FunctionInfo) (q q' : RingQueue)
      → Intact cap q
      → nats_subscribe encode cap others my_database_id in_recovery subject f q ≡ done (ok tt, q')
      → (in_recovery ≡ false)
        × (fn_name : Text) × (resolve_bytea_name f ≡ ok (some fn_name))
        × Posted (LauncherMessage.subscribe my_database_id subject fn_name) q'
  unfolding nats_subscribe
  nats_subscribe-Posted true subject f q q' i r = absurd cc
  nats_subscribe-Posted false subject f q q' i r =
      let (fn_name, e, p) = named (resolve_bytea_name f) subject q q' i r in (refl, fn_name, e, p)

  -- Where the decoder undoes the encoder, the bus holds some messages and others keep it so: if
  -- nats_subscribe succeeds, the instance is not in recovery, the function has a name and one
  -- argument, a bytea, and the last message on the bus is one that the launcher handles as the
  -- subscription of this database to this subject with the name, after the schema if there is
  -- one.
  pub nats_subscribe_reaches :
      (P : Postgres) (entry_point : Text) (s : State P entry_point) (in_recovery : Bool)
      (subject : Text) (f : FunctionInfo) (q q' : RingQueue)
      → Intact cap q
      → nats_subscribe encode cap others my_database_id in_recovery subject f q ≡ done (ok tt, q')
      → (in_recovery ≡ false)
        × (fn_name : Text) × TakesBytea f fn_name
        × (msgs : List (List ℕ)) × (bytes : List ℕ) × Holds cap q' (msgs ++ bytes ∷ [])
        × (handle_all P entry_point decode (msgs ++ bytes ∷ []) s
            ≡ handle_message P entry_point
                (LauncherMessage.subscribe my_database_id subject fn_name)
                (handle_all P entry_point decode msgs s))
  nats_subscribe_reaches P entry_point s in_recovery subject f q q' i r =
      let (a, fn_name, e, (msgs, bytes, d, v)) =
        nats_subscribe-Posted in_recovery subject f q q' i r in
      (
        a,
        fn_name,
        resolve_bytea_name-TakesBytea f fn_name e,
        msgs,
        bytes,
        v,
        handle_all-append P entry_point decode msgs bytes _ s d,
      )
