-- ===== src/Subscriber/Tasks.antt =====
-- The tasks of src/bgw/subscriber/nats.rs: each subscription has a live task of its own, and no
-- other task lives.
use pgnats.Common.{
  ◌≡◌, refl, ◌∙◌, inl, inr, Bool, true, false, not, ◌&&◌, ◌||◌, some, List, [], ◌∷◌, arith,
  Bool-cases,
}
use pgnats.Common.Assoc.{
  get, contains_key, insert, remove, contains_key-insert, contains_key-remove, remove_absent,
}
use pgnats.Common.Eq.{Eq, nat_eq, list_eq}
use pgnats.Text.{Text}
use pgnats.Subscriber.Runtime.{Runtime}
use pgnats.Subscriber.Nats.{NatsSubscription, abort_all, respawn}

abbrev text_eq : Eq Text
text_eq = list_eq

module _ (R : Runtime) where
  open R use {World, Client, Handle, handle_eq, live}

  abbrev pub Subscriptions : Type 0
  Subscriptions = List (Text × NatsSubscription R)

  abbrev pub owns : Subscriptions → Handle → Bool
  owns [] h = false
  owns ((subject, sub) ∷ subs) h = handle_eq.beq sub.handler h || owns subs h

  -- Subjects and handles occur once.
  abbrev pub Tidy : Subscriptions → Type 0
  Tidy [] = Unit {0}
  Tidy ((subject, sub) ∷ subs) =
      (contains_key subject subs ≡ false) × (owns subs sub.handler ≡ false) × Tidy subs

  pub record Owned (subs : Subscriptions) (w : World) : Type 0 where
    pub tidy : Tidy subs
    pub exactly : (h : Handle) → live w h ≡ owns subs h

  -- A subscription that keeps its task
  pub owns-insert_same :
      (k : Text) (old new : NatsSubscription R) (subs : Subscriptions) (h : Handle)
      → get k subs ≡ some old
      → new.handler ≡ old.handler
      → owns (insert k new subs) h ≡ owns subs h
  owns-insert_same k old new [] h e f = cc
  owns-insert_same k old new ((j, sub) ∷ subs) h e f =
      ground (arith, owns-insert_same k old new subs h)

  pub Tidy-insert_same :
      (k : Text) (old new : NatsSubscription R) (subs : Subscriptions)
      → get k subs ≡ some old
      → new.handler ≡ old.handler
      → Tidy subs
      → Tidy (insert k new subs)
  Tidy-insert_same k old new [] e f t = cc
  Tidy-insert_same k old new ((j, sub) ∷ subs) e f t = elim (Bool-cases (text_eq.beq j k)) [
    | inl hit ↦ rw hit (ground (arith, text_eq.beq_iff j k))
    | inr miss ↦
        let e' : get k subs ≡ some old = (rw miss at e) in
        rw miss (
          contains_key-insert k j new subs
              ∙ ground (arith, text_eq.beq_iff j k, text_eq.beq_iff k j),
          owns-insert_same k old new subs sub.handler e' f ∙ t.1,
          Tidy-insert_same k old new subs e' f t.2,
        )
  ]

  -- A new subscription
  pub owns-insert_new :
      (k : Text) (new : NatsSubscription R) (subs : Subscriptions) (h : Handle)
      → contains_key k subs ≡ false
      → owns (insert k new subs) h ≡ (handle_eq.beq new.handler h || owns subs h)
  owns-insert_new k new [] h e = refl
  owns-insert_new k new ((j, sub) ∷ subs) h e = ground (arith, owns-insert_new k new subs h)

  pub Tidy-insert_new :
      (k : Text) (new : NatsSubscription R) (subs : Subscriptions)
      → contains_key k subs ≡ false
      → owns subs new.handler ≡ false
      → Tidy subs
      → Tidy (insert k new subs)
  Tidy-insert_new k new [] e o t = (refl, refl, tt)
  Tidy-insert_new k new ((j, sub) ∷ subs) e o t = elim (Bool-cases (text_eq.beq j k)) [
    | inl hit ↦ absurd (ground arith)
    | inr miss ↦
        let e' : contains_key k subs ≡ false = (rw miss at e) in
        rw miss (
          contains_key-insert k j new subs
              ∙ ground (arith, text_eq.beq_iff j k, text_eq.beq_iff k j),
          owns-insert_new k new subs sub.handler e'
              ∙ ground (
                arith,
                handle_eq.beq_iff new.handler sub.handler,
                handle_eq.beq_iff sub.handler new.handler,
              ),
          Tidy-insert_new k new subs e' (ground arith) t.2,
        )
  ]

  owns_of_get :
      (k : Text) (old : NatsSubscription R) (subs : Subscriptions)
      → get k subs ≡ some old
      → owns subs old.handler ≡ true
  owns_of_get k old [] e = cc
  owns_of_get k old ((j, sub) ∷ subs) e =
      ground (arith, owns_of_get k old subs, handle_eq.beq_iff sub.handler old.handler)

  -- A subscription that goes
  pub owns-remove :
      (k : Text) (old : NatsSubscription R) (subs : Subscriptions) (h : Handle)
      → get k subs ≡ some old
      → Tidy subs
      → owns (remove k subs) h ≡ (not (handle_eq.beq old.handler h) && owns subs h)
  owns-remove k old [] h e t = cc
  owns-remove k old ((j, sub) ∷ subs) h e t = elim (Bool-cases (text_eq.beq j k)) [
    | inl hit ↦
        let same : j ≡ k = (text_eq.beq_iff j k).0 hit in
        rw hit (
          rw (remove_absent k subs (rw (← same) t.0))
            (ground (arith, handle_eq.beq_iff sub.handler h)))
    | inr miss ↦
        let e' : get k subs ≡ some old = (rw miss at e) in
        rw miss (
          ground (
            arith,
            owns-remove k old subs h e' t.2,
            owns_of_get k old subs e',
            handle_eq.beq_iff sub.handler h,
            handle_eq.beq_iff old.handler h,
          ))
  ]

  owns-remove_none :
      (k : Text) (subs : Subscriptions) (h : Handle)
      → owns subs h ≡ false
      → owns (remove k subs) h ≡ false
  owns-remove_none k [] h o = refl
  owns-remove_none k ((j, sub) ∷ subs) h o = ground (arith, owns-remove_none k subs h)

  pub Tidy-remove : (k : Text) (subs : Subscriptions) → Tidy subs → Tidy (remove k subs)
  Tidy-remove k [] t = tt
  Tidy-remove k ((j, sub) ∷ subs) t = elim (Bool-cases (text_eq.beq j k)) [
    | inl hit ↦ rw hit (Tidy-remove k subs t.2)
    | inr miss ↦ rw miss (
      contains_key-remove k j subs t.0,
      owns-remove_none k subs sub.handler t.1,
      Tidy-remove k subs t.2,
    )
  ]

  -- Aborting the tasks of all subscriptions
  pub live-abort_all :
      (subs : Subscriptions) (w : World) (h : Handle)
      → live (abort_all R subs w) h ≡ (not (owns subs h) && live w h)
  unfolding abort_all
  live-abort_all [] w h = refl
  live-abort_all ((j, sub) ∷ subs) w h =
      ground (arith, live-abort_all subs (R.abort w sub.handler) h, R.abort_live w sub.handler h)

  -- Spawning them anew
  owns-respawn_none :
      (client : Client) (subs : Subscriptions) (w : World) (h : Handle)
      → live w h ≡ true
      → owns (respawn R client subs w).0 h ≡ false
  unfolding respawn
  owns-respawn_none client [] w h l = refl
  owns-respawn_none client ((j, sub) ∷ subs) w h l = ground (
    arith,
    owns-respawn_none client subs (R.spawn w client j).1 h,
    R.spawn_live w client j h,
    R.spawn_fresh w client j,
    handle_eq.beq_iff (R.spawn w client j).0 h,
  )

  pub live-respawn :
      (client : Client) (subs : Subscriptions) (w : World) (h : Handle)
      → live (respawn R client subs w).1 h ≡ (owns (respawn R client subs w).0 h || live w h)
  unfolding respawn
  live-respawn client [] w h = refl
  live-respawn client ((j, sub) ∷ subs) w h =
      ground (arith, live-respawn client subs (R.spawn w client j).1 h, R.spawn_live w client j h)

  contains_key-respawn :
      (client : Client) (subs : Subscriptions) (w : World) (k : Text)
      → contains_key k (respawn R client subs w).0 ≡ contains_key k subs
  unfolding respawn
  contains_key-respawn client [] w k = refl
  contains_key-respawn client ((j, sub) ∷ subs) w k =
      ground (arith, contains_key-respawn client subs (R.spawn w client j).1 k)

  pub Tidy-respawn :
      (client : Client) (subs : Subscriptions) (w : World)
      → Tidy subs
      → Tidy (respawn R client subs w).0
  unfolding respawn
  Tidy-respawn client [] w t = tt
  Tidy-respawn client ((j, sub) ∷ subs) w t =
      let w' : World = (R.spawn w client j).1 in
      let handler : Handle = (R.spawn w client j).0 in
      (
        contains_key-respawn client subs w' j ∙ t.0,
        owns-respawn_none client subs w' handler
            (R.spawn_live w client j handler ∙ ground (arith, handle_eq.beq_iff handler handler)),
        Tidy-respawn client subs w' t.2,
      )
