-- ===== src/Subscriber/Ownership.antt =====
-- Every operation of src/bgw/subscriber/nats.rs keeps one live task for each subscription and no
-- other: none leaks, and none is aborted that is still needed.
use pgnats.Common.{
  ℕ, ◌≡◌, refl, sym, ◌∙◌, inl, inr, false, some, List, [], ◌∷◌, Result, arith, Option-cases,
}
use pgnats.Common.Assoc.{get, insert, remove, contains_key_of_missing}
use pgnats.Common.Eq.{nat_eq, list_eq}
use pgnats.Common.Sets.{set_insert, set_remove, retain}
use pgnats.Text.{Text}
use pgnats.Config.{NatsConnectionOptions}
use pgnats.Subscriber.Runtime.{Runtime}
use pgnats.Subscriber.Nats.{
  connect_nats, NatsSubscription, NatsConnectionState, CallError, keeps, subscribe, unsubscribe,
  drop_function, unsubscribe_subject, unsubscribe_all, run_callbacks, reconnect_with,
  reconnect_nats, abort_all,
}
use pgnats.Subscriber.Tasks.{
  Subscriptions, Owned, owns-insert_same, Tidy-insert_same, owns-insert_new, Tidy-insert_new,
  owns-remove, Tidy-remove, live-abort_all, live-respawn, Tidy-respawn,
}

module _ (R : Runtime) where
  open R use {World, Client, Handle, handle_eq, live}

  abbrev pub Good : NatsConnectionState R × World → Type 0
  Good (s, w) = Owned R s.subscriptions w

  insert_same-Owned :
      (k : Text) (old new : NatsSubscription R) {subs : Subscriptions R} {w : World}
      → get k subs ≡ some old
      → new.handler ≡ old.handler
      → Owned R subs w
      → Owned R (insert k new subs) w
  insert_same-Owned k old new {subs} e f o = record {
    tidy = Tidy-insert_same R k old new subs e f o.tidy;
    exactly = λ h. o.exactly h ∙ sym (owns-insert_same R k old new subs h e f);
  }

  remove-Owned :
      (k : Text) (old : NatsSubscription R) {subs : Subscriptions R} {w : World}
      → get k subs ≡ some old
      → Owned R subs w
      → Owned R (remove k subs) (R.abort w old.handler)
  remove-Owned k old {subs} {w} e o = record {
    tidy = Tidy-remove R k subs o.tidy;
    exactly = λ h.
        ground
          (arith, R.abort_live w old.handler h, o.exactly h, owns-remove R k old subs h e o.tidy);
  }

  pub subscribe-Good :
      (s : NatsConnectionState R) (w : World) (subject f : Text)
      → Good (s, w)
      → Good (subscribe R s w subject f)
  unfolding subscribe
  subscribe-Good s w subject f o = elim (Option-cases (get subject s.subscriptions)) [
    | inl e ↦
        let sub : NatsSubscription R = record {
          handler = (R.spawn w s.client subject).0;
          funcs = f ∷ [];
        } in
        let new = contains_key_of_missing subject s.subscriptions e in
        rw (e, subscribe)
          (record {
            tidy =
                Tidy-insert_new R subject sub s.subscriptions new
                  (sym (o.exactly sub.handler) ∙ R.spawn_fresh w s.client subject) o.tidy;
            exactly = λ h. ground (
              arith,
              R.spawn_live w s.client subject h,
              o.exactly h,
              owns-insert_new R subject sub s.subscriptions h new,
            );
          })
    | inr (sub, e) ↦
        rw (e, subscribe)
          (insert_same-Owned subject sub (record sub { funcs = set_insert f sub.funcs }) e refl o)
  ]

  drop_function-Good :
      (s : NatsConnectionState R) (w : World) (subject : Text) (sub : NatsSubscription R)
      (fs : List Text)
      → get subject s.subscriptions ≡ some sub
      → Good (s, w)
      → Good (drop_function R s w subject sub fs)
  unfolding drop_function
  drop_function-Good s w subject sub [] e o = remove-Owned subject sub e o
  drop_function-Good s w subject sub (f ∷ fs) e o =
      insert_same-Owned subject sub (record sub { funcs = f ∷ fs }) e refl o

  -- Where each subscription has a live task of its own and no other task lives, that is still so
  -- after unsubscribe.
  pub unsubscribe-Good :
      (s : NatsConnectionState R) (w : World) (subject f : Text)
      → Good (s, w)
      → Good (unsubscribe R s w subject f)
  unfolding unsubscribe
  unsubscribe-Good s w subject f o = elim (Option-cases (get subject s.subscriptions)) [
    | inl e ↦ rw (e, unsubscribe) o
    | inr (sub, e) ↦
        rw (e, unsubscribe) (drop_function-Good s w subject sub (set_remove f sub.funcs) e o)
  ]

  pub unsubscribe_subject-Good :
      (s : NatsConnectionState R) (w : World) (subject : Text)
      → Good (s, w)
      → Good (unsubscribe_subject R s w subject)
  unfolding unsubscribe_subject
  unsubscribe_subject-Good s w subject o = elim (Option-cases (get subject s.subscriptions)) [
    | inl e ↦ rw (e, unsubscribe_subject) o
    | inr (sub, e) ↦ rw (e, unsubscribe_subject) (remove-Owned subject sub e o)
  ]

  pub run_callbacks-Good :
      (s : NatsConnectionState R) (w : World) (subject : Text) (payload : List ℕ)
      (callback : Text → List ℕ → Result (Unit {0}) CallError)
      → Good (s, w)
      → Good (run_callbacks R s subject payload callback, w)
  unfolding run_callbacks
  run_callbacks-Good s w subject payload callback o =
      elim (Option-cases (get subject s.subscriptions)) [
        | inl e ↦ rw (e, run_callbacks) o
        | inr (sub, e) ↦
            rw (e, run_callbacks)
              (insert_same-Owned subject sub
                (record sub { funcs = retain (λ f. keeps R (callback f payload)) sub.funcs }) e refl
                o)
      ]

  none_live :
      (subs : Subscriptions R) (w : World) (h : Handle)
      → Owned R subs w
      → live (abort_all R subs w) h ≡ false
  none_live subs w h o = ground (arith, live-abort_all R subs w h, o.exactly h)

  pub unsubscribe_all-Good :
      (s : NatsConnectionState R) (w : World)
      → Good (s, w)
      → Good ((unsubscribe_all R s w).1, (unsubscribe_all R s w).2)
  unfolding unsubscribe_all
  unsubscribe_all-Good s w o = record { tidy = tt; exactly = λ h. none_live s.subscriptions w h o }

  reconnect_with-Good :
      (s : NatsConnectionState R) (w : World) (client : Client)
      → Good (s, w)
      → Good (reconnect_with R s w client)
  unfolding reconnect_with unsubscribe_all
  reconnect_with-Good s w client o = record {
    tidy = Tidy-respawn R client s.subscriptions _ o.tidy;
    exactly = λ h. ground (
      arith,
      live-respawn R client s.subscriptions (abort_all R s.subscriptions w) h,
      none_live s.subscriptions w h o,
    );
  }

  -- Where each subscription has a live task of its own and no other task lives, that is still so
  -- after reconnect_nats, whether or not it could connect.
  pub reconnect_nats-Good :
      (s : NatsConnectionState R) (w : World) (config : NatsConnectionOptions)
      → Good (s, w)
      → Good ((reconnect_nats R s w config).1, (reconnect_nats R s w config).2)
  unfolding reconnect_nats
  reconnect_nats-Good s w config o = elim (Option-cases (connect_nats R w config).0) [
    | inl e ↦ rw (e, reconnect_nats) connected
    | inr (client, e) ↦
        rw (e, reconnect_nats) (reconnect_with-Good s (connect_nats R w config).1 client connected)
  ]
    where
      connected : Owned R s.subscriptions (connect_nats R w config).1
      connected = record { tidy = o.tidy; exactly = λ h. R.connect_live w _ _ h ∙ o.exactly h }
