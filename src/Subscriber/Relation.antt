-- ===== src/Subscriber/Relation.antt =====
-- The subscriptions of src/bgw/subscriber/nats.rs as a relation between subjects and functions.
use pgnats.Common.{
  ℕ, ◌≡◌, refl, ◌∙◌, inl, inr, Bool, false, not, ◌&&◌, ◌||◌, Option, none, some, List, [], ◌∷◌,
  Result, if◌then◌else◌, arith, Option-cases,
}
use pgnats.Common.Assoc.{get, get-insert, get-remove}
use pgnats.Common.Sets.{
  contains, retain, set_insert, set_remove, contains-insert, contains-remove, contains-retain,
}
use pgnats.Common.Eq.{Eq, nat_eq, list_eq}
use pgnats.Text.{Text}
use pgnats.Subscriber.Runtime.{Runtime}
use pgnats.Subscriber.Nats.{
  NatsSubscription, NatsConnectionState, CallError, keeps, subscribe, unsubscribe, drop_function,
  unsubscribe_subject, unsubscribe_all, run_callbacks, respawn, reconnect_with,
}

abbrev pub text_eq : Eq Text
text_eq = list_eq

abbrev pub same : Text → Text → Bool
same a b = text_eq.beq a b

module _ (R : Runtime) where
  open R use {World, Client}

  abbrev calls : Option (NatsSubscription R) → Text → Bool
  calls none f = false
  calls (some sub) f = contains sub.funcs f

  -- Whether a message on the subject is passed to the function.
  abbrev pub subscribed : NatsConnectionState R → Text → Text → Bool
  subscribed s subject f = calls (get subject s.subscriptions) f

  -- After subscribe, a function is subscribed to a subject exactly if it is the one that was
  -- named, or was subscribed before.
  pub subscribe-subscribed :
      (s : NatsConnectionState R) (w : World) (subject f a b : Text)
      → subscribed (subscribe R s w subject f).0 a b
        ≡ (same subject a && same f b || subscribed s a b)
  unfolding subscribe
  subscribe-subscribed s w subject f a b = elim (Option-cases (get subject s.subscriptions)) [
    | inl e ↦
        let sub : NatsSubscription R = record {
          handler = (R.spawn w s.client subject).0;
          funcs = f ∷ [];
        } in
        rw (e, subscribe)
          (ground (
            arith,
            get-insert subject a sub s.subscriptions,
            text_eq.beq_iff subject a,
            text_eq.beq_iff f b,
          ))
    | inr (sub, e) ↦
        rw (e, subscribe)
          (ground (
            arith,
            get-insert subject a (record sub { funcs = set_insert f sub.funcs }) s.subscriptions,
            text_eq.beq_iff subject a,
            contains-insert f b sub.funcs,
          ))
  ]

  drop_function-subscribed :
      (s : NatsConnectionState R) (w : World) (subject : Text) (sub : NatsSubscription R)
      (funcs : List Text) (a b : Text)
      → subscribed (drop_function R s w subject sub funcs).0 a b
        ≡ (if same subject a then contains funcs b else subscribed s a b)
  unfolding drop_function
  drop_function-subscribed s w subject sub [] a b =
      ground (arith, get-remove subject a s.subscriptions)
  drop_function-subscribed s w subject sub (f ∷ fs) a b =
      ground (arith, get-insert subject a (record sub { funcs = f ∷ fs }) s.subscriptions)

  -- After unsubscribe, a function is subscribed to a subject exactly if it was before and is not
  -- the one that was named.
  pub unsubscribe-subscribed :
      (s : NatsConnectionState R) (w : World) (subject f a b : Text)
      → subscribed (unsubscribe R s w subject f).0 a b
        ≡ (not (same subject a && same f b) && subscribed s a b)
  unfolding unsubscribe
  unsubscribe-subscribed s w subject f a b = elim (Option-cases (get subject s.subscriptions)) [
    | inl e ↦ rw (e, unsubscribe) (ground (arith, text_eq.beq_iff subject a))
    | inr (sub, e) ↦
        rw (e, unsubscribe)
          (drop_function-subscribed s w subject sub (set_remove f sub.funcs) a b
            ∙ ground (arith, contains-remove f b sub.funcs, text_eq.beq_iff subject a))
  ]

  pub unsubscribe_subject-subscribed :
      (s : NatsConnectionState R) (w : World) (subject a b : Text)
      → subscribed (unsubscribe_subject R s w subject).0 a b
        ≡ (not (same subject a) && subscribed s a b)
  unfolding unsubscribe_subject
  unsubscribe_subject-subscribed s w subject a b =
      elim (Option-cases (get subject s.subscriptions)) [
        | inl e ↦ rw (e, unsubscribe_subject) (ground (arith, text_eq.beq_iff subject a))
        | inr (sub, e) ↦
            rw (e, unsubscribe_subject) (ground (arith, get-remove subject a s.subscriptions))
      ]

  -- After run_callbacks, a function is subscribed to a subject exactly if it was before and
  -- either the message came on another subject or the database did not answer that the function
  -- is not found.
  pub run_callbacks-subscribed :
      (s : NatsConnectionState R) (subject : Text) (payload : List ℕ)
      (callback : Text → List ℕ → Result (Unit {0}) CallError) (a b : Text)
      → subscribed (run_callbacks R s subject payload callback) a b
        ≡ ((not (same subject a) || keeps R (callback b payload)) && subscribed s a b)
  unfolding run_callbacks
  run_callbacks-subscribed s subject payload callback a b =
      elim (Option-cases (get subject s.subscriptions)) [
        | inl e ↦ rw (e, run_callbacks) (ground (arith, text_eq.beq_iff subject a))
        | inr (sub, e) ↦
            let kept : List Text = retain (λ f. keeps R (callback f payload)) sub.funcs in
            rw (e, run_callbacks)
              (ground (
                arith,
                get-insert subject a (record sub { funcs = kept }) s.subscriptions,
                text_eq.beq_iff subject a,
                contains-retain (λ f. keeps R (callback f payload)) b sub.funcs,
              ))
      ]

  -- New tasks, the same functions.
  respawn-calls :
      (client : Client) (subs : List (Text × NatsSubscription R)) (w : World) (a b : Text)
      → calls (get a (respawn R client subs w).0) b ≡ calls (get a subs) b
  unfolding respawn
  respawn-calls client [] w a b = refl
  respawn-calls client ((subject, sub) ∷ subs) w a b =
      ground (arith, respawn-calls client subs (R.spawn w client subject).1 a b)

  -- With the client of a new connection every function stays subscribed to the subjects that it
  -- was subscribed to, and to no other.
  pub reconnect_with-subscribed :
      (s : NatsConnectionState R) (w : World) (client : Client) (a b : Text)
      → subscribed (reconnect_with R s w client).0 a b ≡ subscribed s a b
  unfolding reconnect_with unsubscribe_all
  reconnect_with-subscribed s w client a b = respawn-calls client s.subscriptions _ a b
