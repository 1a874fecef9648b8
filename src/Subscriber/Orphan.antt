-- ===== src/Subscriber/Orphan.antt =====
-- `run_callbacks` of src/bgw/subscriber/nats.rs on a subject of which no function is left.
use pgnats.Common.{ℕ, ◌≡◌, refl, false, some, List, [], ◌∷◌, Result, err, arith, Bool}
use pgnats.Common.Assoc.{get, get-insert}
use pgnats.Common.Sets.{retain}
use pgnats.Common.Eq.{nat_eq, list_eq}
use pgnats.Text.{Text}
use pgnats.Config.{text_eq}
use pgnats.Subscriber.Runtime.{Runtime}
use pgnats.Subscriber.Nats.{
  NatsSubscription, NatsConnectionState, CallError, not_found, keeps, run_callbacks,
}
use pgnats.Subscriber.Tasks.{owns, owns-insert_same}

retain_nothing : (p : Text → Bool) (fs : List Text) → ((f : Text) → p f ≡ false) → retain p fs ≡ []
retain_nothing p [] h = refl
retain_nothing p (f ∷ fs) h = rw (h f) (retain_nothing p fs h)

module _ (R : Runtime) where
  open R use {World, Handle}

  -- Where a subject has a subscription and the database finds none of its functions,
  -- run_callbacks leaves the subscription with its task and without functions, and every task
  -- that was owned stays owned.
  pub run_callbacks_orphan :
      (s : NatsConnectionState R) (subject : Text) (payload : List ℕ)
      (callback : Text → List ℕ → Result (Unit {0}) CallError) (sub : NatsSubscription R)
      (h : Handle)
      → get subject s.subscriptions ≡ some sub
      → ((f : Text) → callback f payload ≡ err not_found)
      → (get subject (run_callbacks R s subject payload callback).subscriptions
          ≡ some (record sub { funcs = [] }))
        × (owns R (run_callbacks R s subject payload callback).subscriptions h
            ≡ owns R s.subscriptions h)
  unfolding run_callbacks
  run_callbacks_orphan s subject payload callback sub h e lost =
      rw (e, run_callbacks)
        (rw (retain_nothing (λ f. keeps R (callback f payload)) sub.funcs (λ f. rw (lost f))) (
          ground (
            arith,
            get-insert subject subject (record sub { funcs = [] }) s.subscriptions,
            text_eq.beq_iff subject subject,
          ),
          owns-insert_same R subject sub (record sub { funcs = [] }) s.subscriptions h e refl,
        ))
