-- ===== src/Subscriber/Refinement.antt =====
-- What the internal messages of src/bgw/subscriber/mod.rs do, told without tasks, clients and the
-- order of subscriptions: an abstract worker is the set of its subscriptions and the table.
use pgnats.Common.{◌≡◌, refl, sym, ap, ◌∙◌, Bool, not, ◌&&◌, ◌||◌, List, [], ◌∷◌, if◌then◌else◌}
use mathlib.Core.Path.{subst}
use pgnats.Text.{Text}
use pgnats.Messages.{
  InternalWorkerMessage, subscribe, unsubscribe, callback_call, unsubscribe_subject,
}
use pgnats.Subscriber.Runtime.{Runtime}
use pgnats.Subscriber.Nats.{keeps}
use pgnats.Subscriber.Relation.{
  same, subscribed, subscribe-subscribed, unsubscribe-subscribed, unsubscribe_subject-subscribed,
  run_callbacks-subscribed,
}
use pgnats.Subscriber.Context.{
  Database, SubscriberContext, master, replica, PgInstanceStatus, table_after,
  handle_internal_message, handle_unless_replica, handle_messages, drain_channel,
}
use pgnats.Subscriber.Invariant.{handle_internal_message-status}

module _ (R : Runtime) (D : Database) where
  pub record Worker : Type 0 where
    pub pairs : Text → Text → Bool
    pub table : D.Table

  -- A function is dropped when it is called and the database does not know it.
  abbrev pub step : Worker → InternalWorkerMessage → Worker
  step s (subscribe register subject f) = record {
    pairs = λ a b. same subject a && same f b || s.pairs a b;
    table =
        if register
        then table_after R D s.table (D.insert_subject_callback s.table subject f)
        else s.table;
  }
  step s (unsubscribe subject f) = record {
    pairs = λ a b. not (same subject a && same f b) && s.pairs a b;
    table = table_after R D s.table (D.delete_subject_callback s.table subject f);
  }
  step s (callback_call subject payload) = record s {
    pairs =
        λ a b. (not (same subject a) || keeps R (D.call_function s.table b payload)) && s.pairs a b;
  }
  step s (unsubscribe_subject subject reason) = record s {
    pairs = λ a b. not (same subject a) && s.pairs a b;
  }

  abbrev pub run : Worker → List InternalWorkerMessage → Worker
  run s [] = s
  run s (msg ∷ msgs) = run (step s msg) msgs

  pub record Represents (ctx : SubscriberContext R D) (s : Worker) : Type 0 where
    pub pairs_of : (a b : Text) → subscribed R ctx.nats a b ≡ s.pairs a b
    pub table_of : ctx.table ≡ s.table

  handle_internal_message-Represents :
      (ctx : SubscriberContext R D) (s : Worker) (msg : InternalWorkerMessage)
      → Represents ctx s
      → Represents (handle_internal_message R D ctx msg) (step s msg)
  unfolding handle_internal_message
  handle_internal_message-Represents ctx s (subscribe register subject f) r = record {
    pairs_of = λ a b.
        subscribe-subscribed R ctx.nats ctx.world subject f a b
        ∙ ap (λ p. same subject a && same f b || p) (r.pairs_of a b);
    table_of =
        ap (λ t. if register then table_after R D t (D.insert_subject_callback t subject f) else t)
          r.table_of;
  }
  handle_internal_message-Represents ctx s (unsubscribe subject f) r = record {
    pairs_of = λ a b.
        unsubscribe-subscribed R ctx.nats ctx.world subject f a b
        ∙ ap (λ p. not (same subject a && same f b) && p) (r.pairs_of a b);
    table_of = ap (λ t. table_after R D t (D.delete_subject_callback t subject f)) r.table_of;
  }
  handle_internal_message-Represents ctx s (callback_call subject payload) r = record {
    pairs_of = λ a b.
        run_callbacks-subscribed R ctx.nats subject payload (D.call_function ctx.table) a b
        ∙ (ap
              (λ t.
                (not (same subject a) || keeps R (D.call_function t b payload))
                && subscribed R ctx.nats a b)
              r.table_of
            ∙ ap (λ p. (not (same subject a) || keeps R (D.call_function s.table b payload)) && p)
                (r.pairs_of a b));
    table_of = r.table_of;
  }
  handle_internal_message-Represents ctx s (unsubscribe_subject subject reason) r = record {
    pairs_of = λ a b.
        unsubscribe_subject-subscribed R ctx.nats ctx.world subject a b
        ∙ ap (λ p. not (same subject a) && p) (r.pairs_of a b);
    table_of = r.table_of;
  }

  -- A replica drops the messages.
  abbrev pub run_if_master : PgInstanceStatus → Worker → List InternalWorkerMessage → Worker
  run_if_master master s msgs = run s msgs
  run_if_master replica s msgs = s

  handle_messages-Represents :
      (ctx : SubscriberContext R D) (s : Worker) (status : PgInstanceStatus)
      (msgs : List InternalWorkerMessage)
      → ctx.status ≡ status
      → Represents ctx s
      → Represents (handle_messages R D ctx msgs) (run_if_master status s msgs)
  unfolding handle_messages handle_unless_replica
  handle_messages-Represents ctx s master [] e r = r
  handle_messages-Represents ctx s replica [] e r = r
  handle_messages-Represents ctx s master (msg ∷ msgs) e r =
      subst
        (λ st.
          Represents (handle_messages R D (handle_unless_replica R D ctx st msg) msgs)
            (run (step s msg) msgs))
        (sym e)
        (handle_messages-Represents (handle_internal_message R D ctx msg) (step s msg) master msgs
          (handle_internal_message-status R D ctx msg ∙ e)
          (handle_internal_message-Represents ctx s msg r))
  handle_messages-Represents ctx s replica (msg ∷ msgs) e r =
      subst (λ st. Represents (handle_messages R D (handle_unless_replica R D ctx st msg) msgs) s)
        (sym e) (handle_messages-Represents ctx s replica msgs e r)

  -- The draining of the channel refines an abstract worker, the set of the pairs of a subject and
  -- a function with the table: where the worker stands for such a state, it stands afterwards, if
  -- it is a master, for what the messages of the channel make of that state in their order, and
  -- if it is a replica for the same state.
  pub drain_channel-Represents :
      (ctx : SubscriberContext R D) (s : Worker)
      → Represents ctx s
      → Represents (drain_channel R D ctx) (run_if_master ctx.status s ctx.channel)
  unfolding drain_channel
  drain_channel-Represents ctx s r =
      handle_messages-Represents (record ctx { channel = [] }) s ctx.status ctx.channel refl
        (record { pairs_of = r.pairs_of; table_of = r.table_of })
