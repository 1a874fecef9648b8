-- ===== src/Subscriber/Restore.antt =====
-- What src/bgw/subscriber does with its subscriptions when its instance becomes the master.
use pgnats.Common.{
  ◌≡◌, refl, sym, ap, ◌∙◌, inl, inr, Bool, true, false, ◌&&◌, ◌||◌, List, [], ◌∷◌, ◌++◌, map,
  append_assoc, append-nil, ok, arith, Option-cases,
}
use pgnats.Text.{Text}
use pgnats.Messages.{InternalWorkerMessage}
use pgnats.Subscriber.Runtime.{Runtime}
use pgnats.Subscriber.Relation.{same, subscribed, subscribe-subscribed}
use pgnats.Subscriber.Context.{
  master, replica, Database, SubscriberContext, push, push_rows, published, send_notification,
  restore_state, migrate, check_migration, handle_internal_message, handle_unless_replica,
  handle_messages, drain_channel,
}

-- whether a row of the table names the subject and the function
abbrev pub listed : List (Text × Text) → Text → Text → Bool
listed [] a b = false
listed ((subject, f) ∷ rows) a b = same subject a && same f b || listed rows a b

module _ (R : Runtime) (D : Database) where
  open R use {World}

  abbrev pub request : Text × Text → InternalWorkerMessage
  request (subject, f) = InternalWorkerMessage.subscribe false subject f

  pub push_rows_lem :
      (ctx : SubscriberContext R D) (rows : List (Text × Text))
      → push_rows R D ctx rows ≡ record ctx { channel = ctx.channel ++ map request rows }
  unfolding push_rows
  push_rows_lem ctx [] = ap (λ c. record ctx { channel = c }) (sym (append-nil ctx.channel))
  push_rows_lem ctx ((subject, f) ∷ rows) =
      push_rows_lem (push R D ctx (request (subject, f))) rows
      ∙ ap (λ c. record ctx { channel = c })
          (append_assoc ctx.channel (request (subject, f) ∷ []) (map request rows))

  published_world :
      (ctx : SubscriberContext R D) (b : Bool) (w : World)
      → (published R D ctx (b, w)).1 ≡ record ctx { world = w }
  published_world ctx true w = refl
  published_world ctx false w = refl

  -- A notification changes nothing but the state of the connection.
  pub send_notification_world :
      (ctx : SubscriberContext R D)
      → (w : World) × ((send_notification R D ctx).1 ≡ record ctx { world = w })
  unfolding send_notification
  send_notification_world ctx =
      elim (Option-cases (D.notification ctx.status ctx.config.patroni_url)) [
        | inl e ↦ (ctx.world, rw (e, send_notification))
        | inr (body, e) ↦
            let (b, w) = R.publish ctx.world ctx.nats.client ctx.config.notify_subject body in
            (w, rw (e, send_notification) (published_world ctx b w))
      ]

  pub handle_messages-subscribed :
      (ctx : SubscriberContext R D) (rows : List (Text × Text)) (a b : Text)
      → ctx.status ≡ master
      → subscribed R (handle_messages R D ctx (map request rows)).nats a b
        ≡ (subscribed R ctx.nats a b || listed rows a b)
  unfolding handle_messages handle_unless_replica handle_internal_message
  handle_messages-subscribed ctx [] a b e = ground arith
  handle_messages-subscribed ctx ((subject, f) ∷ rows) a b e =
      ap
        (λ st.
          subscribed R
            (handle_messages R D (handle_unless_replica R D ctx st (request (subject, f)))
              (map request rows)).nats
            a b)
        e
      ∙ (handle_messages-subscribed (handle_internal_message R D ctx (request (subject, f))) rows a
            b e
          ∙ ground (arith, subscribe-subscribed R ctx.nats ctx.world subject f a b))

  -- The state of a worker whose instance has become the master.
  pub promoted :
      (ctx : SubscriberContext R D) (rows : List (Text × Text))
      → ctx.status ≡ replica
      → ctx.channel ≡ []
      → D.fetch_subject_with_callbacks ctx.table ≡ ok rows
      → (w : World) × ((check_migration R D ctx master).1
          ≡ record ctx { status = master; channel = map request rows; world = w })
  unfolding check_migration migrate restore_state
  promoted ctx rows st idle e =
      let base : SubscriberContext R D = record ctx { status = master } in
      let (w, sent) = send_notification_world (push_rows R D base rows) in
      (
        w,
        rw (st, check_migration)
            (rw e (
              sent
              ∙ ap (λ (c : SubscriberContext R D). record c { world = w }) (push_rows_lem base rows)
              ∙ ap (λ c. record ctx { status = master; channel = c ++ map request rows; world = w })
                  idle)),
      )

  -- Where a replica without subscriptions and with an empty channel finds itself the master and
  -- can read its table, it has, after the draining of the channel, exactly the subscriptions that
  -- the rows of the table name.
  pub promotion-subscribed :
      (ctx : SubscriberContext R D) (rows : List (Text × Text)) (a b : Text)
      → ctx.status ≡ replica
      → ctx.nats.subscriptions ≡ []
      → ctx.channel ≡ []
      → D.fetch_subject_with_callbacks ctx.table ≡ ok rows
      → subscribed R (drain_channel R D (check_migration R D ctx master).1).nats a b
        ≡ listed rows a b
  unfolding drain_channel
  promotion-subscribed ctx rows a b st none_yet idle e =
      let (w, p) = promoted ctx rows st idle e in
      ap (λ c. subscribed R (drain_channel R D c).nats a b) p
      ∙ handle_messages-subscribed (record ctx { status = master; channel = []; world = w }) rows a
          b refl
      ∙ rw none_yet
