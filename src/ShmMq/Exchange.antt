-- ===== src/ShmMq/Exchange.antt =====
-- What is sent over a queue of src/bgw/pgrx_wrappers/shm_mq.rs is what the other side reads.
use pgnats.Common.{
  ℕ, zero, suc, ◌<◌, ◌≡◌, refl, sym, ap, ◌∙◌, ◌⊎◌, inl, inr, Bool, true, false, some, List, [], ◌∷◌,
  ◌++◌, append_assoc, append-nil, Result, ok, err, length, arith,
}
use pgnats.ShmMq.{
  ShmApi, ShmMq, MqResult, success, would_block, detached, send_result, send_internal, send,
  try_send, try_recv, recv_internal, must_succeed,
}
use pgnats.ShmMq.Reader.{read_messages}

-- What Postgres says of its queue: the messages that were sent and not received yet, in order. A
-- send that would block leaves them. A receive takes the first one, and fails for a counterpart that
-- is gone only when nothing is left.
pub record Fifo (S : ShmApi) : Type 1 where
  pub contents : S.World → S.Queue → List (List ℕ)
  pub queue_of : S.Handle → S.Queue
  pub send_success :
      (w : S.World) (h : S.Handle) (bytes : List ℕ) (no_wait : Bool)
      → (S.shm_mq_send w h bytes no_wait).0 ≡ success
      → contents (S.shm_mq_send w h bytes no_wait).1 (queue_of h)
        ≡ contents w (queue_of h) ++ bytes ∷ []
  pub send_blocked :
      (w : S.World) (h : S.Handle) (bytes : List ℕ) (no_wait : Bool)
      → (S.shm_mq_send w h bytes no_wait).0 ≡ would_block
      → contents (S.shm_mq_send w h bytes no_wait).1 (queue_of h) ≡ contents w (queue_of h)
  pub receive_first :
      (w : S.World) (h : S.Handle) (no_wait : Bool) (bytes : List ℕ) (rest : List (List ℕ))
      → contents w (queue_of h) ≡ bytes ∷ rest
      → ((S.shm_mq_receive w h no_wait).0 ≡ success)
        × ((S.shm_mq_receive w h no_wait).1 ≡ some bytes)
        × (contents (S.shm_mq_receive w h no_wait).2 (queue_of h) ≡ rest)
  pub receive_nothing :
      (w : S.World) (h : S.Handle)
      → contents w (queue_of h) ≡ []
      → (((S.shm_mq_receive w h true).0 ≡ would_block) ⊎ ((S.shm_mq_receive w h true).0 ≡ detached))
        × (contents (S.shm_mq_receive w h true).2 (queue_of h) ≡ [])

Result-cases : (r : Result (Unit {0}) (Unit {0})) → (r ≡ ok tt) ⊎ (r ≡ err tt)
Result-cases (ok u) = inl refl
Result-cases (err e) = inr refl

module _ (S : ShmApi) (F : Fifo S) where
  open S use {World}

  abbrev pub queued : World → ShmMq S → List (List ℕ)
  queued w q = F.contents w (F.queue_of q.mqh)

  -- Sends that all succeed.
  abbrev pub send_all : World → ShmMq S → List (List ℕ) → Result (Unit {0}) (Unit {0}) × World
  send_all w q [] = (ok tt, w)
  send_all w q (bytes ∷ msgs) = elim (send S w q bytes).0 [
    | err e ↦ (err e, (send S w q bytes).1)
    | ok u ↦ send_all (send S w q bytes).1 q msgs
  ]

  -- What a send that does not wait leaves in the queue, as it reports.
  abbrev pub Reported : Result Bool (Unit {0}) → List (List ℕ) → List (List ℕ) → List ℕ → Type 0
  Reported (ok true) before after bytes = after ≡ before ++ bytes ∷ []
  Reported (ok false) before after bytes = after ≡ before
  Reported (err e) before after bytes = Unit {0}

  -- e
  pub try_send-Reported :
      (w : World) (q : ShmMq S) (bytes : List ℕ)
      → let (r, w') = try_send S w q bytes in Reported r (queued w q) (queued w' q) bytes
  unfolding try_send send_internal
  try_send-Reported w q bytes = sent (S.shm_mq_send w q.mqh bytes true).0 refl
    where
      sent :
          (r : MqResult)
          → (S.shm_mq_send w q.mqh bytes true).0 ≡ r
          → Reported
              (send_result S r)
              (queued w q)
              (queued (S.shm_mq_send w q.mqh bytes true).1 q)
              bytes
      sent success k = F.send_success w q.mqh bytes true k
      sent would_block k = F.send_blocked w q.mqh bytes true k
      sent detached k = tt

  -- A send that returns has put its message behind the others.
  send-queued :
      (w : World) (q : ShmMq S) (bytes : List ℕ)
      → (send S w q bytes).0 ≡ ok tt
      → queued (send S w q bytes).1 q ≡ queued w q ++ bytes ∷ []
  unfolding send send_internal
  send-queued w q bytes e = sent (S.shm_mq_send w q.mqh bytes false).0 refl e
    where
      sent :
          (r : MqResult)
          → (S.shm_mq_send w q.mqh bytes false).0 ≡ r
          → (must_succeed S (send_result S r, (S.shm_mq_send w q.mqh bytes false).1)).0 ≡ ok tt
          → queued (must_succeed S (send_result S r, (S.shm_mq_send w q.mqh bytes false).1)).1 q
            ≡ queued w q ++ bytes ∷ []
      sent success k e = F.send_success w q.mqh bytes false k
      sent would_block k e = absurd cc
      sent detached k e = absurd cc

  send_all-queued :
      (w : World) (q : ShmMq S) (msgs : List (List ℕ))
      → (send_all w q msgs).0 ≡ ok tt
      → queued (send_all w q msgs).1 q ≡ queued w q ++ msgs
  send_all-queued w q [] e = sym (append-nil (queued w q))
  send_all-queued w q (bytes ∷ msgs) e = elim (Result-cases (send S w q bytes).0) [
    | inr k ↦ let failed : err tt ≡ ok tt = rw (k, send_all) at e in absurd cc
    | inl k ↦
        let rest : (send_all (send S w q bytes).1 q msgs).0 ≡ ok tt = rw (k, send_all) at e in
        rw (k, send_all)
          (send_all-queued (send S w q bytes).1 q msgs rest
            ∙ (ap (λ c. c ++ msgs) (send-queued w q bytes k)
                ∙ append_assoc (queued w q) (bytes ∷ []) msgs))
  ]

  read_messages-queued :
      (msgs : List (List ℕ)) (fuel : ℕ) (w : World) (q : ShmMq S)
      → queued w q ≡ msgs
      → length msgs < fuel
      → (is_broken : Bool) × (w' : World) × (read_messages S fuel w q ≡ some (msgs, is_broken, w'))
        × (queued w' q ≡ [])
  unfolding read_messages try_recv recv_internal
  read_messages-queued msgs zero w q e h = absurd (omega arith)
  read_messages-queued [] (suc fuel) w q e h =
      let (r, left) = F.receive_nothing w q.mqh e in
      let w' : World = (S.shm_mq_receive w q.mqh true).2 in
      elim r [
        | inl blocked ↦ (false, w', rw (blocked, read_messages) refl, left)
        | inr gone ↦ (true, w', rw (gone, read_messages) refl, left)
      ]
  read_messages-queued (bytes ∷ msgs) (suc fuel) w q e h =
      let (r, b, left) = F.receive_first w q.mqh true bytes msgs e in
      let (is_broken, w', k, empty) =
        read_messages-queued msgs fuel (S.shm_mq_receive w q.mqh true).2 q left (omega arith) in
      (is_broken, w', rw (r, b, k, read_messages) refl, empty)

  -- Over a queue of Postgres that keeps what was sent in order: where a sender and a receiver
  -- share an empty queue, some messages are sent one after the other and all sends succeed, and
  -- the fuel exceeds their number, the loop of the worker that reads the queue returns exactly
  -- these messages in their order and leaves the queue empty.
  pub read_messages-send_all :
      (w : World) (sender receiver : ShmMq S) (msgs : List (List ℕ)) (fuel : ℕ)
      → F.queue_of sender.mqh ≡ F.queue_of receiver.mqh
      → queued w sender ≡ []
      → length msgs < fuel
      → (send_all w sender msgs).0 ≡ ok tt
      → (is_broken : Bool) × (w' : World) × (read_messages S fuel
            (send_all w sender msgs).1
            receiver
          ≡ some (msgs, is_broken, w'))
        × (queued w' receiver ≡ [])
  read_messages-send_all w sender receiver msgs fuel same empty enough e =
      read_messages-queued msgs fuel (send_all w sender msgs).1 receiver
        (ap (F.contents (send_all w sender msgs).1) (sym same)
          ∙ (send_all-queued w sender msgs e ∙ ap (λ c. c ++ msgs) empty))
        enough
