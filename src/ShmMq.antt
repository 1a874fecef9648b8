-- ===== src/ShmMq.antt =====
-- src/bgw/pgrx_wrappers: the wrappers of a dynamic shared memory segment and of the message queue of
-- Postgres in it. A raw pointer is an option, `none` for a null pointer.
pub mod Reader
pub mod Exchange
mod Tests
use pgnats.Common.{ℕ, Bool, true, false, Option, none, some, List, Result, ok, err, if◌then◌else◌}

-- `shm_mq_result`
pub data MqResult : Type 0 where
  success would_block detached : MqResult

-- What the wrappers call of Postgres. `shm_mq_receive` gives the bytes that its pointer and its length
-- describe, or a null pointer with the length 0.
pub record ShmApi : Type 1 where
  pub World : Type 0
  pub Segment : Type 0
  pub Queue : Type 0
  pub Handle : Type 0
  pub dsm_create : World → ℕ → Option Segment × World
  pub dsm_attach : World → ℕ → Option Segment × World
  pub dsm_segment_address : Segment → Queue
  pub shm_mq_create : World → Segment → ℕ → Option Queue × World
  pub shm_mq_set_sender : World → Option Queue → World
  pub shm_mq_set_receiver : World → Option Queue → World
  pub shm_mq_attach : World → Option Queue → Segment → Option Handle × World
  pub shm_mq_send : World → Handle → List ℕ → (no_wait : Bool) → MqResult × World
  pub shm_mq_receive : World → Handle → (no_wait : Bool) → MqResult × Option (List ℕ) × World

module _ (S : ShmApi) where
  open S use {World, Segment, Queue, Handle}

  abbrev pub Answer : Type 0 → Type 0
  Answer A = Result A (Unit {0}) × World

  abbrev non_null : {A : Type 0} → Option A × World → Answer A
  non_null (none, w) = (err tt, w)
  non_null (some a, w) = (ok a, w)

  -- `DynamicSharedMemory::new` and `attach`
  unfoldable pub dsm_new : World → ℕ → Answer Segment
  dsm_new w size = non_null (S.dsm_create w size)

  unfoldable pub dsm_attach : World → ℕ → Answer Segment
  dsm_attach w handle = non_null (S.dsm_attach w handle)

  -- A `ShmMqSender` or a `ShmMqReceiver`
  pub record ShmMq : Type 0 where
    pub mq : Queue
    pub mqh : Handle

  abbrev pub both : Option Queue → Option Handle × World → Answer ShmMq
  both (some mq) (some mqh, w) = (ok (record { mq = mq; mqh = mqh }), w)
  both (some mq) (none, w) = (err tt, w)
  both none (mqh, w) = (err tt, w)

  unfoldable pub new_sender_internal : World → Option Queue → Segment → Answer ShmMq
  new_sender_internal w mq dsm = both mq (S.shm_mq_attach (S.shm_mq_set_sender w mq) mq dsm)

  unfoldable pub new_receiver_internal : World → Option Queue → Segment → Answer ShmMq
  new_receiver_internal w mq dsm = both mq (S.shm_mq_attach (S.shm_mq_set_receiver w mq) mq dsm)

  unfoldable pub new_sender : World → Segment → ℕ → Answer ShmMq
  unfolding new_sender_internal
  new_sender w dsm size = let (mq, w') = S.shm_mq_create w dsm size in new_sender_internal w' mq dsm

  unfoldable pub attach_sender : World → Segment → Answer ShmMq
  unfolding new_sender_internal
  attach_sender w dsm = new_sender_internal w (some (S.dsm_segment_address dsm)) dsm

  unfoldable pub new_receiver : World → Segment → ℕ → Answer ShmMq
  unfolding new_receiver_internal
  new_receiver w dsm size =
      let (mq, w') = S.shm_mq_create w dsm size in new_receiver_internal w' mq dsm

  unfoldable pub attach_receiver : World → Segment → Answer ShmMq
  unfolding new_receiver_internal
  attach_receiver w dsm = new_receiver_internal w (some (S.dsm_segment_address dsm)) dsm

  abbrev pub send_result : MqResult → Result Bool (Unit {0})
  send_result success = ok true
  send_result would_block = ok false
  send_result detached = err tt

  unfoldable pub send_internal : World → ShmMq → List ℕ → Bool → Answer Bool
  send_internal w q bytes no_wait =
      let (r, w') = S.shm_mq_send w q.mqh bytes no_wait in (send_result r, w')

  -- A blocking send has to succeed.
  abbrev pub must_succeed : Answer Bool → Answer (Unit {0})
  must_succeed (ok true, w) = (ok tt, w)
  must_succeed (ok false, w) = (err tt, w)
  must_succeed (err e, w) = (err e, w)

  unfoldable pub send : World → ShmMq → List ℕ → Answer (Unit {0})
  unfolding send_internal
  send w q bytes = must_succeed (send_internal w q bytes false)

  unfoldable pub try_send : World → ShmMq → List ℕ → Answer Bool
  unfolding send_internal
  try_send w q bytes = send_internal w q bytes true

  abbrev pub recv_result : MqResult → Option (List ℕ) → Result (Option (List ℕ)) (Unit {0})
  recv_result success bytes = ok bytes
  recv_result would_block bytes = ok none
  recv_result detached bytes = err tt

  unfoldable pub recv_internal : World → ShmMq → Bool → Answer (Option (List ℕ))
  recv_internal w q no_wait =
      let (r, bytes, w') = S.shm_mq_receive w q.mqh no_wait in (recv_result r bytes, w')

  -- `transpose` and `ok_or_else`
  abbrev pub must_receive : Answer (Option (List ℕ)) → Answer (List ℕ)
  must_receive (ok none, w) = (err tt, w)
  must_receive (ok (some bytes), w) = (ok bytes, w)
  must_receive (err e, w) = (err e, w)

  unfoldable pub recv : World → ShmMq → Answer (List ℕ)
  unfolding recv_internal
  recv w q = must_receive (recv_internal w q false)

  unfoldable pub try_recv : World → ShmMq → Answer (Option (List ℕ))
  unfolding recv_internal
  try_recv w q = recv_internal w q true
