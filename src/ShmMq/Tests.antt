-- ===== src/ShmMq/Tests.antt =====
-- The wrappers of src/bgw/pgrx_wrappers with one queue in memory, which holds at most two messages.
use pgnats.Common.{
  ℕ, ◌⊎◌, inr, Bool-cases, ◌≡◌, refl, inl, Bool, Option, none, some, List, [], ◌∷◌, ◌++◌, length,
  ltb, if◌then◌else◌, arith,
}
use pgnats.ShmMq.{
  ShmApi, ShmMq, MqResult, success, would_block, detached, try_send, send, send_internal,
}
use pgnats.ShmMq.Reader.{read_messages}
use pgnats.ShmMq.Exchange.{
  Fifo, Reported, queued, send_all, try_send-Reported, read_messages-send_all,
}

abbrev Held : Type 0
Held = List (List ℕ)

abbrev put_message : Held → List ℕ → MqResult × Held
put_message w bytes = if ltb (length w) 2 then (success, w ++ bytes ∷ []) else (would_block, w)

abbrev take_message : Held → MqResult × Option (List ℕ) × Held
take_message [] = (would_block, none, [])
take_message (bytes ∷ w) = (success, some bytes, w)

abbrev memory : ShmApi
memory = record {
  World = Held;
  Segment = Unit {0};
  Queue = Unit {0};
  Handle = Unit {0};
  dsm_create = λ w size. (some tt, w);
  dsm_attach = λ w handle. (some tt, w);
  dsm_segment_address = λ seg. tt;
  shm_mq_create = λ w seg size. (some tt, w);
  shm_mq_set_sender = λ w mq. w;
  shm_mq_set_receiver = λ w mq. w;
  shm_mq_attach = λ w mq seg. (some tt, w);
  shm_mq_send = λ w h bytes no_wait. put_message w bytes;
  shm_mq_receive = λ w h no_wait. take_message w;
}

put_success :
    (w : Held) (bytes : List ℕ)
    → (put_message w bytes).0 ≡ success
    → (put_message w bytes).1 ≡ w ++ bytes ∷ []
put_success w bytes e = elim (Bool-cases (ltb (length w) 2)) [
  | inl fits ↦ rw (fits, put_message) refl
  | inr full ↦ let k : would_block ≡ success = rw (full, put_message) at e in absurd cc
]

put_blocked :
    (w : Held) (bytes : List ℕ)
    → (put_message w bytes).0 ≡ would_block
    → (put_message w bytes).1 ≡ w
put_blocked w bytes e = elim (Bool-cases (ltb (length w) 2)) [
  | inl fits ↦ let k : success ≡ would_block = rw (fits, put_message) at e in absurd cc
  | inr full ↦ rw (full, put_message) refl
]

take_first :
    (w : Held) (bytes : List ℕ) (rest : Held)
    → w ≡ bytes ∷ rest
    → ((take_message w).0 ≡ success)
      × ((take_message w).1 ≡ some bytes)
      × ((take_message w).2 ≡ rest)
take_first [] bytes rest e = absurd cc
take_first (b ∷ w) bytes rest e = (refl, cc, cc)

take_nothing :
    (w : Held)
    → w ≡ []
    → (((take_message w).0 ≡ would_block) ⊎ ((take_message w).0 ≡ detached))
      × ((take_message w).2 ≡ [])
take_nothing [] e = (inl refl, refl)
take_nothing (b ∷ w) e = absurd cc

abbrev memory_fifo : Fifo memory
memory_fifo = record {
  contents = λ w q. w;
  queue_of = λ h. tt;
  send_success = λ w h bytes n e. put_success w bytes e;
  send_blocked = λ w h bytes n e. put_blocked w bytes e;
  receive_first = λ w h n bytes rest e. take_first w bytes rest e;
  receive_nothing = λ w h e. take_nothing w e;
}

abbrev queue : ShmMq memory
queue = record { mq = tt; mqh = tt }

abbrev two_messages : Held
two_messages = (1 ∷ 2 ∷ []) ∷ [] ∷ []

try_send-Reported_example :
    Reported memory memory_fifo
      (try_send memory two_messages queue (3 ∷ [])).0
      (queued memory memory_fifo two_messages queue)
      (queued memory memory_fifo (try_send memory two_messages queue (3 ∷ [])).1 queue)
      (3 ∷ [])
try_send-Reported_example = try_send-Reported memory memory_fifo two_messages queue (3 ∷ [])

read_messages-send_all_example :
    (is_broken : Bool) × (w' : Held) × (read_messages memory 3
        (send_all memory memory_fifo [] queue two_messages).1
        queue
      ≡ some (two_messages, is_broken, w'))
    × (queued memory memory_fifo w' queue ≡ [])
unfolding send send_internal
read_messages-send_all_example =
    read_messages-send_all memory memory_fifo [] queue queue two_messages 3 refl refl (omega arith)
      refl
