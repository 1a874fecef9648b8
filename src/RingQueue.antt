-- ===== src/RingQueue.antt =====
-- src/bgw/ring_queue.rs: the byte ring in shared memory that carries length-prefixed messages to
-- the launcher. `cap` is the const generic `CAPACITY`. The functions model the release profile on
-- a 64-bit target: `usize` sums and differences wrap, an access out of range panics.
pub mod Slices
pub mod Header
pub mod Window
pub mod Copies
pub mod Invariant
pub mod Send
pub mod Refuse
pub mod Recv
pub mod Faults
pub mod Fifo
mod Tests
use pgnats.Common.{
  ℕ, ◌+◌, ◌-◌, ◌%◌, ◌^◌, Bool, true, false, ◌&&◌, not, Option, none, some, List, [], ◌++◌, Outcome,
  done, panic, ◌>>=◌, Result, ok, err, ltb, leb, ◌==◌, if◌then◌else◌, length, replicate,
}
use Slices.{slice, copy_into}
use Header.{header_size, to_le_bytes, from_le_bytes}

pub record RingQueue : Type 0 where
  pub read : ℕ
  pub write : ℕ
  pub is_full : Bool
  pub buffer : List ℕ

-- `usize` arithmetic
unfoldable pub usize_add : ℕ → ℕ → ℕ
usize_add a b = (a + b) % 2 ^ 64

unfoldable pub usize_sub : ℕ → ℕ → ℕ
usize_sub a b = (a + 2 ^ 64 - b) % 2 ^ 64

abbrev pub Sent : Type 0
Sent = Outcome (Result (Unit {0}) (Unit {0}) × RingQueue)

abbrev pub Received : Type 0
Received = Outcome (Option (List ℕ) × RingQueue)

module _ (cap : ℕ) where
  unfoldable pub new : RingQueue
  new = record { read = 0; write = 0; is_full = false; buffer = replicate cap 0 }

  -- The copy of `bytes` to `buffer[start..]`, cut in two where it runs past the end. The header
  -- and the data of a message are copied by the same code, over other names.
  unfoldable pub copy_wrapped : List ℕ → ℕ → List ℕ → Outcome (List ℕ)
  copy_wrapped buffer start bytes =
      let end_space = usize_sub cap start in
      if leb (length bytes) end_space
      then copy_into buffer start (usize_add start (length bytes)) bytes
      else do
        front ← slice bytes 0 end_space
        back ← slice bytes end_space (length bytes)
        buffer' ← copy_into buffer start (length buffer) front
        copy_into buffer' 0 (usize_sub (length bytes) end_space) back

  -- The end of `try_send`: the new write index, and `is_full` by comparison with the read index.
  unfoldable pub advance_write : RingQueue → ℕ → List ℕ → Sent
  advance_write q total_len buffer' =
      let write' = usize_add q.write total_len % cap in
      done (ok tt, record q { write = write'; is_full = write' == q.read; buffer = buffer' })

  -- `write >= read`: the free space may run round the end.
  unfoldable pub send_behind : RingQueue → List ℕ → Sent
  send_behind q msg =
      let msg_len = length msg in
      let total_len = usize_add header_size msg_len in
      let free = usize_sub cap (usize_sub q.write q.read) in
      if ltb free total_len then done (err tt, q) else do
        with_header ← copy_wrapped q.buffer q.write (to_le_bytes header_size msg_len)
        with_data ← copy_wrapped with_header (usize_add q.write header_size % cap) msg
        advance_write q total_len with_data

  -- `write < read`: the free space is one block.
  unfoldable pub send_between : RingQueue → List ℕ → Sent
  send_between q msg =
      let msg_len = length msg in
      let total_len = usize_add header_size msg_len in
      let free = usize_sub q.read q.write in
      if ltb free total_len then done (err tt, q) else do
        let header = usize_add q.write header_size
        with_header ← copy_into q.buffer q.write header (to_le_bytes header_size msg_len)
        with_data ← copy_into with_header header (usize_add header msg_len) msg
        advance_write q total_len with_data

  unfoldable pub try_send : RingQueue → List ℕ → Sent
  try_send q msg =
      if q.is_full
      then done (err tt, q)
      else if ltb (usize_sub cap header_size) (length msg)
      then done (err tt, q)
      else if leb q.read q.write
      then send_behind q msg
      else send_between q msg

  -- `write >= read` in `try_recv`: header and data are read as one block.
  unfoldable pub recv_straight : RingQueue → Received
  recv_straight q = do
    let header = usize_add q.read header_size
    len_bytes ← slice q.buffer q.read header
    let msg_len = from_le_bytes len_bytes
    if not q.is_full && ltb (usize_sub q.write q.read) (usize_add header_size msg_len)
        then done (none, q)
        else do
          msg ← slice q.buffer header (usize_add header msg_len)
          done (some msg, record q { read = usize_add header msg_len; is_full = false })

  -- A read of `n` bytes from `start`, cut in two where it runs past the end.
  unfoldable pub read_wrapped : List ℕ → ℕ → ℕ → Outcome (List ℕ)
  read_wrapped buffer start n =
      let end_space = usize_sub cap start in
      if leb n end_space then slice buffer start (usize_add start n) else do
        front ← slice buffer start (length buffer)
        back ← slice buffer 0 (usize_sub n end_space)
        done (front ++ back)

  -- `write < read` in `try_recv`: header and data may run round the end.
  unfoldable pub recv_wrapped : RingQueue → Received
  recv_wrapped q = do
    len_bytes ← read_wrapped q.buffer q.read header_size
    let msg_len = from_le_bytes len_bytes
    let held = usize_sub cap (usize_sub q.read q.write)
    if not q.is_full && ltb held (usize_add header_size msg_len) then done (none, q) else do
      msg ← read_wrapped q.buffer (usize_add q.read header_size % cap) msg_len
      let read' = usize_add (usize_add q.read header_size) msg_len % cap
      done (some msg, record q { read = read'; is_full = false })

  unfoldable pub try_recv : RingQueue → Received
  try_recv q =
      if (q.read == q.write) && not q.is_full
      then done (none, q)
      else if leb q.read q.write
      then recv_straight q
      else recv_wrapped q
