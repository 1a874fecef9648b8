-- ===== src/ShmMq/Reader.antt =====
-- The loop of src/bgw/subscriber/mod.rs that reads the messages of the launcher.
use pgnats.Common.{ℕ, zero, suc, Bool, true, false, Option, none, some, List, [], ◌∷◌, ok, err}
use pgnats.ShmMq.{ShmApi, ShmMq, try_recv}

module _ (S : ShmApi) where
  open S use {World}

  -- The messages that were read, and whether the reading ended with an error. `none` stands for fuel
  -- that has run out.
  abbrev pub Read : Type 0
  Read = List (List ℕ) × Bool × World

  abbrev pub more : List ℕ → Option Read → Option Read
  more bytes none = none
  more bytes (some (msgs, is_broken, w)) = some (bytes ∷ msgs, is_broken, w)

  unfoldable pub read_messages : ℕ → World → ShmMq S → Option Read
  read_messages zero w q = none
  read_messages (suc fuel) w q =
      let (r, w') = try_recv S w q in
      let rest = read_messages fuel w' q in
      elim r [
        | err e ↦ some ([], true, w')
        | ok none ↦ some ([], false, w')
        | ok (some bytes) ↦ more bytes rest
      ]
