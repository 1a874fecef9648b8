-- ===== src/RingQueue/Window.antt =====
-- The ring read and written at logical positions: position `p` below `2 * cap` stands for the index
-- `at cap p`, so a message that runs round the end is one run of positions.
use pgnats.Common.{
  ℕ, zero, suc, ◌+◌, ◌-◌, ◌%◌, ◌≤◌, ◌<◌, ◌≡◌, refl, sym, ap, ap₂, ◌∙◌, inl, inr, List, [], ◌∷◌,
  ◌++◌, ltb, if◌then◌else◌, length, get_or, set, arith, length-set, get_or-set_self, get_or-set_ne,
  lt-or-ge,
}
use native.Mathlib.Nat.{mod-eq_of_lt, mod-eq-sub-mod}
use pgnats.RingQueue.Slices.{read_at, write_at}

abbrev pub at : ℕ → ℕ → ℕ
at cap p = if ltb p cap then p else p - cap

-- `n` bytes from position `p` on
unfoldable pub ring_read : ℕ → List ℕ → ℕ → ℕ → List ℕ
ring_read cap buf p zero = []
ring_read cap buf p (suc n) = get_or buf (at cap p) 0 ∷ ring_read cap buf (p + 1) n

-- `bytes` written from position `p` on
unfoldable pub ring_write : ℕ → List ℕ → ℕ → List ℕ → List ℕ
ring_write cap buf p [] = buf
ring_write cap buf p (x ∷ xs) = ring_write cap (set buf (at cap p) x) (p + 1) xs

module _ (cap : ℕ) where
  pub at_low : (p : ℕ) → p < cap → at cap p ≡ p
  at_low p h = ground arith

  pub at_high : (p : ℕ) → cap ≤ p → at cap p ≡ p - cap
  at_high p h = ground arith

  pub length-ring_read : (buf : List ℕ) (p n : ℕ) → length (ring_read cap buf p n) ≡ n
  unfolding ring_read
  length-ring_read buf p zero = refl
  length-ring_read buf p (suc n) = ap suc (length-ring_read buf (p + 1) n)

  pub length-ring_write :
      (buf : List ℕ) (p : ℕ) (xs : List ℕ) → length (ring_write cap buf p xs) ≡ length buf
  unfolding ring_write
  length-ring_write buf p [] = refl
  length-ring_write buf p (x ∷ xs) =
      length-ring_write (set buf (at cap p) x) (p + 1) xs ∙ length-set buf (at cap p) x

  pub ring_read-add :
      (buf : List ℕ) (p m n : ℕ)
      → ring_read cap buf p (m + n) ≡ ring_read cap buf p m ++ ring_read cap buf (p + m) n
  unfolding ring_read
  ring_read-add buf p zero n =
      ap₂ (ring_read cap buf) {x = p} {y = p + 0} (omega arith) (omega arith)
  ring_read-add buf p (suc m) n =
      ap (ring_read cap buf p) {x = suc m + n} {y = suc (m + n)} (omega arith)
      ∙ ap (◌∷◌ (get_or buf (at cap p) 0)) (
          ring_read-add buf (p + 1) m n
          ∙ ap (λ k. ring_read cap buf (p + 1) m ++ ring_read cap buf k n) {x = p + 1 + m}
              {y = p + suc m} (omega arith))

  pub ring_write-append :
      (buf : List ℕ) (p : ℕ) (xs ys : List ℕ)
      → ring_write cap buf p (xs ++ ys)
        ≡ ring_write cap (ring_write cap buf p xs) (p + length xs) ys
  unfolding ring_write
  ring_write-append buf p [] ys = ap (λ k. ring_write cap buf k ys) (omega arith)
  ring_write-append buf p (x ∷ xs) ys =
      ring_write-append (set buf (at cap p) x) (p + 1) xs ys
      ∙ ap (λ k. ring_write cap (ring_write cap (set buf (at cap p) x) (p + 1) xs) k ys)
          (omega arith)

  -- Short of the end, positions are indices.
  pub ring_read-straight :
      (buf : List ℕ) (p n : ℕ) → p + n ≤ cap → ring_read cap buf p n ≡ read_at buf p n
  unfolding ring_read read_at
  ring_read-straight buf p zero h = refl
  ring_read-straight buf p (suc n) h =
      ap₂ ◌∷◌ (ap (λ k. get_or buf k 0) (ground arith))
        (ring_read-straight buf (p + 1) n (omega arith))

  pub ring_write-straight :
      (buf : List ℕ) (p : ℕ) (xs : List ℕ)
      → p + length xs ≤ cap
      → ring_write cap buf p xs ≡ write_at buf p xs
  unfolding ring_write write_at
  ring_write-straight buf p [] h = refl
  ring_write-straight buf p (x ∷ xs) h =
      ring_write-straight (set buf (at cap p) x) (p + 1) xs (omega arith)
      ∙ ap (λ k. write_at (set buf k x) (p + 1) xs) (ground arith)

  -- Past the end, they are indices from the start on.
  pub ring_read-past : (buf : List ℕ) (p n : ℕ) → ring_read cap buf (cap + p) n ≡ read_at buf p n
  unfolding ring_read read_at
  ring_read-past buf p zero = refl
  ring_read-past buf p (suc n) = ap₂ ◌∷◌ (ap (λ k. get_or buf k 0) (ground arith)) (
      ap (λ k. ring_read cap buf k n) {x = cap + p + 1} {y = cap + (p + 1)} (omega arith)
      ∙ ring_read-past buf (p + 1) n)

  pub ring_write-past :
      (buf : List ℕ) (p : ℕ) (xs : List ℕ) → ring_write cap buf (cap + p) xs ≡ write_at buf p xs
  unfolding ring_write write_at
  ring_write-past buf p [] = refl
  ring_write-past buf p (x ∷ xs) =
      ap (λ k. ring_write cap (set buf k x) (cap + p + 1) xs) {x = at cap (cap + p)} {y = p}
        (ground arith)
      ∙ ap (λ k. ring_write cap (set buf p x) k xs) {x = cap + p + 1} {y = cap + (p + 1)}
          (omega arith)
      ∙ ring_write-past (set buf p x) (p + 1) xs

  -- A write leaves the other positions of one turn alone.
  get-ring_write_ne :
      (buf : List ℕ) (i p : ℕ) (xs : List ℕ)
      → i < p
      → p + length xs ≤ i + cap
      → i < cap + cap
      → p + length xs ≤ cap + cap
      → get_or (ring_write cap buf p xs) (at cap i) 0 ≡ get_or buf (at cap i) 0
  unfolding ring_write
  get-ring_write_ne buf i p [] h k l m = refl
  get-ring_write_ne buf i p (x ∷ xs) h k l m =
      get-ring_write_ne (set buf (at cap p) x) i (p + 1) xs (omega arith) (omega arith) l
        (omega arith)
      ∙ get_or-set_ne buf (at cap p) (at cap i) x 0 (λ e. ground arith)

  -- What stands before the written positions is kept.
  pub ring_read-ring_write_before :
      (buf : List ℕ) (p n m : ℕ) (xs : List ℕ)
      → p + n ≤ m
      → m + length xs ≤ p + cap
      → m + length xs ≤ cap + cap
      → ring_read cap (ring_write cap buf m xs) p n ≡ ring_read cap buf p n
  unfolding ring_read
  ring_read-ring_write_before buf p zero m xs h k l = refl
  ring_read-ring_write_before buf p (suc n) m xs h k l =
      ap₂ ◌∷◌ (get-ring_write_ne buf p m xs (omega arith) k (omega arith) l)
        (ring_read-ring_write_before buf (p + 1) n m xs (omega arith) (omega arith) l)

  -- What is written is read back.
  pub ring_read-ring_write_self :
      (buf : List ℕ) (p : ℕ) (xs : List ℕ)
      → length buf ≡ cap
      → p + length xs ≤ cap + cap
      → length xs ≤ cap
      → ring_read cap (ring_write cap buf p xs) p (length xs) ≡ xs
  unfolding ring_read ring_write
  ring_read-ring_write_self buf p [] e h k = refl
  ring_read-ring_write_self buf p (x ∷ xs) e h k =
      ap₂ ◌∷◌
        (get-ring_write_ne (set buf (at cap p) x) p (p + 1) xs (omega arith) (omega arith)
            (omega arith) (omega arith)
          ∙ get_or-set_self buf (at cap p) x 0 (ground arith))
        (ring_read-ring_write_self (set buf (at cap p) x) (p + 1) xs
          (length-set buf (at cap p) x ∙ e) (omega arith) (omega arith))

  -- A position below two turns, and the index that `%` makes of it.
  pub mod_at : (p : ℕ) → p < cap + cap → p % cap ≡ at cap p
  mod_at p h = elim (lt-or-ge p cap) [
    | inl l ↦ omega (arith, mod-eq_of_lt l, at_low p l)
    | inr g ↦
        mod-eq-sub-mod {n = p} {m = cap} g
        ∙ mod-eq_of_lt {n = p - cap} {m = cap} (omega arith)
        ∙ sym (at_high p g)
  ]

  -- A run may be named by the index of its first position.
  pub ring_write_mod :
      (buf : List ℕ) (p : ℕ) (xs : List ℕ)
      → p + length xs ≤ cap + cap
      → ring_write cap buf (at cap p) xs ≡ ring_write cap buf p xs
  ring_write_mod buf p xs h = elim (lt-or-ge p cap) [
    | inl l ↦ ap (λ k. ring_write cap buf k xs) (at_low p l)
    | inr g ↦
        ap (λ k. ring_write cap buf k xs) (at_high p g)
        ∙ ring_write-straight buf (p - cap) xs (omega arith)
        ∙ sym (ring_write-past buf (p - cap) xs)
        ∙ ap (λ k. ring_write cap buf k xs) {x = cap + (p - cap)} {y = p} (omega arith)
  ]

  pub ring_read_mod :
      (buf : List ℕ) (p n : ℕ)
      → p + n ≤ cap + cap
      → ring_read cap buf (at cap p) n ≡ ring_read cap buf p n
  ring_read_mod buf p n h = elim (lt-or-ge p cap) [
    | inl l ↦ ap (λ k. ring_read cap buf k n) (at_low p l)
    | inr g ↦
        ap (λ k. ring_read cap buf k n) (at_high p g)
        ∙ ring_read-straight buf (p - cap) n (omega arith)
        ∙ sym (ring_read-past buf (p - cap) n)
        ∙ ap (λ k. ring_read cap buf k n) {x = cap + (p - cap)} {y = p} (omega arith)
  ]

  pub at_le : (p : ℕ) → at cap p ≤ p
  at_le p = ground arith

  pub at-at_add : (p k : ℕ) → p + k < cap + cap → at cap (at cap p + k) ≡ at cap (p + k)
  at-at_add p k h = ground arith

  pub at_add-mod : (p k : ℕ) → p + k < cap + cap → (at cap p + k) % cap ≡ at cap (p + k)
  at_add-mod p k h = mod_at (at cap p + k) (omega (arith, at_le p)) ∙ at-at_add p k h
