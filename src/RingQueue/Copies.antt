-- ===== src/RingQueue/Copies.antt =====
-- The two-part copies of `try_send` and `try_recv` in src/bgw/ring_queue.rs write and read one run
-- of ring positions, and never panic on a buffer of the ring's size.
use pgnats.Common.{
  ℕ, ◌+◌, ◌-◌, ◌^◌, ◌≤◌, ◌<◌, ◌≡◌, sym, ap, ap₂, ◌∙◌, inl, inr, List, ◌++◌, done, length, arith,
  lt-or-ge, le→leb, gt→leb,
}
use pgnats.RingQueue.{usize_add, usize_sub, copy_wrapped, read_wrapped}
use pgnats.RingQueue.Slices.{
  slice, copy_into, read_at, write_at, slice_in_range, copy_into_in_range, length-read_at,
  length-write_at, read_at_cut,
}
use pgnats.RingQueue.Window.{
  ring_read, ring_write, ring_read-add, ring_write-append, ring_read-straight, ring_write-straight,
  ring_read-past, ring_write-past,
}

pub usize_add_small : (a b : ℕ) → a + b < 2 ^ 64 → usize_add a b ≡ a + b
unfolding usize_add
usize_add_small a b h = omega arith

pub usize_sub_small : (a b : ℕ) → b ≤ a → a < 2 ^ 64 → usize_sub a b ≡ a - b
unfolding usize_sub
usize_sub_small a b h k = omega arith

-- `slice` and `copy_into` with the end of the range given by an equation.
pub slice_to :
    (buf : List ℕ) (a b n : ℕ) → b ≡ a + n → b ≤ length buf → slice buf a b ≡ done (read_at buf a n)
slice_to buf a b n e h = ap (slice buf a) e ∙ slice_in_range buf a n (omega arith)

pub copy_into_to :
    (buf : List ℕ) (a b : ℕ) (src : List ℕ)
    → b ≡ a + length src
    → b ≤ length buf
    → copy_into buf a b src ≡ done (write_at buf a src)
copy_into_to buf a b src e h =
    ap (λ k. copy_into buf a k src) e ∙ copy_into_in_range buf a src (omega arith)

module _ (cap : ℕ) (small : cap < 2 ^ 62) where
  ring_write_split :
      (buf : List ℕ) (start : ℕ) (bytes : List ℕ) (m : ℕ)
      → m ≤ length bytes
      → start + m ≡ cap
      → ring_write cap buf start bytes
        ≡ write_at (write_at buf start (read_at bytes 0 m)) 0 (read_at bytes m (length bytes - m))
  ring_write_split buf start bytes m h e =
      ap (ring_write cap buf start) (read_at_cut bytes m h)
      ∙ ring_write-append cap buf start (read_at bytes 0 m) (read_at bytes m (length bytes - m))
      ∙ ap
          (λ p.
            ring_write cap (ring_write cap buf start (read_at bytes 0 m)) p
              (read_at bytes m (length bytes - m)))
          {x = start + length (read_at bytes 0 m)} {y = cap + 0}
          (omega (arith, length-read_at bytes 0 m))
      ∙ ap (λ b. ring_write cap b (cap + 0) (read_at bytes m (length bytes - m)))
          (ring_write-straight cap buf start (read_at bytes 0 m)
            (omega (arith, length-read_at bytes 0 m)))
      ∙ ring_write-past cap (write_at buf start (read_at bytes 0 m)) 0
          (read_at bytes m (length bytes - m))

  pub copy_wrapped_lem :
      (buf : List ℕ) (start : ℕ) (bytes : List ℕ)
      → length buf ≡ cap
      → start < cap
      → length bytes ≤ cap
      → copy_wrapped cap buf start bytes ≡ done (ring_write cap buf start bytes)
  unfolding copy_wrapped
  copy_wrapped_lem buf start bytes e h k = elim (lt-or-ge (cap - start) (length bytes)) [
    | inl over ↦
        rw
          (
            usize_sub_small cap start (omega arith) (omega arith),
            gt→leb (length bytes) (cap - start) over,
            slice_to bytes 0 (cap - start) (cap - start) (omega arith) (omega arith),
            slice_to bytes (cap - start) (length bytes) (length bytes - (cap - start)) (omega arith)
                (omega arith),
            copy_into_to buf start (length buf) (read_at bytes 0 (cap - start))
                (omega (arith, length-read_at bytes 0 (cap - start))) (omega arith),
            usize_sub_small (length bytes) (cap - start) (omega arith) (omega arith),
            ring_write_split buf start bytes (cap - start) (omega arith) (omega arith),
          )
          (copy_into_to _ 0 _ _
            (omega (arith, length-read_at bytes (cap - start) (length bytes - (cap - start))))
            (omega (arith, length-write_at buf start (read_at bytes 0 (cap - start)))))
    | inr fits ↦ rw (
      usize_sub_small cap start (omega arith) (omega arith),
      le→leb (length bytes) (cap - start) fits,
      usize_add_small start (length bytes) (omega arith),
      copy_into_in_range buf start bytes (omega arith),
      ring_write-straight cap buf start bytes (omega arith),
    )
  ]

  pub read_wrapped_lem :
      (buf : List ℕ) (start n : ℕ)
      → length buf ≡ cap
      → start ≤ cap
      → n ≤ cap
      → read_wrapped cap buf start n ≡ done (ring_read cap buf start n)
  unfolding read_wrapped
  read_wrapped_lem buf start n e h k = elim (lt-or-ge (cap - start) n) [
    | inl over ↦
        rw
          (
            usize_sub_small cap start (omega arith) (omega arith),
            gt→leb n (cap - start) over,
            slice_to buf start (length buf) (cap - start) (omega arith) (omega arith),
            usize_sub_small n (cap - start) (omega arith) (omega arith),
            slice_to buf 0 (n - (cap - start)) (n - (cap - start)) (omega arith) (omega arith),
          )
          (ap done (
            ap₂ ◌++◌ (sym (ring_read-straight cap buf start (cap - start) (omega arith))) (
              sym (ring_read-past cap buf 0 (n - (cap - start)))
              ∙ ap (λ p. ring_read cap buf p (n - (cap - start))) {x = cap + 0}
                  {y = start + (cap - start)} (omega arith))
            ∙ sym (ring_read-add cap buf start (cap - start) (n - (cap - start)))
            ∙ ap (ring_read cap buf start) {x = cap - start + (n - (cap - start))} {y = n}
                (omega arith)))
    | inr fits ↦ rw (
      usize_sub_small cap start (omega arith) (omega arith),
      le→leb n (cap - start) fits,
      usize_add_small start n (omega arith),
      slice_in_range buf start n (omega arith),
      ring_read-straight cap buf start n (omega arith),
    )
  ]
