-- ===== src/RingQueue/Slices.antt =====
-- The slice operations that src/bgw/ring_queue.rs uses: `&s[a..b]` and
-- `s[a..b].copy_from_slice(src)`. Both panic where the range does not fit.
use pgnats.Common.{
  ℕ, zero, suc, ◌+◌, ◌-◌, ◌≤◌, ◌<◌, ◌≡◌, refl, sym, ap, ap₂, ◌∙◌, ◌&&◌, List, [], ◌∷◌, ◌++◌,
  Outcome, done, panic, leb, ◌==◌, if◌then◌else◌, length, get_or, set, arith, length-set,
}

-- `n` elements from index `i` on
unfoldable pub read_at : List ℕ → ℕ → ℕ → List ℕ
read_at buf i zero = []
read_at buf i (suc n) = get_or buf i 0 ∷ read_at buf (i + 1) n

-- `bytes` written from index `i` on
unfoldable pub write_at : List ℕ → ℕ → List ℕ → List ℕ
write_at buf i [] = buf
write_at buf i (x ∷ xs) = write_at (set buf i x) (i + 1) xs

unfoldable pub slice : List ℕ → ℕ → ℕ → Outcome (List ℕ)
slice buf a b = if leb a b && leb b (length buf) then done (read_at buf a (b - a)) else panic

unfoldable pub copy_into : List ℕ → ℕ → ℕ → List ℕ → Outcome (List ℕ)
copy_into buf a b src =
    if leb a b && leb b (length buf) && (b - a == length src)
    then done (write_at buf a src)
    else panic

pub length-read_at : (buf : List ℕ) (i n : ℕ) → length (read_at buf i n) ≡ n
unfolding read_at
length-read_at buf i zero = refl
length-read_at buf i (suc n) = ap suc (length-read_at buf (i + 1) n)

pub length-write_at : (buf : List ℕ) (i : ℕ) (xs : List ℕ) → length (write_at buf i xs) ≡ length buf
unfolding write_at
length-write_at buf i [] = refl
length-write_at buf i (x ∷ xs) =
    omega (arith, length-write_at (set buf i x) (i + 1) xs, length-set buf i x)

-- In range, a slice is the elements.
pub slice_in_range :
    (buf : List ℕ) (a n : ℕ) → a + n ≤ length buf → slice buf a (a + n) ≡ done (read_at buf a n)
unfolding slice
slice_in_range buf a n h = ground (arith, ap (read_at buf a) {x = a + n - a} {y = n} (omega arith))

pub slice_out_of_range : (buf : List ℕ) (a b : ℕ) → length buf < b → slice buf a b ≡ panic
unfolding slice
slice_out_of_range buf a b h = ground arith

pub copy_into_in_range :
    (buf : List ℕ) (a : ℕ) (src : List ℕ)
    → a + length src ≤ length buf
    → copy_into buf a (a + length src) src ≡ done (write_at buf a src)
unfolding copy_into
copy_into_in_range buf a src h = ground arith

pub read_at-add :
    (buf : List ℕ) (i m n : ℕ) → read_at buf i (m + n) ≡ read_at buf i m ++ read_at buf (i + m) n
unfolding read_at
read_at-add buf i zero n = ap₂ (read_at buf) {x = i} {y = i + 0} (omega arith) (omega arith)
read_at-add buf i (suc m) n =
    ap (read_at buf i) {x = suc m + n} {y = suc (m + n)} (omega arith)
    ∙ ap (◌∷◌ (get_or buf i 0)) (
        read_at-add buf (i + 1) m n
        ∙ ap (λ k. read_at buf (i + 1) m ++ read_at buf k n) {x = i + 1 + m} {y = i + suc m}
            (omega arith))

read_at-cons : (x : ℕ) (xs : List ℕ) (i n : ℕ) → read_at (x ∷ xs) (suc i) n ≡ read_at xs i n
unfolding read_at
read_at-cons x xs i zero = refl
read_at-cons x xs i (suc n) = ap (◌∷◌ (get_or xs i 0)) (
    ap (λ k. read_at (x ∷ xs) k n) {x = suc i + 1} {y = suc (i + 1)} (omega arith)
    ∙ read_at-cons x xs (i + 1) n)

-- A list read from its first element to its last.
pub read_at_all : (xs : List ℕ) → read_at xs 0 (length xs) ≡ xs
unfolding read_at
read_at_all [] = refl
read_at_all (x ∷ xs) = ap (◌∷◌ x) (
    ap (λ k. read_at (x ∷ xs) k (length xs)) {x = 0 + 1} {y = 1} refl
    ∙ read_at-cons x xs 0 (length xs)
    ∙ read_at_all xs)

-- A list is its slices on both sides of a cut.
pub read_at_cut :
    (xs : List ℕ) (m : ℕ) → m ≤ length xs → xs ≡ read_at xs 0 m ++ read_at xs m (length xs - m)
read_at_cut xs m h =
    sym (read_at_all xs)
    ∙ ap (read_at xs 0) {x = length xs} {y = m + (length xs - m)} (omega arith)
    ∙ read_at-add xs 0 m (length xs - m)
    ∙ ap (λ k. read_at xs 0 m ++ read_at xs k (length xs - m)) {x = 0 + m} {y = m} (omega arith)
