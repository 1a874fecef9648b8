-- ===== src/Utils/Bits.antt =====
-- `|` of a shifted field and `&` with a low mask as arithmetic, for the packing in src/utils.rs. The
-- two operations are recursions on binary digits with a count of digits to go, which is left open.
use Prim.Native.Nat.{max, digits, bit_and, bit_or, bit_and-bitwise, bit_or-bitwise}
use native.Mathlib.Nat.{pow-suc, one-le-pow}
use pgnats.Common.{ℕ, zero, suc, ◌+◌, ◌-◌, ◌*◌, ◌/◌, ◌%◌, ◌^◌, ◌≤◌, ◌<◌, min, ◌≡◌, refl, ap, arith}

abbrev or_upto : ℕ → ℕ → ℕ → ℕ
or_upto = digits (λ b. b) max

abbrev and_upto : ℕ → ℕ → ℕ → ℕ
and_upto = digits (λ b. zero) min

or_upto_none : (count b : ℕ) → or_upto count 0 b ≡ b
or_upto_none zero b = refl
or_upto_none (suc count) b = refl

and_upto_none : (count b : ℕ) → and_upto count 0 b ≡ 0
and_upto_none zero b = refl
and_upto_none (suc count) b = refl

-- The lowest digit of each.
or_upto_digit :
    (count a b : ℕ)
    → or_upto (suc count) a b ≡ or_upto count (a / 2) (b / 2) * 2 + max (a % 2) (b % 2)
or_upto_digit count zero b = omega (arith, or_upto_none count (b / 2))
or_upto_digit count (suc a) b = refl

and_upto_digit :
    (count a b : ℕ)
    → and_upto (suc count) a b ≡ and_upto count (a / 2) (b / 2) * 2 + min (a % 2) (b % 2)
and_upto_digit count zero b = omega (arith, and_upto_none count (b / 2))
and_upto_digit count (suc a) b = refl

or_upto_nothing : (count a : ℕ) → a ≤ count → or_upto count a 0 ≡ a
or_upto_nothing zero a h = omega arith
or_upto_nothing (suc count) a h =
    omega (arith, or_upto_digit count a 0, or_upto_nothing count (a / 2) (omega arith))

and_upto_nothing : (count a : ℕ) → and_upto count a 0 ≡ 0
and_upto_nothing zero a = refl
and_upto_nothing (suc count) a =
    omega (arith, and_upto_digit count a 0, and_upto_nothing count (a / 2))

or_upto_fields :
    (k count high low : ℕ)
    → low < 2 ^ k
    → high * 2 ^ k ≤ count
    → or_upto count (high * 2 ^ k) low ≡ high * 2 ^ k + low
or_upto_fields zero count high low h c = ground (arith, or_upto_nothing count high)
or_upto_fields (suc k) zero high low h c = omega arith
or_upto_fields (suc k) (suc count) high low h c = ground (
  arith,
  or_upto_digit count (high * 2 ^ suc k) low,
  ap (λ (t : ℕ). high * t) (pow-suc 2 k),
  or_upto_fields k count high (low / 2) (omega (arith, pow-suc 2 k)),
)

and_upto_low :
    (k count high low : ℕ)
    → low < 2 ^ k
    → high * 2 ^ k + low ≤ count
    → and_upto count (high * 2 ^ k + low) (2 ^ k - 1) ≡ low
and_upto_low zero count high low h c = ground (arith, and_upto_nothing count (high * 1 + low))
and_upto_low (suc k) zero high low h c = omega arith
and_upto_low (suc k) (suc count) high low h c = ground (
  arith,
  and_upto_digit count (high * 2 ^ suc k + low) (2 ^ suc k - 1),
  ap (λ (t : ℕ). high * t) (pow-suc 2 k),
  pow-suc 2 k,
  one-le-pow k 2,
  and_upto_low k count high (low / 2) (omega (arith, pow-suc 2 k)),
)

-- A field of `k` bits below another one.
pub or_fields : (k high low : ℕ) → low < 2 ^ k → bit_or (high * 2 ^ k) low ≡ high * 2 ^ k + low
or_fields k high low h = omega (
  arith,
  bit_or-bitwise (high * 2 ^ k) low,
  or_upto_fields k (high * 2 ^ k) high low h (omega arith),
)

-- A mask of `k` ones keeps the remainder by `2 ^ k`.
pub and_mask : (k a : ℕ) → bit_and a (2 ^ k - 1) ≡ a % 2 ^ k
and_mask k a =
    ground (
      arith,
      one-le-pow k 2,
      bit_and-bitwise a (2 ^ k - 1),
      and_upto_low k a (a / 2 ^ k) (a % 2 ^ k),
    )
