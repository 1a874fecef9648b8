-- ===== src/Text/Numbers.antt =====
-- `str::parse` for an unsigned type of greatest value `max`, and decimal printing.
use pgnats.Common.{
  ℕ, zero, suc, ◌+◌, ◌-◌, ◌*◌, ◌/◌, ◌%◌, ◌≤◌, ◌<◌, ◌≡◌, refl, sym, Bool, ◌&&◌, Option, none, some,
  [], ◌∷◌, leb, ltb, ◌==◌, if◌then◌else◌, arith, ◌∙◌, ap, lt-or-ge, inl, inr, lt→ltb, ge→ltb,
}
use pgnats.Text.{Text}

abbrev pub is_digit : ℕ → Bool
is_digit c = leb b'0' c && leb c b'9'

-- The digits, with the check for overflow at each.
unfoldable pub parse_digits : ℕ → ℕ → Text → Option ℕ
parse_digits max acc [] = some acc
parse_digits max acc (c ∷ cs) =
    let acc' = acc * 10 + (c - b'0') in
    let rest = parse_digits max acc' cs in if is_digit c && leb acc' max then rest else none

-- A sign `+` may stand in front; no digits at all are an error.
unfoldable pub parse_uint : ℕ → Text → Option ℕ
parse_uint max [] = none
parse_uint max (c ∷ []) = parse_digits max 0 (c ∷ [])
parse_uint max (c ∷ d ∷ cs) =
    if c == b'+' then parse_digits max 0 (d ∷ cs) else parse_digits max 0 (c ∷ d ∷ cs)

print_onto : ℕ → ℕ → Text → Text
print_onto zero n rest = rest
print_onto (suc fuel) n rest =
    let more = print_onto fuel (n / 10) ((b'0' + n % 10) ∷ rest) in
    if ltb n 10 then (b'0' + n) ∷ rest else more

pub print_uint : ℕ → Text
print_uint n = print_onto (suc n) n []

-- What is parsed is in the range of the type.
pub parse_digits_le :
    (max acc n : ℕ) (t : Text) → acc ≤ max → parse_digits max acc t ≡ some n → n ≤ max
unfolding parse_digits
parse_digits_le max acc n [] h e = ground arith
parse_digits_le max acc n (c ∷ cs) h e =
    ground (arith, parse_digits_le max (acc * 10 + (c - b'0')) n cs)

pub parse_uint_le : (max n : ℕ) (t : Text) → parse_uint max t ≡ some n → n ≤ max
unfolding parse_uint
parse_uint_le max n [] e = ground arith
parse_uint_le max n (c ∷ []) e = parse_digits_le max 0 n (c ∷ []) (omega arith) e
parse_uint_le max n (c ∷ d ∷ cs) e =
    ground (arith, parse_digits_le max 0 n (d ∷ cs), parse_digits_le max 0 n (c ∷ d ∷ cs))

last_digit :
    (max n : ℕ) (rest : Text)
    → n < 10
    → n ≤ max
    → parse_digits max 0 ((b'0' + n) ∷ rest) ≡ parse_digits max n rest
unfolding parse_digits
last_digit max n rest h k = ground (
  arith,
  ap (λ a. parse_digits max a rest) {x = 0 * 10 + (b'0' + n - b'0')} {y = n} (omega arith),
)

next_digit :
    (max n : ℕ) (rest : Text)
    → n ≤ max
    → parse_digits max (n / 10) ((b'0' + n % 10) ∷ rest) ≡ parse_digits max n rest
unfolding parse_digits
next_digit max n rest k = ground (
  arith,
  ap (λ a. parse_digits max a rest) {x = n / 10 * 10 + (b'0' + n % 10 - b'0')} {y = n}
      (omega arith),
)

parse_digits-print_onto :
    (max fuel n : ℕ) (rest : Text)
    → n < fuel
    → n ≤ max
    → parse_digits max 0 (print_onto fuel n rest) ≡ parse_digits max n rest
unfolding print_onto
parse_digits-print_onto max zero n rest h k = absurd (omega arith)
parse_digits-print_onto max (suc fuel) n rest h k = elim (lt-or-ge n 10) [
  | inl small ↦ rw (lt→ltb n 10 small) (last_digit max n rest small k)
  | inr large ↦ rw (ge→ltb n 10 large) (
      parse_digits-print_onto max fuel (n / 10) ((b'0' + n % 10) ∷ rest) (omega arith) (omega arith)
      ∙ next_digit max n rest k)
]

-- A printed number begins with a digit.
print_onto_head :
    (fuel n : ℕ) (rest : Text)
    → n < fuel
    → (d : ℕ) × (t : Text) × (d < 10) × (print_onto fuel n rest ≡ (b'0' + d) ∷ t)
unfolding print_onto
print_onto_head zero n rest h = absurd (omega arith)
print_onto_head (suc fuel) n rest h = elim (lt-or-ge n 10) [
  | inl small ↦ (n, rest, small, rw (lt→ltb n 10 small))
  | inr large ↦
      let (d, t, small, e) = print_onto_head fuel (n / 10) ((b'0' + n % 10) ∷ rest) (omega arith) in
      (d, t, small, rw (ge→ltb n 10 large) e)
]

unsigned :
    (max d : ℕ) (t : Text)
    → d < 10
    → parse_uint max ((b'0' + d) ∷ t) ≡ parse_digits max 0 ((b'0' + d) ∷ t)
unfolding parse_uint
unsigned max d [] h = refl
unsigned max d (c ∷ cs) h = ground arith

-- A number in range is parsed back from its digits.
pub parse_uint-print_uint : (max n : ℕ) → n ≤ max → parse_uint max (print_uint n) ≡ some n
unfolding print_uint
parse_uint-print_uint max n h =
    let (d, t, small, e) = print_onto_head (suc n) n [] (omega arith) in
    ap (parse_uint max) e
    ∙ unsigned max d t small
    ∙ ap (parse_digits max 0) (sym e)
    ∙ parse_digits-print_onto max (suc n) n [] (omega arith) h
    ∙ unfold parse_digits in refl
