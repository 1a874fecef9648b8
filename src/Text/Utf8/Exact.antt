-- ===== src/Text/Utf8/Exact.antt =====
-- What `String::from_utf8` accepts is the encoding of the text that it returns.
use pgnats.Common.{
  ℕ, suc, ◌+◌, ◌-◌, ◌*◌, ◌≤◌, ◌<◌, ◌≡◌, refl, ap₂, ◌⊎◌, inl, inr, ◌&&◌, Option, none, some, List,
  [], ◌∷◌, ◌++◌, arith, leb, lt→ltb, ge→ltb, lt-or-ge, Bool-cases,
}
use pgnats.Text.{Text}
use pgnats.Text.Utf8.{
  Decoder, start, after_two, after_three, after_four, first_byte, continued, push, decode,
  encode_utf8, into_bytes, from_utf8, IsChar, IsText, first_byte_of_one, first_byte_of_two,
  first_byte_of_three, first_byte_of_four,
}

-- The states in the middle of a character, with its bytes so far.
data Pending : Decoder → List ℕ → Type 0 where
  at_start : Pending start []
  one_of_two : (b : ℕ) → 0xc2 ≤ b → b < 0xe0 → Pending (after_two b) (b ∷ [])
  one_of_three : (b : ℕ) → 0xe0 ≤ b → b < 0xf0 → Pending (after_three b) (b ∷ [])
  two_of_three :
      (b c : ℕ)
      → 0xe0 ≤ b
      → b < 0xf0
      → (after_three b).lowest ≤ c
      → c ≤ (after_three b).highest
      → Pending (record start { missing = 1; so_far = (b - 0xe0) * 64 + (c - 0x80) }) (b ∷ c ∷ [])
  one_of_four : (b : ℕ) → 0xf0 ≤ b → b < 0xf5 → Pending (after_four b) (b ∷ [])
  two_of_four :
      (b c : ℕ)
      → 0xf0 ≤ b
      → b < 0xf5
      → (after_four b).lowest ≤ c
      → c ≤ (after_four b).highest
      → Pending (record start { missing = 2; so_far = (b - 0xf0) * 64 + (c - 0x80) }) (b ∷ c ∷ [])
  three_of_four :
      (b c e : ℕ)
      → 0xf0 ≤ b
      → b < 0xf5
      → (after_four b).lowest ≤ c
      → c ≤ (after_four b).highest
      → 0x80 ≤ e
      → e ≤ 0xbf
      → Pending
          (record start { missing = 1; so_far = ((b - 0xf0) * 64 + (c - 0x80)) * 64 + (e - 0x80) })
          (b ∷ c ∷ e ∷ [])

-- A byte in the middle of a character is in its range, or the decoding fails.
decode_in_range :
    (d : Decoder) (missing b : ℕ) (bytes : List ℕ) (t : Text)
    → d.missing ≡ suc missing
    → decode d (b ∷ bytes) ≡ some t
    → (d.lowest ≤ b)
      × (b ≤ d.highest)
      × (let r = continued missing (d.so_far * 64 + (b - 0x80)) in
          push r.0 (decode r.1 bytes) ≡ some t)
unfolding decode
decode_in_range d missing b bytes t e h = elim (Bool-cases (leb d.lowest b && leb b d.highest)) [
  | inl k ↦ (ground arith, ground arith, rw (e, k, decode) at h)
  | inr k ↦ let bad : none ≡ some t = rw (e, k, decode) at h in absurd cc
]

-- A character at the front of what is decoded.
push-some :
    (c : ℕ) (r : Option Text) (t : Text)
    → push (some c) r ≡ some t
    → (rest : Text) × (r ≡ some rest) × (t ≡ c ∷ rest)
push-some c none t h = absurd cc
push-some c (some rest) t h = (rest, refl, cc)

-- The last byte of a character that stands at the front of the bytes.
last_byte :
    (pre bytes : List ℕ) (c : ℕ) (rest t : Text)
    → (t ≡ c ∷ rest)
    → (encode_utf8 c ≡ pre)
    → IsChar c
    → (into_bytes rest ≡ bytes) × IsText rest
    → (into_bytes t ≡ pre ++ bytes) × IsText t
unfolding into_bytes
last_byte pre bytes c rest t e f i (g, k) = rw (e) (ap₂ (λ x y. x ++ y) f g, (i, k))

cons₃ : {a a' b b' c c' : ℕ} → a ≡ a' → b ≡ b' → c ≡ c' → a ∷ b ∷ c ∷ [] ≡ a' ∷ b' ∷ c' ∷ []
cons₃ p q r = cc

encode_utf8_of_two :
    (b c : ℕ)
    → 0xc2 ≤ b
    → b < 0xe0
    → 0x80 ≤ c
    → c ≤ 0xbf
    → encode_utf8 ((b - 0xc0) * 64 + (c - 0x80)) ≡ b ∷ c ∷ []
encode_utf8_of_two b c h k l m =
    let x = (b - 0xc0) * 64 + (c - 0x80) in
    rw (ge→ltb x 0x80 (omega arith), lt→ltb x 0x800 (omega arith))
      (ap₂ (λ u v. u ∷ v ∷ []) (omega arith) (omega arith))

-- the second byte of three: the character is neither too short nor a surrogate
second_of_three :
    (b c : ℕ)
    → 0xe0 ≤ b
    → b < 0xf0
    → (after_three b).lowest ≤ c
    → c ≤ (after_three b).highest
    → (0x80 ≤ c)
      × (c ≤ 0xbf)
      × (let y = (b - 0xe0) * 64 + (c - 0x80) in (0x20 ≤ y) × ((y < 0x360) ⊎ (0x380 ≤ y)))
second_of_three b c h k l m = (
  ground arith,
  ground arith,
  (ground arith, elim (lt-or-ge b 0xee) [ inl a ↦ inl (ground arith) | inr a ↦ inr (omega arith) ]),
)

encode_utf8_of_three :
    (b c e : ℕ)
    → 0xe0 ≤ b
    → b < 0xf0
    → (after_three b).lowest ≤ c
    → c ≤ (after_three b).highest
    → 0x80 ≤ e
    → e ≤ 0xbf
    → (encode_utf8 (((b - 0xe0) * 64 + (c - 0x80)) * 64 + (e - 0x80)) ≡ b ∷ c ∷ e ∷ [])
      × IsChar (((b - 0xe0) * 64 + (c - 0x80)) * 64 + (e - 0x80))
encode_utf8_of_three b c e h k l m n o =
    let x = ((b - 0xe0) * 64 + (c - 0x80)) * 64 + (e - 0x80) in
    let (p, q, (r, s)) = second_of_three b c h k l m in
    (
      rw (ge→ltb x 0x80 (omega arith), ge→ltb x 0x800 (omega arith), lt→ltb x 0x10000 (omega arith))
          (cons₃ (omega arith) (omega arith) (omega arith)),
      elim s [ inl a ↦ inl (omega arith) | inr a ↦ inr (omega arith, omega arith) ],
    )

second_of_four :
    (b c : ℕ)
    → 0xf0 ≤ b
    → b < 0xf5
    → (after_four b).lowest ≤ c
    → c ≤ (after_four b).highest
    → (0x80 ≤ c) × (c ≤ 0xbf) × (let y = (b - 0xf0) * 64 + (c - 0x80) in (0x10 ≤ y) × (y < 0x110))
second_of_four b c h k l m = (ground arith, ground arith, (ground arith, ground arith))

encode_utf8_of_four :
    (b c e f : ℕ)
    → 0xf0 ≤ b
    → b < 0xf5
    → (after_four b).lowest ≤ c
    → c ≤ (after_four b).highest
    → 0x80 ≤ e
    → e ≤ 0xbf
    → 0x80 ≤ f
    → f ≤ 0xbf
    → (encode_utf8 ((((b - 0xf0) * 64 + (c - 0x80)) * 64 + (e - 0x80)) * 64 + (f - 0x80))
        ≡ b ∷ c ∷ e ∷ f ∷ [])
      × IsChar ((((b - 0xf0) * 64 + (c - 0x80)) * 64 + (e - 0x80)) * 64 + (f - 0x80))
encode_utf8_of_four b c e f h k l m n o u v =
    let x = (((b - 0xf0) * 64 + (c - 0x80)) * 64 + (e - 0x80)) * 64 + (f - 0x80) in
    let (p, q, (r, s)) = second_of_four b c h k l m in
    (
      rw (ge→ltb x 0x80 (omega arith), ge→ltb x 0x800 (omega arith), ge→ltb x 0x10000 (omega arith))
          (ap₂ (λ z w. z ∷ w) (omega arith) (cons₃ (omega arith) (omega arith) (omega arith))),
      inr (omega arith, omega arith),
    )

-- What a first byte in each of its ranges does.
first_byte-cases :
    (b : ℕ)
    → (b < 0x80)
      ⊎ ((0xc2 ≤ b) × (b < 0xe0))
      ⊎ ((0xe0 ≤ b) × (b < 0xf0))
      ⊎ ((0xf0 ≤ b) × (b < 0xf5))
      ⊎ (first_byte b ≡ none)
first_byte-cases b = elim (lt-or-ge b 0x80) [
  | inl a ↦ inl a
  | inr a ↦ elim (lt-or-ge b 0xc2) [
    | inl a' ↦ inr (inr (inr (inr (rw (ge→ltb b 0x80 a, lt→ltb b 0xc2 a') refl))))
    | inr a' ↦ elim (lt-or-ge b 0xe0) [
      | inl c ↦ inr (inl (a', c))
      | inr c ↦ elim (lt-or-ge b 0xf0) [
        | inl d ↦ inr (inr (inl (c, d)))
        | inr d ↦ elim (lt-or-ge b 0xf5) [
          | inl e ↦ inr (inr (inr (inl (d, e))))
          | inr e ↦ inr (
              inr (
                inr (
                  inr (
                    rw
                      (
                        ge→ltb b 0x80 a,
                        ge→ltb b 0xc2 a',
                        ge→ltb b 0xe0 c,
                        ge→ltb b 0xf0 d,
                        ge→ltb b 0xf5 e,
                      )
                      refl))))
        ]
      ]
    ]
  ]
]

sound :
    (bytes : List ℕ) (d : Decoder) (pre : List ℕ) (t : Text)
    → Pending d pre
    → decode d bytes ≡ some t
    → (into_bytes t ≡ pre ++ bytes) × IsText t
unfolding decode into_bytes
sound [] _ _ t at_start e = let q : t ≡ [] = cc in rw (q) (refl, tt)
sound (b ∷ bytes) _ _ t at_start e = elim (first_byte-cases b) [
  | inl h ↦
      let (rest, r, q) =
        push-some b (decode start bytes) t (rw (first_byte_of_one b h, decode) at e) in
      last_byte (b ∷ []) bytes b rest t q (rw (lt→ltb b 0x80 h) refl) (inl (omega arith))
        (sound bytes _ _ rest at_start r)
  | inr (inl (h, k)) ↦
      sound bytes _ _ t (one_of_two b h k) (rw (first_byte_of_two b h k, decode) at e)
  | inr (inr (inl (h, k))) ↦
      sound bytes _ _ t (one_of_three b h k) (rw (first_byte_of_three b h k, decode) at e)
  | inr (inr (inr (inl (h, k)))) ↦
      sound bytes _ _ t (one_of_four b h k) (rw (first_byte_of_four b h k, decode) at e)
  | inr (inr (inr (inr h))) ↦ let bad : none ≡ some t = rw (h, decode) at e in absurd cc
]
sound [] _ _ t (one_of_two b h k) e = absurd cc
sound (c ∷ bytes) _ _ t (one_of_two b h k) e =
    let (l, m, f) = decode_in_range (after_two b) 0 c bytes t refl e in
    let (rest, r, q) = push-some _ _ t f in
    last_byte (b ∷ c ∷ []) bytes _ rest t q (encode_utf8_of_two b c h k l m) (inl (omega arith))
      (sound bytes _ _ rest at_start r)
sound [] _ _ t (one_of_three b h k) e = absurd cc
sound (c ∷ bytes) _ _ t (one_of_three b h k) e =
    let (l, m, f) = decode_in_range (after_three b) 1 c bytes t refl e in
    sound bytes _ _ t (two_of_three b c h k l m) f
sound [] _ _ t (two_of_three b c h k l m) e = absurd cc
sound (f ∷ bytes) _ _ t (two_of_three b c h k l m) e =
    let (n, o, g) = decode_in_range _ 0 f bytes t refl e in
    let (rest, r, q) = push-some _ _ t g in
    let (u, v) = encode_utf8_of_three b c f h k l m n o in
    last_byte (b ∷ c ∷ f ∷ []) bytes _ rest t q u v (sound bytes _ _ rest at_start r)
sound [] _ _ t (one_of_four b h k) e = absurd cc
sound (c ∷ bytes) _ _ t (one_of_four b h k) e =
    let (l, m, f) = decode_in_range (after_four b) 2 c bytes t refl e in
    sound bytes _ _ t (two_of_four b c h k l m) f
sound [] _ _ t (two_of_four b c h k l m) e = absurd cc
sound (f ∷ bytes) _ _ t (two_of_four b c h k l m) e =
    let (n, o, g) = decode_in_range _ 1 f bytes t refl e in
    sound bytes _ _ t (three_of_four b c f h k l m n o) g
sound [] _ _ t (three_of_four b c f h k l m n o) e = absurd cc
sound (g ∷ bytes) _ _ t (three_of_four b c f h k l m n o) e =
    let (u, v, w) = decode_in_range _ 0 g bytes t refl e in
    let (rest, r, q) = push-some _ _ t w in
    let (x, i) = encode_utf8_of_four b c f g h k l m n o u v in
    last_byte (b ∷ c ∷ f ∷ g ∷ []) bytes _ rest t q x i (sound bytes _ _ rest at_start r)

-- What `from_utf8` accepts is the encoding of its result, which is made of characters.
pub from_utf8_sound :
    (bytes : List ℕ) (t : Text) → from_utf8 bytes ≡ some t → (into_bytes t ≡ bytes) × IsText t
unfolding from_utf8
from_utf8_sound bytes t e = sound bytes start [] t at_start e
