-- ===== src/Text/Utf8.antt =====
-- Rust's `String::into_bytes` and `String::from_utf8`: a text as the bytes of UTF-8.
pub mod Exact
use pgnats.Common.{
  ℕ, zero, suc, ◌+◌, ◌-◌, ◌*◌, ◌/◌, ◌%◌, ◌≤◌, ◌<◌, ◌≡◌, refl, ◌⊎◌, inl, inr, ◌&&◌, Option, none,
  some, List, [], ◌∷◌, ◌++◌, arith, ltb, leb, ◌==◌, if◌then◌else◌, lt→ltb, ge→ltb, le→leb, lt-or-ge,
  ap, ◌∙◌,
}
use pgnats.Text.{Text}

-- the bytes of one character
abbrev pub encode_utf8 : ℕ → List ℕ
encode_utf8 c =
    if ltb c 0x80
    then c ∷ []
    else if ltb c 0x800
    then (0xc0 + c / 64) ∷ (0x80 + c % 64) ∷ []
    else if ltb c 0x10000
    then (0xe0 + c / 4096) ∷ (0x80 + c / 64 % 64) ∷ (0x80 + c % 64) ∷ []
    else (0xf0 + c / 262144) ∷ (0x80 + c / 4096 % 64) ∷ (0x80 + c / 64 % 64) ∷ (0x80 + c % 64) ∷ []

unfoldable pub into_bytes : Text → List ℕ
into_bytes [] = []
into_bytes (c ∷ t) = encode_utf8 c ++ into_bytes t

-- How many bytes of a character are missing, what the ones before say of it, and the range of the
-- next one.
pub record Decoder : Type 0 where
  missing : ℕ
  so_far : ℕ
  lowest : ℕ
  highest : ℕ

abbrev start : Decoder
start = record { missing = 0; so_far = 0; lowest = 0x80; highest = 0xbf }

-- what the first byte of two, three and four says
abbrev after_two : ℕ → Decoder
after_two b = record start { missing = 1; so_far = b - 0xc0 }

abbrev after_three : ℕ → Decoder
after_three b = record {
  missing = 2;
  so_far = b - 0xe0;
  lowest = if b == 0xe0 then 0xa0 else 0x80;
  highest = if b == 0xed then 0x9f else 0xbf;
}

abbrev after_four : ℕ → Decoder
after_four b = record {
  missing = 3;
  so_far = b - 0xf0;
  lowest = if b == 0xf0 then 0x90 else 0x80;
  highest = if b == 0xf4 then 0x8f else 0xbf;
}

abbrev first_byte : ℕ → Option (Option ℕ × Decoder)
first_byte b =
    if ltb b 0x80
    then some (some b, start)
    else if ltb b 0xc2
    then none
    else if ltb b 0xe0
    then some (none, after_two b)
    else if ltb b 0xf0
    then some (none, after_three b)
    else if ltb b 0xf5
    then some (none, after_four b)
    else none

abbrev continued : ℕ → ℕ → Option ℕ × Decoder
continued zero c = (some c, start)
continued (suc missing) c = (none, record start { missing = suc missing; so_far = c })

abbrev next_byte : Decoder → ℕ → Option (Option ℕ × Decoder)
next_byte d b = elim d.missing [
  | zero ↦ first_byte b
  | suc missing ↦
      if leb d.lowest b && leb b d.highest
      then some (continued missing (d.so_far * 64 + (b - 0x80)))
      else none
]

abbrev push : Option ℕ → Option Text → Option Text
push none t = t
push (some c) none = none
push (some c) (some t) = some (c ∷ t)

unfoldable decode : Decoder → List ℕ → Option Text
decode d [] = if d.missing == 0 then some [] else none
decode d (b ∷ bytes) = elim (next_byte d b) [
  | none ↦ none
  | some (c, d') ↦ push c (decode d' bytes)
]

unfoldable pub from_utf8 : List ℕ → Option Text
unfolding decode
from_utf8 bytes = decode start bytes

-- `char`: a code point that is no surrogate
abbrev pub IsChar : ℕ → Type 0
IsChar c = (c < 0xd800) ⊎ (0xe000 ≤ c) × (c < 0x110000)

abbrev pub IsText : Text → Type 0
IsText [] = Unit {0}
IsText (c ∷ t) = IsChar c × IsText t

decode_step :
    (d : Decoder) (b : ℕ) (bytes : List ℕ) (c : Option ℕ) (d' : Decoder)
    → next_byte d b ≡ some (c, d')
    → decode d (b ∷ bytes) ≡ push c (decode d' bytes)
unfolding decode
decode_step d b bytes c d' e = rw (e, decode) refl

-- A byte in the range of the next one.
next_byte_in :
    (d : Decoder) (missing b : ℕ)
    → d.missing ≡ suc missing
    → d.lowest ≤ b
    → b ≤ d.highest
    → next_byte d b ≡ some (continued missing (d.so_far * 64 + (b - 0x80)))
next_byte_in d missing b e h k = rw (e, le→leb d.lowest b h, le→leb b d.highest k) refl

first_byte_of_one : (b : ℕ) → b < 0x80 → first_byte b ≡ some (some b, start)
first_byte_of_one b h = rw (lt→ltb b 0x80 h) refl

first_byte_of_two : (b : ℕ) → 0xc2 ≤ b → b < 0xe0 → first_byte b ≡ some (none, after_two b)
first_byte_of_two b h k = rw (ge→ltb b 0x80 (omega arith), ge→ltb b 0xc2 h, lt→ltb b 0xe0 k) refl

first_byte_of_three : (b : ℕ) → 0xe0 ≤ b → b < 0xf0 → first_byte b ≡ some (none, after_three b)
first_byte_of_three b h k =
    rw (ge→ltb b 0x80 (omega arith), ge→ltb b 0xc2 (omega arith), ge→ltb b 0xe0 h, lt→ltb b 0xf0 k)
      refl

first_byte_of_four : (b : ℕ) → 0xf0 ≤ b → b < 0xf5 → first_byte b ≡ some (none, after_four b)
first_byte_of_four b h k =
    rw
      (
        ge→ltb b 0x80 (omega arith),
        ge→ltb b 0xc2 (omega arith),
        ge→ltb b 0xe0 (omega arith),
        ge→ltb b 0xf0 h,
        lt→ltb b 0xf5 k,
      )
      refl

-- The last byte of a character.
decode_last :
    (d : Decoder) (b c : ℕ) (bytes : List ℕ)
    → d.missing ≡ 1
    → d.lowest ≤ b
    → b ≤ d.highest
    → d.so_far * 64 + (b - 0x80) ≡ c
    → decode d (b ∷ bytes) ≡ push (some c) (decode start bytes)
decode_last d b c bytes e h k f =
    decode_step d b bytes _ _ (next_byte_in d 0 b e h k)
    ∙ ap (λ x. push (some x) (decode start bytes)) f

-- A byte with others to come.
decode_middle :
    (d : Decoder) (missing b : ℕ) (bytes : List ℕ)
    → d.missing ≡ suc (suc missing)
    → d.lowest ≤ b
    → b ≤ d.highest
    → decode d (b ∷ bytes)
      ≡ decode (record start { missing = suc missing; so_far = d.so_far * 64 + (b - 0x80) }) bytes
decode_middle d missing b bytes e h k =
    decode_step d b bytes _ _ (next_byte_in d (suc missing) b e h k)

decode-encode_utf8_of_two :
    (c : ℕ) (bytes : List ℕ)
    → 0x80 ≤ c
    → c < 0x800
    → decode start ((0xc0 + c / 64) ∷ (0x80 + c % 64) ∷ bytes) ≡ push (some c) (decode start bytes)
decode-encode_utf8_of_two c bytes h k =
    decode_step _ _ _ _ _ (first_byte_of_two (0xc0 + c / 64) (omega arith) (omega arith))
    ∙ decode_last _ _ c bytes refl (omega arith) (omega arith) (omega arith)

decode-encode_utf8_of_three :
    (c : ℕ) (bytes : List ℕ)
    → 0x800 ≤ c
    → c < 0x10000
    → IsChar c
    → decode start ((0xe0 + c / 4096) ∷ (0x80 + c / 64 % 64) ∷ (0x80 + c % 64) ∷ bytes)
      ≡ push (some c) (decode start bytes)
decode-encode_utf8_of_three c bytes h k i =
    decode_step _ _ _ _ _ (first_byte_of_three (0xe0 + c / 4096) (omega arith) (omega arith))
    ∙ (decode_middle _ 0 (0x80 + c / 64 % 64) _ refl (ground arith) (ground arith)
        ∙ decode_last _ _ c bytes refl (omega arith) (omega arith) (omega arith))

decode-encode_utf8_of_four :
    (c : ℕ) (bytes : List ℕ)
    → 0x10000 ≤ c
    → IsChar c
    → decode start (
        (0xf0 + c / 262144)
        ∷ (0x80 + c / 4096 % 64)
        ∷ (0x80 + c / 64 % 64)
        ∷ (0x80 + c % 64)
        ∷ bytes)
      ≡ push (some c) (decode start bytes)
decode-encode_utf8_of_four c bytes h i =
    decode_step _ _ _ _ _ (first_byte_of_four (0xf0 + c / 262144) (omega arith) (omega arith))
    ∙ (decode_middle _ 1 (0x80 + c / 4096 % 64) _ refl (ground arith) (ground arith)
        ∙ (decode_middle _ 0 (0x80 + c / 64 % 64) _ refl (omega arith) (omega arith)
            ∙ decode_last _ _ c bytes refl (omega arith) (omega arith) (omega arith)))

decode-encode_utf8 :
    (c : ℕ) (bytes : List ℕ)
    → IsChar c
    → decode start (encode_utf8 c ++ bytes) ≡ push (some c) (decode start bytes)
decode-encode_utf8 c bytes h = elim (lt-or-ge c 0x80) [
  | inl a ↦ rw (lt→ltb c 0x80 a) (decode_step _ _ _ _ _ (first_byte_of_one c a))
  | inr a ↦ elim (lt-or-ge c 0x800) [
    | inl b ↦ rw (ge→ltb c 0x80 a, lt→ltb c 0x800 b) (decode-encode_utf8_of_two c bytes a b)
    | inr b ↦ elim (lt-or-ge c 0x10000) [
      | inl d ↦
          rw (ge→ltb c 0x80 a, ge→ltb c 0x800 b, lt→ltb c 0x10000 d)
            (decode-encode_utf8_of_three c bytes b d h)
      | inr d ↦
          rw (ge→ltb c 0x80 a, ge→ltb c 0x800 b, ge→ltb c 0x10000 d)
            (decode-encode_utf8_of_four c bytes d h)
    ]
  ]
]

-- A text of characters is read back from its bytes.
pub from_utf8-into_bytes : (t : Text) → IsText t → from_utf8 (into_bytes t) ≡ some t
unfolding from_utf8 into_bytes
from_utf8-into_bytes [] h = refl
from_utf8-into_bytes (c ∷ t) h =
    rw (decode-encode_utf8 c (into_bytes t) h.0, from_utf8-into_bytes t h.1) refl
