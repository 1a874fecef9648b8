-- ===== src/Utils/Handles.antt =====
-- `pack_oid_dsmh_to_i64` and `unpack_i64_to_oid_dsmh` of src/utils.rs: a database OID and the
-- handle of a shared memory segment in the one `i64` that a background worker is given.
use Prim.Native.Nat.{bit_and, bit_or}
use pgnats.Common.{ℕ, ◌+◌, ◌*◌, ◌/◌, ◌%◌, ◌^◌, ◌<◌, ◌≡◌, ap, ◌∙◌, arith}
use pgnats.Common.Int.{ℤ, as_i64, as_u64, IsI64, as_u64-as_i64, as_i64-as_u64, as_u64_lt}
use pgnats.Utils.Bits.{or_fields, and_mask}

-- `<<` of a `u64` drops what leaves the word.
unfoldable pub pack_oid_dsmh_to_i64 : ℕ → ℕ → ℤ
pack_oid_dsmh_to_i64 oid dsmh = as_i64 (bit_or (oid * 2 ^ 32 % 2 ^ 64) dsmh)

-- `(val >> 32) as u32` and `(val & 0xFFFF_FFFF) as u32`
halves : ℕ → ℕ × ℕ
halves val = (val / 2 ^ 32 % 2 ^ 32, bit_and val 0xffff_ffff % 2 ^ 32)

pub unpack_i64_to_oid_dsmh : ℤ → ℕ × ℕ
unfolding halves
unpack_i64_to_oid_dsmh value = halves (as_u64 value)

word :
    (oid dsmh : ℕ)
    → oid < 2 ^ 32
    → dsmh < 2 ^ 32
    → bit_or (oid * 2 ^ 32 % 2 ^ 64) dsmh ≡ oid * 2 ^ 32 + dsmh
word oid dsmh h k =
    ap (λ (a : ℕ). bit_or a dsmh) {x = oid * 2 ^ 32 % 2 ^ 64} {y = oid * 2 ^ 32} (omega arith)
    ∙ or_fields 32 oid dsmh k

halves_of : (val : ℕ) → halves val ≡ (val / 2 ^ 32 % 2 ^ 32, val % 2 ^ 32 % 2 ^ 32)
unfolding halves
halves_of val = ap (λ (b : ℕ). (val / 2 ^ 32 % 2 ^ 32, b % 2 ^ 32)) (and_mask 32 val)

-- Where the OID and the handle are 32-bit numbers, unpack_i64_to_oid_dsmh gives back what
-- pack_oid_dsmh_to_i64 packed.
pub unpack-pack :
    (oid dsmh : ℕ)
    → oid < 2 ^ 32
    → dsmh < 2 ^ 32
    → unpack_i64_to_oid_dsmh (pack_oid_dsmh_to_i64 oid dsmh) ≡ (oid, dsmh)
unfolding pack_oid_dsmh_to_i64 unpack_i64_to_oid_dsmh
unpack-pack oid dsmh h k =
    ap halves (
      ap (λ v. as_u64 (as_i64 v)) (word oid dsmh h k)
      ∙ as_u64-as_i64 (oid * 2 ^ 32 + dsmh) (omega arith))
    ∙ halves_of (oid * 2 ^ 32 + dsmh)
    ∙ ground arith

-- Every 64-bit signed number is the packing of the two numbers that it unpacks to.
pub pack-unpack :
    (value : ℤ)
    → IsI64 value
    → let (oid, dsmh) = unpack_i64_to_oid_dsmh value in pack_oid_dsmh_to_i64 oid dsmh ≡ value
unfolding pack_oid_dsmh_to_i64 unpack_i64_to_oid_dsmh
pack-unpack value h =
    let v : ℕ = as_u64 value in
    let bound : v < 2 ^ 64 = as_u64_lt value h in
    ap (λ p. pack_oid_dsmh_to_i64 p.0 p.1) {x = halves v} {y = (v / 2 ^ 32, v % 2 ^ 32)}
      (halves_of v ∙ ground arith)
    ∙ ap as_i64 (word (v / 2 ^ 32) (v % 2 ^ 32) (omega arith) (omega arith) ∙ omega arith)
    ∙ as_i64-as_u64 value h
