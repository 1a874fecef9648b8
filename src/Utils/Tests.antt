-- ===== src/Utils/Tests.antt =====
-- The conversions of src/utils.rs at small arguments.
use pgnats.Common.{◌≡◌, refl, none, some, [], ◌∷◌}
use pgnats.Common.Int.{negsuc}
use pgnats.Text.Utf8.{from_utf8, into_bytes}
use pgnats.Utils.Handles.{pack_oid_dsmh_to_i64}

-- The largest OID makes a negative argument.
packed_negative : pack_oid_dsmh_to_i64 0xffff_ffff 0xffff_ffff ≡ negsuc 0
unfolding pack_oid_dsmh_to_i64
packed_negative = refl

three_bytes : into_bytes (0x20ac ∷ []) ≡ 0xe2 ∷ 0x82 ∷ 0xac ∷ []
unfolding into_bytes
three_bytes = refl

four_bytes : from_utf8 (0xf0 ∷ 0x9f ∷ 0x98 ∷ 0x80 ∷ []) ≡ some (0x1f600 ∷ [])
unfolding from_utf8
four_bytes = refl

overlong : from_utf8 (0xc0 ∷ 0x80 ∷ []) ≡ none
unfolding from_utf8
overlong = refl

surrogate : from_utf8 (0xed ∷ 0xa0 ∷ 0x80 ∷ []) ≡ none
unfolding from_utf8
surrogate = refl

cut_off : from_utf8 (0xe2 ∷ 0x82 ∷ []) ≡ none
unfolding from_utf8
cut_off = refl
