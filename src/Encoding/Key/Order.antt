-- ===== src/Encoding/Key/Order.antt =====
-- KeyCodec::compare is a total order of keys, and on encoded integers it is the order of the numbers.
use stoneleaf_db.Common.{ℕ, ◌-◌, ◌/◌, ◌%◌, ◌^◌, ◌<◌, bit_and, bit_xor, ◌≡◌, refl, ap, ◌∙◌}
use stoneleaf_db.Common.{◌↔◌, List, length, replicate, All, arith, true}
use stoneleaf_db.Common.Bits.{and_mask, xor_top}
use stoneleaf_db.Common.Bytes.{IsByte, write}
use stoneleaf_db.Common.Int.{ℤ, pos, negsuc, sign_of, sign_ofℤ, IsI64, to_u64, to_u64-lt}
use stoneleaf_db.Encoding.Endian.{put_u64_be, octet}
use stoneleaf_db.Encoding.Key.{Key, KeyType, compare, compare_bytes, equal, make_uint64, make_int64}
use stoneleaf_db.Encoding.Key.{type_code, bool, uint64, int64, string, bytes}
use stoneleaf_db.Encoding.Key.RoundTrip.{xor_top-lt}
use stoneleaf_db.Encoding.Key.Lex.{
  lex, compare_bytes-lex, opposite, lex-opposite, lex_self, lex-zero,
}
use stoneleaf_db.Encoding.Key.Lex.{lex_trans, spelled, lex-spelled}

type_code-injective : (s t : KeyType) → type_code s ≡ type_code t → s ≡ t
type_code-injective bool bool h = refl
type_code-injective uint64 uint64 h = refl
type_code-injective int64 int64 h = refl
type_code-injective string string h = refl
type_code-injective bytes bytes h = refl
type_code-injective _ _ h = absurd (omega arith)

-- Exchanging the keys of a comparison turns before into after, after into before, and leaves equal
-- keys equal.
pub compare-opposite : (lhs rhs : Key) → compare rhs lhs ≡ opposite (compare lhs rhs)
unfolding compare
compare-opposite lhs rhs = ground (
  arith,
  compare_bytes-lex lhs.payload rhs.payload,
  compare_bytes-lex rhs.payload lhs.payload,
  lex-opposite lhs.payload rhs.payload,
)

-- Where a key comes before a second one, and that before a third one, the first comes before the
-- third.
pub compare_trans :
    (a b c : Key) → compare a b ≡ negsuc 0 → compare b c ≡ negsuc 0 → compare a c ≡ negsuc 0
unfolding compare
compare_trans a b c h k = ground (
  arith,
  compare_bytes-lex a.payload b.payload,
  compare_bytes-lex b.payload c.payload,
  compare_bytes-lex a.payload c.payload,
  lex_trans a.payload b.payload c.payload,
)

-- Two keys are equal for the code exactly where they have the same type and the same bytes.
pub equal_iff :
    (lhs rhs : Key) → (equal lhs rhs ≡ true) ↔ ((lhs.type ≡ rhs.type) × (lhs.payload ≡ rhs.payload))
unfolding equal compare
equal_iff lhs rhs = (
  λ h. (
    type_code-injective lhs.type rhs.type (ground arith),
    lex-zero lhs.payload rhs.payload (ground (arith, compare_bytes-lex lhs.payload rhs.payload)),
  ),
  λ h. ground (
    arith,
    ap type_code h.0,
    compare_bytes-lex lhs.payload rhs.payload,
    ap (lex lhs.payload) h.1,
    lex_self lhs.payload,
  ),
)

octet-shr : (value k : ℕ) → octet value k ≡ value / 2 ^ k % 256
octet-shr value k = and_mask 8 (value / 2 ^ k)

low_octet : (value : ℕ) → bit_and value 0xFF ≡ value % 256
low_octet = and_mask 8

abbrev payload_of : ℕ → List ℕ
payload_of w = put_u64_be (replicate 8 0) 0 w

-- The payload of a fixed-width key spells the word that it holds.
payload_spells :
    (w : ℕ)
    → w < 2 ^ 64
    → All IsByte (payload_of w) × (length (payload_of w) ≡ 8) × (spelled (payload_of w) ≡ w)
unfolding put_u64_be write
payload_spells w h =
    let e0 = octet-shr w 56 in
    let e1 = octet-shr w 48 in
    let e2 = octet-shr w 40 in
    let e3 = octet-shr w 32 in
    let e4 = octet-shr w 24 in
    let e5 = octet-shr w 16 in
    let e6 = octet-shr w 8 in let e7 = low_octet w in (omega arith, refl, omega arith)

compare_words :
    (a b : ℕ) → a < 2 ^ 64 → b < 2 ^ 64 → compare_bytes (payload_of a) (payload_of b) ≡ sign_of a b
compare_words a b ha hb =
    let (ba, la, sa) = payload_spells a ha in
    let (bb, lb, sb) = payload_spells b hb in
    compare_bytes-lex (payload_of a) (payload_of b)
    ∙ lex-spelled (payload_of a) (payload_of b) ba bb (omega arith)
    ∙ rw (sa, sb)

-- Keys of unsigned integers compare as the integers.
pub compare-make_uint64 :
    (a b : ℕ) → a < 2 ^ 64 → b < 2 ^ 64 → compare (make_uint64 a) (make_uint64 b) ≡ sign_of a b
unfolding compare make_uint64
compare-make_uint64 a b ha hb = compare_words a b ha hb

-- With the sign bit flipped, words are in the order of the signed numbers.
bias_order :
    (a b : ℤ)
    → IsI64 a
    → IsI64 b
    → sign_of (bit_xor (to_u64 a) (2 ^ 63)) (bit_xor (to_u64 b) (2 ^ 63)) ≡ sign_ofℤ a b
unfolding to_u64
bias_order (pos a) (pos b) ha hb = ground (arith, xor_top 63 a, xor_top 63 b)
bias_order (pos a) (negsuc b) ha hb = ground (arith, xor_top 63 a, xor_top 63 (2 ^ 63 - 1 - b))
bias_order (negsuc a) (pos b) ha hb = ground (arith, xor_top 63 b, xor_top 63 (2 ^ 63 - 1 - a))
bias_order (negsuc a) (negsuc b) ha hb =
    ground (arith, xor_top 63 (2 ^ 63 - 1 - a), xor_top 63 (2 ^ 63 - 1 - b))

-- Keys of signed 64-bit integers compare as the integers do, negative ones first.
pub compare-make_int64 :
    (a b : ℤ) → IsI64 a → IsI64 b → compare (make_int64 a) (make_int64 b) ≡ sign_ofℤ a b
unfolding compare make_int64
compare-make_int64 a b ha hb =
    compare_words _ _ (xor_top-lt (to_u64 a) (to_u64-lt a)) (xor_top-lt (to_u64 b) (to_u64-lt b))
    ∙ bias_order a b ha hb
