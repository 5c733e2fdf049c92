-- ===== src/Encoding/Value/RoundTrip.antt =====
-- Decoding what encoding/ValueCodec.cpp encoded.
use stoneleaf_db.Common.{◌^◌, ◌≤◌, ◌<◌, ◌≡◌, refl, true, false, some, length, arith}
use stoneleaf_db.Common.Int.{ℤ, pos, negsuc, IsI64}
use stoneleaf_db.Encoding.Value.{Value, ValueInput, of_bool, of_uint64, of_int64, of_string}
use stoneleaf_db.Encoding.Value.{max_payload_size, encode, decode, validate_value}
use stoneleaf_db.Encoding.Value.{make_bool, make_varuint, make_varint, make_char}
use stoneleaf_db.Encoding.Value.{zigzag_encode}
use stoneleaf_db.Encoding.Value.Varint.{decode-encode_varuint, zigzag_decode-zigzag_encode}
use stoneleaf_db.Encoding.Value.Varint.{zigzag_encode-interleaved}

-- The inputs that the C++ types can hold and whose text fits a payload.
abbrev pub Fits : ValueInput → Type 0
Fits (of_bool b) = Unit {0}
Fits (of_uint64 n) = n < 2 ^ 64
Fits (of_int64 v) = IsI64 v
Fits (of_string s) = length s ≤ max_payload_size

zigzag_encode-lt : (v : ℤ) → IsI64 v → zigzag_encode v < 2 ^ 64
zigzag_encode-lt (pos n) h = omega (arith, zigzag_encode-interleaved (pos n) h)
zigzag_encode-lt (negsuc n) h = omega (arith, zigzag_encode-interleaved (negsuc n) h)

-- Every value input whose integers fit 64 bits and whose text is at most 65535 bytes long is
-- encoded, to a valid value, and decoding that value gives the input back.
pub encode-decode_value :
    (input : ValueInput)
    → Fits input
    → (value : Value) × (encode input ≡ some value)
      × (validate_value value ≡ true)
      × (decode value ≡ some input)
unfolding encode decode validate_value make_bool make_varuint make_varint make_char
encode-decode_value (of_bool true) h = (make_bool true, refl, refl, refl)
encode-decode_value (of_bool false) h = (make_bool false, refl, refl, refl)
encode-decode_value (of_uint64 n) h = (
  make_varuint n,
  refl,
  ground (arith, decode-encode_varuint n h),
  ground (arith, decode-encode_varuint n h),
)
encode-decode_value (of_int64 v) h =
    let small = zigzag_encode-lt v h in
    (
      make_varint v,
      refl,
      ground (arith, decode-encode_varuint (zigzag_encode v) small),
      ground
          (arith, decode-encode_varuint (zigzag_encode v) small, zigzag_decode-zigzag_encode v h),
    )
encode-decode_value (of_string s) h = (make_char s, ground arith, ground arith, ground arith)
