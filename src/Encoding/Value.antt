-- ===== src/Encoding/Value.antt =====
-- Value.h and encoding/ValueCodec.cpp: values as tagged payloads. The functions that the code has in
-- namespace ValueCodec stand here; an out-parameter with a `bool` answer is an `Option`.
pub mod Varint
pub mod RoundTrip
use mathlib.Core.WellFounded.{Acc}
use mathlib.Core.Logic.{dite}
use native.Mathlib.Decide.{dec_lt}
use stoneleaf_db.Common.{ℕ, ◌+◌, ◌-◌, ◌*◌, ◌/◌, ◌%◌, ◌^◌, ◌<◌, bit_and, bit_or, bit_xor, arith}
use stoneleaf_db.Common.{Bool, true, false, not, ◌&&◌, ◌||◌, Option, none, some}
use stoneleaf_db.Common.{List, [], ◌∷◌, ◌++◌, length, ltb, leb, ◌==◌, if◌then◌else◌}
use stoneleaf_db.Common.Bytes.{byte_at}
use stoneleaf_db.Common.Int.{ℤ, pos, negsuc, to_u64, to_i64}
use stoneleaf_db.Common.Order.{lt_wf}

pub data ValueType : Type 0 where
  var_uint var_int bool char : ValueType

pub record Value : Type 0 where
  pub type : ValueType
  pub size : ℕ
  pub payload : List ℕ

-- `std::variant<bool, std::uint64_t, std::int64_t, std::string>`
pub data ValueInput : Type 0 where
  of_bool : Bool → ValueInput
  of_uint64 : ℕ → ValueInput
  of_int64 : ℤ → ValueInput
  of_string : List ℕ → ValueInput

abbrev pub max_payload_size : ℕ
max_payload_size = 65535

pub shift_shrinks : (value : ℕ) → 0 < value / 2 ^ 7 → value / 2 ^ 7 < value
shift_shrinks value h = omega arith

-- The `do … while (value != 0)`, with what is in `out` so far.
encode_loop : List ℕ → (value : ℕ) → Acc ◌<◌ value → List ℕ
encode_loop out value (Acc.intro _ smaller) =
    let byte = bit_and value 0x7F in
    dite (dec_lt 0 (value / 2 ^ 7))
      (λ more.
        encode_loop (out ++ bit_or byte 0x80 ∷ []) (value / 2 ^ 7)
          (smaller _ (shift_shrinks value more)))
      (λ _. out ++ byte ∷ [])

unfoldable pub encode_varuint_bytes : ℕ → List ℕ
unfolding encode_loop lt_wf dec_lt
encode_varuint_bytes value = encode_loop [] value (lt_wf.apply value)

-- `i + 1 < bytes.size()`, where the list is what stands behind `bytes[i]`
abbrev more_bytes : List ℕ → Bool
more_bytes [] = false
more_bytes (b ∷ bs) = true

-- The loop over what is left of `bytes`; the shift is of a 64-bit word.
decode_loop : ℕ → ℕ → List ℕ → Option ℕ
decode_loop value shift [] = none
decode_loop value shift (byte ∷ rest) =
    let value' = bit_or value (bit_and byte 0x7F * 2 ^ shift % 2 ^ 64) in
    let next = decode_loop value' (shift + 7) rest in
    if leb 64 shift && not (bit_and byte 0x7F == 0)
    then none
    else if bit_and byte 0x80 == 0
    then (if more_bytes rest then none else some value')
    else if ltb 63 (shift + 7) && more_bytes rest
    then none
    else next

unfoldable pub decode_varuint_bytes : List ℕ → Option ℕ
unfolding decode_loop
decode_varuint_bytes bytes = decode_loop 0 0 bytes

-- `value >> k` of a signed number rounds down.
sar : ℤ → ℕ → ℤ
sar (pos n) k = pos (n / 2 ^ k)
sar (negsuc n) k = negsuc (n / 2 ^ k)

unfoldable pub zigzag_encode : ℤ → ℕ
unfolding sar
zigzag_encode value = bit_xor (to_u64 value * 2 % 2 ^ 64) (to_u64 (sar value 63))

unfoldable pub zigzag_decode : ℕ → ℤ
zigzag_decode value = to_i64 (bit_xor (value / 2) ((2 ^ 64 - 1 - bit_and value 1 + 1) % 2 ^ 64))

unfoldable pub make_varuint : ℕ → Value
make_varuint value =
    let bytes = encode_varuint_bytes value in
    record { type = var_uint; size = length bytes % 2 ^ 32; payload = bytes }

unfoldable pub make_varint : ℤ → Value
make_varint value =
    let bytes = encode_varuint_bytes (zigzag_encode value) in
    record { type = var_int; size = length bytes % 2 ^ 32; payload = bytes }

unfoldable pub make_bool : Bool → Value
make_bool value = record { type = bool; size = 1; payload = (if value then 1 else 0) ∷ [] }

unfoldable pub make_char : List ℕ → Value
make_char value = record { type = char; size = length value % 2 ^ 32; payload = value }

unfoldable pub encode : ValueInput → Option Value
encode (of_bool value) = some (make_bool value)
encode (of_uint64 value) = some (make_varuint value)
encode (of_int64 value) = some (make_varint value)
encode (of_string value) =
    if ltb max_payload_size (length value) then none else some (make_char value)

abbrev is_some : Option ℕ → Bool
is_some none = false
is_some (some n) = true

-- the `switch` of validate_value
validate_payload : ValueType → Value → Bool
validate_payload var_uint value = is_some (decode_varuint_bytes value.payload)
validate_payload var_int value = is_some (decode_varuint_bytes value.payload)
validate_payload bool value =
    value.size == 1 && (byte_at value.payload 0 == 0 || byte_at value.payload 0 == 1)
validate_payload char value = true

unfoldable pub validate_value : Value → Bool
unfolding validate_payload
validate_value value =
    if not (value.size == length value.payload)
    then false
    else if ltb max_payload_size value.size
    then false
    else validate_payload value.type value

-- The test of the type, then the bytes.
pub decode_varuint : Value → Option ℕ
decode_varuint value = elim value.type [ var_uint ↦ decode_varuint_bytes value.payload | _ ↦ none ]

abbrev then_zigzag : Option ℕ → Option ℤ
then_zigzag none = none
then_zigzag (some encoded) = some (zigzag_decode encoded)

pub decode_varint : Value → Option ℤ
decode_varint value = elim value.type [
  | var_int ↦ then_zigzag (decode_varuint_bytes value.payload)
  | _ ↦ none
]

abbrev as_uint64 : Option ℕ → Option ValueInput
as_uint64 none = none
as_uint64 (some n) = some (of_uint64 n)

abbrev as_int64 : Option ℤ → Option ValueInput
as_int64 none = none
as_int64 (some v) = some (of_int64 v)

-- the `switch` of decode
decode_payload : ValueType → Value → Option ValueInput
unfolding decode_varuint decode_varint
decode_payload var_uint value = as_uint64 (decode_varuint value)
decode_payload var_int value = as_int64 (decode_varint value)
decode_payload bool value = some (of_bool (byte_at value.payload 0 == 1))
decode_payload char value = some (of_string value.payload)

unfoldable pub decode : Value → Option ValueInput
unfolding decode_payload
decode value = if not (validate_value value) then none else decode_payload value.type value
