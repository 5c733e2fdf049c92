-- ===== src/Net/Codec.antt =====
-- client/NetCodec.cpp: a key or a value as a type byte, a 32-bit size in network byte order, and the
-- payload. `htonl` and memcpy of its result write the bytes of the number in big-endian order.
pub mod RoundTrip
use stoneleaf_db.Common.{ℕ, ◌+◌, ◌-◌, Bool, true, false, not, Option, none, some, List, []}
use stoneleaf_db.Common.{length, set, drop, replicate, ltb, ◌==◌, if◌then◌else◌}
use stoneleaf_db.Common.Bytes.{byte_at, write}
use stoneleaf_db.Encoding.Endian.{put_u32_be, get_u32_be}
use stoneleaf_db.Encoding.Key.{KeyType, Key, validate_key, type_code}
use stoneleaf_db.Encoding.Value.{ValueType, var_uint, var_int, char, Value, validate_value}

abbrev pub type_offset : ℕ
type_offset = 0

abbrev pub payload_size_offset : ℕ
payload_size_offset = 1

abbrev pub header_size : ℕ
header_size = 5

unfoldable pub deserialize_key_type : ℕ → Option KeyType
deserialize_key_type type =
    if type == 0
    then some KeyType.bool
    else if type == 1
    then some KeyType.uint64
    else if type == 2
    then some KeyType.int64
    else if type == 3
    then some KeyType.string
    else if type == 4
    then some KeyType.bytes
    else none

-- `static_cast<std::uint8_t>(value.type)`
abbrev pub value_type_code : ValueType → ℕ
value_type_code var_uint = 0
value_type_code var_int = 1
value_type_code ValueType.bool = 2
value_type_code char = 3

unfoldable pub deserialize_value_type : ℕ → Option ValueType
deserialize_value_type type =
    if type == 0
    then some var_uint
    else if type == 1
    then some var_int
    else if type == 2
    then some ValueType.bool
    else if type == 3
    then some char
    else none

-- The buffer that both serializers fill.
unfoldable pub frame : ℕ → ℕ → List ℕ → List ℕ
frame type size payload =
    let buffer = set (replicate (header_size + size) 0) type_offset type in
    let sized = put_u32_be buffer payload_size_offset size in
    if size == 0 then sized else write sized header_size payload

-- NetCodec::serialize_key
unfoldable pub serialize_key : Key → Option (List ℕ)
serialize_key key =
    if not (validate_key key) then none else some (frame (type_code key.type) key.size key.payload)

abbrev checked_key : Key → Option Key
checked_key key = if not (validate_key key) then none else some key

abbrev key_of : Option KeyType → ℕ → List ℕ → Option Key
key_of none size payload = none
key_of (some type) size payload =
    checked_key (record { type = type; size = size; payload = payload })

-- NetCodec::deserialize_key
unfoldable pub deserialize_key : List ℕ → Option Key
deserialize_key buffer =
    if ltb (length buffer) header_size
    then none
    else if not (get_u32_be buffer payload_size_offset == length buffer - header_size)
    then none
    else key_of (deserialize_key_type (byte_at buffer type_offset))
        (get_u32_be buffer payload_size_offset) (drop header_size buffer)

-- NetCodec::serialize_value
unfoldable pub serialize_value : Value → Option (List ℕ)
serialize_value value =
    if not (validate_value value)
    then none
    else some (frame (value_type_code value.type) value.size value.payload)

abbrev checked_value : Value → Option Value
checked_value value = if not (validate_value value) then none else some value

abbrev value_of : Option ValueType → ℕ → List ℕ → Option Value
value_of none size payload = none
value_of (some type) size payload =
    checked_value (record { type = type; size = size; payload = payload })

-- NetCodec::deserialize_value
unfoldable pub deserialize_value : List ℕ → Option Value
deserialize_value buffer =
    if ltb (length buffer) header_size
    then none
    else if not (get_u32_be buffer payload_size_offset == length buffer - header_size)
    then none
    else value_of (deserialize_value_type (byte_at buffer type_offset))
        (get_u32_be buffer payload_size_offset) (drop header_size buffer)
