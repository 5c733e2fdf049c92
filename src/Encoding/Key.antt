-- ===== src/Encoding/Key.antt =====
-- Key.h and encoding/KeyCodec.cpp: keys as order-preserving byte strings. The functions that the
-- code has in namespace KeyCodec stand here.
pub mod RoundTrip
pub mod Lex
pub mod Order
use stoneleaf_db.Common.{ℕ, zero, suc, ◌+◌, ◌%◌, ◌^◌, min, bit_xor, Bool, true, false, ◌&&◌, ◌||◌}
use stoneleaf_db.Common.{Option, none, some, List, [], ◌∷◌, length, replicate}
use stoneleaf_db.Common.{ltb, ◌==◌, if◌then◌else◌, not}
use stoneleaf_db.Common.Bytes.{byte_at}
use stoneleaf_db.Common.Int.{ℤ, pos, negsuc, to_u64, to_i64}
use stoneleaf_db.Encoding.Endian.{put_u64_be, get_u64_be}

pub data KeyType : Type 0 where
  bool uint64 int64 string bytes : KeyType

pub record Key : Type 0 where
  pub type : KeyType
  pub size : ℕ
  pub payload : List ℕ

-- `std::variant<bool, std::uint64_t, std::int64_t, std::string, std::vector<char>>`
pub data KeyInput : Type 0 where
  of_bool : Bool → KeyInput
  of_uint64 : ℕ → KeyInput
  of_int64 : ℤ → KeyInput
  of_string : List ℕ → KeyInput
  of_bytes : List ℕ → KeyInput

abbrev pub max_payload_size : ℕ
max_payload_size = 65535

-- `static_cast<std::uint8_t>(key.type)`
abbrev pub type_code : KeyType → ℕ
type_code bool = 0
type_code uint64 = 1
type_code int64 = 2
type_code string = 3
type_code bytes = 4

unfoldable pub make_bool : Bool → Key
make_bool value = record { type = bool; size = 1; payload = (if value then 1 else 0) ∷ [] }

unfoldable pub make_uint64 : ℕ → Key
make_uint64 value = record { type = uint64; size = 8; payload = put_u64_be (replicate 8 0) 0 value }

unfoldable pub make_int64 : ℤ → Key
make_int64 value = record {
  type = int64;
  size = 8;
  payload = put_u64_be (replicate 8 0) 0 (bit_xor (to_u64 value) (2 ^ 63));
}

unfoldable pub make_string : List ℕ → Key
make_string value = record { type = string; size = length value % 2 ^ 32; payload = value }

unfoldable pub make_bytes : List ℕ → Key
make_bytes value = record { type = bytes; size = length value % 2 ^ 32; payload = value }

-- `std::visit` over the alternatives of the variant
unfoldable pub encode : KeyInput → Option Key
encode (of_bool value) = some (make_bool value)
encode (of_uint64 value) = some (make_uint64 value)
encode (of_int64 value) = some (make_int64 value)
encode (of_string value) =
    if ltb max_payload_size (length value) then none else some (make_string value)
encode (of_bytes value) =
    if ltb max_payload_size (length value) then none else some (make_bytes value)

-- the `switch` of validate_key
validate_payload : KeyType → Key → Bool
validate_payload bool key =
    key.size == 1 && (byte_at key.payload 0 == 0 || byte_at key.payload 0 == 1)
validate_payload uint64 key = key.size == 8
validate_payload int64 key = key.size == 8
validate_payload string key = true
validate_payload bytes key = true

unfoldable pub validate_key : Key → Bool
unfolding validate_payload
validate_key key =
    if not (key.size == length key.payload)
    then false
    else if ltb max_payload_size key.size
    then false
    else validate_payload key.type key

-- the `switch` of decode
decode_payload : KeyType → List ℕ → KeyInput
decode_payload bool payload = of_bool (byte_at payload 0 == 1)
decode_payload uint64 payload = of_uint64 (get_u64_be payload 0)
decode_payload int64 payload = of_int64 (to_i64 (bit_xor (get_u64_be payload 0) (2 ^ 63)))
decode_payload string payload = of_string payload
decode_payload bytes payload = of_bytes payload

unfoldable pub decode : Key → Option KeyInput
unfolding decode_payload
decode key = if not (validate_key key) then none else some (decode_payload key.type key.payload)

-- The loop of compare_bytes: `rounds` more bytes from index `i`; `none` once it runs to its end.
unfoldable pub compare_loop : ℕ → ℕ → List ℕ → List ℕ → Option ℤ
compare_loop zero i lhs rhs = none
compare_loop (suc rounds) i lhs rhs =
    let rest = compare_loop rounds (i + 1) lhs rhs in
    if ltb (byte_at lhs i) (byte_at rhs i)
    then some (negsuc 0)
    else if ltb (byte_at rhs i) (byte_at lhs i)
    then some (pos 1)
    else rest

unfoldable pub compare_sizes : ℕ → ℕ → ℤ
compare_sizes lhs rhs = if ltb lhs rhs then negsuc 0 else if ltb rhs lhs then pos 1 else pos 0

unfoldable pub compare_bytes : List ℕ → List ℕ → ℤ
unfolding compare_loop compare_sizes
compare_bytes lhs rhs =
    let min_size = if ltb (length lhs) (length rhs) then length lhs else length rhs in
    elim (compare_loop min_size 0 lhs rhs) [
      | some answer ↦ answer
      | none ↦ compare_sizes (length lhs) (length rhs)
    ]

unfoldable pub compare : Key → Key → ℤ
compare lhs rhs =
    if not (type_code lhs.type == type_code rhs.type)
    then (if ltb (type_code lhs.type) (type_code rhs.type) then negsuc 0 else pos 1)
    else compare_bytes lhs.payload rhs.payload

unfoldable pub is_zero : ℤ → Bool
is_zero (pos n) = n == 0
is_zero (negsuc n) = false

unfoldable pub equal : Key → Key → Bool
unfolding is_zero
equal lhs rhs = is_zero (compare lhs rhs)
