-- ===== src/Encoding/Stream.antt =====
-- The Writer and the Reader of Log/WalPayloadCodec.cpp and Raft/RaftEntryCodec.cpp, and what both
-- files write of keys and values. A function of the writer gives the bytes that it appends; a reader
-- is the list of the bytes from its offset on. `none` is an exception.
pub mod RoundTrip
use stoneleaf_db.Common.{
  ℕ, ◌+◌, Bool, true, false, not, Option, none, some, List, [], ◌∷◌, ◌++◌, length, take, drop,
  replicate, ltb, leb, if◌then◌else◌,
}
use stoneleaf_db.Encoding.Endian.{put_u32_be, get_u32_be, put_u64_be, get_u64_be}
use stoneleaf_db.Encoding.Key.{KeyType, Key, validate_key, type_code}
use stoneleaf_db.Encoding.Value.{Value, validate_value}
use stoneleaf_db.Net.Codec.{deserialize_key_type, deserialize_value_type, value_type_code}

infixl 5 ◌>>=◌
abbrev pub ◌>>=◌ {ℓ κ} : {A : Type ℓ} {B : Type κ} → Option A → (A → Option B) → Option B
none >>= f = none
some a >>= f = f a

-- `Writer::u32` and `Writer::u64`; `u8` and `bytes` append what they are given.
unfoldable pub out_u32 : ℕ → List ℕ
out_u32 value = put_u32_be (replicate 4 0) 0 value

unfoldable pub out_u64 : ℕ → List ℕ
out_u64 value = put_u64_be (replicate 8 0) 0 value

abbrev pub Reader : Type 0 → Type 0
Reader A = List ℕ → Option (A × List ℕ)

-- `require` and the read behind it
unfoldable pub in_u8 : Reader ℕ
in_u8 [] = none
in_u8 (b ∷ rest) = some (b, rest)

unfoldable pub in_u32 : Reader ℕ
in_u32 rest = if ltb (length rest) 4 then none else some (get_u32_be rest 0, drop 4 rest)

unfoldable pub in_u64 : Reader ℕ
in_u64 rest = if ltb (length rest) 8 then none else some (get_u64_be rest 0, drop 8 rest)

unfoldable pub in_bytes : ℕ → Reader (List ℕ)
in_bytes count rest =
    if ltb (length rest) count then none else some (take count rest, drop count rest)

-- `write_key` and `read_key`. A type byte that names no type fails the validation.
unfoldable pub write_key : Key → Option (List ℕ)
write_key key =
    if not (validate_key key)
    then none
    else some (type_code key.type ∷ out_u32 key.size ++ key.payload)

abbrev pub valid_key : Key → List ℕ → Option (Key × List ℕ)
valid_key key rest = if not (validate_key key) then none else some (key, rest)

unfoldable pub read_key : Reader Key
read_key rest = in_u8 rest >>= λ (code, r1). in_u32 r1 >>= λ (size, r2).
    in_bytes size r2 >>= λ (payload, r3). deserialize_key_type code >>= λ type.
    valid_key (record { type = type; size = size; payload = payload }) r3

-- `write_value` and `read_value`
unfoldable pub write_value : Value → Option (List ℕ)
write_value value =
    if not (validate_value value)
    then none
    else some (value_type_code value.type ∷ out_u32 value.size ++ value.payload)

abbrev pub valid_value : Value → List ℕ → Option (Value × List ℕ)
valid_value value rest = if not (validate_value value) then none else some (value, rest)

unfoldable pub read_value : Reader Value
read_value rest = in_u8 rest >>= λ (code, r1). in_u32 r1 >>= λ (size, r2).
    in_bytes size r2 >>= λ (payload, r3). deserialize_value_type code >>= λ type.
    valid_value (record { type = type; size = size; payload = payload }) r3
