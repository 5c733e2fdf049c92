-- ===== src/Encoding/Stream/RoundTrip.antt =====
-- A reader of Log/WalPayloadCodec.cpp or Raft/RaftEntryCodec.cpp finds what a writer appended, and
-- what is appended behind it is left.
use stoneleaf_db.Common.{
  ℕ, ◌^◌, ◌≤◌, ◌<◌, true, some, List, ◌∷◌, ◌++◌, length, replicate, ◌≡◌, refl, arith, length-append,
}
use mathlib.Core.List.{append_assoc}
use stoneleaf_db.Common.Slices.{take-append, drop-append}
use stoneleaf_db.Common.Bytes.{write}
use stoneleaf_db.Encoding.Endian.{put_u32_be, get_u32_be, put_u64_be, get_u64_be}
use stoneleaf_db.Encoding.Endian.Laws.{get_u32_be-put_u32_be, get_u64_be-put_u64_be}
use stoneleaf_db.Encoding.Key.{Key, validate_key, type_code}
use stoneleaf_db.Encoding.Value.{Value, validate_value}
use stoneleaf_db.Net.Codec.{value_type_code}
use stoneleaf_db.Net.Codec.RoundTrip.{key_type_back, value_type_back, key_fits, value_fits}
use stoneleaf_db.Encoding.Stream.{
  out_u32, out_u64, in_u8, in_u32, in_u64, in_bytes, write_key, read_key, write_value, read_value,
}

pub get_u32_be-out_u32 :
    (value : ℕ) (rest : List ℕ) → value < 2 ^ 32 → get_u32_be (out_u32 value ++ rest) 0 ≡ value
unfolding out_u32 put_u32_be write get_u32_be
get_u32_be-out_u32 value rest h =
    ground (arith, get_u32_be-put_u32_be (replicate 4 0) 0 value (omega arith) h)

pub in_u32-out_u32 :
    (value : ℕ) (rest : List ℕ)
    → value < 2 ^ 32
    → in_u32 (out_u32 value ++ rest) ≡ some (value, rest)
unfolding in_u32 out_u32 put_u32_be write get_u32_be
in_u32-out_u32 value rest h =
    ground (arith, get_u32_be-put_u32_be (replicate 4 0) 0 value (omega arith) h)

pub in_u64-out_u64 :
    (value : ℕ) (rest : List ℕ)
    → value < 2 ^ 64
    → in_u64 (out_u64 value ++ rest) ≡ some (value, rest)
unfolding in_u64 out_u64 put_u64_be write get_u64_be
in_u64-out_u64 value rest h =
    ground (arith, get_u64_be-put_u64_be (replicate 8 0) 0 value (omega arith) h)

pub length-out_u32 : (value : ℕ) → length (out_u32 value) ≡ 4
unfolding out_u32 put_u32_be write
length-out_u32 value = refl

pub length-out_u64 : (value : ℕ) → length (out_u64 value) ≡ 8
unfolding out_u64 put_u64_be write
length-out_u64 value = refl

pub in_bytes-append :
    (xs rest : List ℕ) (count : ℕ)
    → length xs ≡ count
    → in_bytes count (xs ++ rest) ≡ some (xs, rest)
unfolding in_bytes
in_bytes-append xs rest count e =
    rw (← e) (ground (arith, length-append xs rest, take-append xs rest, drop-append xs rest))

pub read_key-write_key :
    (key : Key) (rest : List ℕ) {bytes : List ℕ}
    → write_key key ≡ some bytes
    → read_key (bytes ++ rest) ≡ some (key, rest)
unfolding write_key read_key in_u8
read_key-write_key key rest {bytes} h =
    let (valid, is) : (validate_key key ≡ true)
        × (type_code key.type ∷ out_u32 key.size ++ key.payload ≡ bytes) =
      (ground arith, ground arith) in
    let (size, small) = key_fits key valid in
    rw (← is) (
      rw (append_assoc (out_u32 key.size) key.payload rest) (
        ground (
          arith,
          in_u32-out_u32 key.size (key.payload ++ rest),
          in_bytes-append key.payload rest key.size,
          key_type_back key.type,
        )))

pub read_value-write_value :
    (value : Value) (rest : List ℕ) {bytes : List ℕ}
    → write_value value ≡ some bytes
    → read_value (bytes ++ rest) ≡ some (value, rest)
unfolding write_value read_value in_u8
read_value-write_value value rest {bytes} h =
    let (valid, is) : (validate_value value ≡ true)
        × (value_type_code value.type ∷ out_u32 value.size ++ value.payload ≡ bytes) =
      (ground arith, ground arith) in
    let (size, small) = value_fits value valid in
    rw (← is) (
      rw (append_assoc (out_u32 value.size) value.payload rest) (
        ground (
          arith,
          in_u32-out_u32 value.size (value.payload ++ rest),
          in_bytes-append value.payload rest value.size,
          value_type_back value.type,
        )))

-- A key takes five bytes at least.
pub length-write_key : (key : Key) {bytes : List ℕ} → write_key key ≡ some bytes → 5 ≤ length bytes
unfolding write_key
length-write_key key {bytes} h =
    let is : type_code key.type ∷ out_u32 key.size ++ key.payload ≡ bytes = ground arith in
    rw (← is) (omega (arith, length-append (out_u32 key.size) key.payload, length-out_u32 key.size))
