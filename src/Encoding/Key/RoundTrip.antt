-- ===== src/Encoding/Key/RoundTrip.antt =====
-- Decoding what encoding/KeyCodec.cpp encoded.
use stoneleaf_db.Common.{ℕ, ◌-◌, ◌^◌, ◌≤◌, ◌<◌, bit_xor, true, false, ◌≡◌, refl}
use stoneleaf_db.Common.{some, length, replicate, arith}
use stoneleaf_db.Common.Bits.{xor_top}
use stoneleaf_db.Common.Int.{ℤ, IsI64, to_u64, to_i64, to_u64-lt, to_i64-to_u64}
use stoneleaf_db.Encoding.Endian.{put_u64_be, get_u64_be}
use stoneleaf_db.Encoding.Endian.Laws.{get_u64_be-put_u64_be, length-put_u64_be}
use stoneleaf_db.Encoding.Key.{KeyInput, of_bool, of_uint64, of_int64, of_string, of_bytes, Key}
use stoneleaf_db.Encoding.Key.{max_payload_size, encode, decode, validate_key}
use stoneleaf_db.Encoding.Key.{make_bool, make_uint64, make_int64, make_string, make_bytes}

-- The inputs that the C++ types can hold and whose text or bytes fit a payload.
abbrev pub Fits : KeyInput → Type 0
Fits (of_bool b) = Unit {0}
Fits (of_uint64 n) = n < 2 ^ 64
Fits (of_int64 v) = IsI64 v
Fits (of_string s) = length s ≤ max_payload_size
Fits (of_bytes s) = length s ≤ max_payload_size

flip_twice : (w : ℕ) → w < 2 ^ 64 → bit_xor (bit_xor w (2 ^ 63)) (2 ^ 63) ≡ w
flip_twice w h = ground (arith, xor_top 63 w, xor_top 63 (w - 2 ^ 63))

-- The eight bytes that a fixed-width key holds.
payload_back : (w : ℕ) → w < 2 ^ 64 → get_u64_be (put_u64_be (replicate 8 0) 0 w) 0 ≡ w
payload_back w h = get_u64_be-put_u64_be (replicate 8 0) 0 w (omega arith) h

pub xor_top-lt : (w : ℕ) → w < 2 ^ 64 → bit_xor w (2 ^ 63) < 2 ^ 64
xor_top-lt w h = ground (arith, xor_top 63 w, xor_top 63 (w - 2 ^ 63))

biased : (v : ℤ) → IsI64 v → to_i64 (bit_xor (bit_xor (to_u64 v) (2 ^ 63)) (2 ^ 63)) ≡ v
biased v h = rw (flip_twice (to_u64 v) (to_u64-lt v)) (to_i64-to_u64 v h)

-- Every key input whose integers fit 64 bits and whose text or bytes are at most 65535 long is
-- encoded, to a valid key, and decoding that key gives the input back.
pub encode-decode :
    (input : KeyInput)
    → Fits input
    → (key : Key) × (encode input ≡ some key)
      × (validate_key key ≡ true)
      × (decode key ≡ some input)
unfolding encode decode validate_key make_bool make_uint64 make_int64 make_string make_bytes
encode-decode (of_bool true) h = (make_bool true, refl, refl, refl)
encode-decode (of_bool false) h = (make_bool false, refl, refl, refl)
encode-decode (of_uint64 n) h = (
  make_uint64 n,
  refl,
  ground (arith, length-put_u64_be (replicate 8 0) 0 n),
  ground (arith, length-put_u64_be (replicate 8 0) 0 n, payload_back n),
)
encode-decode (of_int64 v) h =
    let w = bit_xor (to_u64 v) (2 ^ 63) in
    let small : w < 2 ^ 64 = xor_top-lt (to_u64 v) (to_u64-lt v) in
    (
      make_int64 v,
      refl,
      ground (arith, length-put_u64_be (replicate 8 0) 0 w),
      ground (arith, length-put_u64_be (replicate 8 0) 0 w, payload_back w small, biased v h),
    )
encode-decode (of_string s) h = (make_string s, ground arith, ground arith, ground arith)
encode-decode (of_bytes s) h = (make_bytes s, ground arith, ground arith, ground arith)
