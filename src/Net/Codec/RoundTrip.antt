-- ===== src/Net/Codec/RoundTrip.antt =====
-- What client/NetCodec.cpp reads back from the bytes that it wrote.
use mathlib.Core.Path.{subst}
use stoneleaf_db.Common.{ℕ, suc, ◌+◌, ◌^◌, ◌<◌, true, false, some}
use stoneleaf_db.Common.{
  List, [], ◌∷◌, ◌++◌, length, set, replicate, ◌==◌, ◌≡◌, refl, ap, ◌∙◌, arith, bit_and,
}
use stoneleaf_db.Common.Bytes.{write}
use stoneleaf_db.Encoding.Endian.{put_u32_be, get_u32_be, octet}
use stoneleaf_db.Encoding.Endian.Laws.{get_u32_be-put_u32_be}
use stoneleaf_db.Encoding.Key.{KeyType, Key, validate_key, type_code}
use stoneleaf_db.Encoding.Value.{ValueType, Value, validate_value}
use stoneleaf_db.Net.Codec.{
  frame, value_type_code, serialize_key, deserialize_key, serialize_value, deserialize_value,
  deserialize_key_type, deserialize_value_type,
}

set_end : (xs r : List ℕ) (b : ℕ) → set (xs ++ 0 ∷ r) (length xs) b ≡ (xs ++ b ∷ []) ++ r
set_end [] r b = refl
set_end (x ∷ xs) r b = ap (λ l. x ∷ l) (set_end xs r b)

length_end : (xs : List ℕ) (b : ℕ) → length (xs ++ b ∷ []) ≡ length xs + 1
length_end [] b = refl
length_end (x ∷ xs) b = omega (arith, length_end xs b)

append_end : (xs : List ℕ) (b : ℕ) (p : List ℕ) → (xs ++ b ∷ []) ++ p ≡ xs ++ b ∷ p
append_end [] b p = refl
append_end (x ∷ xs) b p = ap (λ l. x ∷ l) (append_end xs b p)

-- A payload fills the zeros behind a header.
write_end :
    (xs p : List ℕ) (off : ℕ)
    → off ≡ length xs
    → write (xs ++ replicate (length p) 0) off p ≡ xs ++ p
unfolding write
write_end xs [] off e = refl
write_end xs (b ∷ p) off e =
    rw (e, set_end xs (replicate (length p) 0) b)
      (write_end (xs ++ b ∷ []) p (length xs + 1) (rw (length_end xs b)) ∙ append_end xs b p)

-- The bytes of a frame.
abbrev framed : ℕ → ℕ → List ℕ → List ℕ
framed type size payload =
    type ∷ octet size 24 ∷ octet size 16 ∷ octet size 8 ∷ bit_and size 0xFF ∷ payload

zeros : (n z : ℕ) → replicate (5 + n) z ≡ z ∷ z ∷ z ∷ z ∷ z ∷ replicate n z
zeros n z = let e : 5 + n ≡ suc (suc (suc (suc (suc n)))) = omega arith in rw e

frame-framed :
    (type : ℕ) (payload : List ℕ)
    → frame type (length payload) payload ≡ framed type (length payload) payload
unfolding frame put_u32_be write
frame-framed type [] = refl
frame-framed type (b ∷ payload) =
    let full : (suc (length payload) == 0) ≡ false = ground arith in
    rw (zeros (suc (length payload)) 0, full)
      (write_end (framed type (suc (length payload)) []) (b ∷ payload) 5 refl)

framed-size :
    (type size : ℕ) (payload : List ℕ)
    → size < 2 ^ 32
    → get_u32_be (framed type size payload) 1 ≡ size
unfolding put_u32_be write get_u32_be
framed-size type size payload h =
    get_u32_be-put_u32_be (type ∷ replicate 4 0) 1 size (omega arith) h

pub key_type_back : (type : KeyType) → deserialize_key_type (type_code type) ≡ some type
unfolding deserialize_key_type
key_type_back KeyType.bool = refl
key_type_back KeyType.uint64 = refl
key_type_back KeyType.int64 = refl
key_type_back KeyType.string = refl
key_type_back KeyType.bytes = refl

pub value_type_back : (type : ValueType) → deserialize_value_type (value_type_code type) ≡ some type
unfolding deserialize_value_type
value_type_back ValueType.var_uint = refl
value_type_back ValueType.var_int = refl
value_type_back ValueType.bool = refl
value_type_back ValueType.char = refl

pub key_fits :
    (key : Key) → validate_key key ≡ true → (length key.payload ≡ key.size) × (key.size < 2 ^ 32)
unfolding validate_key
key_fits key h = ground arith

pub value_fits :
    (value : Value)
    → validate_value value ≡ true
    → (length value.payload ≡ value.size) × (value.size < 2 ^ 32)
unfolding validate_value
value_fits value h = ground arith

key_read :
    (key : Key)
    → validate_key key ≡ true
    → length key.payload ≡ key.size
    → key.size < 2 ^ 32
    → deserialize_key (framed (type_code key.type) key.size key.payload) ≡ some key
unfolding deserialize_key
key_read key valid e h =
    ground (arith, framed-size (type_code key.type) key.size key.payload h, key_type_back key.type)

value_read :
    (value : Value)
    → validate_value value ≡ true
    → length value.payload ≡ value.size
    → value.size < 2 ^ 32
    → deserialize_value (framed (value_type_code value.type) value.size value.payload) ≡ some value
unfolding deserialize_value
value_read value valid e h = ground (
  arith,
  framed-size (value_type_code value.type) value.size value.payload h,
  value_type_back value.type,
)

frame_is :
    (type size : ℕ) (payload : List ℕ)
    → length payload ≡ size
    → frame type size payload ≡ framed type size payload
frame_is type size payload e =
    subst (λ n. frame type n payload ≡ framed type n payload) e (frame-framed type payload)

-- A valid key is written, and the bytes that are written are read back as that key.
pub deserialize_key-serialize_key :
    (key : Key)
    → validate_key key ≡ true
    → (buffer : List ℕ) × (serialize_key key ≡ some buffer) × (deserialize_key buffer ≡ some key)
unfolding serialize_key
deserialize_key-serialize_key key valid =
    let (e, h) = key_fits key valid in
    (
      framed (type_code key.type) key.size key.payload,
      rw (valid, frame_is (type_code key.type) key.size key.payload e),
      key_read key valid e h,
    )

-- A valid value is written, and the bytes that are written are read back as that value.
pub deserialize_value-serialize_value :
    (value : Value)
    → validate_value value ≡ true
    → (buffer : List ℕ) × (serialize_value value ≡ some buffer)
      × (deserialize_value buffer ≡ some value)
unfolding serialize_value
deserialize_value-serialize_value value valid =
    let (e, h) = value_fits value valid in
    (
      framed (value_type_code value.type) value.size value.payload,
      rw (valid, frame_is (value_type_code value.type) value.size value.payload e),
      value_read value valid e h,
    )
