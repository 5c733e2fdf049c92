-- ===== src/Encoding/Value/Varint.antt =====
-- The unsigned varint and ZigZag of encoding/ValueCodec.cpp.
use mathlib.Core.WellFounded.{Acc}
use mathlib.Core.List.{append_assoc}
use native.Mathlib.Nat.{pow-suc}
use native.Mathlib.Numerals.{towards_suc}
use stoneleaf_db.Common.{
  ℕ, zero, suc, ◌+◌, ◌-◌, ◌*◌, ◌/◌, ◌%◌, ◌^◌, ◌<◌, ◌≤◌, bit_and, bit_or, arith,
}
use stoneleaf_db.Common.{Bool-cases, inl, inr, ◌≡◌, ap, some}
use stoneleaf_db.Common.{List, [], ◌∷◌, ◌++◌, length, ltb, if◌then◌else◌}
use stoneleaf_db.Common.Bits.{
  and_mask, and_split, or_low_high, and-zero, xor_ones, xor-zero, zero-or,
}
use stoneleaf_db.Common.Int.{ℤ, pos, negsuc, IsI64, to_u64, to_i64}
use stoneleaf_db.Common.Order.{lt_wf}
use stoneleaf_db.Encoding.Value.{
  encode_loop, encode_varuint_bytes, decode_loop, decode_varuint_bytes,
}
use stoneleaf_db.Encoding.Value.{zigzag_encode, zigzag_decode}

-- The groups of seven bits of a value below 128 ^ (k + 1), lowest group first.
groups : ℕ → ℕ → List ℕ
groups zero w = w ∷ []
groups (suc k) w =
    let rest = groups k (w / 128) in if ltb w 128 then w ∷ [] else (w % 128 + 128) ∷ rest

seven_bits : (w : ℕ) → bit_and w 0x7F ≡ w % 128
seven_bits = and_mask 7

-- The byte with the continuation bit set over seven bits.
more_bit : (g : ℕ) → g < 128 → bit_or g 0x80 ≡ g + 128
more_bit g h = or_low_high 7 1 g h

top_bit : (g : ℕ) → g < 128 → (bit_and g 0x80 ≡ 0) × (bit_and (g + 128) 0x80 ≡ 128)
top_bit g h = (
  ground (arith, and_split 7 0 g 1 0, and-zero g),
  ground (arith, and_split 7 1 g 1 0, and-zero g),
)

length-groups : (k w : ℕ) → length (groups k w) ≤ k + 1
unfolding groups
length-groups zero w = omega arith
length-groups (suc k) w = ground (arith, length-groups k (w / 128))

encode_loop-groups :
    (k : ℕ) (out : List ℕ) (value : ℕ) (w : Acc ◌<◌ value)
    → value < 128 ^ suc k
    → encode_loop out value w ≡ out ++ groups k value
unfolding encode_loop groups
encode_loop-groups zero out value (Acc.intro _ smaller) h = ground (arith, seven_bits value)
encode_loop-groups (suc k) out value (Acc.intro _ smaller) h = grind (
  arith,
  seven_bits value,
  more_bit (value % 128),
  λ (w : Acc ◌<◌ (value / 128)).
      encode_loop-groups k (out ++ (value % 128 + 128) ∷ []) (value / 128) w
        (omega (arith, pow-suc 128 (suc k))),
  append_assoc out ((value % 128 + 128) ∷ []) (groups k (value / 128)),
)

two_pow_seven : (s : ℕ) → 2 ^ (s + 7) ≡ 128 * 2 ^ s
two_pow_seven s = simp towards_suc (omega arith)

-- The lowest group of `w` and the rest of it, at bit `s`.
split_at : (w s : ℕ) → w * 2 ^ s ≡ w % 128 * 2 ^ s + w / 128 * 2 ^ (s + 7)
split_at w s = omega (
  arith,
  ap (λ (t : ℕ). t * 2 ^ s) (low_and_rest w),
  ap (λ (t : ℕ). w / 128 * t) (two_pow_seven s),
)
  where
    low_and_rest : (w : ℕ) → w ≡ w / 128 * 128 + w % 128
    low_and_rest w = omega arith

-- One group joins the bits below it.
add_group :
    (acc g s : ℕ)
    → acc < 2 ^ s
    → acc + g * 2 ^ s < 2 ^ 64
    → bit_or acc (g * 2 ^ s % 2 ^ 64) ≡ acc + g * 2 ^ s
add_group acc g s h fits =
    let e : g * 2 ^ s % 2 ^ 64 ≡ g * 2 ^ s = omega arith in rw e (or_low_high s g acc h)

group_room : (acc g p : ℕ) → acc < p → g < 128 → acc + g * p < 128 * p
group_room acc g p h k = grind arith

last_group :
    (w acc s : ℕ)
    → w < 128
    → s ≤ 63
    → acc < 2 ^ s
    → acc + w * 2 ^ s < 2 ^ 64
    → decode_loop acc s (w ∷ []) ≡ some (acc + w * 2 ^ s)
unfolding decode_loop
last_group w acc s hw hs h fits = ground (arith, seven_bits w, top_bit w, add_group acc w s)

inner_group :
    (g acc s : ℕ) (rest : List ℕ)
    → g < 128
    → s ≤ 56
    → acc < 2 ^ s
    → acc + g * 2 ^ s < 2 ^ 64
    → decode_loop acc s ((g + 128) ∷ rest) ≡ decode_loop (acc + g * 2 ^ s) (s + 7) rest
unfolding decode_loop
inner_group g acc s rest hg hs h fits =
    ground (arith, seven_bits (g + 128), top_bit g, add_group acc g s)

-- `w` is what is still to be read, and counts from bit `s` on; the fuel of `groups` goes with it.
decode_loop-groups :
    (k j s w acc : ℕ)
    → j + k ≡ 9
    → s ≡ 7 * j
    → w < 128 ^ suc k
    → acc < 2 ^ s
    → acc + w * 2 ^ s < 2 ^ 64
    → decode_loop acc s (groups k w) ≡ some (acc + w * 2 ^ s)
unfolding groups
decode_loop-groups zero j s w acc hj hs hw h fits =
    last_group w acc s (omega arith) (omega arith) h fits
decode_loop-groups (suc k) j s w acc hj hs hw h fits = elim (Bool-cases (ltb w 128)) [
  | inl small ↦ rw small (last_group w acc s (ground arith) (omega arith) h fits)
  | inr large ↦ ground (
    arith,
    inner_group (w % 128) acc s (groups k (w / 128)),
    split_at w s,
    two_pow_seven s,
    group_room acc (w % 128) (2 ^ s),
    pow-suc 128 (suc k),
    decode_loop-groups k (j + 1) (s + 7) (w / 128) (acc + w % 128 * 2 ^ s),
  )
]

encode_varuint-groups : (value : ℕ) → value < 2 ^ 64 → encode_varuint_bytes value ≡ groups 9 value
unfolding encode_varuint_bytes
encode_varuint-groups value h = encode_loop-groups 9 [] value (lt_wf.apply value) (omega arith)

decode_varuint-groups :
    (value : ℕ) → value < 2 ^ 64 → decode_varuint_bytes (groups 9 value) ≡ some value
unfolding decode_varuint_bytes
decode_varuint-groups value h = ground (arith, decode_loop-groups 9 0 0 value 0)

-- A number of 64 bits is encoded in at most ten bytes, and decoding them gives the number back.
pub decode-encode_varuint :
    (value : ℕ)
    → value < 2 ^ 64
    → (length (encode_varuint_bytes value) ≤ 10)
      × (decode_varuint_bytes (encode_varuint_bytes value) ≡ some value)
decode-encode_varuint value h =
    rw (encode_varuint-groups value h) (length-groups 9 value, decode_varuint-groups value h)

-- ZigZag interleaves the numbers from 0 on and the numbers from -1 down.
abbrev pub interleaved : ℤ → ℕ
interleaved (pos n) = 2 * n
interleaved (negsuc n) = 2 * n + 1

-- On signed 64-bit integers the shifts and the exclusive or of the ZigZag code give 2 n for n, and
-- 2 n + 1 for -(n + 1).
pub zigzag_encode-interleaved : (value : ℤ) → IsI64 value → zigzag_encode value ≡ interleaved value
unfolding zigzag_encode to_u64
zigzag_encode-interleaved (pos n) h = ground (arith, xor-zero (2 * n))
zigzag_encode-interleaved (negsuc n) h = ground (arith, xor_ones 64 (2 ^ 64 - 2 - 2 * n))

zigzag_decode-interleaved : (value : ℤ) → IsI64 value → zigzag_decode (interleaved value) ≡ value
unfolding zigzag_decode to_i64
zigzag_decode-interleaved (pos n) h = ground (arith, and_mask 1 (2 * n), xor-zero n)
zigzag_decode-interleaved (negsuc n) h = ground (arith, and_mask 1 (2 * n + 1), xor_ones 64 n)

pub zigzag_decode-zigzag_encode :
    (value : ℤ) → IsI64 value → zigzag_decode (zigzag_encode value) ≡ value
zigzag_decode-zigzag_encode value h =
    rw (zigzag_encode-interleaved value h) (zigzag_decode-interleaved value h)

-- Nine continuation bytes without payload, then `last`.
abbrev pub padded : ℕ → List ℕ
padded last = 0x80 ∷ 0x80 ∷ 0x80 ∷ 0x80 ∷ 0x80 ∷ 0x80 ∷ 0x80 ∷ 0x80 ∷ 0x80 ∷ last ∷ []

-- Nine continuation bytes without payload and a tenth byte below 128 are accepted, and all bits of
-- the tenth byte but the lowest are dropped.
pub decode_varuint-padded :
    (last : ℕ) → last < 128 → decode_varuint_bytes (padded last) ≡ some (last % 2 * 2 ^ 63)
unfolding decode_varuint_bytes
decode_varuint-padded last h =
    ground (arith, seven_bits last, top_bit last, zero-or (last * 2 ^ 63 % 2 ^ 64))
