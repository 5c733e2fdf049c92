-- ===== src/Pages/Crc32c.antt =====
-- encoding/Crc32c.cpp on 32-bit words.
use stoneleaf_db.Common.{
  ℕ, zero, suc, ◌-◌, ◌/◌, ◌%◌, ◌^◌, ◌<◌, List, [], ◌∷◌, bit_and, bit_xor, arith,
}
use stoneleaf_db.Common.Bits.{xor-lt, and-lt}

-- `(crc >> 1) ^ (0x82F63B78u & (0u - (crc & 1u)))`
abbrev crc_bit : ℕ → ℕ
crc_bit crc = bit_xor (crc / 2) (bit_and 0x82F63B78 ((2 ^ 32 - bit_and crc 1) % 2 ^ 32))

unfoldable pub crc_bits : ℕ → ℕ → ℕ
crc_bits zero crc = crc
crc_bits (suc n) crc = crc_bits n (crc_bit crc)

-- `for (char value : data)`
unfoldable pub crc_loop : List ℕ → ℕ → ℕ
crc_loop [] crc = crc
crc_loop (value ∷ data_) crc = crc_loop data_ (crc_bits 8 (bit_xor crc (value % 2 ^ 8)))

unfoldable pub crc32c : List ℕ → ℕ
crc32c data_ = bit_xor (crc_loop data_ 0xFFFFFFFF) 0xFFFFFFFF

crc_bits-lt : (n crc : ℕ) → crc < 2 ^ 32 → crc_bits n crc < 2 ^ 32
unfolding crc_bits
crc_bits-lt zero crc h = h
crc_bits-lt (suc n) crc h =
    crc_bits-lt n (crc_bit crc) (xor-lt 32 (crc / 2) _ (omega arith) (and-lt 32 _ _ (omega arith)))

crc_loop-lt : (data_ : List ℕ) (crc : ℕ) → crc < 2 ^ 32 → crc_loop data_ crc < 2 ^ 32
unfolding crc_loop
crc_loop-lt [] crc h = h
crc_loop-lt (value ∷ data_) crc h =
    crc_loop-lt data_ (crc_bits 8 (bit_xor crc (value % 2 ^ 8)))
      (crc_bits-lt 8 (bit_xor crc (value % 2 ^ 8)) (xor-lt 32 crc (value % 2 ^ 8) h (omega arith)))

-- A checksum fits the four bytes that hold it.
pub crc32c-lt : (data_ : List ℕ) → crc32c data_ < 2 ^ 32
unfolding crc32c
crc32c-lt data_ =
    xor-lt 32 (crc_loop data_ 0xFFFFFFFF) 0xFFFFFFFF (crc_loop-lt data_ 0xFFFFFFFF (omega arith))
      (omega arith)
