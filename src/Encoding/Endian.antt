-- ===== src/Encoding/Endian.antt =====
-- encoding/Endian.cpp. `out` and `in` are a buffer and an offset into it; the shifts, masks and
-- ors are those of the code.
pub mod Laws
pub mod Apart
use stoneleaf_db.Common.{ℕ, ◌+◌, ◌*◌, ◌/◌, ◌^◌, bit_and, bit_or, List, [], ◌∷◌}
use stoneleaf_db.Common.Bytes.{byte_at, write}

-- `value >> k` and `value << k` on a word that is wide enough for the result
abbrev pub shr : ℕ → ℕ → ℕ
shr value k = value / 2 ^ k

abbrev pub shl : ℕ → ℕ → ℕ
shl value k = value * 2 ^ k

-- `static_cast<char>((value >> k) & 0xFF)`
abbrev pub octet : ℕ → ℕ → ℕ
octet value k = bit_and (shr value k) 0xFF

unfoldable pub put_u32_be : List ℕ → ℕ → ℕ → List ℕ
put_u32_be out off value =
    write out off (octet value 24 ∷ octet value 16 ∷ octet value 8 ∷ bit_and value 0xFF ∷ [])

unfoldable pub get_u32_be : List ℕ → ℕ → ℕ
get_u32_be in_ off =
    bit_or
      (bit_or (bit_or (shl (byte_at in_ (off + 0)) 24) (shl (byte_at in_ (off + 1)) 16))
        (shl (byte_at in_ (off + 2)) 8))
      (byte_at in_ (off + 3))

unfoldable pub put_u64_be : List ℕ → ℕ → ℕ → List ℕ
put_u64_be out off value = write out off (
    octet value 56
    ∷ octet value 48
    ∷ octet value 40
    ∷ octet value 32
    ∷ octet value 24
    ∷ octet value 16
    ∷ octet value 8
    ∷ bit_and value 0xFF
    ∷ [])

unfoldable pub get_u64_be : List ℕ → ℕ → ℕ
get_u64_be in_ off =
    bit_or
      (bit_or
        (bit_or
          (bit_or
            (bit_or
              (bit_or (bit_or (shl (byte_at in_ (off + 0)) 56) (shl (byte_at in_ (off + 1)) 48))
                (shl (byte_at in_ (off + 2)) 40))
              (shl (byte_at in_ (off + 3)) 32))
            (shl (byte_at in_ (off + 4)) 24))
          (shl (byte_at in_ (off + 5)) 16))
        (shl (byte_at in_ (off + 6)) 8))
      (byte_at in_ (off + 7))

unfoldable pub put_u16_be : List ℕ → ℕ → ℕ → List ℕ
put_u16_be out off value = write out off (octet value 8 ∷ bit_and value 0xFF ∷ [])

unfoldable pub get_u16_be : List ℕ → ℕ → ℕ
get_u16_be in_ off = bit_or (shl (byte_at in_ (off + 0)) 8) (byte_at in_ (off + 1))

unfoldable pub put_u8_be : List ℕ → ℕ → ℕ → List ℕ
put_u8_be out off value = write out off (bit_and value 0xFF ∷ [])

unfoldable pub get_u8_be : List ℕ → ℕ → ℕ
get_u8_be in_ off = byte_at in_ (off + 0)
