-- ===== src/Encoding/Endian/Laws.antt =====
-- What the big-endian accessors of encoding/Endian.cpp do, as arithmetic, and how they compose.
use stoneleaf_db.Common.{ℕ, zero, suc, ◌+◌, ◌-◌, ◌*◌, ◌/◌, ◌%◌, ◌^◌, ◌≤◌, ◌<◌, bit_and}
use stoneleaf_db.Common.{◌≡◌, ◌∙◌, ◌⊎◌, List, [], ◌∷◌, length, arith}
use stoneleaf_db.Common.Bits.{and_mask, or_high}
use stoneleaf_db.Common.Bytes.{IsByte, byte_at, write, byte_at-write, length-write}
use stoneleaf_db.Encoding.Endian.{octet, put_u32_be, get_u32_be, put_u64_be, get_u64_be}
use stoneleaf_db.Encoding.Endian.{put_u16_be, get_u16_be}

low_octet : (value : ℕ) → bit_and value 0xFF ≡ value % 256
low_octet = and_mask 8

octet-shr : (value k : ℕ) → octet value k ≡ value / 2 ^ k % 256
octet-shr value k = and_mask 8 (value / 2 ^ k)

-- The bytes of a big-endian number, as a sum.
pub bytes_u32 :
    (in_ : List ℕ) (off : ℕ)
    → IsByte (byte_at in_ (off + 1))
    → IsByte (byte_at in_ (off + 2))
    → IsByte (byte_at in_ (off + 3))
    → get_u32_be in_ off
      ≡ byte_at in_ (off + 0) * 2 ^ 24
        + byte_at in_ (off + 1) * 2 ^ 16
        + byte_at in_ (off + 2) * 2 ^ 8
        + byte_at in_ (off + 3)
unfolding get_u32_be
bytes_u32 in_ off h1 h2 h3 =
    let b0 = byte_at in_ (off + 0) in
    let b1 = byte_at in_ (off + 1) in
    let b2 = byte_at in_ (off + 2) in
    let b3 = byte_at in_ (off + 3) in
    ground (
      arith,
      or_high 24 b0 (b1 * 2 ^ 16),
      or_high 16 (b0 * 2 ^ 8 + b1) (b2 * 2 ^ 8),
      or_high 8 (b0 * 2 ^ 16 + b1 * 2 ^ 8 + b2) b3,
    )

pub bytes_u64 :
    (in_ : List ℕ) (off : ℕ)
    → ((i : ℕ) → i < 8 → IsByte (byte_at in_ (off + i)))
    → get_u64_be in_ off
      ≡ byte_at in_ (off + 0) * 2 ^ 56
        + byte_at in_ (off + 1) * 2 ^ 48
        + byte_at in_ (off + 2) * 2 ^ 40
        + byte_at in_ (off + 3) * 2 ^ 32
        + byte_at in_ (off + 4) * 2 ^ 24
        + byte_at in_ (off + 5) * 2 ^ 16
        + byte_at in_ (off + 6) * 2 ^ 8
        + byte_at in_ (off + 7)
unfolding get_u64_be
bytes_u64 in_ off h =
    let b0 = byte_at in_ (off + 0) in
    let b1 = byte_at in_ (off + 1) in
    let b2 = byte_at in_ (off + 2) in
    let b3 = byte_at in_ (off + 3) in
    let b4 = byte_at in_ (off + 4) in
    let b5 = byte_at in_ (off + 5) in
    let b6 = byte_at in_ (off + 6) in
    let b7 = byte_at in_ (off + 7) in
    let s1 = b0 * 2 ^ 8 + b1 in
    let s2 = s1 * 2 ^ 8 + b2 in
    let s3 = s2 * 2 ^ 8 + b3 in
    let s4 = s3 * 2 ^ 8 + b4 in
    let s5 = s4 * 2 ^ 8 + b5 in
    let s6 = s5 * 2 ^ 8 + b6 in
    ground (
      arith,
      h 1 (omega arith),
      h 2 (omega arith),
      h 3 (omega arith),
      h 4 (omega arith),
      h 5 (omega arith),
      h 6 (omega arith),
      h 7 (omega arith),
      or_high 56 b0 (b1 * 2 ^ 48),
      or_high 48 s1 (b2 * 2 ^ 40),
      or_high 40 s2 (b3 * 2 ^ 32),
      or_high 32 s3 (b4 * 2 ^ 24),
      or_high 24 s4 (b5 * 2 ^ 16),
      or_high 16 s5 (b6 * 2 ^ 8),
      or_high 8 s6 b7,
    )

-- What a read within, and outside, the bytes just written finds.
read_back :
    (out : List ℕ) (off : ℕ) (bs : List ℕ) (i : ℕ)
    → off + length bs ≤ length out
    → i < length bs
    → byte_at (write out off bs) (off + i) ≡ byte_at bs i
read_back out off bs i h lt =
    let e : off + i - off ≡ i = omega arith in
    byte_at-write out off bs (off + i) h ∙ rw e (ground arith)

module _ (out : List ℕ) (off value : ℕ) where
  -- A 32-bit number is read back from where it was written.
  pub get_u32_be-put_u32_be :
      off + 4 ≤ length out → value < 2 ^ 32 → get_u32_be (put_u32_be out off value) off ≡ value
  unfolding put_u32_be
  get_u32_be-put_u32_be fits small =
      let bs : List ℕ = octet value 24 ∷ octet value 16 ∷ octet value 8 ∷ bit_and value 0xFF ∷ [] in
      ground (
        arith,
        bytes_u32 (write out off bs) off,
        read_back out off bs 0 fits,
        read_back out off bs 1 fits,
        read_back out off bs 2 fits,
        read_back out off bs 3 fits,
        octet-shr value 24,
        octet-shr value 16,
        octet-shr value 8,
        low_octet value,
      )

  octets_u64 : List ℕ
  octets_u64 =
      octet value 56
      ∷ octet value 48
      ∷ octet value 40
      ∷ octet value 32
      ∷ octet value 24
      ∷ octet value 16
      ∷ octet value 8
      ∷ bit_and value 0xFF
      ∷ []

  octets_u64-IsByte : (i : ℕ) → IsByte (byte_at octets_u64 i)
  unfolding octets_u64
  octets_u64-IsByte zero = omega (arith, octet-shr value 56)
  octets_u64-IsByte (suc zero) = omega (arith, octet-shr value 48)
  octets_u64-IsByte (suc (suc zero)) = omega (arith, octet-shr value 40)
  octets_u64-IsByte (suc (suc (suc zero))) = omega (arith, octet-shr value 32)
  octets_u64-IsByte (suc (suc (suc (suc zero)))) = omega (arith, octet-shr value 24)
  octets_u64-IsByte (suc (suc (suc (suc (suc zero))))) = omega (arith, octet-shr value 16)
  octets_u64-IsByte (suc (suc (suc (suc (suc (suc zero)))))) = omega (arith, octet-shr value 8)
  octets_u64-IsByte (suc (suc (suc (suc (suc (suc (suc zero))))))) = omega (arith, low_octet value)
  octets_u64-IsByte (suc (suc (suc (suc (suc (suc (suc (suc i)))))))) = omega arith

  -- A number of 64 bits that is written into a buffer with eight bytes of room is read back from
  -- there.
  pub get_u64_be-put_u64_be :
      off + 8 ≤ length out → value < 2 ^ 64 → get_u64_be (put_u64_be out off value) off ≡ value
  unfolding put_u64_be octets_u64
  get_u64_be-put_u64_be fits small = ground (
    arith,
    bytes_u64 (write out off octets_u64) off
        (λ i h. rw (read_back out off octets_u64 i fits h) (octets_u64-IsByte i)),
    read_back out off octets_u64 0 fits,
    read_back out off octets_u64 1 fits,
    read_back out off octets_u64 2 fits,
    read_back out off octets_u64 3 fits,
    read_back out off octets_u64 4 fits,
    read_back out off octets_u64 5 fits,
    read_back out off octets_u64 6 fits,
    read_back out off octets_u64 7 fits,
    octet-shr value 56,
    octet-shr value 48,
    octet-shr value 40,
    octet-shr value 32,
    octet-shr value 24,
    octet-shr value 16,
    octet-shr value 8,
    low_octet value,
  )

  -- A 16-bit number is read back from where it was written.
  pub get_u16_be-put_u16_be :
      off + 2 ≤ length out → value < 2 ^ 16 → get_u16_be (put_u16_be out off value) off ≡ value
  unfolding put_u16_be get_u16_be
  get_u16_be-put_u16_be fits small =
      let bs : List ℕ = octet value 8 ∷ bit_and value 0xFF ∷ [] in
      ground (
        arith,
        or_high 8 (octet value 8) (bit_and value 0xFF),
        read_back out off bs 0 fits,
        read_back out off bs 1 fits,
        octet-shr value 8,
        low_octet value,
      )

  -- The length of the buffer never changes.
  pub length-put_u32_be : length (put_u32_be out off value) ≡ length out
  unfolding put_u32_be
  length-put_u32_be = length-write out off _

  pub length-put_u64_be : length (put_u64_be out off value) ≡ length out
  unfolding put_u64_be
  length-put_u64_be = length-write out off _

  pub length-put_u16_be : length (put_u16_be out off value) ≡ length out
  unfolding put_u16_be
  length-put_u16_be = length-write out off _

  -- Bytes outside the number stay.
  pub put_u32_be-outside :
      (i : ℕ)
      → off + 4 ≤ length out
      → (i < off) ⊎ (off + 4 ≤ i)
      → byte_at (put_u32_be out off value) i ≡ byte_at out i
  unfolding put_u32_be
  put_u32_be-outside i fits away = ground (
    arith,
    byte_at-write out off
        (octet value 24 ∷ octet value 16 ∷ octet value 8 ∷ bit_and value 0xFF ∷ []) i,
  )

  pub put_u64_be-outside :
      (i : ℕ)
      → off + 8 ≤ length out
      → (i < off) ⊎ (off + 8 ≤ i)
      → byte_at (put_u64_be out off value) i ≡ byte_at out i
  unfolding put_u64_be octets_u64
  put_u64_be-outside i fits away = ground (arith, byte_at-write out off octets_u64 i)

-- A read depends on its bytes only.
module _ (a b : List ℕ) (off : ℕ) where
  pub get_u32_be-ext :
      ((i : ℕ) → off ≤ i → i < off + 4 → byte_at a i ≡ byte_at b i)
      → get_u32_be a off ≡ get_u32_be b off
  unfolding get_u32_be
  get_u32_be-ext h = cc (
    h (off + 0) (omega arith) (omega arith),
    h (off + 1) (omega arith) (omega arith),
    h (off + 2) (omega arith) (omega arith),
    h (off + 3) (omega arith) (omega arith),
  )

  pub get_u64_be-ext :
      ((i : ℕ) → off ≤ i → i < off + 8 → byte_at a i ≡ byte_at b i)
      → get_u64_be a off ≡ get_u64_be b off
  unfolding get_u64_be
  get_u64_be-ext h = cc (
    h (off + 0) (omega arith) (omega arith),
    h (off + 1) (omega arith) (omega arith),
    h (off + 2) (omega arith) (omega arith),
    h (off + 3) (omega arith) (omega arith),
    h (off + 4) (omega arith) (omega arith),
    h (off + 5) (omega arith) (omega arith),
    h (off + 6) (omega arith) (omega arith),
    h (off + 7) (omega arith) (omega arith),
  )
