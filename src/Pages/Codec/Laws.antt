-- ===== src/Pages/Codec/Laws.antt =====
-- Pages that V2PageCodec.cpp initializes.
use stoneleaf_db.Common.{ℕ, ◌^◌, ◌≤◌, ◌<◌, ◌≡◌, ◌∙◌, refl, sym, ap, inl, inr, some, true}
use stoneleaf_db.Common.{List, [], ◌∷◌, length, replicate, length-replicate, arith, eq_self}
use stoneleaf_db.Common.Bytes.{byte_at, write, byte_at-write, length-write}
use stoneleaf_db.Encoding.Endian.{put_u32_be, get_u32_be, put_u64_be, get_u64_be}
use stoneleaf_db.Encoding.Endian.Laws.{
  get_u32_be-put_u32_be, get_u64_be-put_u64_be, length-put_u32_be, length-put_u64_be,
  put_u32_be-outside, put_u64_be-outside,
}
use stoneleaf_db.Encoding.Endian.Apart.{
  get_u32_be-put_u32_be_apart, get_u32_be-put_u64_be_apart, get_u64_be-put_u32_be_apart,
}
use stoneleaf_db.Pages.Crc32c.{crc32c, crc32c-lt}
use stoneleaf_db.Pages.Codec.{
  page_size, page_magic, page_magic_offset, is_valid_page_kind, clear_checksum, compute_checksum,
  update_checksum,
}
use stoneleaf_db.Pages.Codec.{
  initialize, page_num, page_lsn, page_kind, has_magic, validate_structure, validate, success,
}

-- A checksum is a word of 32 bits.
compute_checksum-lt : (page : List ℕ) → compute_checksum page < 2 ^ 32
unfolding compute_checksum
compute_checksum-lt page = crc32c-lt (clear_checksum page)

get_or_ext :
    (a b : List ℕ)
    → length a ≡ length b
    → ((i : ℕ) → i < length a → byte_at a i ≡ byte_at b i)
    → a ≡ b
get_or_ext [] [] e h = refl
get_or_ext [] (y ∷ b) e h = absurd (omega arith)
get_or_ext (x ∷ a) [] e h = absurd (omega arith)
get_or_ext (x ∷ a) (y ∷ b) e h =
    let first : x ≡ y = h 0 (omega arith) in
    rw (first, get_or_ext a b (omega arith) (λ i p. h (Prim.Native.Nat.suc i) (omega arith)))

byte_cleared :
    (page : List ℕ) (value i : ℕ)
    → 20 ≤ length page
    → byte_at (clear_checksum (put_u32_be page 16 value)) i ≡ byte_at (clear_checksum page) i
byte_cleared page value i h = ground (
  arith,
  length-put_u32_be page 16 value,
  byte_at-write (put_u32_be page 16 value) 16 (0 ∷ 0 ∷ 0 ∷ 0 ∷ []) i,
  byte_at-write page 16 (0 ∷ 0 ∷ 0 ∷ 0 ∷ []) i,
  put_u32_be-outside page 16 value i,
)

-- The checksum does not depend on the bytes that hold it.
cleared_same :
    (page : List ℕ) (value : ℕ)
    → 20 ≤ length page
    → clear_checksum (put_u32_be page 16 value) ≡ clear_checksum page
cleared_same page value h =
    get_or_ext (clear_checksum (put_u32_be page 16 value)) (clear_checksum page)
      (length-write (put_u32_be page 16 value) 16 (replicate 4 0)
        ∙ (length-put_u32_be page 16 value ∙ sym (length-write page 16 (replicate 4 0))))
      (λ i p. byte_cleared page value i h)

module _ (page : List ℕ) (num kind : ℕ) (room : length page ≡ page_size) (small : num < 2 ^ 32)
    (valid : is_valid_page_kind kind ≡ true) where
  abbrev magic : List ℕ
  magic = write (replicate (length page) 0) page_magic_offset page_magic

  abbrev numbered : List ℕ
  numbered = put_u32_be magic 4 num

  abbrev stamped : List ℕ
  stamped = put_u64_be numbered 8 0

  abbrev kinded : List ℕ
  kinded = put_u32_be stamped 20 kind

  abbrev final : List ℕ
  final = put_u32_be kinded 16 (compute_checksum kinded)

  l0 : length magic ≡ 4096
  l0 =
      length-write (replicate (length page) 0) page_magic_offset page_magic
      ∙ (length-replicate (length page) 0 ∙ room)

  l1 : length numbered ≡ 4096
  l1 = length-put_u32_be magic 4 num ∙ l0

  l2 : length stamped ≡ 4096
  l2 = length-put_u64_be numbered 8 0 ∙ l1

  l3 : length kinded ≡ 4096
  l3 = length-put_u32_be stamped 20 kind ∙ l2

  l4 : length final ≡ 4096
  l4 = length-put_u32_be kinded 16 (compute_checksum kinded) ∙ l3

  kind_small : kind < 2 ^ 32
  unfolding is_valid_page_kind
  kind_small = ground arith

  num_back : get_u32_be final 4 ≡ num
  num_back =
      get_u32_be-put_u32_be_apart kinded 16 (compute_checksum kinded) 4 (omega (arith, l3))
        (inl (omega arith))
      ∙ (get_u32_be-put_u32_be_apart stamped 20 kind 4 (omega (arith, l2)) (inl (omega arith))
          ∙ (get_u32_be-put_u64_be_apart numbered 8 0 4 (omega (arith, l1)) (inl (omega arith))
              ∙ get_u32_be-put_u32_be magic 4 num (omega (arith, l0)) small))

  lsn_back : get_u64_be final 8 ≡ 0
  lsn_back =
      get_u64_be-put_u32_be_apart kinded 16 (compute_checksum kinded) 8 (omega (arith, l3))
        (inl (omega arith))
      ∙ (get_u64_be-put_u32_be_apart stamped 20 kind 8 (omega (arith, l2)) (inl (omega arith))
          ∙ get_u64_be-put_u64_be numbered 8 0 (omega (arith, l1)) (omega arith))

  kind_back : get_u32_be final 20 ≡ kind
  kind_back =
      get_u32_be-put_u32_be_apart kinded 16 (compute_checksum kinded) 20 (omega (arith, l3))
        (inr (omega arith))
      ∙ get_u32_be-put_u32_be stamped 20 kind (omega (arith, l2)) kind_small

  sum_back : get_u32_be final 16 ≡ compute_checksum final
  unfolding compute_checksum
  sum_back =
      get_u32_be-put_u32_be kinded 16 (compute_checksum kinded) (omega (arith, l3))
        (compute_checksum-lt kinded)
      ∙ ap crc32c (sym (cleared_same kinded (compute_checksum kinded) (omega (arith, l3))))

  magic_byte : (i : ℕ) → i < 4 → byte_at final i ≡ byte_at page_magic i
  magic_byte i p =
      put_u32_be-outside kinded 16 (compute_checksum kinded) i (omega (arith, l3))
        (inl (omega arith))
      ∙ (put_u32_be-outside stamped 20 kind i (omega (arith, l2)) (inl (omega arith))
          ∙ (put_u64_be-outside numbered 8 0 i (omega (arith, l1)) (inl (omega arith))
              ∙ (put_u32_be-outside magic 4 num i (omega (arith, l0)) (inl (omega arith))
                  ∙ ground (
                    arith,
                    length-replicate {A = ℕ} (length page) 0,
                    byte_at-write (replicate (length page) 0) 0 page_magic i,
                  ))))

  magic_back : has_magic final ≡ true
  unfolding has_magic
  magic_back = ground (
    arith,
    magic_byte 0 (omega arith),
    magic_byte 1 (omega arith),
    magic_byte 2 (omega arith),
    magic_byte 3 (omega arith),
  )

  structure_back : validate_structure final ≡ success
  unfolding validate_structure page_kind
  structure_back = ground (arith, l4, magic_back, kind_back)

  -- A page of 4096 bytes that is initialized with a page number of 32 bits and one of the four
  -- kinds passes the validation with its checksum, and its number, its page LSN and its kind are
  -- read back as the number, 0 and the kind.
  pub validate-initialize :
      (p : List ℕ) × (initialize page num kind ≡ some p)
      × (validate p ≡ success)
      × (page_num p ≡ num)
      × (page_lsn p ≡ 0)
      × (page_kind p ≡ kind)
  unfolding initialize validate page_num page_lsn page_kind update_checksum
  validate-initialize = (
    final,
    rw valid refl,
    rw (structure_back, sum_back, eq_self (compute_checksum final)),
    num_back,
    lsn_back,
    kind_back,
  )
