-- ===== src/Pages/Codec.antt =====
-- V2PageCodec.cpp with the layout of V2PageCodec.h and PageV2.h. A page is a list of bytes; a page
-- kind is the 32-bit number that a `static_cast` gives, and `none` a failed assertion.
pub mod Laws
use stoneleaf_db.Common.{ℕ, Bool, true, false, not, ◌&&◌, ◌||◌, Option, none, some, List, [], ◌∷◌}
use stoneleaf_db.Common.{length, replicate, ◌==◌, if◌then◌else◌}
use stoneleaf_db.Common.Bytes.{byte_at, write}
use stoneleaf_db.Encoding.Endian.{put_u32_be, get_u32_be, put_u64_be, get_u64_be}
use stoneleaf_db.Pages.Crc32c.{crc32c}

abbrev pub page_size : ℕ
page_size = 4096

abbrev pub page_magic_offset : ℕ
page_magic_offset = 0

abbrev pub page_num_offset : ℕ
page_num_offset = 4

abbrev pub page_lsn_offset : ℕ
page_lsn_offset = 8

abbrev pub page_checksum_offset : ℕ
page_checksum_offset = 16

abbrev pub page_kind_offset : ℕ
page_kind_offset = 20

-- "SLPG"
abbrev pub page_magic : List ℕ
page_magic = 0x53 ∷ 0x4C ∷ 0x50 ∷ 0x47 ∷ []

pub data PageCodecResult : Type 0 where
  success invalid_size invalid_magic invalid_page_kind checksum_mismatch : PageCodecResult

-- DatabaseMetadata, Freelist, BTreeInternal or BTreeLeaf
unfoldable pub is_valid_page_kind : ℕ → Bool
is_valid_page_kind kind = kind == 1 || kind == 2 || kind == 3 || kind == 4

abbrev pub clear_checksum : List ℕ → List ℕ
clear_checksum page = write page page_checksum_offset (replicate 4 0)

unfoldable pub compute_checksum : List ℕ → ℕ
compute_checksum page = crc32c (clear_checksum page)

unfoldable pub update_checksum : List ℕ → List ℕ
update_checksum page = put_u32_be page page_checksum_offset (compute_checksum page)

unfoldable pub initialize : List ℕ → ℕ → ℕ → Option (List ℕ)
initialize page page_num kind =
    if not (is_valid_page_kind kind)
    then none
    else let cleared = replicate (length page) 0 in
      let magic = write cleared page_magic_offset page_magic in
      let numbered = put_u32_be magic page_num_offset page_num in
      let stamped = put_u64_be numbered page_lsn_offset 0 in
      some (update_checksum (put_u32_be stamped page_kind_offset kind))

unfoldable pub page_num : List ℕ → ℕ
page_num page = get_u32_be page page_num_offset

unfoldable pub page_lsn : List ℕ → ℕ
page_lsn page = get_u64_be page page_lsn_offset

unfoldable pub page_kind : List ℕ → ℕ
page_kind page = get_u32_be page page_kind_offset

unfoldable pub set_page_lsn : List ℕ → ℕ → List ℕ
set_page_lsn page lsn = put_u64_be page page_lsn_offset lsn

unfoldable pub set_page_kind : List ℕ → ℕ → Option (List ℕ)
set_page_kind page kind =
    if not (is_valid_page_kind kind) then none else some (put_u32_be page page_kind_offset kind)

-- `std::equal` over the four magic bytes
unfoldable pub has_magic : List ℕ → Bool
has_magic page =
    byte_at page 0 == 0x53
    && byte_at page 1 == 0x4C
    && byte_at page 2 == 0x50
    && byte_at page 3 == 0x47

unfoldable pub validate_structure : List ℕ → PageCodecResult
validate_structure page =
    if not (length page == page_size)
    then invalid_size
    else if not (has_magic page)
    then invalid_magic
    else if not (is_valid_page_kind (page_kind page))
    then invalid_page_kind
    else success

abbrev pub after_structure : PageCodecResult → Bool → PageCodecResult
after_structure success matches = if not matches then checksum_mismatch else success
after_structure failure matches = failure

unfoldable pub validate : List ℕ → PageCodecResult
validate page =
    after_structure (validate_structure page)
      (get_u32_be page page_checksum_offset == compute_checksum page)
