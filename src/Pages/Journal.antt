-- ===== src/Pages/Journal.antt =====
-- JournalCodec.cpp and the records of Journal.h. `generate_nonce` is a source of random numbers and
-- is left out. A page of a record is the list of its bytes.
pub mod Checksum
use stoneleaf_db.Common.{ℕ, zero, suc, ◌+◌, ◌-◌, ◌%◌, ◌^◌, Bool, true, false, not, List, [], ◌∷◌}
use stoneleaf_db.Common.{length, take, drop, ltb, ◌==◌, if◌then◌else◌}
use stoneleaf_db.Common.Bytes.{byte_at, write}
use stoneleaf_db.Encoding.Endian.{put_u32_be, get_u32_be}
use stoneleaf_db.Pages.Codec.{page_size}
use stoneleaf_db.Pages.Header.{same_magic}

pub record JournalHeader : Type 0 where
  pub magic : List ℕ
  pub page_count : ℕ
  pub nonce : ℕ
  pub init_db_page_count : ℕ

pub record JournalPageRecord : Type 0 where
  pub page_num : ℕ
  pub page : List ℕ
  pub checksum : ℕ

-- Journal::serialize_jHeader: the buffer `out` afterwards. `magic` has 8 bytes.
unfoldable pub serialize_header : JournalHeader → List ℕ → List ℕ
serialize_header header out =
    let magic = write out 0 header.magic in
    let count = put_u32_be magic 8 header.page_count in
    let nonce = put_u32_be count 12 header.nonce in put_u32_be nonce 16 header.init_db_page_count

-- Journal::deserialize_jHeader
unfoldable pub deserialize_header : List ℕ → JournalHeader
deserialize_header in_ = record {
  magic = take 8 in_;
  page_count = get_u32_be in_ 8;
  nonce = get_u32_be in_ 12;
  init_db_page_count = get_u32_be in_ 16;
}

-- Journal::serialize_jPage_record
unfoldable pub serialize_record : JournalPageRecord → List ℕ → List ℕ
serialize_record r out =
    let numbered = put_u32_be out 0 r.page_num in
    let filled = write numbered 4 r.page in put_u32_be filled (4 + page_size) r.checksum

-- Journal::deserialize_jPage_record
unfoldable pub deserialize_record : List ℕ → JournalPageRecord
deserialize_record in_ = record {
  page_num = get_u32_be in_ 0;
  page = take page_size (drop 4 in_);
  checksum = get_u32_be in_ (4 + page_size);
}

abbrev pub stride : ℕ
stride = 200

-- The `while (X >= 0)` of Journal::checksum, where `left` is X + stride: the loop ends when it
-- falls below the stride. As many rounds as `fuel` are enough when it is not below `left`.
unfoldable pub checksum_loop : ℕ → ℕ → ℕ → List ℕ → ℕ
checksum_loop zero left sum page = sum
checksum_loop (suc fuel) left sum page =
    let rest =
      checksum_loop fuel (left - stride) ((sum + byte_at page (left - stride)) % 2 ^ 32) page in
    if ltb left stride then sum else rest

-- Journal::checksum
unfoldable pub page_checksum : ℕ → List ℕ → ℕ
page_checksum nonce page = checksum_loop (length page) (length page) nonce page

-- Journal::validate_journal_record_checksum
unfoldable pub validate_record_checksum : JournalPageRecord → JournalHeader → Bool
validate_record_checksum r header = page_checksum header.nonce r.page == r.checksum

abbrev pub journal_magic : List ℕ
journal_magic = 0xd9 ∷ 0xd5 ∷ 0x05 ∷ 0xf9 ∷ 0x20 ∷ 0xa1 ∷ 0x63 ∷ 0xd7 ∷ []

-- Journal::validate_journal_header
unfoldable pub validate_header : JournalHeader → Bool
validate_header header = same_magic header.magic journal_magic
