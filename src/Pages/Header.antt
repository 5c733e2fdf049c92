-- ===== src/Pages/Header.antt =====
-- DBHeaderCodec.cpp and the DBHeader of Page.h.
pub mod RoundTrip
use stoneleaf_db.Common.{
  ℕ, ◌+◌, Bool, true, false, not, ◌&&◌, List, [], ◌∷◌, take, drop, ltb, leb, ◌==◌, if◌then◌else◌,
}
use stoneleaf_db.Common.Bytes.{write}
use stoneleaf_db.Encoding.Endian.{put_u32_be, get_u32_be}

pub record DbHeader : Type 0 where
  pub magic_header : List ℕ
  pub file_change_counter : ℕ
  pub db_page_count : ℕ
  pub freelist_head_page_num : ℕ
  pub freelist_page_count : ℕ
  pub btree_root_page_num : ℕ

abbrev pub magic_string : List ℕ
magic_string =
    0x53 ∷ 0x51 ∷ 0x4c ∷ 0x69 ∷ 0x74 ∷ 0x65 ∷ 0x20 ∷ 0x66 ∷ 0x6f ∷ 0x72 ∷ 0x6d ∷ 0x61 ∷ 0x74 ∷ 0x20
    ∷ 0x33 ∷ 0x00 ∷ []

-- DBHeaderCodec::serialize_DBHeader: the buffer `out` afterwards. `magic_header` has 16 bytes.
unfoldable pub serialize : DbHeader → List ℕ → List ℕ
serialize header out =
    let magic = write out 0 header.magic_header in
    let counter = put_u32_be magic 16 header.file_change_counter in
    let count = put_u32_be counter 20 header.db_page_count in
    let head = put_u32_be count 24 header.freelist_head_page_num in
    let free = put_u32_be head 28 header.freelist_page_count in
    put_u32_be free 32 header.btree_root_page_num

-- DBHeaderCodec::deserialize_DBHeader
unfoldable pub deserialize : List ℕ → DbHeader
deserialize in_ = record {
  magic_header = take 16 in_;
  file_change_counter = get_u32_be in_ 16;
  db_page_count = get_u32_be in_ 20;
  freelist_head_page_num = get_u32_be in_ 24;
  freelist_page_count = get_u32_be in_ 28;
  btree_root_page_num = get_u32_be in_ 32;
}

-- The comparison loop over the magic bytes.
unfoldable pub same_magic : List ℕ → List ℕ → Bool
same_magic [] [] = true
same_magic [] (y ∷ ys) = false
same_magic (x ∷ xs) [] = false
same_magic (x ∷ xs) (y ∷ ys) = x == y && same_magic xs ys

-- DBHeaderCodec::validate_DBHeader
unfoldable pub validate_header : DbHeader → Bool
validate_header header =
    if not (same_magic header.magic_header magic_string)
    then false
    else if not (header.btree_root_page_num == 0)
        && leb header.db_page_count header.btree_root_page_num
    then false
    else if header.freelist_page_count == 0
    then header.freelist_head_page_num == 0
    else if header.freelist_head_page_num == 0
    then false
    else if leb header.db_page_count header.freelist_head_page_num
    then false
    else true
