-- ===== src/Storage/Index.antt =====
-- storage/Index.cpp: the offsets of a store's records, behind their ordinals, twelve bytes each.
-- Failures of the disk are left out.
pub mod Records
use stoneleaf_db.Common.{
  ℕ, zero, suc, ◌+◌, ◌-◌, ◌*◌, ◌/◌, Option, none, some, List, [], ◌∷◌, ◌++◌, ltb, leb, ◌==◌, length,
  drop, Bool, true, false, if◌then◌else◌,
}
use stoneleaf_db.Encoding.Endian.{get_u32_be, get_u64_be}
use stoneleaf_db.Encoding.Stream.{out_u32, out_u64, ◌>>=◌}
use stoneleaf_db.Storage.File.{write_at, read_at, truncate}

pub data IndexStatus : Type 0 where
  complete incomplete_tail corrupt : IndexStatus

pub record IndexScan : Type 0 where
  pub status : IndexStatus
  pub physical_size : ℕ
  pub valid_size : ℕ
  pub entry_count : ℕ

pub record Index : Type 0 where
  pub file : List ℕ
  pub size : ℕ
  pub scan_result : IndexScan

abbrev pub entry_size : ℕ
entry_size = 12

abbrev pub clean : List ℕ → ℕ → ℕ → Index
clean file size count = record {
  file = file;
  size = size;
  scan_result = record {
    status = complete;
    physical_size = size;
    valid_size = size;
    entry_count = count;
  };
}

abbrev pub is_clean : IndexStatus → Bool
is_clean complete = true
is_clean incomplete_tail = false
is_clean corrupt = false

abbrev pub is_corrupt : IndexStatus → Bool
is_corrupt complete = false
is_corrupt incomplete_tail = false
is_corrupt corrupt = true

-- The loop of `inspect_file` over the complete entries, with what stands behind the current one.
unfoldable pub inspect_entries : ℕ → List ℕ → ℕ → ℕ → IndexScan
inspect_entries zero rest physical ordinal =
    let valid = ordinal * entry_size in
    record {
      status = if valid == physical then complete else incomplete_tail;
      physical_size = physical;
      valid_size = valid;
      entry_count = ordinal;
    }
inspect_entries (suc rounds) rest physical ordinal =
    let later = inspect_entries rounds (drop entry_size rest) physical (ordinal + 1) in
    let bad : IndexScan = record {
      status = corrupt;
      physical_size = physical;
      valid_size = ordinal * entry_size;
      entry_count = ordinal;
    } in
    if get_u32_be rest 0 == ordinal then later else bad

-- Index::inspect_file
unfoldable pub inspect_index : List ℕ → IndexScan
inspect_index file = inspect_entries (length file / entry_size) file (length file) 0

-- The constructor
unfoldable pub open_index : List ℕ → Index
open_index file =
    let scan = inspect_index file in
    record { file = file; size = scan.physical_size; scan_result = scan }

-- Index::append
unfoldable pub append_offset : Index → ℕ → ℕ → Option Index
append_offset s ordinal store_offset =
    if is_clean s.scan_result.status
    then some (
        clean (write_at s.file s.size (out_u32 ordinal ++ out_u64 store_offset))
          (s.size + entry_size) (s.scan_result.entry_count + 1))
    else none

-- Index::read
unfoldable pub read_offset : Index → ℕ → Option ℕ
read_offset s ordinal =
    if leb s.scan_result.entry_count ordinal
    then none
    else read_at s.file (ordinal * entry_size) entry_size >>= λ bytes.
        if get_u32_be bytes 0 == ordinal then some (get_u64_be bytes 4) else none

-- Index::truncate_to
unfoldable pub truncate_entries : Index → ℕ → Option Index
truncate_entries s count =
    if ltb s.scan_result.entry_count count
    then none
    else some (clean (truncate s.file (count * entry_size)) (count * entry_size) count)
