-- ===== src/Storage/Store.antt =====
-- Log/Store.cpp: records behind their lengths in one file. Failures of the disk are left out.
pub mod Scan
pub mod Records
use stoneleaf_db.Common.{
  ℕ, zero, suc, ◌+◌, ◌-◌, ◌^◌, Option, none, some, List, [], ◌∷◌, ◌++◌, length, drop, replicate,
  ltb, leb, Bool, true, false, ◌||◌, if◌then◌else◌,
}
use stoneleaf_db.Encoding.Endian.{get_u32_be}
use stoneleaf_db.Encoding.Stream.{out_u32, ◌>>=◌}
use stoneleaf_db.Storage.File.{write_at, read_at, truncate}

pub data ScanStatus : Type 0 where
  complete incomplete_tail : ScanStatus

pub record ScanResult : Type 0 where
  pub status : ScanStatus
  pub physical_size : ℕ
  pub valid_size : ℕ
  pub record_count : ℕ

pub record Store : Type 0 where
  pub file : List ℕ
  pub size : ℕ
  pub scan_result : ScanResult

abbrev pub record_length_size : ℕ
record_length_size = 4

-- The loop of `inspect_file` on what stands behind `offset`, on fuel: a frame has four bytes at least,
-- so the bytes of the file are enough.
unfoldable pub inspect_loop : ℕ → List ℕ → ℕ → ℕ → ℕ → ScanResult
inspect_loop zero rest physical offset count = record {
  status = complete;
  physical_size = physical;
  valid_size = offset;
  record_count = count;
}
inspect_loop (suc fuel) [] physical offset count = record {
  status = complete;
  physical_size = physical;
  valid_size = physical;
  record_count = count;
}
inspect_loop (suc fuel) (b ∷ rest) physical offset count =
    let record_size = get_u32_be (b ∷ rest) 0 in
    let torn : ScanResult = record {
      status = incomplete_tail;
      physical_size = physical;
      valid_size = offset;
      record_count = count;
    } in
    let next =
      inspect_loop fuel (drop (record_length_size + record_size) (b ∷ rest)) physical
        (offset + record_length_size + record_size) (count + 1) in
    if ltb (length (b ∷ rest)) record_length_size
    then torn
    else if ltb (length (b ∷ rest) - record_length_size) record_size
    then torn
    else next

-- Store::inspect_file
unfoldable pub inspect_file : List ℕ → ScanResult
inspect_file file = inspect_loop (length file + 1) file (length file) 0 0

-- The constructor
unfoldable pub open_store : List ℕ → Store
open_store file =
    let scan = inspect_file file in
    record { file = file; size = scan.physical_size; scan_result = scan }

abbrev pub settled : List ℕ → ℕ → ℕ → Store
settled file size count = record {
  file = file;
  size = size;
  scan_result = record {
    status = complete;
    physical_size = size;
    valid_size = size;
    record_count = count;
  };
}

abbrev pub is_complete : ScanStatus → Bool
is_complete complete = true
is_complete incomplete_tail = false

-- Store::append: the store and the offset of the new record
unfoldable pub append : Store → List ℕ → Option (Store × ℕ)
append s bytes =
    if ltb (2 ^ 32 - 1) (length bytes)
    then none
    else if is_complete s.scan_result.status
    then some (
      settled
          (write_at (write_at s.file s.size (out_u32 (length bytes))) (s.size + record_length_size)
            bytes)
          (s.size + (record_length_size + length bytes)) (s.scan_result.record_count + 1),
      s.size,
    )
    else none

-- The length and the place of the record at an offset, as `read` and `read_prefix` check them.
unfoldable pub locate : Store → ℕ → Option ℕ
locate s offset =
    if leb s.scan_result.valid_size offset
      || ltb (s.scan_result.valid_size - offset) record_length_size
    then none
    else read_at s.file offset record_length_size >>= λ length_bytes.
        if ltb (s.scan_result.valid_size - (offset + record_length_size))
          (get_u32_be length_bytes 0)
        then none
        else some (get_u32_be length_bytes 0)

-- Store::read
unfoldable pub read : Store → ℕ → Option (List ℕ)
read s offset =
    locate s offset >>= λ record_size. read_at s.file (offset + record_length_size) record_size

-- Store::read_prefix
unfoldable pub read_prefix : Store → ℕ → ℕ → Option (List ℕ)
read_prefix s offset count = locate s offset >>= λ record_size.
    if ltb record_size count then none else read_at s.file (offset + record_length_size) count

-- Store::repair_tail
unfoldable pub repair_tail : Store → Store
repair_tail s =
    let scan = inspect_file s.file in
    if is_complete scan.status
    then record { file = s.file; size = scan.physical_size; scan_result = scan }
    else record {
      file = truncate s.file scan.valid_size;
      size = scan.valid_size;
      scan_result = record scan { status = complete; physical_size = scan.valid_size };
    }

-- The loop of `truncate_to`: the offset behind the next `rounds` records.
unfoldable pub offset_behind : ℕ → List ℕ → ℕ → Option ℕ
offset_behind zero file offset = some offset
offset_behind (suc rounds) file offset = read_at file offset record_length_size >>= λ length_bytes.
    offset_behind rounds file (offset + (record_length_size + get_u32_be length_bytes 0))

-- Store::truncate_to
unfoldable pub truncate_to : Store → ℕ → Option Store
truncate_to s count =
    if ltb s.scan_result.record_count count
    then none
    else offset_behind count s.file 0 >>= λ offset.
        some (settled (truncate s.file offset) offset count)
