-- ===== src/Raft/Segment.antt =====
-- Raft/RaftSegment.cpp: a part of the Raft log in one store and one index. `none` is an exception;
-- after one that `recovery_required_` records, the segment is not used before it is opened again.
pub mod Entries
pub mod Laws
pub mod Scan
pub mod Recovery
use stoneleaf_db.Common.{
  ℕ, zero, suc, ◌+◌, ◌-◌, ◌*◌, ◌%◌, ◌^◌, Bool, true, false, ◌||◌, ◌&&◌, Option, none, some, List,
  [], ◌∷◌, length, min, ltb, leb, ◌==◌, not, if◌then◌else◌,
}
use stoneleaf_db.Encoding.Endian.{get_u64_be}
use stoneleaf_db.Encoding.Stream.{◌>>=◌}
use stoneleaf_db.Storage.Store.{ScanStatus, complete, incomplete_tail, repair_tail}
use stoneleaf_db.Storage.Store.{Store, record_length_size, read_prefix, truncate_to}
use stoneleaf_db.Storage.Store.{append as store_append, read as store_read}
use stoneleaf_db.Storage.Index.{is_clean, is_corrupt}
use stoneleaf_db.Storage.Index.{Index, append_offset, read_offset, truncate_entries}
use stoneleaf_db.Raft.Entry.{MutationEntry, encode, decode}

-- The fields of Config that `is_maxed` reads. The constructor of RaftLog has validated them before
-- there is a segment, and they do not change, so the segment's own check does not fail.
pub record SegmentConfig : Type 0 where
  pub max_store_bytes : ℕ
  pub max_index_bytes : ℕ

pub record Segment : Type 0 where
  pub base_index : ℕ
  pub next_index : ℕ
  pub store : Store
  pub index : Index

-- A call that makes one of the files of the segment at a base index, or the names of the files,
-- durable: disk::sync_file_to_disk_fd and disk::sync_directory.
pub data DiskSync : Type 0 where
  store_file : ℕ → Store → DiskSync
  index_file : ℕ → Index → DiskSync
  directory : DiskSync

-- RaftSegment::append
unfoldable pub append : Segment → MutationEntry → Option Segment
append s entry =
    if not (entry.index == s.next_index)
    then none
    else if ltb (2 ^ 32 - 1) (entry.index - s.base_index)
    then none
    else encode entry >>= λ encoded. store_append s.store encoded >>= λ (store, offset).
        append_offset s.index (entry.index - s.base_index) offset >>= λ index.
        some (record s { next_index = (s.next_index + 1) % 2 ^ 64; store = store; index = index })

-- `index < base_index_ || index >= next_index_`
abbrev pub is_outside : Segment → ℕ → Bool
is_outside s index = ltb index s.base_index || leb s.next_index index

abbrev pub at_index : ℕ → MutationEntry → Option MutationEntry
at_index index entry = if entry.index == index then some entry else none

-- RaftSegment::read
unfoldable pub read : Segment → ℕ → Option MutationEntry
read s index =
    if is_outside s index
    then none
    else read_offset s.index (index - s.base_index) >>= λ offset.
        store_read s.store offset >>= λ encoded. decode encoded >>= at_index index

-- The loop of `scan`, on fuel: a record takes four bytes at least, so the bytes of the store are enough.
unfoldable pub scan_loop : ℕ → Store → ℕ → ℕ → Option (List MutationEntry)
scan_loop zero s offset expected = some []
scan_loop (suc fuel) s offset expected =
    let step =
      (store_read s offset >>= λ encoded. decode encoded >>= at_index expected >>= λ entry.
      scan_loop fuel s (offset + (record_length_size + length encoded)) (expected + 1)
      >>= λ entries. some (entry ∷ entries)) in
    if ltb offset s.scan_result.valid_size then step else some []

-- RaftSegment::scan
unfoldable pub scan : Segment → Option (List MutationEntry)
scan s = scan_loop s.store.scan_result.valid_size s.store 0 s.base_index

-- RaftSegment::term_at
unfoldable pub term_at : Segment → ℕ → Option ℕ
term_at s index =
    if is_outside s index
    then none
    else read_offset s.index (index - s.base_index) >>= λ offset.
        read_prefix s.store offset 8 >>= λ prefix. some (get_u64_be prefix 0)

-- RaftSegment::truncate_suffix
unfoldable pub truncate_suffix : Segment → ℕ → Option Segment
truncate_suffix s from_index =
    if ltb from_index s.base_index || ltb s.next_index from_index
    then none
    else if from_index == s.next_index
    then some s
    else truncate_to s.store (from_index - s.base_index) >>= λ store.
        truncate_entries s.index (from_index - s.base_index) >>= λ index.
        some (record s { next_index = from_index; store = store; index = index })

-- RaftSegment::sync, with Store::sync and Index::sync
unfoldable pub sync_files : Segment → List DiskSync
sync_files s = store_file s.base_index s.store ∷ index_file s.base_index s.index ∷ []

-- RaftSegment::is_maxed
unfoldable pub is_maxed : SegmentConfig → Segment → Bool
is_maxed config s =
    ltb config.max_store_bytes s.store.size || ltb config.max_index_bytes s.index.size

abbrev pub torn_store : ScanStatus → Store → Store
torn_store complete s = s
torn_store incomplete_tail s = repair_tail s

-- The offset behind the last record that both files have, which is checked to be the right one.
unfoldable pub common_end : ℕ → Store → Index → ℕ → Option ℕ
common_end base s index zero = some 0
common_end base s index (suc ordinal) = read_offset index ordinal >>= λ offset.
    store_read s offset >>= λ encoded. decode encoded >>= at_index (base + ordinal) >>= λ entry.
    if ltb s.scan_result.valid_size (offset + (record_length_size + length encoded))
    then none
    else some (offset + (record_length_size + length encoded))

-- The loop of `recover` over the records that the index lacks, on fuel: a record takes four bytes at
-- least, so the bytes of the store are enough.
unfoldable pub missing_offsets : ℕ → ℕ → Store → ℕ → ℕ → Option (List ℕ)
missing_offsets zero base s ordinal cursor = some []
missing_offsets (suc fuel) base s ordinal cursor =
    let step =
      (store_read s cursor >>= λ encoded. decode encoded >>= at_index (base + ordinal) >>= λ entry.
      (if ltb (2 ^ 32 - 1) ordinal
        then none
        else missing_offsets fuel base s (ordinal + 1)
            (cursor + (record_length_size + length encoded)))
      >>= λ later. some (cursor ∷ later)) in
    if ltb cursor s.scan_result.valid_size then step else some []

-- The last loop of `recover`.
unfoldable pub append_offsets : Index → ℕ → List ℕ → Option Index
append_offsets index ordinal [] = some index
append_offsets index ordinal (o ∷ os) =
    append_offset index ordinal o >>= λ index'. append_offsets index' (ordinal + 1) os

-- RaftSegment::recover on the two files, as the constructors of the store and of the index read them
unfoldable pub recover : ℕ → Store → Index → Option Segment
recover base opened index =
    let s : Store = torn_store opened.scan_result.status opened in
    let common : ℕ = min index.scan_result.entry_count s.scan_result.record_count in
    if is_corrupt index.scan_result.status
    then none
    else common_end base s index common >>= λ cursor.
        missing_offsets s.scan_result.valid_size base s common cursor >>= λ missing.
        if not (common + length missing == s.scan_result.record_count)
        then none
        else (if is_clean index.scan_result.status && index.scan_result.entry_count == common
            then some index
            else truncate_entries index common)
          >>= λ kept. append_offsets kept common missing >>= λ index'. some (record {
            base_index = base;
            next_index = base + s.scan_result.record_count;
            store = s;
            index = index';
          })
