-- ===== src/Raft/Log.antt =====
-- Raft/RaftLog.cpp: the Raft log as a row of segments. `none` is an exception; after one that
-- `recovery_required_` records, the log is not used before it is opened again. Opening and closing
-- (the names of files in a directory) and failures of the disk are left out.
pub mod Groups
pub mod Search
pub mod Append
pub mod Place
pub mod Durable
pub mod Refinement
pub mod Truncate
pub mod Updates
use stoneleaf_db.Common.{
  ℕ, zero, suc, ◌+◌, ◌-◌, ◌%◌, ◌^◌, min, max, Bool, true, false, ◌&&◌, ◌||◌, Option, none, some,
  List, [], ◌∷◌, ◌++◌, length, drop, ltb, leb, ◌==◌, not, if◌then◌else◌,
}
use stoneleaf_db.Encoding.Stream.{◌>>=◌}
use stoneleaf_db.Storage.Store.{open_store}
use stoneleaf_db.Storage.Index.{open_index}
use stoneleaf_db.Raft.Entry.{MutationOp, MutationEntry, encode}
use stoneleaf_db.Raft.Segment.{
  Segment, SegmentConfig, DiskSync, directory, sync_files, is_maxed, is_outside,
}
use stoneleaf_db.Raft.Segment.{append as segment_append, read as segment_read, scan as segment_scan}
use stoneleaf_db.Raft.Segment.{term_at as segment_term, truncate_suffix as segment_truncate}

pub record Log : Type 0 where
  pub segments : List Segment
  pub next_index : ℕ
  pub last_term : ℕ
  pub durable_index : ℕ
  pub directory_dirty : Bool
  -- What the log's calls have made durable, the last behind.
  pub disk_syncs : List DiskSync

abbrev pub is_empty {ℓ} : {A : Type ℓ} → List A → Bool
is_empty [] = true
is_empty (x ∷ xs) = false

-- What the RaftSegment constructor makes of two new files, under a configuration that is valid
-- (SegmentConfig).
unfoldable pub new_segment : ℕ → Segment
new_segment base = record {
  base_index = base;
  next_index = base;
  store = open_store [];
  index = open_index [];
}

-- RaftLog::create_segment, whose call of sync_directory `append_entry` notes; the index zero is
-- refused by the segment.
unfoldable pub create_segment : List Segment → ℕ → Option (List Segment)
create_segment segments base =
    if base == 0 then none else some (segments ++ (new_segment base ∷ []))

-- `segments_.back()->is_maxed()`
unfoldable pub last_is_maxed : SegmentConfig → List Segment → Bool
last_is_maxed config [] = false
last_is_maxed config (s ∷ []) = is_maxed config s
last_is_maxed config (s ∷ t ∷ rest) = last_is_maxed config (t ∷ rest)

-- `segments_.back()->append(entry)`
unfoldable pub append_to_last : MutationEntry → List Segment → Option (List Segment)
append_to_last entry [] = none
append_to_last entry (s ∷ []) = segment_append s entry >>= λ s'. some (s' ∷ [])
append_to_last entry (s ∷ t ∷ rest) = append_to_last entry (t ∷ rest) >>= λ rest'. some (s ∷ rest')

-- What `append` and the loop of `append_from_leader` do with one entry.
unfoldable pub append_entry : SegmentConfig → Log → MutationEntry → Option Log
append_entry config log entry =
    (if last_is_maxed config log.segments
      then create_segment log.segments log.next_index
      else some log.segments)
    >>= λ segments. append_to_last entry segments >>= λ segments. some (record log {
      segments = segments;
      next_index = (log.next_index + 1) % 2 ^ 64;
      last_term = entry.term;
      disk_syncs =
          if last_is_maxed config log.segments
          then log.disk_syncs ++ (directory ∷ [])
          else log.disk_syncs;
    })

-- RaftLog::append: the log and the index of the new entry
unfoldable pub append : SegmentConfig → Log → ℕ → List MutationOp → Option (Log × ℕ)
append config log term operations =
    let entry : MutationEntry = record {
      term = term;
      index = log.next_index;
      operations = operations;
    } in
    if is_empty log.segments
    then none
    else encode entry >>= λ bytes.
        append_entry config log entry >>= λ log'. some (log', entry.index)

-- The first loop of `append_from_leader`.
unfoldable pub batch_is_dense : ℕ → List MutationEntry → Option Bool
batch_is_dense first [] = some true
batch_is_dense first (e ∷ es) =
    if e.index == first then (encode e >>= λ bytes. batch_is_dense (first + 1) es) else none

-- The second loop of `append_from_leader`.
unfoldable pub append_all : SegmentConfig → Log → List MutationEntry → Option Log
append_all config log [] = some log
append_all config log (e ∷ es) = append_entry config log e >>= λ log'. append_all config log' es

-- RaftLog::append_from_leader
unfoldable pub append_from_leader : SegmentConfig → Log → ℕ → List MutationEntry → Option Log
append_from_leader config log first entries =
    if is_empty log.segments
    then none
    else if not (first == log.next_index)
    then none
    else batch_is_dense first entries >>= λ checked. append_all config log entries

-- The loop of `read` over the segments.
unfoldable pub read_in : List Segment → ℕ → Option MutationEntry
read_in [] index = none
read_in (s ∷ rest) index = if is_outside s index then read_in rest index else segment_read s index

-- RaftLog::read
unfoldable pub read : Log → ℕ → Option MutationEntry
read log index =
    if is_empty log.segments
    then none
    else if index == 0 || leb log.next_index index
    then none
    else read_in log.segments index

-- The loop of `term_at` over the segments.
unfoldable pub term_in : List Segment → ℕ → Option ℕ
term_in [] index = some 0
term_in (s ∷ rest) index = if is_outside s index then term_in rest index else segment_term s index

-- RaftLog::term_at
unfoldable pub term_at : Log → ℕ → Option ℕ
term_at log index =
    if is_empty log.segments
    then none
    else if index == 0 || leb log.next_index index
    then some 0
    else term_in log.segments index

-- The loop of `scan_from`.
unfoldable pub scan_segments : List Segment → ℕ → Option (List MutationEntry)
scan_segments [] index = some []
scan_segments (s ∷ rest) index =
    let skipped = scan_segments rest index in
    let part =
      (segment_scan s >>= λ entries.
      skipped >>= λ later. some (drop (max index s.base_index - s.base_index) entries ++ later)) in
    if leb s.next_index index then skipped else part

-- RaftLog::scan_from
unfoldable pub scan_from : Log → ℕ → Option (List MutationEntry)
scan_from log index =
    if is_empty log.segments
    then none
    else if index == 0 || ltb log.next_index index
    then none
    else scan_segments log.segments index

-- RaftLog::last_index
unfoldable pub last_index : Log → ℕ
last_index log = if log.next_index == 0 then 0 else log.next_index - 1

-- The target of `truncate_suffix` cut, and the segments behind it removed.
unfoldable pub truncate_segments : List Segment → ℕ → Option (List Segment)
truncate_segments [] from_index = none
truncate_segments (s ∷ rest) from_index =
    let later = truncate_segments rest from_index in
    if leb s.base_index from_index && leb from_index s.next_index
    then (segment_truncate s from_index >>= λ s'. some (s' ∷ []))
    else later >>= λ rest'. some (s ∷ rest')

-- Whether `truncate_suffix` removes files.
unfoldable pub removes_files : List Segment → ℕ → Bool
removes_files [] from_index = false
removes_files (s ∷ rest) from_index =
    let later = removes_files rest from_index in
    if leb s.base_index from_index && leb from_index s.next_index
    then not (is_empty rest)
    else later

-- RaftLog::truncate_suffix
unfoldable pub truncate_suffix : Log → ℕ → Option Log
truncate_suffix log from_index =
    if is_empty log.segments
    then none
    else if from_index == 0 || ltb log.next_index from_index
    then none
    else if from_index == log.next_index
    then some log
    else (if ltb 1 from_index then term_in log.segments (from_index - 1) else some 0) >>= λ term.
        truncate_segments log.segments from_index >>= λ segments. some (record {
          segments = segments;
          next_index = from_index;
          last_term = term;
          durable_index = min log.durable_index (from_index - 1);
          directory_dirty = log.directory_dirty || removes_files log.segments from_index;
          disk_syncs = log.disk_syncs;
        })

-- The loop of `sync_through`: the new `durable_index_`, and the segments' calls of `sync`.
unfoldable pub sync_segments : ℕ → ℕ → List Segment → ℕ × List DiskSync
sync_segments index durable [] = (durable, [])
sync_segments index durable (s ∷ rest) =
    let same = sync_segments index durable rest in
    let next = sync_segments index (s.next_index - 1) rest in
    if s.next_index == s.base_index || leb (s.next_index - 1) durable
    then same
    else if leb index (s.next_index - 1)
    then (s.next_index - 1, sync_files s)
    else (next.0, sync_files s ++ next.1)

-- The call of sync_directory at the end of `sync_through`.
abbrev pub sync_names : Bool → List DiskSync
sync_names dirty = if dirty then directory ∷ [] else []

-- RaftLog::sync_through
unfoldable pub sync_through : Log → ℕ → Option Log
sync_through log index =
    if is_empty log.segments
    then none
    else if index == 0 || leb log.next_index index
    then none
    else if leb index log.durable_index && not log.directory_dirty
    then some log
    else let synced = sync_segments index log.durable_index log.segments in
      some (record log {
        durable_index = synced.0;
        directory_dirty = false;
        disk_syncs = log.disk_syncs ++ (synced.1 ++ sync_names log.directory_dirty);
      })
