-- ===== src/Tests/Logs.antt =====
-- The Raft log on a log of two segments with three entries.
use stoneleaf_db.Common.{
  ℕ, zero, suc, ◌^◌, ◌≤◌, ◌<◌, true, false, none, some, List, [], ◌∷◌, map, ◌++◌, length, take, All,
  min, ◌≡◌, refl, arith, inr, ◌==◌,
}
use stoneleaf_db.Encoding.Key.{Key, bool, validate_key}
use stoneleaf_db.Encoding.Stream.{write_key, out_u32, out_u64}
use stoneleaf_db.Encoding.Endian.{put_u32_be, put_u64_be}
use stoneleaf_db.Common.Bytes.{write}
use stoneleaf_db.Raft.Entry.{
  MutationEntry, delete, delete_mutation, encode, encode_operations, decode,
}
use stoneleaf_db.Raft.Entry.RoundTrip.{decode-encode_entry}
use stoneleaf_db.Raft.Segment.{SegmentConfig, append, read, scan}
use stoneleaf_db.Raft.Segment.Entries.{code, Encodable, Stored, Fits, segment_of}
use stoneleaf_db.Raft.Segment.Laws.{append-segment_of, read-segment_of}
use stoneleaf_db.Raft.Segment.{recover}
use stoneleaf_db.Raft.Segment.Recovery.{recover-segment_of}
use stoneleaf_db.Storage.Index.{open_index}
use stoneleaf_db.Storage.Index.Records.{entries as index_entries}
use stoneleaf_db.Raft.Segment.Scan.{scan-segment_of}
use stoneleaf_db.Raft.Log.{Log}
use stoneleaf_db.Raft.Log
use stoneleaf_db.Raft.Log.Groups.{segments_of}
use stoneleaf_db.Raft.Log.Append.{IsSane}
use stoneleaf_db.Raft.Log.Place.{Placed}
use stoneleaf_db.Raft.Log.Refinement.{Holds, read-Holds}
use stoneleaf_db.Raft.Log.Truncate.{truncate_suffix-Holds}
use stoneleaf_db.Raft.Log.Updates.{append-Holds}
use stoneleaf_db.Raft.Address.{NodeAddress, same_address}
use stoneleaf_db.Common.Sets.{contains}
use stoneleaf_db.Raft.Node.{follower, is_peer}
use stoneleaf_db.Raft.Replication.{Replica, AppendRequest, ok, append_entries}
use stoneleaf_db.Raft.Replication.Match.{merge}
use stoneleaf_db.Raft.Replication.Safety.{
  Matches, append_entries-accepts, append_entries-agrees, append_entries-keeps,
  append_entries-refuses,
}
use stoneleaf_db.Raft.Replication.Merge.{Agrees}
use stoneleaf_db.Storage.Store.Scan.{frame, frames, Framed}
use stoneleaf_db.Storage.Store.{open_store}

abbrev flag : Key
flag = record { type = bool; size = 1; payload = 1 ∷ [] }

-- An entry that deletes the key.
abbrev entry : ℕ → ℕ → MutationEntry
entry index term = record {
  term = term;
  index = index;
  operations = record { type = delete; operation = delete_mutation flag } ∷ [];
}

entry-Encodable :
    (index term : ℕ) → 0 < index → 0 < term → term < 2 ^ 64 → Encodable (entry index term)
unfolding encode encode_operations write_key validate_key out_u64 out_u32 put_u32_be put_u64_be
    write
entry-Encodable index term hi ht h =
    let a : (index == 0) ≡ false = ground arith in
    let b : (term == 0) ≡ false = ground arith in rw (a, b) (refl, omega arith, h)

decode-encode_entry_example : decode (code (entry 7 3)) ≡ some (entry 7 3)
decode-encode_entry_example =
    decode-encode_entry (entry 7 3) (omega arith) (omega arith)
      (entry-Encodable 7 3 (omega arith) (omega arith) (omega arith)).0

abbrev records : List (List ℕ)
records = (10 ∷ 20 ∷ []) ∷ [] ∷ (30 ∷ []) ∷ []

records-Framed : All Framed records
records-Framed = (omega arith, (omega arith, (omega arith, tt)))

-- The third byte is missing of the last record's length.
abbrev torn_file : List ℕ
torn_file = frames records ++ take 5 (frame (40 ∷ 50 ∷ []))

longer : 5 < length (frame (40 ∷ 50 ∷ []))
unfolding out_u32 put_u32_be write
longer = omega arith

abbrev two_entries : List MutationEntry
two_entries = entry 1 1 ∷ entry 2 1 ∷ []

abbrev one_entry : List MutationEntry
one_entry = entry 3 2 ∷ []

abbrev entries : List MutationEntry
entries = two_entries ++ one_entry

two-Stored : Stored 1 two_entries
two-Stored = (
  refl,
  entry-Encodable 1 1 (omega arith) (omega arith) (omega arith),
  (refl, entry-Encodable 2 1 (omega arith) (omega arith) (omega arith), tt),
)

one-Stored : Stored 3 one_entry
one-Stored = (refl, entry-Encodable 3 2 (omega arith) (omega arith) (omega arith), tt)

two-Fits : Fits 1 two_entries
unfolding encode encode_operations write_key validate_key out_u64 out_u32 put_u32_be put_u64_be
    write
two-Fits = (omega arith, omega arith, omega arith)

one-Fits : Fits 3 one_entry
unfolding encode encode_operations write_key validate_key out_u64 out_u32 put_u32_be put_u64_be
    write
one-Fits = (omega arith, omega arith, omega arith)

append-segment_of_example :
    append (segment_of 1 two_entries) (entry 3 2)
    ≡ some (segment_of 1 (two_entries ++ (entry 3 2 ∷ [])))
append-segment_of_example =
    append-segment_of 1 two_entries (entry 3 2) refl (omega arith) (omega arith)
      (entry-Encodable 3 2 (omega arith) (omega arith) (omega arith))

read-segment_of_example : read (segment_of 1 two_entries) 2 ≡ some (entry 2 1)
read-segment_of_example = read-segment_of 1 two_entries two-Stored 1 two-Fits refl

scan-segment_of_example : scan (segment_of 1 two_entries) ≡ some two_entries
scan-segment_of_example = scan-segment_of 1 two_entries two-Stored two-Fits

-- A crash cut off the third record, and left the second one's place out of the index but for three
-- bytes.
recover-segment_of_example :
    recover 1
      (open_store (frames (map code two_entries) ++ take 5 (frame (40 ∷ 50 ∷ []))))
      (open_index (index_entries 0 (0 ∷ []) ++ (0 ∷ 0 ∷ 0 ∷ [])))
    ≡ some (segment_of 1 two_entries)
recover-segment_of_example =
    recover-segment_of 1 two_entries (40 ∷ 50 ∷ []) 5 (0 ∷ []) (0 ∷ 0 ∷ 0 ∷ []) two-Stored two-Fits
      (omega arith) longer (omega arith) (omega arith) refl

abbrev groups : List (List MutationEntry)
groups = two_entries ∷ one_entry ∷ []

abbrev log : Log
log = record {
  segments = segments_of 1 groups;
  next_index = 4;
  last_term = 2;
  durable_index = 1;
  directory_dirty = false;
  disk_syncs = [];
}

log_holds : Holds log entries
log_holds = record {
  groups = groups;
  held = refl;
  some_group = refl;
  all_entries = refl;
  proper = (two-Stored, two-Fits, (one-Stored, one-Fits, tt));
  next = refl;
  last = refl;
  synced = omega arith;
  bounded = omega arith;
}

-- The last segment is full: its store may not hold more than ten bytes.
abbrev config : SegmentConfig
config = record { max_store_bytes = 10; max_index_bytes = 1200 }

config-IsSane : IsSane config
config-IsSane = record { store_limit = omega arith; index_limit = omega arith }

read-Holds_example : Log.read log 3 ≡ some (entry 3 2)
read-Holds_example = read-Holds log entries log_holds 2

truncate_suffix-Holds_example :
    (log' : Log) × (Log.truncate_suffix log 2 ≡ some log')
    × Holds log' (entry 1 1 ∷ [])
    × (log'.durable_index ≡ min 1 1)
truncate_suffix-Holds_example = truncate_suffix-Holds log entries log_holds 1 (omega arith)

append-Holds_example :
    (log' : Log) × (Log.append config log 2
        (record { type = delete; operation = delete_mutation flag } ∷ [])
      ≡ some (log', 4))
    × Holds log' (entries ++ (entry 4 2 ∷ []))
    × Placed config log.segments 4 log'.segments
append-Holds_example =
    append-Holds config config-IsSane log entries 2
      (record { type = delete; operation = delete_mutation flag } ∷ []) log_holds
      (entry-Encodable 4 2 (omega arith) (omega arith) (omega arith)) (omega arith)

-- The name of a file is not durable yet.
abbrev dirty_log : Log
dirty_log = record log { directory_dirty = true }

abbrev here : NodeAddress
here = record { host = 1 ∷ []; port = 1 }

abbrev there : NodeAddress
there = record { host = 2 ∷ []; port = 2 }

abbrev replica : Replica
replica = record {
  node = record {
    self = here;
    peers = there ∷ [];
    role = follower;
    current_term = 2;
    voted_for = none;
    leader_address = none;
    votes = [];
    send_next = [];
    replicated_index = [];
    last_index = 3;
    last_term = 2;
    durable = record { term = 2; voted_for = none };
  };
  log = log;
  commit_index = 1;
}

-- The second entry is there already, and the third is of another term.
abbrev request : AppendRequest
request = record {
  term = 3;
  sender = there;
  prev_log_index = 1;
  prev_log_term = 1;
  entries = entry 2 1 ∷ entry 3 3 ∷ [];
  leader_commit_index = 9;
}

request-Stored : Stored 2 request.entries
request-Stored = (
  refl,
  entry-Encodable 2 1 (omega arith) (omega arith) (omega arith),
  (refl, entry-Encodable 3 3 (omega arith) (omega arith) (omega arith), tt),
)

request-Matches : Matches entries request
request-Matches behind = (λ e. absurd (omega arith), refl)

sender_is_peer : is_peer replica.node there ≡ true
unfolding same_address contains
sender_is_peer = refl

append_entries-accepts_example :
    (replica' : Replica) × (append_entries config replica request
      ≡ ok replica' (record { term = 3; success = true }))
    × Holds replica'.log (merge entries 1 request.entries)
    × (3 ≤ replica'.log.durable_index)
    × (replica'.commit_index ≡ 3)
append_entries-accepts_example =
    append_entries-accepts config replica entries request log_holds config-IsSane sender_is_peer
      (omega arith) request-Matches request-Stored (omega arith)

accepted_call :
    (replica' : Replica) × (append_entries config replica request
      ≡ ok replica' (record { term = 3; success = true }))
    × Holds replica'.log (merge entries 1 request.entries)
    × (3 ≤ replica'.log.durable_index)
    × (replica'.commit_index ≡ 3)
accepted_call =
    append_entries-accepts config replica entries request log_holds config-IsSane sender_is_peer
      (omega arith) request-Matches request-Stored (omega arith)

append_entries-agrees_example : Log.term_at accepted_call.0.log 3 ≡ some 3
append_entries-agrees_example =
    append_entries-agrees config replica entries request log_holds config-IsSane sender_is_peer
      (omega arith) request-Matches request-Stored (omega arith) accepted_call.1 1 (entry 3 3) refl

-- A request that comes late: its only entry is there already.
abbrev late_request : AppendRequest
late_request = record request { entries = entry 2 1 ∷ [] }

late-Stored : Stored 2 late_request.entries
late-Stored = (refl, entry-Encodable 2 1 (omega arith) (omega arith) (omega arith), tt)

late-Agrees : Agrees entries 1 late_request.entries
late-Agrees zero x e hx he =
    let is_x : entry 2 1 ≡ x = cc in let is_e : entry 2 1 ≡ e = cc in rw (← is_x, ← is_e) refl
late-Agrees (suc k) x e hx he = cc

late_call :
    (replica' : Replica) × (append_entries config replica late_request
      ≡ ok replica' (record { term = 3; success = true }))
    × Holds replica'.log (merge entries 1 late_request.entries)
    × (2 ≤ replica'.log.durable_index)
    × (replica'.commit_index ≡ 2)
late_call =
    append_entries-accepts config replica entries late_request log_holds config-IsSane
      sender_is_peer (omega arith) request-Matches late-Stored (omega arith)

append_entries-keeps_example : Log.read late_call.0.log 3 ≡ some (entry 3 2)
append_entries-keeps_example =
    append_entries-keeps config replica entries late_request log_holds config-IsSane sender_is_peer
      (omega arith) request-Matches late-Stored (omega arith) late_call.1 late-Agrees 2 (entry 3 2)
      third_before
  where
    third_before : Log.read log 3 ≡ some (entry 3 2)
    third_before = read-Holds log entries log_holds 2

-- The log has another term at the third index.
abbrev other_request : AppendRequest
other_request = record request { prev_log_index = 3; prev_log_term = 3; entries = [] }

append_entries-refuses_example :
    (replica' : Replica) × (append_entries config replica other_request
      ≡ ok replica' (record { term = 3; success = false }))
    × (replica'.log ≡ log)
    × (replica'.commit_index ≡ 1)
    × (2 ≤ replica'.node.current_term)
append_entries-refuses_example =
    append_entries-refuses config replica entries other_request log_holds sender_is_peer
      (inr ((λ e. absurd (omega arith)), (λ e. absurd (omega arith))))
