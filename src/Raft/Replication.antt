-- ===== src/Raft/Replication.antt =====
-- AppendEntries of Raft/RaftServiceImpl.cpp on a node with its log.
pub mod Match
pub mod Merge
pub mod Safety
use stoneleaf_db.Common.{
  ℕ, zero, suc, ◌+◌, ◌-◌, ◌≤◌, min, Bool, true, false, ◌&&◌, ◌||◌, not, Option, none, some, List,
  [], ◌∷◌, length, drop, ltb, ◌==◌, if◌then◌else◌,
}
use stoneleaf_db.Encoding.Stream.{◌>>=◌}
use stoneleaf_db.Raft.Address.{NodeAddress}
use stoneleaf_db.Raft.Entry.{MutationEntry}
use stoneleaf_db.Raft.Segment.{SegmentConfig}
use stoneleaf_db.Raft.Node.{Role, leader, follower, candidate, Node, is_peer, become_follower}
use stoneleaf_db.Raft.Log.{
  Log, term_at, truncate_suffix, append_from_leader, sync_through, last_index,
}

-- A node, its log and its commit index.
pub record Replica : Type 0 where
  pub node : Node
  pub log : Log
  pub commit_index : ℕ

-- The request, with its address and its entries decoded.
pub record AppendRequest : Type 0 where
  pub term : ℕ
  pub sender : NodeAddress
  pub prev_log_index : ℕ
  pub prev_log_term : ℕ
  pub entries : List MutationEntry
  pub leader_commit_index : ℕ

pub record AppendResponse : Type 0 where
  pub term : ℕ
  pub success : Bool

-- The status of the call; `thrown` is an exception.
pub data AppendReply : Type 0 where
  ok : Replica → AppendResponse → AppendReply
  invalid_argument : AppendReply
  thrown : AppendReply

abbrev is_follower : Role → Bool
is_follower leader = false
is_follower follower = true
is_follower candidate = false

-- The node takes the sender for its leader.
unfoldable pub follow : Node → AppendRequest → Option Node
follow n r =
    if ltb n.current_term r.term || not (is_follower n.role)
    then become_follower n r.term (some r.sender)
    else some (record n { leader_address = some r.sender })

-- The loop of step 3 from an index on: the log, cut at a conflict, and the entries that it does not
-- hold.
unfoldable pub reconcile : Log → ℕ → List MutationEntry → Option (Log × ℕ × List MutationEntry)
reconcile log index [] = some (log, index, [])
reconcile log index (e ∷ es) = term_at log index >>= λ existing.
    let present = reconcile log (index + 1) es in
    if existing == 0
    then some (log, index, e ∷ es)
    else if not (existing == e.term)
    then (truncate_suffix log index >>= λ log'. some (log', index, e ∷ es))
    else present

-- Step 4
unfoldable pub append_new : SegmentConfig → Log → ℕ → List MutationEntry → Option Log
append_new config log first [] = some log
append_new config log first (e ∷ es) = append_from_leader config log first (e ∷ es)

-- The guarded sync.
unfoldable pub sync_new : Log → ℕ → Option Log
sync_new log last_new_index =
    if ltb 0 last_new_index then sync_through log last_new_index else some log

-- Step 5
unfoldable pub advance_commit : ℕ → ℕ → ℕ → ℕ
advance_commit commit leader_commit last_new_index =
    if ltb commit (min leader_commit last_new_index)
    then min leader_commit last_new_index
    else commit

-- Steps 3 to 5 on the log.
unfoldable pub store_entries : SegmentConfig → Log → ℕ → List MutationEntry → Option Log
store_entries config log prev_index entries =
    reconcile log (prev_index + 1) entries >>= λ (log1, first, new).
    append_new config log1 first new >>= λ log2. sync_new log2 (prev_index + length entries)

abbrev finish : Node → Replica → AppendRequest → Option Log → AppendReply
finish n replica r none = thrown
finish n replica r (some log) =
    ok
      (record {
        node = record n { last_index = last_index log; last_term = log.last_term };
        log = log;
        commit_index =
            advance_commit replica.commit_index r.leader_commit_index
              (r.prev_log_index + length r.entries);
      })
      (record { term = n.current_term; success = true })

-- `prev_index > 0 && log_.term_at(prev_index) != request->prev_log_term()`, on the term
abbrev pub mismatch : AppendRequest → ℕ → Bool
mismatch r term = ltb 0 r.prev_log_index && not (term == r.prev_log_term)

abbrev check_consistency : SegmentConfig → Node → Replica → AppendRequest → Option ℕ → AppendReply
check_consistency config n replica r none = thrown
check_consistency config n replica r (some term) =
    let stored = finish n replica r (store_entries config replica.log r.prev_log_index r.entries) in
    if mismatch r term
    then ok (record replica { node = n }) (record { term = n.current_term; success = false })
    else stored

abbrev follow_and_check : SegmentConfig → Replica → AppendRequest → Option Node → AppendReply
follow_and_check config replica r none = thrown
follow_and_check config replica r (some n) =
    check_consistency config n replica r
      (if ltb 0 r.prev_log_index then term_at replica.log r.prev_log_index else some 0)

-- RaftServiceImpl::AppendEntries, once the address and the entries are decoded
unfoldable pub append_entries : SegmentConfig → Replica → AppendRequest → AppendReply
append_entries config replica r =
    if not (is_peer replica.node r.sender)
    then invalid_argument
    else if ltb r.term replica.node.current_term
    then ok replica (record { term = replica.node.current_term; success = false })
    else follow_and_check config replica r (follow replica.node r)
