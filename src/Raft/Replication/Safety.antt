-- ===== src/Raft/Replication/Safety.antt =====
-- AppendEntries of Raft/RaftServiceImpl.cpp on every branch, on a node whose log is seen as a list of
-- entries.
use stoneleaf_db.Common.Slices.{get_beyond}
use stoneleaf_db.Common.{
  ℕ, zero, suc, ◌+◌, ◌^◌, ◌≤◌, ◌<◌, true, false, none, some, List, [], length, min, max, get_elem?,
  ltb, leb, ◌==◌, eq_self, ◌≡◌, ◌≢◌, refl, ap, sym, ◌∙◌, arith, inl, inr, ◌⊎◌, Bool-cases,
  if◌then◌else◌, ≢→ne,
}
use stoneleaf_db.Raft.Entry.{MutationEntry}
use stoneleaf_db.Raft.Segment.{SegmentConfig}
use stoneleaf_db.Raft.Segment.Entries.{Stored}
use stoneleaf_db.Raft.Node.{
  Role, leader, follower, candidate, Node, is_peer, become_follower, advance_term,
}
use stoneleaf_db.Raft.Log.{Log, term_at, read, last_index}
use stoneleaf_db.Raft.Log.Append.{IsSane}
use stoneleaf_db.Raft.Log.Refinement.{Holds, list_term, term_at-Holds, read-Holds}
use stoneleaf_db.Raft.Node.Valid.{persist_later}
use stoneleaf_db.Raft.Replication.{
  Replica, AppendRequest, ok, append_entries, follow, mismatch, advance_commit,
}
use stoneleaf_db.Raft.Replication.Match.{merge, store_entries-merges}
use stoneleaf_db.Raft.Replication.Merge.{merge_agrees, merge_keeps, Agrees}

-- The node after it took the sender for its leader.
pub Follows : Node → Node → AppendRequest → Type 0
Follows n n' r =
    (n'.role ≡ follower)
    × (n'.current_term ≡ r.term)
    × (n'.leader_address ≡ some r.sender)
    × (n'.peers ≡ n.peers)

follow-Follows :
    (n : Node) (r : AppendRequest)
    → n.current_term ≤ r.term
    → (n' : Node) × (follow n r ≡ some n') × Follows n n' r
unfolding follow become_follower advance_term Follows
follow-Follows n r h = elim (Bool-cases (ltb n.current_term r.term)) [
  | inl later ↦
      let new : leb r.term n.current_term ≡ false = ground arith in
      (
        record n {
          durable = record { term = r.term; voted_for = none };
          voted_for = none;
          votes = [];
          current_term = r.term;
          leader_address = some r.sender;
          role = follower;
        },
        rw (later, new, persist_later r.term none (ground arith)) refl,
        (refl, refl, refl, refl),
      )
  | inr same ↦ let equal : n.current_term ≡ r.term = ground arith in by_role n.role refl same equal
]
  where
    by_role :
        (role : Role)
        → n.role ≡ role
        → ltb n.current_term r.term ≡ false
        → n.current_term ≡ r.term
        → (n' : Node) × (follow n r ≡ some n') × Follows n n' r
    by_role leader is same equal = (
      record n { leader_address = some r.sender; role = follower },
      rw (same, is) refl,
      (refl, equal, refl, refl),
    )
    by_role candidate is same equal = (
      record n { leader_address = some r.sender; role = follower },
      rw (same, is) refl,
      (refl, equal, refl, refl),
    )
    by_role follower is same equal =
        (record n { leader_address = some r.sender }, rw (same, is) refl, (is, equal, refl, refl))

-- The term that the request wants before its entries, where it wants one, is the log's, and no zero.
abbrev pub Matches : List MutationEntry → AppendRequest → Type 0
Matches es r =
    r.prev_log_index ≢ 0 → (r.prev_log_term ≢ 0) × (list_term es r.prev_log_index ≡ r.prev_log_term)

prev_within :
    (es : List MutationEntry) (r : AppendRequest) (prev : ℕ)
    → r.prev_log_index ≡ prev
    → Matches es r
    → prev ≤ length es
prev_within es r zero e m = omega arith
prev_within es r (suc n) e m = elim (Bool-cases (ltb n (length es))) [
  | inl within ↦ ground arith
  | inr beyond ↦
      let (set, same) = m (λ z. ground arith) in
      let nothing : list_term es (suc n) ≡ 0 = rw (get_beyond es n (ground arith)) refl in
      absurd (set (sym same ∙ rw e nothing))
]

consistent :
    (log : Log) (es : List MutationEntry) (r : AppendRequest)
    → Holds log es
    → Matches es r
    → (t : ℕ) × ((if ltb 0 r.prev_log_index then term_at log r.prev_log_index else some 0) ≡ some t)
      × (mismatch r t ≡ false)
consistent log es r h m = elim (Bool-cases (ltb 0 r.prev_log_index)) [
  | inr start ↦ (0, rw start refl, rw start refl)
  | inl behind ↦
      let (set, same) = m (λ z. ground arith) in
      let agrees : (list_term es r.prev_log_index == r.prev_log_term) ≡ true =
        rw same (eq_self r.prev_log_term) in
      (
        list_term es r.prev_log_index,
        rw behind (term_at-Holds log es h r.prev_log_index),
        rw (behind, agrees) refl,
      )
]

module _ (config : SegmentConfig) (replica : Replica) (es : List MutationEntry)
    (r : AppendRequest) where
  -- A call of AppendEntries that a peer sends in a term not before the node's is answered with
  -- success, where the node's log holds a list of entries, the term before the new entries matches
  -- and is not zero, and the new entries are indexed in sequence, fit the codec and the frame, and
  -- stay below 2^64 in index, and the size limits of a segment are below 2^63 and 2^35: the log
  -- then holds the old entries with the first that differs in term, and all behind it, replaced,
  -- its durable index reaches the last new entry, and the commit index is the greatest of the old
  -- one and of what both the leader has committed and the request covers.
  pub append_entries-accepts :
      Holds replica.log es
      → IsSane config
      → is_peer replica.node r.sender ≡ true
      → replica.node.current_term ≤ r.term
      → Matches es r
      → Stored (r.prev_log_index + 1) r.entries
      → 1 + r.prev_log_index + length r.entries < 2 ^ 64
      → (replica' : Replica) × (append_entries config replica r
          ≡ ok replica' (record { term = r.term; success = true }))
        × Holds replica'.log (merge es r.prev_log_index r.entries)
        × (r.prev_log_index + length r.entries ≤ replica'.log.durable_index)
        × (replica'.commit_index
            ≡ max replica.commit_index
                (min r.leader_commit_index (r.prev_log_index + length r.entries)))
  unfolding append_entries advance_commit Follows
  append_entries-accepts h limits peer current m st bounded =
      let (n', following, facts) = follow-Follows replica.node r current in
      let term : n'.current_term ≡ r.term = facts.1 in
      let (log', stored, after, durable) =
        store_entries-merges config limits replica.log es h r.prev_log_index r.entries
          (prev_within es r r.prev_log_index refl m) st bounded in
      let newer : ltb r.term replica.node.current_term ≡ false = ground arith in
      let (t, found, fits) = consistent replica.log es r h m in
      (
        record {
          node = record n' { last_index = last_index log'; last_term = log'.last_term };
          log = log';
          commit_index =
              advance_commit replica.commit_index r.leader_commit_index
                (r.prev_log_index + length r.entries);
        },
        rw (peer, newer, following, found, fits, stored, term) refl,
        after,
        durable,
        ground arith,
      )

  -- The answer of a successful call holds the merged entries.
  answer_holds :
      {replica' : Replica}
      → Holds replica.log es
      → IsSane config
      → is_peer replica.node r.sender ≡ true
      → replica.node.current_term ≤ r.term
      → Matches es r
      → Stored (r.prev_log_index + 1) r.entries
      → 1 + r.prev_log_index + length r.entries < 2 ^ 64
      → append_entries config replica r ≡ ok replica' (record { term = r.term; success = true })
      → Holds replica'.log (merge es r.prev_log_index r.entries)
  answer_holds {replica'} h limits peer current m st bounded runs =
      let (found, same, after, _, _) = append_entries-accepts h limits peer current m st bounded in
      let is : found ≡ replica' = cc in rw (← is) after

  -- After an answer with success, under the conditions under which such an answer is given, the
  -- log has at the index of every entry of the request that entry's term.
  pub append_entries-agrees :
      {replica' : Replica}
      → Holds replica.log es
      → IsSane config
      → is_peer replica.node r.sender ≡ true
      → replica.node.current_term ≤ r.term
      → Matches es r
      → Stored (r.prev_log_index + 1) r.entries
      → 1 + r.prev_log_index + length r.entries < 2 ^ 64
      → append_entries config replica r ≡ ok replica' (record { term = r.term; success = true })
      → (k : ℕ) (e : MutationEntry) → get_elem? r.entries k ≡ some e
      → term_at replica'.log (suc (r.prev_log_index + k)) ≡ some e.term
  append_entries-agrees {replica'} h limits peer current m st bounded runs k e get =
      let after = answer_holds h limits peer current m st bounded runs in
      term_at-Holds replica'.log (merge es r.prev_log_index r.entries) after
        (suc (r.prev_log_index + k))
      ∙ ap some (
          merge_agrees es r.prev_log_index k r.entries (prev_within es r r.prev_log_index refl m)
            get)

  -- After an answer with success, under the conditions under which such an answer is given, to a
  -- request whose entries differ in no term from those that the log holds at their places, such as
  -- one that is repeated or late, every entry that could be read before is read as before.
  pub append_entries-keeps :
      {replica' : Replica}
      → Holds replica.log es
      → IsSane config
      → is_peer replica.node r.sender ≡ true
      → replica.node.current_term ≤ r.term
      → Matches es r
      → Stored (r.prev_log_index + 1) r.entries
      → 1 + r.prev_log_index + length r.entries < 2 ^ 64
      → append_entries config replica r ≡ ok replica' (record { term = r.term; success = true })
      → Agrees es r.prev_log_index r.entries
      → (i : ℕ) (x : MutationEntry) → read replica.log (suc i) ≡ some x
      → read replica'.log (suc i) ≡ some x
  append_entries-keeps {replica'} h limits peer current m st bounded runs agrees i x get =
      let after = answer_holds h limits peer current m st bounded runs in
      let old : get_elem? es i ≡ some x = sym (read-Holds replica.log es h i) ∙ get in
      read-Holds replica'.log (merge es r.prev_log_index r.entries) after i
      ∙ merge_keeps es r.prev_log_index r.entries (prev_within es r r.prev_log_index refl m) agrees
          i old

  -- A call of AppendEntries by a peer in a term before the node's, or with an index before the new
  -- entries at which the log has another term, is answered without success and with the greater of
  -- the two terms, and changes neither the log nor the commit index; the node's term does not
  -- fall.
  pub append_entries-refuses :
      Holds replica.log es
      → is_peer replica.node r.sender ≡ true
      → (r.term < replica.node.current_term)
        ⊎ ((r.prev_log_index ≢ 0) × (list_term es r.prev_log_index ≢ r.prev_log_term))
      → (replica' : Replica) × (append_entries config replica r
          ≡ ok replica' (record { term = max r.term replica.node.current_term; success = false }))
        × (replica'.log ≡ replica.log)
        × (replica'.commit_index ≡ replica.commit_index)
        × (replica.node.current_term ≤ replica'.node.current_term)
  unfolding append_entries Follows
  append_entries-refuses h peer why = elim (Bool-cases (ltb r.term replica.node.current_term)) [
    | inl stale ↦
        let same : max r.term replica.node.current_term ≡ replica.node.current_term =
          ground arith in
        (replica, rw (peer, stale, same) refl, refl, refl, omega arith)
    | inr newer ↦ elim why [
      | inl stale ↦ absurd (ground arith)
      | inr (behind, differs) ↦
          let (n', following, facts) = follow-Follows replica.node r (ground arith) in
          let term : n'.current_term ≡ r.term = facts.1 in
          let more : ltb 0 r.prev_log_index ≡ true = ground arith in
          let found : (if ltb 0 r.prev_log_index
                then term_at replica.log r.prev_log_index
                else some 0)
              ≡ some (list_term es r.prev_log_index) =
            rw more (term_at-Holds replica.log es h r.prev_log_index) in
          let other : (list_term es r.prev_log_index == r.prev_log_term) ≡ false =
            ≢→ne (list_term es r.prev_log_index) r.prev_log_term differs in
          let fails : mismatch r (list_term es r.prev_log_index) ≡ true = rw (more, other) refl in
          let same : max r.term replica.node.current_term ≡ r.term = ground arith in
          (
            record replica { node = n' },
            rw (peer, newer, following, found, fails, term, same) refl,
            refl,
            refl,
            ground arith,
          )
    ]
  ]
