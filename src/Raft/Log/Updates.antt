-- ===== src/Raft/Log/Updates.antt =====
-- Appending of Raft/RaftLog.cpp as updates of one list of entries.
use stoneleaf_db.Common.{
  ℕ, ◌+◌, ◌%◌, ◌^◌, ◌≤◌, ◌<◌, true, false, some, List, [], ◌∷◌, ◌++◌, length, ◌==◌, eq_self, ◌≡◌,
  refl, ap, sym, ◌∙◌, arith, length-append, inl, inr, Bool-cases,
}
use mathlib.Core.List.{append_assoc, append-nil}
use stoneleaf_db.Raft.Entry.{MutationOp, MutationEntry}
use stoneleaf_db.Raft.Segment.{SegmentConfig, DiskSync, directory}
use stoneleaf_db.Raft.Segment.Entries.{segment_of, Encodable, Stored}
use stoneleaf_db.Raft.Log.{
  Log, is_empty, create_segment, last_is_maxed, append, append_to_last, append_entry,
  batch_is_dense, append_all, append_from_leader,
}
use stoneleaf_db.Raft.Log.Groups.{
  concat, segments_of, Proper, add, nonempty, concat-add, Proper-add,
}
use stoneleaf_db.Raft.Log.Append.{
  IsSane, append_to_last-segments_of, room_left, segments_of-append, new_segment-empty,
  new_is_not_maxed, Proper-new, concat-new, is_empty-new,
}
use stoneleaf_db.Raft.Log.Place.{Placed, Placed-add, Placed-new}
use stoneleaf_db.Raft.Log.Refinement.{Holds, final_term, is_open}

final_term-append :
    (term : ℕ) (es : List MutationEntry) (e : MutationEntry)
    → final_term term (es ++ (e ∷ [])) ≡ e.term
final_term-append term [] e = refl
final_term-append term (x ∷ es) e = final_term-append x.term es e

module _ (config : SegmentConfig) (limits : IsSane config) where
  -- What an entry becomes once the last segment has room.
  append_with_room :
      (log : Log) (es : List MutationEntry) (e : MutationEntry) (gs : List (List MutationEntry))
      (syncs : List DiskSync)
      → is_empty gs ≡ false
      → concat gs ≡ es
      → Proper 1 gs
      → last_is_maxed config (segments_of 1 gs) ≡ false
      → log.next_index ≡ 1 + length es
      → log.durable_index ≤ length es
      → e.index ≡ 1 + length es
      → Encodable e
      → 1 + length es + 1 < 2 ^ 64
      → (append_to_last e (segments_of 1 gs) ≡ some (segments_of 1 (add e gs)))
        × Holds
            (record log {
              segments = segments_of 1 (add e gs);
              next_index = (log.next_index + 1) % 2 ^ 64;
              last_term = e.term;
              disk_syncs = syncs;
            })
            (es ++ (e ∷ []))
  append_with_room log es e gs syncs some_group all p room next synced index good bounded =
      let count : length (concat gs) ≡ length es = ap length all in
      let (size, few) = room_left config 1 gs limits room in
      let at_end : e.index ≡ 1 + length (concat gs) = omega (arith, index, count) in
      let more : length (es ++ (e ∷ [])) ≡ length es + 1 =
        omega (arith, length-append es (e ∷ [])) in
      let whole : concat (add e gs) ≡ es ++ (e ∷ []) = rw (concat-add e gs some_group, all) refl in
      (
        append_to_last-segments_of 1 e gs some_group at_end good few
            (omega (arith, count, bounded)),
        record {
          groups = add e gs;
          held = refl;
          some_group = nonempty (add e gs) (rw whole (omega (arith, more)));
          all_entries = whole;
          proper = Proper-add 1 e gs p at_end good (omega (arith, count, bounded)) size few;
          next = omega (arith, next, more, bounded);
          last = sym (final_term-append 0 es e);
          synced = omega (arith, synced, more);
          bounded = omega (arith, bounded, more);
        },
      )

  pub append_entry-Holds :
      (log : Log) (es : List MutationEntry) (e : MutationEntry)
      → Holds log es
      → e.index ≡ 1 + length es
      → Encodable e
      → 1 + length es + 1 < 2 ^ 64
      → (log' : Log) × (append_entry config log e ≡ some log')
        × Holds log' (es ++ (e ∷ []))
        × (log'.durable_index ≡ log.durable_index)
        × Placed config log.segments log.next_index log'.segments
  unfolding append_entry create_segment
  append_entry-Holds log es e h index good bounded =
      elim (Bool-cases (last_is_maxed config (segments_of 1 h.groups))) [
        | inr room ↦
            let (runs, after) =
              append_with_room log es e h.groups log.disk_syncs h.some_group h.all_entries h.proper
                room h.next h.synced index good bounded in
            (
              record log {
                segments = segments_of 1 (add e h.groups);
                next_index = (log.next_index + 1) % 2 ^ 64;
                last_term = e.term;
                disk_syncs = log.disk_syncs;
              },
              rw (h.held, room, runs) refl,
              after,
              refl,
              rw (h.held) (Placed-add config log.next_index e h.groups h.some_group room),
            )
        | inl maxed ↦
            let gs : List (List MutationEntry) = h.groups ++ ([] ∷ []) in
            let count : length (concat h.groups) ≡ length es = ap length h.all_entries in
            let grown : segments_of 1 gs
                ≡ segments_of 1 h.groups ++ (segment_of (1 + length es) [] ∷ []) =
              rw (segments_of-append 1 h.groups ([] ∷ []), count) refl in
            let room : last_is_maxed config (segments_of 1 gs) ≡ false =
              rw grown (new_is_not_maxed config (segments_of 1 h.groups) (1 + length es)) in
            let (runs, after) =
              append_with_room log es e gs (log.disk_syncs ++ (directory ∷ []))
                (is_empty-new h.groups) (concat-new h.groups ∙ h.all_entries)
                (Proper-new 1 h.groups h.proper (omega (arith, count, h.bounded))) room h.next
                h.synced index good bounded in
            let base : (1 + length es == 0) ≡ false = ground arith in
            (
              record log {
                segments = segments_of 1 (add e gs);
                next_index = (log.next_index + 1) % 2 ^ 64;
                last_term = e.term;
                disk_syncs = log.disk_syncs ++ (directory ∷ []);
              },
              rw (h.held, maxed, h.next, base, new_segment-empty (1 + length es), ← grown, runs)
                  refl,
              after,
              refl,
              rw (h.held) (
                  Placed-new config log.next_index e h.groups h.some_group
                    (omega (arith, h.next, count)) maxed),
            )
      ]

  -- On a log that holds a list of entries, under size limits of a segment below 2^63 and 2^35,
  -- RaftLog::append of operations that fit the codec and the frame succeeds while the next index
  -- but one is below 2^64: it answers the next index, and the log holds the list with the new
  -- entry behind it. Where the store or the index of the last segment is larger than its limit,
  -- all segments stay and a new one from the next index on comes behind them; where neither is,
  -- only the last segment changes, and keeps its base index.
  pub append-Holds :
      (log : Log) (es : List MutationEntry) (term : ℕ) (operations : List MutationOp)
      → Holds log es
      → Encodable (record { term = term; index = log.next_index; operations = operations })
      → 1 + length es + 1 < 2 ^ 64
      → (log' : Log) × (append config log term operations ≡ some (log', log.next_index))
        × Holds log'
            (es ++ (record { term = term; index = log.next_index; operations = operations } ∷ []))
        × Placed config log.segments log.next_index log'.segments
  unfolding append
  append-Holds log es term operations h good bounded =
      let e : MutationEntry = record {
        term = term;
        index = log.next_index;
        operations = operations;
      } in
      let (log', runs, after, _, placed) = append_entry-Holds log es e h h.next good bounded in
      (log', rw (is_open h, good.0, runs) refl, after, placed)

  append_all-Holds :
      (log : Log) (es new : List MutationEntry)
      → Holds log es
      → Stored (1 + length es) new
      → 1 + length es + length new < 2 ^ 64
      → (log' : Log) × (append_all config log new ≡ some log')
        × Holds log' (es ++ new)
        × (log'.durable_index ≡ log.durable_index)
  unfolding append_all
  append_all-Holds log es [] h st bounded = (log, refl, rw (append-nil es) h, refl)
  append_all-Holds log es (e ∷ new) h (index, good, st) bounded =
      let (log', runs, after, same, _) = append_entry-Holds log es e h index good (omega arith) in
      let count : length (es ++ (e ∷ [])) ≡ length es + 1 =
        omega (arith, length-append es (e ∷ [])) in
      let from : 1 + length es + 1 ≡ 1 + length (es ++ (e ∷ [])) = omega (arith, count) in
      let (log'', rest, all, still) =
        append_all-Holds log' (es ++ (e ∷ [])) new after (rw from at st)
          (omega (arith, bounded, count)) in
      (log'', rw runs rest, rw (append_assoc es (e ∷ []) new) at all, still ∙ same)

  dense :
      (first : ℕ) (new : List MutationEntry)
      → Stored first new
      → batch_is_dense first new ≡ some true
  unfolding batch_is_dense
  dense first [] st = refl
  dense first (e ∷ new) (index, good, st) =
      let same : (e.index == first) ≡ true = rw index (eq_self first) in
      rw (same, good.0) (dense (first + 1) new st)

  -- A batch from the next index on is appended in order.
  pub append_from_leader-Holds :
      (log : Log) (es new : List MutationEntry)
      → Holds log es
      → Stored (1 + length es) new
      → 1 + length es + length new < 2 ^ 64
      → (log' : Log) × (append_from_leader config log (1 + length es) new ≡ some log')
        × Holds log' (es ++ new)
        × (log'.durable_index ≡ log.durable_index)
  unfolding append_from_leader
  append_from_leader-Holds log es new h st bounded =
      let (log', runs, after, same) = append_all-Holds log es new h st bounded in
      let first : (1 + length es == log.next_index) ≡ true =
        rw (h.next) (eq_self (1 + length es)) in
      (log', rw (is_open h, first, dense (1 + length es) new st) runs, after, same)
