-- ===== src/Raft/Log/Truncate.antt =====
-- Truncating and synchronising of Raft/RaftLog.cpp as updates of one list of entries.
use stoneleaf_db.Common.Slices.{get_within, take_self, drop_beyond}
use stoneleaf_db.Common.{
  ℕ, zero, suc, ◌+◌, ◌-◌, ◌≤◌, ◌<◌, true, false, ◌&&◌, ◌||◌, not, some, List, [], ◌∷◌, ◌++◌, length,
  take, drop, min, get_elem?, ltb, leb, ◌==◌, ◌≡◌, refl, ap, sym, ◌∙◌, arith, length-take, inl, inr,
  Bool-cases, if◌then◌else◌,
}
use mathlib.Core.List.{append-nil}
use stoneleaf_db.Raft.Entry.{MutationEntry}
use stoneleaf_db.Raft.Segment.{DiskSync}
use stoneleaf_db.Raft.Log.{
  Log, term_in, truncate_segments, removes_files, truncate_suffix, sync_through, sync_segments,
  sync_names,
}
use stoneleaf_db.Raft.Log.Groups.{concat, segments_of, cut, concat-cut, Proper-cut, is_empty-cut}
use stoneleaf_db.Raft.Log.Search.{term_in-segments_of}
use stoneleaf_db.Raft.Log.Append.{truncate_segments-segments_of}
use stoneleaf_db.Raft.Log.Durable.{sync_segments-reaches, AllSynced, sync_segments-AllSynced}
use stoneleaf_db.Raft.Log.Refinement.{Holds, final_term, is_open}

final_term-take :
    (term : ℕ) (es : List MutationEntry) (n : ℕ) {e : MutationEntry}
    → get_elem? es n ≡ some e
    → final_term term (take (suc n) es) ≡ e.term
final_term-take term [] n h = cc
final_term-take term (x ∷ es) zero {e} h = let is : x ≡ e = cc in ap (λ z. z.term) is
final_term-take term (x ∷ es) (suc n) h = final_term-take x.term es n h

module _ (log : Log) (es : List MutationEntry) (h : Holds log es) where
  -- The term that `truncate_suffix` keeps as the last.
  kept_term :
      (n : ℕ)
      → n ≤ length es
      → (if ltb 1 (suc n) then term_in log.segments (suc n - 1) else some 0)
        ≡ some (final_term 0 (take n es))
  kept_term zero hn = refl
  kept_term (suc n) hn =
      let (e, get) = get_within es n (omega arith) in
      let found = term_in-segments_of 1 h.groups n h.proper (rw (← h.all_entries) at get) in
      let same : suc (suc n) - 1 ≡ 1 + n = omega arith in
      let more : ltb 1 (suc (suc n)) ≡ true = ground arith in
      rw (more, same, h.held, found, final_term-take 0 es n get) refl

  -- On a log that holds a list of entries, RaftLog::truncate_suffix at an index up to the next
  -- succeeds: the log holds the entries before that index, and its durable index is no greater
  -- than before and below that index.
  pub truncate_suffix-Holds :
      (n : ℕ)
      → n ≤ length es
      → (log' : Log) × (truncate_suffix log (suc n) ≡ some log')
        × Holds log' (take n es)
        × (log'.durable_index ≡ min log.durable_index n)
  unfolding truncate_suffix
  truncate_suffix-Holds n hn =
      let next : log.next_index ≡ 1 + length es = h.next in
      let count : length (concat h.groups) ≡ length es = ap length h.all_entries in
      let inside : ltb (1 + length es) (suc n) ≡ false = ground arith in
      elim (Bool-cases (suc n == 1 + length es)) [
        | inl end ↦
            let all : n ≡ length es = ground arith in
            (
              log,
              rw (is_open h, next, inside, end) (ground arith),
              rw (all, take_self es) h,
              omega (arith, h.synced),
            )
        | inr earlier ↦
            let log' : Log = record {
              segments = segments_of 1 (cut n h.groups);
              next_index = suc n;
              last_term = final_term 0 (take n es);
              durable_index = min log.durable_index n;
              directory_dirty = log.directory_dirty || removes_files log.segments (suc n);
              disk_syncs = log.disk_syncs;
            } in
            let same : 1 + n ≡ suc n = omega arith in
            let before : suc n - 1 ≡ n = omega arith in
            let shorter = rw same at (
              truncate_segments-segments_of 1 h.groups n h.proper h.some_group
                (omega (arith, count, hn))) in
            let cut_there : truncate_segments log.segments (suc n)
                ≡ some (segments_of 1 (cut n h.groups)) =
              rw (h.held) shorter in
            let runs : truncate_suffix log (suc n) ≡ some log' =
              rw (is_open h, next, inside, earlier, kept_term n hn, cut_there, before)
                (ground arith) in
            let kept : length (take n es) ≡ n = omega (arith, length-take n es, hn) in
            (
              log',
              runs,
              record {
                groups = cut n h.groups;
                held = refl;
                some_group = is_empty-cut n h.groups ∙ h.some_group;
                all_entries =
                    rw (concat-cut n h.groups (omega (arith, count, hn)), h.all_entries) refl;
                proper = Proper-cut 1 n h.groups h.proper;
                next = omega (arith, kept);
                last = refl;
                synced = omega (arith, kept);
                bounded = omega (arith, kept, hn, h.bounded);
              },
              refl,
            )
      ]

pub sync_through-Holds :
    (log : Log) (es : List MutationEntry) (index : ℕ)
    → Holds log es
    → 0 < index
    → index ≤ length es
    → (log' : Log) × (files : List DiskSync) × (sync_through log index ≡ some log')
      × Holds log' es
      × (index ≤ log'.durable_index)
      × (log.durable_index ≤ log'.durable_index)
      × (log'.disk_syncs ≡ log.disk_syncs ++ (files ++ sync_names log.directory_dirty))
      × AllSynced log.segments files
          (log.durable_index + 1)
          (drop log.durable_index (take log'.durable_index es))
      × (log'.directory_dirty ≡ false)
unfolding sync_through
sync_through-Holds log es index h h0 h1 =
    let count : length (concat h.groups) ≡ length es = ap length h.all_entries in
    let inside : (index == 0 || leb (1 + length es) index) ≡ false = ground arith in
    elim (Bool-cases (leb index log.durable_index && not log.directory_dirty)) [
      | inl done ↦
          let clean : log.directory_dirty ≡ false = ground arith in
          let none_left : drop log.durable_index (take log.durable_index es) ≡ [] =
            drop_beyond log.durable_index (take log.durable_index es)
              (omega (arith, length-take log.durable_index es)) in
          (
            log,
            [],
            rw (is_open h, h.next, inside, done) refl,
            h,
            ground arith,
            omega arith,
            rw clean (sym (append-nil log.disk_syncs)),
            rw none_left tt,
            clean,
          )
      | inr unsynced ↦
          let (a, b, c) =
            sync_segments-reaches 1 index log.durable_index h.groups (omega arith)
              (inr (omega arith)) (omega (arith, count)) (omega (arith, count, h.synced)) in
          let synced : ℕ × List DiskSync =
            sync_segments index log.durable_index (segments_of 1 h.groups) in
          let log' : Log = record log {
            durable_index = synced.0;
            directory_dirty = false;
            disk_syncs = log.disk_syncs ++ (synced.1 ++ sync_names log.directory_dirty);
          } in
          (
            log',
            synced.1,
            rw (is_open h, h.next, inside, unsynced, h.held) refl,
            record {
              groups = h.groups;
              held = h.held;
              some_group = h.some_group;
              all_entries = h.all_entries;
              proper = h.proper;
              next = h.next;
              last = h.last;
              synced = omega (arith, b, count);
              bounded = h.bounded;
            },
            a,
            c,
            refl,
            rw (h.held, ← h.all_entries)
                (sync_segments-AllSynced index log.durable_index h.groups h.proper),
            refl,
          )
    ]
