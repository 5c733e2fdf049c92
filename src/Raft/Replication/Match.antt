-- ===== src/Raft/Replication/Match.antt =====
-- What the log operations of AppendEntries in Raft/RaftServiceImpl.cpp make of a list of entries.
use stoneleaf_db.Common.Slices.{get_beyond, get_within}
use stoneleaf_db.Common.{
  ℕ, zero, suc, ◌+◌, ◌-◌, ◌^◌, ◌≤◌, ◌<◌, true, false, none, some, List, [], ◌∷◌, ◌++◌, length, take,
  get_elem?, ltb, ◌==◌, ◌≡◌, refl, ap, arith, length-take, inl, inr, Bool-cases, Option-cases,
  if◌then◌else◌,
}
use stoneleaf_db.Encoding.Stream.{◌>>=◌}
use stoneleaf_db.Raft.Entry.{MutationEntry}
use stoneleaf_db.Raft.Entry.RoundTrip.{accepted}
use stoneleaf_db.Raft.Segment.{SegmentConfig}
use stoneleaf_db.Raft.Segment.Entries.{Encodable, Stored, entry_of}
use stoneleaf_db.Raft.Log.{Log, term_at, truncate_suffix, sync_through}
use stoneleaf_db.Raft.Log.Groups.{concat, Proper}
use stoneleaf_db.Raft.Log.Search.{in_group}
use stoneleaf_db.Raft.Log.Append.{IsSane}
use stoneleaf_db.Raft.Log.Refinement.{Holds, list_term, term_or_zero, term_at-Holds}
use stoneleaf_db.Raft.Log.Truncate.{truncate_suffix-Holds, sync_through-Holds}
use stoneleaf_db.Raft.Log.Updates.{append_from_leader-Holds}
use stoneleaf_db.Raft.Replication.{reconcile, append_new, sync_new, store_entries}

-- The entries that a log has after it took `new` behind its first `prev`: what agrees is kept, the
-- first entry that differs and all behind it are replaced.
abbrev pub merge : List MutationEntry → ℕ → List MutationEntry → List MutationEntry
merge [] prev new = new
merge (x ∷ es) zero [] = x ∷ es
merge (x ∷ es) zero (e ∷ new) =
    let later = merge es zero new in if x.term == e.term then x ∷ later else e ∷ new
merge (x ∷ es) (suc prev) new = x ∷ merge es prev new

merge_none : (es : List MutationEntry) (n : ℕ) → merge es n [] ≡ es
merge_none [] n = refl
merge_none (x ∷ es) zero = refl
merge_none (x ∷ es) (suc n) = ap (λ l. x ∷ l) (merge_none es n)

merge_at_end : (es new : List MutationEntry) → merge es (length es) new ≡ es ++ new
merge_at_end [] new = refl
merge_at_end (x ∷ es) new = ap (λ l. x ∷ l) (merge_at_end es new)

merge_same :
    (es : List MutationEntry) (n : ℕ) (e : MutationEntry) (new : List MutationEntry)
    {x : MutationEntry}
    → get_elem? es n ≡ some x
    → (x.term == e.term) ≡ true
    → merge es n (e ∷ new) ≡ merge es (suc n) new
merge_same [] n e new h same = cc
merge_same (y ∷ es) zero e new {x} h same =
    let is : y ≡ x = cc in let agree : (y.term == e.term) ≡ true = rw is same in rw agree refl
merge_same (y ∷ es) (suc n) e new h same = ap (λ l. y ∷ l) (merge_same es n e new h same)

merge_conflict :
    (es : List MutationEntry) (n : ℕ) (e : MutationEntry) (new : List MutationEntry)
    {x : MutationEntry}
    → get_elem? es n ≡ some x
    → (x.term == e.term) ≡ false
    → merge es n (e ∷ new) ≡ take n es ++ (e ∷ new)
merge_conflict [] n e new h other = cc
merge_conflict (y ∷ es) zero e new {x} h other =
    let is : y ≡ x = cc in let differ : (y.term == e.term) ≡ false = rw is other in rw differ refl
merge_conflict (y ∷ es) (suc n) e new h other = ap (λ l. y ∷ l) (merge_conflict es n e new h other)

entry_in :
    (base : ℕ) (gs : List (List MutationEntry)) (n : ℕ) {e : MutationEntry}
    → Proper base gs
    → get_elem? (concat gs) n ≡ some e
    → Encodable e
entry_in base [] n p h = cc
entry_in base (g ∷ gs) n (st, _, p) h = elim (in_group g (concat gs) n h) [
  | inl (_, get) ↦ (entry_of base g n st get).1
  | inr (_, get) ↦ entry_in (base + length g) gs (n - length g) p get
]

-- Every entry of a log has a term.
pub term_is_set :
    (log : Log) (es : List MutationEntry) (n : ℕ) {e : MutationEntry}
    → Holds log es
    → get_elem? es n ≡ some e
    → (e.term == 0) ≡ false
term_is_set log es n {e} h get =
    let good : Encodable e = entry_in 1 h.groups n h.proper (rw (← h.all_entries) at get) in
    let (valid, _, _, _, _) = accepted e good.0 in ground arith

length-merge :
    (es : List MutationEntry) (n : ℕ) (new : List MutationEntry)
    → n ≤ length es
    → n + length new ≤ length (merge es n new)
length-merge [] n new h = omega arith
length-merge (x ∷ es) zero [] h = omega arith
length-merge (x ∷ es) zero (e ∷ new) h = elim (Bool-cases (x.term == e.term)) [
  | inl same ↦ rw same (omega (arith, length-merge es zero new (omega arith)))
  | inr other ↦ rw other (omega arith)
]
length-merge (x ∷ es) (suc n) new h = omega (arith, length-merge es n new (omega arith))

module _ (config : SegmentConfig) (limits : IsSane config) (log : Log) (es : List MutationEntry)
    (h : Holds log es) where
  -- Steps 3 and 4 from a position on.
  merged :
      (n : ℕ) (new : List MutationEntry)
      → n ≤ length es
      → Stored (n + 1) new
      → 1 + n + length new < 2 ^ 64
      → (log' : Log) × ((reconcile log (n + 1) new >>= λ (log1, first, rest).
            append_new config log1 first rest)
          ≡ some log')
        × Holds log' (merge es n new)
  unfolding reconcile append_new
  merged n [] hn st bounded = (log, refl, rw (merge_none es n) h)
  merged n (e ∷ new) hn st bounded =
      let at_next : n + 1 ≡ suc n = omega arith in
      let from : n + 1 ≡ 1 + n = omega arith in
      let found : term_at log (n + 1) ≡ some (list_term es (suc n)) =
        rw at_next (term_at-Holds log es h (suc n)) in
      elim (Bool-cases (ltb n (length es))) [
        | inr end ↦
            let all : n ≡ length es = ground arith in
            let nothing : get_elem? es n ≡ none = get_beyond es n (omega (arith, all)) in
            let zero_term : list_term es (suc n) ≡ 0 = ap term_or_zero nothing in
            let same_start : n + 1 ≡ 1 + length es = omega (arith, all) in
            let (log', runs, after, _) =
              append_from_leader-Holds config limits log es (e ∷ new) h (rw same_start at st)
                (omega (arith, bounded, all)) in
            (
              log',
              rw (found, zero_term, same_start) runs,
              rw (all, merge_at_end es (e ∷ new)) after,
            )
        | inl within ↦
            let (x, get) = get_within es n (ground arith) in
            let term : list_term es (suc n) ≡ x.term = ap term_or_zero get in
            let set : (x.term == 0) ≡ false = term_is_set log es n h get in
            elim (Bool-cases (x.term == e.term)) [
              | inl same ↦
                  let (log', runs, after) =
                    merged (n + 1) new (ground arith) st.2 (omega (arith, bounded)) in
                  (
                    log',
                    rw (found, term, set, same) runs,
                    rw (merge_same es n e new get same, ← at_next) after,
                  )
              | inr other ↦
                  let (log1, cut, kept, _) = truncate_suffix-Holds log es h n (omega (arith, hn)) in
                  let count : length (take n es) ≡ n = omega (arith, length-take n es, hn) in
                  let same_start : n + 1 ≡ 1 + length (take n es) = omega (arith, count) in
                  let (log', runs, after, _) =
                    append_from_leader-Holds config limits log1 (take n es) (e ∷ new) kept
                      (rw same_start at st) (omega (arith, bounded, count)) in
                  let cut_here : truncate_suffix log (n + 1) ≡ some log1 = rw at_next cut in
                  (
                    log',
                    rw (found, term, set, other, cut_here, same_start) runs,
                    rw (merge_conflict es n e new get other) after,
                  )
            ]
      ]

  -- Steps 3 to 5 of AppendEntries leave a log that holds the merged entries, and whose durable
  -- index reaches the last of the request.
  pub store_entries-merges :
      (prev : ℕ) (new : List MutationEntry)
      → prev ≤ length es
      → Stored (prev + 1) new
      → 1 + prev + length new < 2 ^ 64
      → (log' : Log) × (store_entries config log prev new ≡ some log')
        × Holds log' (merge es prev new)
        × (prev + length new ≤ log'.durable_index)
  unfolding store_entries sync_new
  store_entries-merges prev new hp st bounded =
      let (log1, runs, after) = merged prev new hp st bounded in
      let inside = length-merge es prev new hp in
      elim (Bool-cases (ltb 0 (prev + length new))) [
        | inl more ↦
            let (log', _, synced, same, durable, _, _, _, _) =
              sync_through-Holds log1 (merge es prev new) (prev + length new) after (ground arith)
                inside in
            (log', store_runs runs (rw more synced), same, durable)
        | inr nothing ↦ (log1, store_runs runs (rw nothing refl), after, ground arith)
      ]
    where
      store_runs :
          {log1 log' : Log}
          → (reconcile log (prev + 1) new >>= λ (log1, first, rest).
              append_new config log1 first rest)
            ≡ some log1
          → (if ltb 0 (prev + length new) then sync_through log1 (prev + length new) else some log1)
            ≡ some log'
          → (reconcile log (prev + 1) new >>= λ (log1, first, rest).
              append_new config log1 first rest >>= λ log2.
              if ltb 0 (prev + length new)
              then sync_through log2 (prev + length new)
              else some log2)
            ≡ some log'
      store_runs a b = elim (Option-cases (reconcile log (prev + 1) new)) [
        | inl fails ↦ absurd (cc)
        | inr (r, is) ↦ rw is (rw (rw is at a) b)
      ]
