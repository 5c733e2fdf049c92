-- ===== src/Raft/Log/Refinement.antt =====
-- The operations of Raft/RaftLog.cpp as operations on one list of entries.
use stoneleaf_db.Common.Slices.{get_beyond, get_within}
use stoneleaf_db.Common.{
  ℕ, zero, suc, ◌+◌, ◌^◌, ◌≤◌, ◌<◌, false, Option, none, some, List, [], ◌∷◌, length, drop,
  get_elem?, leb, ◌≡◌, refl, ◌∙◌, arith, inl, inr, Bool-cases, if◌then◌else◌,
}
use stoneleaf_db.Raft.Entry.{MutationEntry}
use stoneleaf_db.Raft.Log.{Log, is_empty, read, term_at, scan_from}
use stoneleaf_db.Raft.Log.Groups.{concat, segments_of, Proper}
use stoneleaf_db.Raft.Log.Search.{
  read_in-segments_of, term_in-segments_of, scan_segments-segments_of,
}

-- The term of the last entry, or zero.
abbrev pub final_term : ℕ → List MutationEntry → ℕ
final_term term [] = term
final_term term (e ∷ es) = final_term e.term es

-- The term at an index of the list of all entries; zero where there is none.
abbrev pub term_or_zero : Option MutationEntry → ℕ
term_or_zero none = 0
term_or_zero (some e) = e.term

abbrev pub list_term : List MutationEntry → ℕ → ℕ
list_term es zero = 0
list_term es (suc n) = term_or_zero (get_elem? es n)

-- The log holds the entries, in some segments.
pub record Holds (log : Log) (es : List MutationEntry) : Type 0 where
  pub groups : List (List MutationEntry)
  pub held : log.segments ≡ segments_of 1 groups
  pub some_group : is_empty groups ≡ false
  pub all_entries : concat groups ≡ es
  pub proper : Proper 1 groups
  pub next : log.next_index ≡ 1 + length es
  pub last : log.last_term ≡ final_term 0 es
  pub synced : log.durable_index ≤ length es
  pub bounded : 1 + length es < 2 ^ 64

is_empty-segments_of :
    (base : ℕ) (gs : List (List MutationEntry)) → is_empty (segments_of base gs) ≡ is_empty gs
is_empty-segments_of base [] = refl
is_empty-segments_of base (g ∷ gs) = refl

pub is_open : {log : Log} {es : List MutationEntry} → Holds log es → is_empty log.segments ≡ false
is_open {log} {es} h = rw (h.held) (is_empty-segments_of 1 h.groups ∙ h.some_group)

module _ (log : Log) (es : List MutationEntry) (h : Holds log es) where
  -- On a log that holds a list of entries, RaftLog::read at an index above zero gives the entry at
  -- that place of the list, and fails where there is none.
  pub read-Holds : (n : ℕ) → read log (suc n) ≡ get_elem? es n
  unfolding read
  read-Holds n =
      let next : log.next_index ≡ 1 + length es = h.next in
      elim (Bool-cases (leb (1 + length es) (suc n))) [
        | inl beyond ↦ rw (is_open h, next, beyond, get_beyond es n (ground arith)) (ground arith)
        | inr within ↦
            let (e, get) = get_within es n (ground arith) in
            let found = read_in-segments_of 1 h.groups n h.proper (rw (← h.all_entries) at get) in
            let same : 1 + n ≡ suc n = omega arith in
            rw (is_open h, next, within, get, h.held, ← same, found) (ground arith)
      ]

  -- A log gives the term at each index, and zero where it has no entry.
  pub term_at-Holds : (index : ℕ) → term_at log index ≡ some (list_term es index)
  unfolding term_at
  term_at-Holds zero = rw (is_open h) refl
  term_at-Holds (suc n) =
      let next : log.next_index ≡ 1 + length es = h.next in
      elim (Bool-cases (leb (1 + length es) (suc n))) [
        | inl beyond ↦ rw (is_open h, next, beyond, get_beyond es n (ground arith)) (ground arith)
        | inr within ↦
            let (e, get) = get_within es n (ground arith) in
            let found = term_in-segments_of 1 h.groups n h.proper (rw (← h.all_entries) at get) in
            let same : 1 + n ≡ suc n = omega arith in
            rw (is_open h, next, within, get, h.held, ← same, found) (ground arith)
      ]

  -- A scan gives the entries from an index on.
  pub scan_from-Holds :
      (n : ℕ) → scan_from log (suc n) ≡ (if leb n (length es) then some (drop n es) else none)
  unfolding scan_from
  scan_from-Holds n =
      let next : log.next_index ≡ 1 + length es = h.next in
      let found = scan_segments-segments_of 1 h.groups n h.proper in
      let same : 1 + n ≡ suc n = omega arith in
      elim (Bool-cases (leb n (length es))) [
        | inl within ↦
            rw (is_open h, next, within, h.held, ← same, found, h.all_entries) (ground arith)
        | inr beyond ↦ rw (is_open h, next, beyond) (ground arith)
      ]
