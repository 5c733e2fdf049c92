-- ===== src/Raft/Segment/Laws.antt =====
-- The operations of Raft/RaftSegment.cpp on a segment that is seen as the list of its entries.
use stoneleaf_db.Common.Slices.{get-map, get_length, length-map, map-append, take-map, take_self}
use stoneleaf_db.Common.{
  ℕ, ◌+◌, ◌-◌, ◌%◌, ◌^◌, ◌≤◌, ◌<◌, some, List, [], ◌∷◌, ◌++◌, length, take, map, get_elem?, ltb,
  ◌==◌, eq_self, ◌≡◌, refl, ap, arith, length-append, length-take, Bool-cases, true, false, inl,
  inr, eq→≡, ◌||◌,
}
use stoneleaf_db.Encoding.Endian.{get_u64_be, put_u64_be}
use stoneleaf_db.Encoding.Stream.{out_u64}
use stoneleaf_db.Encoding.Endian.Laws.{get_u64_be-put_u64_be}
use stoneleaf_db.Common.{replicate}
use stoneleaf_db.Common.Bytes.{write}
use stoneleaf_db.Storage.Store.{Store}
use stoneleaf_db.Storage.Store.{append as store_append, read as store_read}
use stoneleaf_db.Storage.Store.Scan.{frames, Framed}
use stoneleaf_db.Storage.Store.Records.{
  holding, start, append-holding, read-holding, read_prefix-holding, truncate_to-holding,
}
use stoneleaf_db.Storage.Index.{read_offset}
use stoneleaf_db.Storage.Index.Records.{
  append_offset-indexing, read_offset-indexing, truncate_entries-indexing,
}
use stoneleaf_db.Raft.Entry.{MutationEntry, encode, decode}
use stoneleaf_db.Raft.Entry.RoundTrip.{decode-encode_entry, some_first, accepted}
use stoneleaf_db.Raft.Segment.{Segment, append, read, term_at, truncate_suffix, is_outside}
use stoneleaf_db.Raft.Segment.Entries.{
  or_nothing, code, offsets, segment_of, Encodable, Stored, Fits, length-offsets, offsets-append,
  get-offsets, take-offsets, Framed-All, entry_of, start_bound,
}

-- The index entry of an entry.
located :
    (base : ℕ) (es : List MutationEntry) (n : ℕ) {e : MutationEntry}
    → Fits base es
    → get_elem? es n ≡ some e
    → read_offset (segment_of base es).index n ≡ some (start (map code es) n)
located base es n (small, _, few) h =
    let rs : List (List ℕ) = map code es in
    let inside : n < length rs = omega (arith, get_length es n h, length-map code es) in
    let get : get_elem? (offsets 0 rs) n ≡ some (0 + start rs n) = get-offsets 0 rs n inside in
    let plain : 0 + start rs n ≡ start rs n = omega arith in
    read_offset-indexing (offsets 0 rs) n (omega (arith, get_length es n h, few))
      (omega (arith, start_bound rs n, small)) (rw plain at get)

module _ (base : ℕ) (es : List MutationEntry) (st : Stored base es) where
  -- A segment that holds entries in sequence and within the machine's integers reads the entry at
  -- each of its indices: the index finds the record, the store reads it, and the codec decodes it.
  pub read-segment_of :
      (n : ℕ) {e : MutationEntry}
      → Fits base es
      → get_elem? es n ≡ some e
      → read (segment_of base es) (base + n) ≡ some e
  unfolding read
  read-segment_of n {e} fits h =
      let (i, good) = entry_of base es n st h in
      let (enc, small, term) = good in
      let inside : is_outside (segment_of base es) (base + n) ≡ false =
        ground (arith, get_length es n h) in
      let ordinal : base + n - base ≡ n = omega arith in
      let stored : store_read (holding (map code es)) (start (map code es) n) ≡ some (code e) =
        read-holding (map code es) n small (get-map code es n h) in
      let back : decode (code e) ≡ some e =
        decode-encode_entry e term (omega (arith, i, fits, get_length es n h)) enc in
      let same : (e.index == base + n) ≡ true = rw i (eq_self (base + n)) in
      rw (inside, ordinal, located base es n fits h, stored, back, same) refl

  term_prefix :
      (e : MutationEntry)
      → Encodable e
      → (8 ≤ length (code e)) × (get_u64_be (take 8 (code e)) 0 ≡ e.term)
  unfolding get_u64_be out_u64 put_u64_be write
  term_prefix e (enc, small, term) =
      let (_, _, ops, _, is) = accepted e enc in
      rw (← is) (omega arith, get_u64_be-put_u64_be (replicate 8 0) 0 e.term (omega arith) term)

  -- The first bytes of a record are the term of its entry.
  pub term_at-segment_of :
      (n : ℕ) {e : MutationEntry}
      → Fits base es
      → get_elem? es n ≡ some e
      → term_at (segment_of base es) (base + n) ≡ some e.term
  unfolding term_at
  term_at-segment_of n {e} fits h =
      let (i, good) = entry_of base es n st h in
      let inside : is_outside (segment_of base es) (base + n) ≡ false =
        ground (arith, get_length es n h) in
      let ordinal : base + n - base ≡ n = omega arith in
      let (long, value) = term_prefix e good in
      let prefix = read_prefix-holding (map code es) n 8 good.1 (get-map code es n h) long in
      rw (inside, ordinal, located base es n fits h, prefix, value) refl

  -- A segment that holds entries in sequence is truncated at each of its indices, and at the one
  -- behind them, to the segment of the entries before.
  pub truncate_suffix-segment_of :
      (n : ℕ)
      → n ≤ length es
      → truncate_suffix (segment_of base es) (base + n) ≡ some (segment_of base (take n es))
  unfolding truncate_suffix
  truncate_suffix-segment_of n h =
      let rs : List (List ℕ) = map code es in
      let outside : (ltb (base + n) base || ltb (base + length es) (base + n)) ≡ false =
        ground arith in
      let ordinal : base + n - base ≡ n = omega arith in
      let count : length (take n es) ≡ n = omega (arith, length-take n es) in
      let store =
        truncate_to-holding rs n (Framed-All base es st) (omega (arith, h, length-map code es)) in
      let index =
        truncate_entries-indexing (offsets 0 rs) n
          (omega (arith, h, length-map code es, length-offsets 0 rs)) in
      elim (Bool-cases (base + n == base + length es)) [
        | inl same ↦
            let all : n ≡ length es = omega (arith, eq→≡ (base + n) (base + length es) same) in
            rw (outside, same, all, take_self es) refl
        | inr other ↦
            rw
              (
                outside,
                other,
                ordinal,
                store,
                index,
                count,
                take-offsets 0 n rs,
                take-map code n es,
              )
              refl
      ]

pub Stored-append :
    (base : ℕ) (es : List MutationEntry) (e : MutationEntry)
    → Stored base es
    → e.index ≡ base + length es
    → Encodable e
    → Stored base (es ++ (e ∷ []))
Stored-append base [] e st i good = (omega arith, good, st)
Stored-append base (x ∷ es) e (j, ok, st) i good =
    (j, ok, Stored-append (base + 1) es e st (omega arith) good)

-- What a successful append of the segment's store has checked.
Framed-by_append :
    (rs : List (List ℕ)) (bytes : List ℕ) {r : Store × ℕ}
    → store_append (holding rs) bytes ≡ some r
    → Framed bytes
unfolding store_append
Framed-by_append rs bytes h = ground arith

-- A segment that holds fewer than 2^32 entries takes the entry with the next index, where that
-- fits the codec and the frame and the index behind it is below 2^64, and then holds it behind the
-- others: in the store behind its length, and in the index at the place of its record.
pub append-segment_of :
    (base : ℕ) (es : List MutationEntry) (e : MutationEntry)
    → e.index ≡ base + length es
    → length es < 2 ^ 32
    → base + length es + 1 < 2 ^ 64
    → Encodable e
    → append (segment_of base es) e ≡ some (segment_of base (es ++ (e ∷ [])))
unfolding append
append-segment_of base es e index few bounded good =
    let rs : List (List ℕ) = map code es in
    let same : (e.index == base + length es) ≡ true = rw index (eq_self (base + length es)) in
    let ordinal : e.index - base ≡ length (offsets 0 rs) =
      omega (arith, index, length-offsets 0 rs, length-map code es) in
    let allowed : ltb (2 ^ 32 - 1) (length (offsets 0 rs)) ≡ false =
      ground (arith, length-offsets 0 rs, length-map code es) in
    let whole : map code (es ++ (e ∷ [])) ≡ rs ++ (code e ∷ []) = map-append code es (e ∷ []) in
    let plain : 0 + length (frames rs) ≡ length (frames rs) = omega arith in
    let places : offsets 0 (rs ++ (code e ∷ [])) ≡ offsets 0 rs ++ (length (frames rs) ∷ []) =
      rw (offsets-append 0 rs (code e ∷ []), plain) refl in
    let next : (base + length es + 1) % 2 ^ 64 ≡ base + length (es ++ (e ∷ [])) =
      omega (arith, bounded, length-append es (e ∷ [])) in
    rw
      (
        same,
        ordinal,
        allowed,
        good.0,
        append-holding rs (code e) good.1,
        append_offset-indexing (offsets 0 rs) (length (frames rs)),
      )
      (rw (whole, places, next) refl)

-- What a successful append has checked.
pub checked_by_append :
    (base : ℕ) (es : List MutationEntry) (e : MutationEntry) {s : Segment}
    → append (segment_of base es) e ≡ some s
    → e.term < 2 ^ 64
    → (e.index ≡ base + length es) × (length es < 2 ^ 32) × Encodable e
unfolding append
checked_by_append base es e {s} h term = elim (Bool-cases (e.index == base + length es)) [
  | inr other ↦ absurd (ground arith)
  | inl same ↦ elim (Bool-cases (ltb (2 ^ 32 - 1) (e.index - base))) [
    | inl many ↦ absurd (ground arith)
    | inr few ↦
        let rs : List (List ℕ) = map code es in
        let (bytes, enc, h1) = some_first (encode e) _ (rw (same, few) at h) in
        let (_, put, _) = some_first (store_append (holding rs) bytes) _ h1 in
        let framed : Framed bytes = Framed-by_append rs bytes put in
        let is_code : code e ≡ bytes = ap or_nothing enc in
        let index : e.index ≡ base + length es = eq→≡ e.index (base + length es) same in
        (index, ground arith, rw is_code (enc, framed, term))
  ]
]
