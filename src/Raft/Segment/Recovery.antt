-- ===== src/Raft/Segment/Recovery.antt =====
-- `recover` of Raft/RaftSegment.cpp on the files that a crash leaves.
use stoneleaf_db.Common.Slices.{
  drop-map, get-map, get-take, get_within, length-map, no_elements, take-drop, take-map, take_self,
}
use stoneleaf_db.Common.{
  ℕ, zero, suc, ◌+◌, ◌-◌, ◌*◌, ◌^◌, ◌≤◌, ◌<◌, ◌&&◌, some, List, [], ◌∷◌, ◌++◌, length, take, drop,
  map, All, min, get_elem?, ltb, ◌==◌, eq_self, eq→≡, if◌then◌else◌, ◌≡◌, refl, ap, sym, ◌∙◌, arith,
  length-append, length-take, length-drop, true, false, Bool-cases, inl, inr,
}
use mathlib.Core.List.{append_assoc, append-nil}
use stoneleaf_db.Encoding.Stream.{◌>>=◌}
use stoneleaf_db.Storage.Store.{Store, open_store, read as store_read}
use stoneleaf_db.Storage.Store.Scan.{
  frame, frames, Framed, length-frame, enough_fuel, inspect_file-complete, inspect_file-torn,
  repair_tail-torn,
}
use stoneleaf_db.Storage.Store.Records.{holding, start, read-holding}
use stoneleaf_db.Storage.Index.{Index, open_index, truncate_entries, is_clean, is_corrupt}
use stoneleaf_db.Storage.Index.Records.{
  entries, indexing, append_offset-indexing, read_offset-entries, truncate_entries-entries,
  open_index-entries,
}
use stoneleaf_db.Raft.Entry.{MutationEntry, decode}
use stoneleaf_db.Raft.Entry.RoundTrip.{decode-encode_entry}
use stoneleaf_db.Raft.Segment.{recover, torn_store, common_end, missing_offsets, append_offsets}
use stoneleaf_db.Raft.Segment.Entries.{
  code, offsets, segment_of, Stored, Fits, get-offsets, take-offsets, length-offsets, entry_of,
  start_bound, offsets-append, Framed-All,
}
use stoneleaf_db.Raft.Segment.Scan.{record_after}

start-suc :
    (rs : List (List ℕ)) (n : ℕ) {r : List ℕ}
    → get_elem? rs n ≡ some r
    → start rs (suc n) ≡ start rs n + (4 + length r)
start-suc [] n h = cc
start-suc (x ∷ rs) zero {r} h =
    let is : x ≡ r = cc in rw (append-nil (frame x)) (omega (arith, length-frame x, ap length is))
start-suc (x ∷ rs) (suc n) h = omega (
  arith,
  start-suc rs n h,
  length-append (frame x) (frames (take n rs)),
  length-append (frame x) (frames (take (suc n) rs)),
)

module _ (base : ℕ) (es : List MutationEntry) (st : Stored base es) (fits : Fits base es)
    (index : Index) (os junk : List ℕ) (file : index.file ≡ entries 0 os ++ junk)
    (count : index.scan_result.entry_count ≡ length os) where
  common_end-holding :
      (c : ℕ)
      → c ≤ length es
      → take c os ≡ take c (offsets 0 (map code es))
      → common_end base (holding (map code es)) index c ≡ some (start (map code es) c)
  unfolding common_end
  common_end-holding zero h same = refl
  common_end-holding (suc n) h same =
      let rs : List (List ℕ) = map code es in
      let (e, get) = get_within es n (omega arith) in
      let (i, good) = entry_of base es n st get in
      let get_code : get_elem? rs n ≡ some (code e) = get-map code es n get in
      let plain : 0 + start rs n ≡ start rs n = omega arith in
      let there : get_elem? os n ≡ some (start rs n) =
        sym (get-take os (suc n) n (omega arith))
        ∙ ap (λ l. get_elem? l n) same
        ∙ get-take (offsets 0 rs) (suc n) n (omega arith)
        ∙ get-offsets 0 rs n (omega (arith, length-map code es))
        ∙ ap some plain in
      let offset =
        read_offset-entries index os junk n file count (omega (arith, fits))
          (omega (arith, start_bound rs n, fits)) there in
      let stored : store_read (holding rs) (start rs n) ≡ some (code e) =
        read-holding rs n good.1 get_code in
      let back : decode (code e) ≡ some e =
        decode-encode_entry e good.2 (omega (arith, i, fits)) good.0 in
      let same_index : (e.index == base + n) ≡ true = rw i (eq_self (base + n)) in
      let next : start rs (suc n) ≡ start rs n + (4 + length (code e)) = start-suc rs n get_code in
      let inside : ltb (length (frames rs)) (start rs n + (4 + length (code e))) ≡ false =
        ground (arith, start_bound rs (suc n), next) in
      rw (offset, stored, back, same_index, inside, next) refl

missing_rest :
    (base : ℕ) (before after : List MutationEntry) (fuel : ℕ)
    → Stored base (before ++ after)
    → base + length (before ++ after) < 2 ^ 64
    → length (before ++ after) ≤ 2 ^ 32
    → length after ≤ fuel
    → missing_offsets fuel base
        (holding (map code (before ++ after)))
        (length before)
        (length (frames (map code before)))
      ≡ some (offsets (length (frames (map code before))) (map code after))
unfolding missing_offsets
missing_rest base before [] zero st fits few h = refl
missing_rest base before [] (suc fuel) st fits few h = rw (append-nil before) (ground arith)
missing_rest base before (e ∷ after) zero st fits few h = absurd (omega arith)
missing_rest base before (e ∷ after) (suc fuel) st fits few h =
    let one : List MutationEntry = e ∷ [] in
    let (stored, back, same, more, offset) = record_after base before e after st fits in
    let split : before ++ (e ∷ after) ≡ (before ++ one) ++ after =
      sym (append_assoc before one after) in
    let ordinal : length before + 1 ≡ length (before ++ one) =
      omega (arith, length-append before one) in
    let room : ltb (2 ^ 32 - 1) (length before) ≡ false =
      ground (arith, length-append before (e ∷ after)) in
    let ih =
      missing_rest base (before ++ one) after fuel (rw split at st) (rw split at fits)
        (rw split at few) (omega arith) in
    rw (more, stored, back, same, room)
      (rw (offset, ordinal, split)
        (ap (λ o. o >>= λ l. some (length (frames (map code before)) ∷ l)) ih))

append_offsets-indexing :
    (xs ys : List ℕ) → append_offsets (indexing xs) (length xs) ys ≡ some (indexing (xs ++ ys))
unfolding append_offsets
append_offsets-indexing xs [] = rw (append-nil xs) refl
append_offsets-indexing xs (y ∷ ys) =
    let one : List ℕ = y ∷ [] in
    let next : length xs + 1 ≡ length (xs ++ one) = omega (arith, length-append xs one) in
    rw (append_offset-indexing xs y, next)
      (append_offsets-indexing (xs ++ one) ys
        ∙ ap (λ l. some (indexing l)) (append_assoc xs one ys))

-- The store that the constructor and `recover` make of whole records and a cut tail.
repaired :
    (rs : List (List ℕ)) (r : List ℕ) (kept : ℕ)
    → All Framed rs
    → Framed r
    → kept < length (frame r)
    → torn_store
        (open_store (frames rs ++ take kept (frame r))).scan_result.status
        (open_store (frames rs ++ take kept (frame r)))
      ≡ holding rs
unfolding open_store
repaired rs r zero h hr hk = rw (append-nil (frames rs), inspect_file-complete rs h) refl
repaired rs r (suc kept) h hr hk =
    rw (inspect_file-torn rs r (suc kept) h hr (omega arith) hk)
      (unfold open_store in repair_tail-torn rs r (suc kept) h hr hk _ refl)

-- The index as its constructor reads it, less what the store does not confirm.
kept_index :
    (os junk : List ℕ) (c : ℕ)
    → length os ≤ 2 ^ 32
    → length junk < 12
    → c ≤ length os
    → (if is_clean (open_index (entries 0 os ++ junk)).scan_result.status
          && (open_index (entries 0 os ++ junk)).scan_result.entry_count == c
        then some (open_index (entries 0 os ++ junk))
        else truncate_entries (open_index (entries 0 os ++ junk)) c)
      ≡ some (indexing (take c os))
unfolding truncate_entries
kept_index os junk c few short h =
    let is = open_index-entries os junk few short in
    let cut : truncate_entries (open_index (entries 0 os ++ junk)) c ≡ some (indexing (take c os)) =
      truncate_entries-entries (open_index (entries 0 os ++ junk)) os junk c (ap (λ i. i.file) is)
        (ap (λ i. i.scan_result.entry_count) is) h in
    elim (Bool-cases (length os * 12 == length os * 12 + length junk)) [
      | inr part ↦ rw (is, part) (rw is at cut)
      | inl whole ↦ elim (Bool-cases (length os == c)) [
        | inr longer ↦ rw (is, whole, longer) (rw is at cut)
        | inl all ↦
            let none_left : junk ≡ [] = no_elements junk (ground arith) in
            let every : length os ≡ c = eq→≡ (length os) c all in
            let plain : length os * 12 + 0 ≡ length os * 12 = omega arith in
            rw (is, whole, all)
              (rw (none_left, append-nil (entries 0 os), ← every, take_self os, plain) refl)
      ]
    ]

-- The steps of `recover` one after the other.
assembled :
    (base : ℕ) (es : List MutationEntry) (opened : Store) (index kept : Index) (c cursor : ℕ)
    (more : List ℕ)
    → torn_store opened.scan_result.status opened ≡ holding (map code es)
    → min index.scan_result.entry_count (length (map code es)) ≡ c
    → is_corrupt index.scan_result.status ≡ false
    → common_end base (holding (map code es)) index c ≡ some cursor
    → missing_offsets (length (frames (map code es))) base (holding (map code es)) c cursor
      ≡ some more
    → (c + length more == length (map code es)) ≡ true
    → (if is_clean index.scan_result.status && index.scan_result.entry_count == c
        then some index
        else truncate_entries index c)
      ≡ some kept
    → append_offsets kept c more ≡ some (indexing (offsets 0 (map code es)))
    → recover base opened index ≡ some (segment_of base es)
unfolding recover
assembled base es opened index kept c cursor more torn common sound end missing number left
      appended =
    rw (torn, common, sound, end, missing, number, left, appended, length-map code es) refl

module _ (base : ℕ) (es : List MutationEntry) where
  -- Where the store's file has the records of entries in sequence and within the machine's
  -- integers, and behind them a record whose end is missing, or nothing, and the index's file has
  -- at most 2^32 whole entries, of which the first, as many as both files have records for, are
  -- right, and behind them less than an entry, the recovery of the segment gives exactly the
  -- segment of those entries: the cut record is removed, what the index lacks is added, and what
  -- it has too much is dropped.
  pub recover-segment_of :
      (r : List ℕ) (kept : ℕ) (os junk : List ℕ)
      → Stored base es
      → Fits base es
      → Framed r
      → kept < length (frame r)
      → length os ≤ 2 ^ 32
      → length junk < 12
      → take (min (length os) (length es)) os
        ≡ take (min (length os) (length es)) (offsets 0 (map code es))
      → recover base
          (open_store (frames (map code es) ++ take kept (frame r)))
          (open_index (entries 0 os ++ junk))
        ≡ some (segment_of base es)
  recover-segment_of r kept os junk st fits hr hk few short same =
      let rs : List (List ℕ) = map code es in
      let c : ℕ = min (length os) (length rs) in
      let index : Index = open_index (entries 0 os ++ junk) in
      let is = open_index-entries os junk few short in
      let count : index.scan_result.entry_count ≡ length os =
        ap (λ i. i.scan_result.entry_count) is in
      let sizes : length rs ≡ length es = length-map code es in
      let agree : take c os ≡ take c (offsets 0 rs) = rw sizes same in
      let sound : is_corrupt index.scan_result.status ≡ false = sound_index os junk few short in
      let end : common_end base (holding rs) index c ≡ some (start rs c) =
        common_end-holding base es st fits index os junk (ap (λ i. i.file) is) count c
          (omega (arith, sizes)) agree in
      let split : take c es ++ drop c es ≡ es = take-drop c es in
      let front : length (take c es) ≡ c = omega (arith, length-take c es, sizes) in
      let at_cut : length (frames (map code (take c es))) ≡ start rs c =
        ap (λ l. length (frames l)) (sym (take-map code c es)) in
      let missing : missing_offsets (length (frames rs)) base (holding rs) c (start rs c)
          ≡ some (offsets (start rs c) (map code (drop c es))) =
        rw (split, front, at_cut) at
          (missing_rest base (take c es) (drop c es) (length (frames rs)) (rw split st)
            (rw split (fits.1)) (rw split (fits.2))
            (omega (arith, enough_fuel rs, sizes, length-drop c es))) in
      let more : List ℕ = offsets (start rs c) (map code (drop c es)) in
      let number : (c + length more == length rs) ≡ true = ground (
        arith,
        length-offsets (start rs c) (map code (drop c es)),
        length-map code (drop c es),
        length-drop c es,
        sizes,
      ) in
      let kept_part = kept_index os junk c few short (omega arith) in
      let whole : take c os ++ more ≡ offsets 0 rs = rejoined c agree in
      let ordinal : length (take c os) ≡ c = omega (arith, length-take c os) in
      let appended : append_offsets (indexing (take c os)) c more ≡ some (indexing (offsets 0 rs)) =
        ap (λ k. append_offsets (indexing (take c os)) k more) (sym ordinal)
        ∙ append_offsets-indexing (take c os) more
        ∙ ap (λ l. some (indexing l)) whole in
      assembled base es (open_store (frames rs ++ take kept (frame r))) index (indexing (take c os))
        c (start rs c) more (repaired rs r kept (Framed-All base es st) hr hk)
        (ap (λ n. min n (length rs)) count) sound end missing number kept_part appended
    where
      sound_index :
          (os junk : List ℕ)
          → length os ≤ 2 ^ 32
          → length junk < 12
          → is_corrupt (open_index (entries 0 os ++ junk)).scan_result.status ≡ false
      sound_index os junk few short =
          rw (open_index-entries os junk few short)
            (elim (Bool-cases (length os * 12 == length os * 12 + length junk)) [
              | inl b ↦ rw b refl
              | inr b ↦ rw b refl
            ])

      rejoined :
          (c : ℕ)
          → take c os ≡ take c (offsets 0 (map code es))
          → take c os ++ offsets (start (map code es) c) (map code (drop c es))
            ≡ offsets 0 (map code es)
      rejoined c agree =
          let plain : 0 + start (map code es) c ≡ start (map code es) c = omega arith in
          rw (agree, take-offsets 0 c (map code es), ← drop-map code c es)
            (sym (
              ap (offsets 0) (sym (take-drop c (map code es)))
              ∙ offsets-append 0 (take c (map code es)) (drop c (map code es))
              ∙ rw plain refl))
