-- ===== src/Raft/Segment/Entries.antt =====
-- A segment of Raft/RaftSegment.cpp as the list of its entries.
use stoneleaf_db.Common.Slices.{take-drop}
use stoneleaf_db.Common.{
  ℕ, zero, suc, ◌+◌, ◌^◌, ◌≤◌, ◌<◌, Option, none, some, List, [], ◌∷◌, ◌++◌, length, take, drop,
  All, map, get_elem?, ◌≡◌, refl, ap, sym, ◌∙◌, arith, length-append,
}
use stoneleaf_db.Storage.Store.Scan.{frame, frames, Framed, length-frame}
use stoneleaf_db.Storage.Store.Records.{holding, start, frames-append}
use stoneleaf_db.Storage.Index.Records.{indexing}
use stoneleaf_db.Raft.Entry.{MutationEntry, encode}
use stoneleaf_db.Raft.Segment.{Segment}

-- The bytes of an entry.
abbrev pub or_nothing : Option (List ℕ) → List ℕ
or_nothing none = []
or_nothing (some bytes) = bytes

abbrev pub code : MutationEntry → List ℕ
code entry = or_nothing (encode entry)

-- Where the records start, from an offset on.
abbrev pub offsets : ℕ → List (List ℕ) → List ℕ
offsets offset [] = []
offsets offset (r ∷ rs) = offset ∷ offsets (offset + (4 + length r)) rs

-- The segment that holds the entries and nothing else.
abbrev pub segment_of : ℕ → List MutationEntry → Segment
segment_of base es = record {
  base_index = base;
  next_index = base + length es;
  store = holding (map code es);
  index = indexing (offsets 0 (map code es));
}

abbrev pub Encodable : MutationEntry → Type 0
Encodable e = (encode e ≡ some (code e)) × Framed (code e) × (e.term < 2 ^ 64)

-- The entries have the indices from `base` on, and each fits the codec and the frame.
abbrev pub Stored : ℕ → List MutationEntry → Type 0
Stored base [] = Unit
Stored base (e ∷ es) = (e.index ≡ base) × Encodable e × Stored (base + 1) es

-- The sizes that the machine's integers hold.
abbrev pub Fits : ℕ → List MutationEntry → Type 0
Fits base es =
    (length (frames (map code es)) < 2 ^ 64) × (base + length es < 2 ^ 64) × (length es ≤ 2 ^ 32)

pub length-offsets : (o : ℕ) (rs : List (List ℕ)) → length (offsets o rs) ≡ length rs
length-offsets o [] = refl
length-offsets o (r ∷ rs) = ap suc (length-offsets (o + (4 + length r)) rs)

pub offsets-append :
    (o : ℕ) (xs ys : List (List ℕ))
    → offsets o (xs ++ ys) ≡ offsets o xs ++ offsets (o + length (frames xs)) ys
offsets-append o [] ys = let e : o + 0 ≡ o = omega arith in rw e refl
offsets-append o (x ∷ xs) ys =
    let e : o + length (frame x ++ frames xs) ≡ o + (4 + length x) + length (frames xs) =
      omega (arith, length-append (frame x) (frames xs), length-frame x) in
    rw e (ap (λ l. o ∷ l) (offsets-append (o + (4 + length x)) xs ys))

pub get-offsets :
    (o : ℕ) (rs : List (List ℕ)) (n : ℕ)
    → n < length rs
    → get_elem? (offsets o rs) n ≡ some (o + start rs n)
get-offsets o [] n h = absurd (omega arith)
get-offsets o (r ∷ rs) zero h = ap some (omega arith)
get-offsets o (r ∷ rs) (suc n) h =
    let e : o + length (frame r ++ frames (take n rs)) ≡ o + (4 + length r) + start rs n =
      omega (arith, length-append (frame r) (frames (take n rs)), length-frame r) in
    rw e (get-offsets (o + (4 + length r)) rs n (omega arith))

pub take-offsets : (o n : ℕ) (rs : List (List ℕ)) → take n (offsets o rs) ≡ offsets o (take n rs)
take-offsets o zero rs = refl
take-offsets o (suc n) [] = refl
take-offsets o (suc n) (r ∷ rs) = ap (λ l. o ∷ l) (take-offsets (o + (4 + length r)) n rs)

pub Framed-All : (base : ℕ) (es : List MutationEntry) → Stored base es → All Framed (map code es)
Framed-All base [] h = h
Framed-All base (e ∷ es) (_, ok, rest) = (ok.1, Framed-All (base + 1) es rest)

pub entry_of :
    (base : ℕ) (es : List MutationEntry) (n : ℕ) {e : MutationEntry}
    → Stored base es
    → get_elem? es n ≡ some e
    → (e.index ≡ base + n) × Encodable e
entry_of base [] n st h = cc
entry_of base (x ∷ es) zero {e} (i, ok, st) h = let is : x ≡ e = cc in rw (← is) (omega arith, ok)
entry_of base (x ∷ es) (suc n) (i, ok, st) h =
    let (j, good) = entry_of (base + 1) es n st h in (omega arith, good)

-- Later files take less room when they hold less.
pub start_bound : (rs : List (List ℕ)) (n : ℕ) → start rs n ≤ length (frames rs)
start_bound rs n =
    let e : frames rs ≡ frames (take n rs) ++ frames (drop n rs) =
      ap frames (sym (take-drop n rs)) ∙ frames-append (take n rs) (drop n rs) in
    omega (arith, ap length e, length-append (frames (take n rs)) (frames (drop n rs)))
