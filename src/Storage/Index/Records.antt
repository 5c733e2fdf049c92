-- ===== src/Storage/Index/Records.antt =====
-- The operations of storage/Index.cpp on an index that holds the offsets of all records in order.
use stoneleaf_db.Common.Slices.{drop-append, split_at, take-append, take-drop}
use stoneleaf_db.Common.{
  ℕ, suc, ◌+◌, ◌*◌, ◌^◌, ◌≤◌, ◌<◌, some, List, [], ◌∷◌, ◌++◌, length, take, drop, get_elem?,
  replicate, ltb, leb, eq_self, ◌≡◌, refl, ap, sym, ◌∙◌, arith, length-append, length-take, false,
}
use mathlib.Core.List.{append_assoc, append-nil}
use stoneleaf_db.Common.Bytes.{write}
use stoneleaf_db.Encoding.Endian.{get_u32_be, get_u64_be, put_u64_be, put_u32_be}
use stoneleaf_db.Encoding.Endian.Laws.{get_u64_be-put_u64_be}
use stoneleaf_db.Encoding.Stream.{out_u32, out_u64}
use stoneleaf_db.Encoding.Stream.RoundTrip.{get_u32_be-out_u32, length-out_u32, length-out_u64}
use stoneleaf_db.Storage.File.{truncate, read_at, write_at, write_at_end, read_at_middle}
use stoneleaf_db.Storage.Index.{
  complete, incomplete_tail, open_index, inspect_index, inspect_entries,
}
use stoneleaf_db.Common.{suc, ◌/◌, ◌==◌, if◌then◌else◌}
use stoneleaf_db.Storage.Index.{
  Index, entry_size, clean, append_offset, read_offset, truncate_entries,
}

abbrev pub index_entry : ℕ → ℕ → List ℕ
index_entry ordinal offset = out_u32 ordinal ++ out_u64 offset

abbrev pub entries : ℕ → List ℕ → List ℕ
entries ordinal [] = []
entries ordinal (o ∷ os) = index_entry ordinal o ++ entries (ordinal + 1) os

abbrev pub indexing : List ℕ → Index
indexing os = clean (entries 0 os) (length os * entry_size) (length os)

length-index_entry : (i o : ℕ) → length (index_entry i o) ≡ 12
length-index_entry i o =
    omega (arith, length-append (out_u32 i) (out_u64 o), length-out_u32 i, length-out_u64 o)

length-entries : (i : ℕ) (os : List ℕ) → length (entries i os) ≡ length os * 12
length-entries i [] = omega arith
length-entries i (o ∷ os) = omega (
  arith,
  length-append (index_entry i o) (entries (i + 1) os),
  length-index_entry i o,
  length-entries (i + 1) os,
)

entries-append :
    (i : ℕ) (xs ys : List ℕ) → entries i (xs ++ ys) ≡ entries i xs ++ entries (i + length xs) ys
entries-append i [] ys = let e : i + 0 ≡ i = omega arith in rw e refl
entries-append i (x ∷ xs) ys =
    let e : i + suc (length xs) ≡ i + 1 + length xs = omega arith in
    rw
      (
        e,
        entries-append (i + 1) xs ys,
        append_assoc (index_entry i x) (entries (i + 1) xs) (entries (i + 1 + length xs) ys),
      )
      refl

-- An index takes the offset of the next ordinal behind the others.
pub append_offset-indexing :
    (os : List ℕ) (offset : ℕ)
    → append_offset (indexing os) (length os) offset ≡ some (indexing (os ++ (offset ∷ [])))
unfolding append_offset
append_offset-indexing os offset =
    let at_end : write_at (entries 0 os) (length os * 12) (index_entry (length os) offset)
        ≡ entries 0 os ++ index_entry (length os) offset =
      rw (← length-entries 0 os) (write_at_end (entries 0 os) (index_entry (length os) offset)) in
    let count : length (os ++ (offset ∷ [])) ≡ length os + 1 =
      omega (arith, length-append os (offset ∷ [])) in
    let e : 0 + length os ≡ length os = omega arith in
    let mul : (length os + 1) * 12 ≡ length os * 12 + 12 = omega arith in
    rw
      (
        at_end,
        count,
        entries-append 0 os (offset ∷ []),
        e,
        append-nil (index_entry (length os) offset),
        mul,
      )
      refl

entry_back : (i o : ℕ) → o < 2 ^ 64 → get_u64_be (index_entry i o) 4 ≡ o
unfolding get_u64_be out_u32 out_u64 put_u32_be put_u64_be write
entry_back i o h = get_u64_be-put_u64_be (replicate 8 0) 0 o (omega arith) h

-- An index whose file may end in a part of an entry gives the offset of each of its ordinals.
pub read_offset-entries :
    (s : Index) (os junk : List ℕ) (n : ℕ) {offset : ℕ}
    → s.file ≡ entries 0 os ++ junk
    → s.scan_result.entry_count ≡ length os
    → n < 2 ^ 32
    → offset < 2 ^ 64
    → get_elem? os n ≡ some offset
    → read_offset s n ≡ some offset
unfolding read_offset
read_offset-entries s os junk n {offset} file count hn ho h =
    let (post, e, l) = split_at os n h in
    let inside : leb s.scan_result.entry_count n ≡ false =
      rw (count, e) (ground (arith, l, length-append (take n os) (offset ∷ post))) in
    let before : n * 12 ≡ length (entries 0 (take n os)) =
      omega (arith, l, length-entries 0 (take n os)) in
    let ordinal : 0 + length (take n os) ≡ n = omega (arith, l) in
    let parts : entries 0 os
        ≡ entries 0 (take n os) ++ (index_entry n offset ++ entries (n + 1) post) =
      ap (entries 0) e ∙ rw (entries-append 0 (take n os) (offset ∷ post), ordinal) refl in
    let whole : s.file
        ≡ entries 0 (take n os) ++ (index_entry n offset ++ (entries (n + 1) post ++ junk)) =
      file
      ∙ ap (λ l. l ++ junk) parts
      ∙ append_assoc (entries 0 (take n os)) (index_entry n offset ++ entries (n + 1) post) junk
      ∙ ap (λ l. entries 0 (take n os) ++ l)
          (append_assoc (index_entry n offset) (entries (n + 1) post) junk) in
    let there : read_at s.file (n * 12) 12 ≡ some (index_entry n offset) =
      rw (whole, before, ← length-index_entry n offset)
        (read_at_middle (entries 0 (take n os)) (index_entry n offset)
          (entries (n + 1) post ++ junk)) in
    rw (inside, there, get_u32_be-out_u32 n (out_u64 offset) hn, eq_self n, entry_back n offset ho)
      refl

-- An index gives the offset of each of its ordinals.
pub read_offset-indexing :
    (os : List ℕ) (n : ℕ) {offset : ℕ}
    → n < 2 ^ 32
    → offset < 2 ^ 64
    → get_elem? os n ≡ some offset
    → read_offset (indexing os) n ≡ some offset
read_offset-indexing os n hn ho h =
    read_offset-entries (indexing os) os [] n (sym (append-nil (entries 0 os))) refl hn ho h

-- An index whose file may end in a part of an entry is truncated to as many of its offsets as are
-- wanted, the first ones.
pub truncate_entries-entries :
    (s : Index) (os junk : List ℕ) (n : ℕ)
    → s.file ≡ entries 0 os ++ junk
    → s.scan_result.entry_count ≡ length os
    → n ≤ length os
    → truncate_entries s n ≡ some (indexing (take n os))
unfolding truncate_entries truncate
truncate_entries-entries s os junk n file total h =
    let inside : ltb s.scan_result.entry_count n ≡ false = rw total (ground arith) in
    let count : length (take n os) ≡ n = omega (arith, length-take n os) in
    let size : n * 12 ≡ length (entries 0 (take n os)) =
      omega (arith, count, length-entries 0 (take n os)) in
    let later : List ℕ = entries (0 + length (take n os)) (drop n os) in
    let split : entries 0 os ≡ entries 0 (take n os) ++ later =
      ap (entries 0) (sym (take-drop n os)) ∙ entries-append 0 (take n os) (drop n os) in
    let whole : s.file ≡ entries 0 (take n os) ++ (later ++ junk) =
      file ∙ ap (λ l. l ++ junk) split ∙ append_assoc (entries 0 (take n os)) later junk in
    let cut : take (n * 12) s.file ≡ entries 0 (take n os) =
      rw (size, whole) (take-append (entries 0 (take n os)) (later ++ junk)) in
    rw (inside, cut, count) refl

pub truncate_entries-indexing :
    (os : List ℕ) (n : ℕ)
    → n ≤ length os
    → truncate_entries (indexing os) n ≡ some (indexing (take n os))
truncate_entries-indexing os n h =
    truncate_entries-entries (indexing os) os [] n (sym (append-nil (entries 0 os))) refl h

-- What the scan of the constructor finds.
inspect_entries-entries :
    (os junk : List ℕ) (i physical : ℕ)
    → i + length os ≤ 2 ^ 32
    → inspect_entries (length os) (entries i os ++ junk) physical i ≡ record {
      status = if (i + length os) * 12 == physical then complete else incomplete_tail;
      physical_size = physical;
      valid_size = (i + length os) * 12;
      entry_count = i + length os;
    }
unfolding inspect_entries
inspect_entries-entries [] junk i physical h = let e : i + 0 ≡ i = omega arith in rw e refl
inspect_entries-entries (o ∷ os) junk i physical h =
    let e : i + suc (length os) ≡ i + 1 + length os = omega arith in
    let rest : List ℕ = entries (i + 1) os ++ junk in
    let joined : (index_entry i o ++ entries (i + 1) os) ++ junk ≡ index_entry i o ++ rest =
      append_assoc (index_entry i o) (entries (i + 1) os) junk in
    let first : get_u32_be (index_entry i o ++ rest) 0 ≡ i =
      rw (append_assoc (out_u32 i) (out_u64 o) rest)
        (get_u32_be-out_u32 i (out_u64 o ++ rest) (omega arith)) in
    let later : drop 12 (index_entry i o ++ rest) ≡ rest =
      rw (← length-index_entry i o) (drop-append (index_entry i o) rest) in
    rw (e, joined, first, eq_self i, later)
      (inspect_entries-entries os junk (i + 1) physical (omega arith))

-- What the constructor makes of a file that may end in a part of an entry.
pub open_index-entries :
    (os junk : List ℕ)
    → length os ≤ 2 ^ 32
    → length junk < 12
    → open_index (entries 0 os ++ junk) ≡ record {
      file = entries 0 os ++ junk;
      size = length os * 12 + length junk;
      scan_result = record {
        status =
            if length os * 12 == length os * 12 + length junk then complete else incomplete_tail;
        physical_size = length os * 12 + length junk;
        valid_size = length os * 12;
        entry_count = length os;
      };
    }
unfolding open_index inspect_index
open_index-entries os junk few short =
    let size : length (entries 0 os ++ junk) ≡ length os * 12 + length junk =
      omega (arith, length-append (entries 0 os) junk, length-entries 0 os) in
    let count : (length os * 12 + length junk) / 12 ≡ length os = omega arith in
    let plain : 0 + length os ≡ length os = omega arith in
    rw
      (
        size,
        count,
        inspect_entries-entries os junk 0 (length os * 12 + length junk) (omega arith),
        plain,
      )
      refl
