-- ===== src/Raft/Segment/Scan.antt =====
-- `scan` of Raft/RaftSegment.cpp on a segment that is seen as the list of its entries.
use stoneleaf_db.Common.Slices.{get-map, length-map, map-append, take-append}
use stoneleaf_db.Common.{
  ℕ, zero, suc, ◌+◌, ◌^◌, ◌≤◌, ◌<◌, some, List, [], ◌∷◌, ◌++◌, length, map, get_elem?, ltb, ◌==◌,
  eq_self, ◌≡◌, refl, ap, sym, arith, length-append, true,
}
use mathlib.Core.List.{append_assoc, append-nil}
use stoneleaf_db.Encoding.Stream.{◌>>=◌}
use stoneleaf_db.Storage.Store.{read as store_read}
use stoneleaf_db.Storage.Store.Scan.{frame, frames, length-frame, enough_fuel}
use stoneleaf_db.Storage.Store.Records.{holding, start, read-holding, frames-append}
use stoneleaf_db.Raft.Entry.{MutationEntry, decode}
use stoneleaf_db.Raft.Entry.RoundTrip.{decode-encode_entry}
use stoneleaf_db.Raft.Segment.{scan, scan_loop}
use stoneleaf_db.Raft.Segment.Entries.{code, segment_of, Stored, Fits, entry_of}

get_next {ℓ} :
    {A : Type ℓ} (xs ys : List A) (y : A) → get_elem? (xs ++ (y ∷ ys)) (length xs) ≡ some y
get_next [] ys y = refl
get_next (x ∷ xs) ys y = get_next xs ys y

-- The record behind the entries before: it is read and decoded, and the next one starts behind it.
pub record_after :
    (base : ℕ) (before : List MutationEntry) (e : MutationEntry) (after : List MutationEntry)
    → Stored base (before ++ (e ∷ after))
    → base + length (before ++ (e ∷ after)) < 2 ^ 64
    → (store_read (holding (map code (before ++ (e ∷ after)))) (length (frames (map code before)))
        ≡ some (code e))
      × (decode (code e) ≡ some e)
      × ((e.index == base + length before) ≡ true)
      × (ltb
            (length (frames (map code before)))
            (length (frames (map code (before ++ (e ∷ after)))))
          ≡ true)
      × (length (frames (map code before)) + (4 + length (code e))
          ≡ length (frames (map code (before ++ (e ∷ [])))))
record_after base before e after st fits =
    let es : List MutationEntry = before ++ (e ∷ after) in
    let one : List MutationEntry = e ∷ [] in
    let (index, good) = entry_of base es (length before) st (get_next before after e) in
    let (enc, small, term) = good in
    let here : start (map code es) (length before) ≡ length (frames (map code before)) =
      rw
        (
          map-append code before (e ∷ after),
          ← length-map code before,
          take-append (map code before) (map code (e ∷ after)),
        )
        refl in
    (
      rw here at (
          read-holding (map code es) (length before) small
            (get-map code es (length before) (get_next before after e))),
      decode-encode_entry e term (omega (arith, index, fits, length-append before (e ∷ after))) enc,
      rw index (eq_self (base + length before)),
      rw
          (
            map-append code before (e ∷ after),
            frames-append (map code before) (map code (e ∷ after)),
          )
          (ground (
            arith,
            length-append (frames (map code before)) (frame (code e) ++ frames (map code after)),
            length-append (frame (code e)) (frames (map code after)),
            length-frame (code e),
          )),
      rw
          (
            map-append code before one,
            frames-append (map code before) (map code one),
            append-nil (frame (code e)),
          )
          (omega (
            arith,
            length-append (frames (map code before)) (frame (code e)),
            length-frame (code e),
          )),
    )

scan_rest :
    (base : ℕ) (before after : List MutationEntry) (fuel : ℕ)
    → Stored base (before ++ after)
    → base + length (before ++ after) < 2 ^ 64
    → length after ≤ fuel
    → scan_loop fuel
        (holding (map code (before ++ after)))
        (length (frames (map code before)))
        (base + length before)
      ≡ some after
unfolding scan_loop
scan_rest base before [] zero st fits h = refl
scan_rest base before [] (suc fuel) st fits h = rw (append-nil before) (ground arith)
scan_rest base before (e ∷ after) zero st fits h = absurd (omega arith)
scan_rest base before (e ∷ after) (suc fuel) st fits h =
    let one : List MutationEntry = e ∷ [] in
    let (stored, back, same, more, offset) = record_after base before e after st fits in
    let split : before ++ (e ∷ after) ≡ (before ++ one) ++ after =
      sym (append_assoc before one after) in
    let expected : base + length before + 1 ≡ base + length (before ++ one) =
      omega (arith, length-append before one) in
    let ih =
      scan_rest base (before ++ one) after fuel (rw split at st) (rw split at fits) (omega arith) in
    rw (more, stored, back, same)
      (rw (offset, expected, split) (ap (λ o. o >>= λ l. some (e ∷ l)) ih))

-- The scan of a segment that holds entries in sequence and within the machine's integers ends
-- within as many rounds as the store has bytes, and gives the entries.
pub scan-segment_of :
    (base : ℕ) (es : List MutationEntry)
    → Stored base es
    → Fits base es
    → scan (segment_of base es) ≡ some es
unfolding scan
scan-segment_of base es st (_, fits, _) =
    let plain : base + 0 ≡ base = omega arith in
    let enough : length es ≤ length (frames (map code es)) =
      omega (arith, enough_fuel (map code es), length-map code es) in
    rw plain at (scan_rest base [] es (length (frames (map code es))) st fits enough)
