-- ===== src/Storage/Store/Scan.antt =====
-- What `inspect_file` of Log/Store.cpp finds in a file of whole records, and in one whose last record
-- is cut off.
use stoneleaf_db.Common.Slices.{drop-append, take-append}
use stoneleaf_db.Common.{
  ℕ, zero, suc, ◌+◌, ◌-◌, ◌^◌, ◌≤◌, ◌<◌, List, [], ◌∷◌, ◌++◌, length, take, drop, All, ◌≡◌, refl,
  arith, length-append, length-take,
}
use mathlib.Core.List.{append_assoc, append-nil}
use stoneleaf_db.Common.Bytes.{write}
use stoneleaf_db.Encoding.Endian.{get_u32_be, put_u32_be}
use stoneleaf_db.Encoding.Stream.{out_u32}
use stoneleaf_db.Encoding.Stream.RoundTrip.{get_u32_be-out_u32, length-out_u32}
use stoneleaf_db.Storage.File.{truncate}
use stoneleaf_db.Storage.Store.{
  complete, incomplete_tail, Store, inspect_loop, inspect_file, repair_tail,
}

-- A record behind its length, and a file of such records.
abbrev pub frame : List ℕ → List ℕ
frame r = out_u32 (length r) ++ r

abbrev pub frames : List (List ℕ) → List ℕ
frames [] = []
frames (r ∷ rs) = frame r ++ frames rs

abbrev pub Framed : List ℕ → Type 0
Framed r = length r < 2 ^ 32

pub length-frame : (r : List ℕ) → length (frame r) ≡ 4 + length r
length-frame r = omega (arith, length-append (out_u32 (length r)) r, length-out_u32 (length r))

drop-frame : (r rest : List ℕ) → drop (4 + length r) (frame r ++ rest) ≡ rest
unfolding out_u32 put_u32_be write
drop-frame r rest =
    let e : 4 + length r ≡ suc (suc (suc (suc (length r)))) = omega arith in
    rw e (drop-append r rest)

head_of_frame : (r rest : List ℕ) → Framed r → get_u32_be (frame r ++ rest) 0 ≡ length r
head_of_frame r rest h =
    rw (append_assoc (out_u32 (length r)) r rest) (get_u32_be-out_u32 (length r) (r ++ rest) h)

inspect_frame :
    (r rest : List ℕ) (fuel physical offset count : ℕ)
    → Framed r
    → inspect_loop (suc fuel) (frame r ++ rest) physical offset count
      ≡ inspect_loop fuel rest physical (offset + 4 + length r) (count + 1)
unfolding inspect_loop out_u32 put_u32_be write
inspect_frame r rest fuel physical offset count h =
    ground (arith, head_of_frame r rest h, drop-frame r rest, length-append r rest)

-- What is left of a record that a crash cut off.
torn_frame :
    (r : List ℕ) (kept fuel physical offset count : ℕ)
    → Framed r
    → 0 < kept
    → kept < 4 + length r
    → inspect_loop (suc fuel) (take kept (frame r)) physical offset count ≡ record {
      status = incomplete_tail;
      physical_size = physical;
      valid_size = offset;
      record_count = count;
    }
unfolding inspect_loop out_u32 put_u32_be write
torn_frame r zero fuel physical offset count h h0 h1 = absurd (omega arith)
torn_frame r (suc zero) fuel physical offset count h h0 h1 = ground arith
torn_frame r (suc (suc zero)) fuel physical offset count h h0 h1 = ground arith
torn_frame r (suc (suc (suc zero))) fuel physical offset count h h0 h1 = ground arith
torn_frame r (suc (suc (suc (suc k)))) fuel physical offset count h h0 h1 =
    ground (arith, get_u32_be-out_u32 (length r) (take k r) h, length-take k r)

inspect_frames :
    (rs : List (List ℕ)) (rest : List ℕ) (fuel physical offset count : ℕ)
    → All Framed rs
    → inspect_loop (length rs + fuel) (frames rs ++ rest) physical offset count
      ≡ inspect_loop fuel rest physical (offset + length (frames rs)) (count + length rs)
inspect_frames [] rest fuel physical offset count h =
    let e : offset + 0 ≡ offset = omega arith in
    let e2 : count + 0 ≡ count = omega arith in
    let e3 : 0 + fuel ≡ fuel = omega arith in rw (e, e2, e3) refl
inspect_frames (r ∷ rs) rest fuel physical offset count (h, hs) =
    let e : suc (length rs) + fuel ≡ suc (length rs + fuel) = omega arith in
    let e2 : offset + length (frame r ++ frames rs) ≡ offset + 4 + length r + length (frames rs) =
      omega (arith, length-append (frame r) (frames rs), length-frame r) in
    let e3 : count + suc (length rs) ≡ count + 1 + length rs = omega arith in
    rw
      (
        append_assoc (frame r) (frames rs) rest,
        e,
        e2,
        e3,
        inspect_frame r (frames rs ++ rest) (length rs + fuel) physical offset count h,
      )
      (inspect_frames rs rest fuel physical (offset + 4 + length r) (count + 1) hs)

pub enough_fuel : (rs : List (List ℕ)) → length rs ≤ length (frames rs)
enough_fuel [] = omega arith
enough_fuel (r ∷ rs) =
    omega (arith, enough_fuel rs, length-append (frame r) (frames rs), length-frame r)

fuel_split :
    (rs : List (List ℕ)) (rest : List ℕ)
    → (fuel : ℕ) × (length (frames rs ++ rest) + 1 ≡ length rs + suc fuel)
fuel_split rs rest = (
  length (frames rs ++ rest) - length rs,
  omega (arith, enough_fuel rs, length-append (frames rs) rest),
)

-- A file of whole records is found complete, with all of them.
pub inspect_file-complete :
    (rs : List (List ℕ))
    → All Framed rs
    → inspect_file (frames rs) ≡ record {
      status = complete;
      physical_size = length (frames rs);
      valid_size = length (frames rs);
      record_count = length rs;
    }
unfolding inspect_file inspect_loop
inspect_file-complete rs h =
    let (fuel, e) = fuel_split rs [] in
    let e2 : length (frames rs) + 1 ≡ length rs + suc fuel = rw (append-nil (frames rs)) at e in
    let back : inspect_loop (length rs + suc fuel) (frames rs ++ []) (length (frames rs)) 0 0 ≡ _ =
      inspect_frames rs [] (suc fuel) (length (frames rs)) 0 0 h in
    let zero_left : 0 + length rs ≡ length rs = omega arith in
    rw (e2) (rw (append-nil (frames rs), zero_left) at back)

-- Of a file whose last record is cut off, the whole records are found, and the tail is found incomplete.
pub inspect_file-torn :
    (rs : List (List ℕ)) (r : List ℕ) (kept : ℕ)
    → All Framed rs
    → Framed r
    → 0 < kept
    → kept < length (frame r)
    → inspect_file (frames rs ++ take kept (frame r)) ≡ record {
      status = incomplete_tail;
      physical_size = length (frames rs) + kept;
      valid_size = length (frames rs);
      record_count = length rs;
    }
unfolding inspect_file
inspect_file-torn rs r kept h hr h0 h1 =
    let (fuel, e) = fuel_split rs (take kept (frame r)) in
    let physical : length (frames rs ++ take kept (frame r)) ≡ length (frames rs) + kept =
      omega (arith, length-append (frames rs) (take kept (frame r)), length-take kept (frame r)) in
    let a : 0 + length rs ≡ length rs = omega arith in
    let b : 0 + length (frames rs) ≡ length (frames rs) = omega arith in
    rw
      (
        e,
        physical,
        inspect_frames rs (take kept (frame r)) (suc fuel) (length (frames rs) + kept) 0 0 h,
        a,
        b,
      )
      (torn_frame r kept fuel (length (frames rs) + kept) (length (frames rs)) (length rs) hr h0
        (omega (arith, length-frame r)))

-- Where a file has whole records and behind them a record whose end is missing, or nothing, the
-- repair of the tail leaves the store of exactly the whole records.
pub repair_tail-torn :
    (rs : List (List ℕ)) (r : List ℕ) (kept : ℕ)
    → All Framed rs
    → Framed r
    → kept < length (frame r)
    → (s : Store) → s.file ≡ frames rs ++ take kept (frame r)
    → repair_tail s ≡ record {
      file = frames rs;
      size = length (frames rs);
      scan_result = record {
        status = complete;
        physical_size = length (frames rs);
        valid_size = length (frames rs);
        record_count = length rs;
      };
    }
unfolding repair_tail truncate
repair_tail-torn rs r zero h hr h1 s e =
    rw (e, append-nil (frames rs), inspect_file-complete rs h) refl
repair_tail-torn rs r (suc kept) h hr h1 s e =
    rw (e, inspect_file-torn rs r (suc kept) h hr (omega arith) h1)
      (rw (take-append (frames rs) (take (suc kept) (frame r))) refl)
