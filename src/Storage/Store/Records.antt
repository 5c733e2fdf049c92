-- ===== src/Storage/Store/Records.antt =====
-- The operations of Log/Store.cpp on a store that holds whole records.
use stoneleaf_db.Common.Slices.{drop-append, split_at, take-append, take-drop, take_self}
use stoneleaf_db.Common.{
  ℕ, zero, suc, ◌+◌, ◌-◌, ◌^◌, ◌≤◌, some, List, [], ◌∷◌, ◌++◌, length, take, drop, All, get_elem?,
  ltb, ◌≡◌, refl, ap, sym, ◌∙◌, arith, length-append, length-take, false,
}
use mathlib.Core.List.{append_assoc, append-nil}
use stoneleaf_db.Encoding.Endian.{get_u32_be}
use stoneleaf_db.Encoding.Stream.{out_u32}
use stoneleaf_db.Encoding.Stream.RoundTrip.{get_u32_be-out_u32, length-out_u32}
use stoneleaf_db.Storage.File.{truncate, read_at, write_at, write_at_end, read_at_middle}
use stoneleaf_db.Storage.Store.{
  Store, settled, append, locate, read, read_prefix, offset_behind, truncate_to,
}
use stoneleaf_db.Storage.Store.Scan.{frame, frames, Framed, length-frame}

-- A store that holds the records and nothing else.
abbrev pub holding : List (List ℕ) → Store
holding rs = settled (frames rs) (length (frames rs)) (length rs)

pub frames-append : (xs ys : List (List ℕ)) → frames (xs ++ ys) ≡ frames xs ++ frames ys
frames-append [] ys = refl
frames-append (x ∷ xs) ys =
    rw (frames-append xs ys, append_assoc (frame x) (frames xs) (frames ys)) refl

-- A complete store takes a record of fewer than 2^32 bytes behind the others, and answers where it starts.
pub append-holding :
    (rs : List (List ℕ)) (bytes : List ℕ)
    → Framed bytes
    → append (holding rs) bytes ≡ some (holding (rs ++ (bytes ∷ [])), length (frames rs))
unfolding append
append-holding rs bytes h =
    let small : ltb (2 ^ 32 - 1) (length bytes) ≡ false = ground arith in
    let head : List ℕ = out_u32 (length bytes) in
    let before : length (frames rs ++ head) ≡ length (frames rs) + 4 =
      omega (arith, length-append (frames rs) head, length-out_u32 (length bytes)) in
    let whole : frames rs ++ (head ++ bytes) ≡ frames (rs ++ (bytes ∷ [])) =
      rw (frames-append rs (bytes ∷ []), append-nil (frame bytes)) refl in
    let size : length (frames (rs ++ (bytes ∷ []))) ≡ length (frames rs) + (4 + length bytes) =
      rw (← whole) (omega (arith, length-append (frames rs) (frame bytes), length-frame bytes)) in
    let count : length (rs ++ (bytes ∷ [])) ≡ length rs + 1 =
      omega (arith, length-append rs (bytes ∷ [])) in
    let written : write_at (write_at (frames rs) (length (frames rs)) head) (length (frames rs) + 4)
          bytes
        ≡ frames (rs ++ (bytes ∷ [])) =
      rw
        (
          write_at_end (frames rs) head,
          ← before,
          write_at_end (frames rs ++ head) bytes,
          append_assoc (frames rs) head bytes,
        )
        whole in
    rw (small, written, size, count) refl

-- The file around the record at a position.
around :
    (rs : List (List ℕ)) (n : ℕ) {r : List ℕ}
    → get_elem? rs n ≡ some r
    → (after : List ℕ) × (frames rs ≡ frames (take n rs) ++ (out_u32 (length r) ++ (r ++ after)))
around rs n {r} h =
    let (post, e, _) = split_at rs n h in
    let split : frames rs ≡ frames (take n rs ++ (r ∷ post)) = ap frames e in
    (
      frames post,
      split
          ∙ frames-append (take n rs) (r ∷ post)
          ∙ ap (λ l. frames (take n rs) ++ l) (append_assoc (out_u32 (length r)) r (frames post)),
    )

abbrev pub start : List (List ℕ) → ℕ → ℕ
start rs n = length (frames (take n rs))

locate-holding :
    (rs : List (List ℕ)) (n : ℕ) {r : List ℕ}
    → Framed r
    → get_elem? rs n ≡ some r
    → locate (holding rs) (start rs n) ≡ some (length r)
unfolding locate
locate-holding rs n {r} hr h =
    let (after, e) = around rs n h in
    let head : List ℕ = out_u32 (length r) in
    let len : length (frames rs) ≡ length (frames (take n rs)) + (4 + (length r + length after)) =
      rw (e) (
        omega (
          arith,
          length-append (frames (take n rs)) (head ++ (r ++ after)),
          length-append head (r ++ after),
          length-append r after,
          length-out_u32 (length r),
        )) in
    let there : read_at (frames rs) (length (frames (take n rs))) 4 ≡ some head =
      rw (e, ← length-out_u32 (length r)) (read_at_middle (frames (take n rs)) head (r ++ after)) in
    let value : get_u32_be head 0 ≡ length r =
      rw (append-nil head) at (get_u32_be-out_u32 (length r) [] hr) in
    rw (there, value) (ground (arith, len))

payload :
    (rs : List (List ℕ)) (n count : ℕ) {r : List ℕ}
    → get_elem? rs n ≡ some r
    → count ≤ length r
    → read_at (frames rs) (start rs n + 4) count ≡ some (take count r)
unfolding read_at
payload rs n count {r} h hc =
    let (after, e) = around rs n h in
    let head : List ℕ = out_u32 (length r) in
    let before : start rs n + 4 ≡ length (frames (take n rs) ++ head) =
      omega (arith, length-append (frames (take n rs)) head, length-out_u32 (length r)) in
    let whole : frames rs ≡ (frames (take n rs) ++ head) ++ (r ++ after) =
      e ∙ sym (append_assoc (frames (take n rs)) head (r ++ after)) in
    rw
      (
        before,
        whole,
        drop-append (frames (take n rs) ++ head) (r ++ after),
        take_within r after count hc,
      )
      (ground
        (arith, length-append (frames (take n rs) ++ head) (r ++ after), length-append r after))
  where
    take_within : (xs ys : List ℕ) (k : ℕ) → k ≤ length xs → take k (xs ++ ys) ≡ take k xs
    take_within xs ys zero h = refl
    take_within [] ys (suc k) h = absurd (omega arith)
    take_within (x ∷ xs) ys (suc k) h = ap (λ l. x ∷ l) (take_within xs ys k (omega arith))

-- A store that holds records reads each of them at the place where it starts.
pub read-holding :
    (rs : List (List ℕ)) (n : ℕ) {r : List ℕ}
    → Framed r
    → get_elem? rs n ≡ some r
    → read (holding rs) (start rs n) ≡ some r
unfolding read
read-holding rs n {r} hr h =
    rw (locate-holding rs n hr h) (rw (take_self r) at (payload rs n (length r) h (omega arith)))

pub read_prefix-holding :
    (rs : List (List ℕ)) (n count : ℕ) {r : List ℕ}
    → Framed r
    → get_elem? rs n ≡ some r
    → count ≤ length r
    → read_prefix (holding rs) (start rs n) count ≡ some (take count r)
unfolding read_prefix
read_prefix-holding rs n count {r} hr h hc =
    rw (locate-holding rs n hr h) (ground (arith, payload rs n count h hc))

offset_behind-frames :
    (before : List ℕ) (rs : List (List ℕ)) (n : ℕ)
    → All Framed rs
    → n ≤ length rs
    → offset_behind n (before ++ frames rs) (length before) ≡ some (length before + start rs n)
unfolding offset_behind
offset_behind-frames before rs zero hs h = ap some (omega arith)
offset_behind-frames before [] (suc n) hs h = absurd (omega arith)
offset_behind-frames before (r ∷ rs) (suc n) (hr, hs) h =
    let head : List ℕ = out_u32 (length r) in
    let there : read_at (before ++ (frame r ++ frames rs)) (length before) 4 ≡ some head =
      rw (append_assoc head r (frames rs), ← length-out_u32 (length r))
        (read_at_middle before head (r ++ frames rs)) in
    let value : get_u32_be head 0 ≡ length r =
      rw (append-nil head) at (get_u32_be-out_u32 (length r) [] hr) in
    let next : length before + (4 + length r) ≡ length (before ++ frame r) =
      omega (arith, length-append before (frame r), length-frame r) in
    let total : length (before ++ frame r) + start rs n
        ≡ length before + length (frame r ++ frames (take n rs)) =
      omega (arith, length-append before (frame r), length-append (frame r) (frames (take n rs))) in
    rw (there, value, next, ← total, ← append_assoc before (frame r) (frames rs))
      (offset_behind-frames (before ++ frame r) rs n hs (omega arith))

take-frames : (rs : List (List ℕ)) (n : ℕ) → take (start rs n) (frames rs) ≡ frames (take n rs)
take-frames rs n =
    let whole : take n rs ++ drop n rs ≡ rs = take-drop n rs in
    let split : frames rs ≡ frames (take n rs) ++ frames (drop n rs) =
      ap frames (sym whole) ∙ frames-append (take n rs) (drop n rs) in
    rw split (take-append (frames (take n rs)) (frames (drop n rs)))

-- A store is truncated to as many of its records as are wanted, the first ones.
pub truncate_to-holding :
    (rs : List (List ℕ)) (n : ℕ)
    → All Framed rs
    → n ≤ length rs
    → truncate_to (holding rs) n ≡ some (holding (take n rs))
unfolding truncate_to truncate
truncate_to-holding rs n hs h =
    let inside : ltb (length rs) n ≡ false = ground arith in
    let offset : offset_behind n (frames rs) 0 ≡ some (0 + start rs n) =
      offset_behind-frames [] rs n hs h in
    let plain : 0 + start rs n ≡ start rs n = omega arith in
    let count : length (take n rs) ≡ n = omega (arith, length-take n rs) in
    rw (inside, offset, plain, take-frames rs n, count) refl
