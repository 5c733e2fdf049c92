-- ===== src/Raft/Log/Append.antt =====
-- Appending and truncating of Raft/RaftLog.cpp over segments that are seen as lists of entries.
use stoneleaf_db.Common.Slices.{length-map}
use stoneleaf_db.Common.{
  ℕ, ◌+◌, ◌-◌, ◌^◌, ◌≤◌, ◌<◌, true, false, ◌&&◌, some, List, [], ◌∷◌, ◌++◌, length, map, leb, ◌≡◌,
  refl, ap, ◌∙◌, arith, inl, inr, Bool-cases,
}
use stoneleaf_db.Storage.Store.Scan.{frames}
use stoneleaf_db.Raft.Entry.{MutationEntry}
use stoneleaf_db.Raft.Segment.{Segment, SegmentConfig, is_maxed}
use stoneleaf_db.Raft.Segment.Entries.{segment_of, code, offsets, Encodable, length-offsets}
use stoneleaf_db.Raft.Segment.Laws.{append-segment_of, truncate_suffix-segment_of}
use stoneleaf_db.Storage.Store.{open_store, inspect_file, inspect_loop}
use stoneleaf_db.Storage.Index.{open_index, inspect_index, inspect_entries}
use stoneleaf_db.Raft.Log.{is_empty, new_segment, last_is_maxed, append_to_last, truncate_segments}
use stoneleaf_db.Raft.Log.Groups.{
  concat, segments_of, Proper, cut, add, last_group, nonempty, length-cons,
}

pub truncate_segments-segments_of :
    (base : ℕ) (gs : List (List MutationEntry)) (n : ℕ)
    → Proper base gs
    → is_empty gs ≡ false
    → n ≤ length (concat gs)
    → truncate_segments (segments_of base gs) (base + n) ≡ some (segments_of base (cut n gs))
unfolding truncate_segments
truncate_segments-segments_of base [] n p h hn = cc
truncate_segments-segments_of base (g ∷ gs) n (st, fits, p) h hn =
    elim (Bool-cases (leb n (length g))) [
      | inl within ↦
          let here : (leb base (base + n) && leb (base + n) (base + length g)) ≡ true =
            ground arith in
          rw (within, here, truncate_suffix-segment_of base g st n (ground arith)) refl
      | inr behind ↦
          let before : (leb base (base + n) && leb (base + n) (base + length g)) ≡ false =
            ground arith in
          let same : base + length g + (n - length g) ≡ base + n = ground arith in
          let some_left : 0 < length (concat gs) = ground (arith, length-cons g gs) in
          let ih =
            truncate_segments-segments_of (base + length g) gs (n - length g) p
              (nonempty gs some_left) (ground (arith, length-cons g gs)) in
          rw (behind, before) (rw (rw same at ih) refl)
    ]

pub append_to_last-segments_of :
    (base : ℕ) (e : MutationEntry) (gs : List (List MutationEntry))
    → is_empty gs ≡ false
    → e.index ≡ base + length (concat gs)
    → Encodable e
    → length (last_group gs) < 2 ^ 32
    → base + length (concat gs) + 1 < 2 ^ 64
    → append_to_last e (segments_of base gs) ≡ some (segments_of base (add e gs))
unfolding append_to_last
append_to_last-segments_of base e [] h i good room bounded = cc
append_to_last-segments_of base e (g ∷ []) h i good room bounded =
    rw
      (append-segment_of base g e (omega (arith, i, length-cons g [])) room
        (omega (arith, bounded, length-cons g [])) good)
      refl
append_to_last-segments_of base e (g ∷ x ∷ gs) h i good room bounded =
    rw
      (append_to_last-segments_of (base + length g) e (x ∷ gs) refl
        (omega (arith, i, length-cons g (x ∷ gs))) good room
        (omega (arith, bounded, length-cons g (x ∷ gs))))
      refl

-- The limits of the configuration are below what the machine's integers hold.
pub record IsSane (config : SegmentConfig) : Type 0 where
  pub store_limit : config.max_store_bytes < 2 ^ 63
  pub index_limit : config.max_index_bytes < 2 ^ 35

pub room_left :
    (config : SegmentConfig) (base : ℕ) (gs : List (List MutationEntry))
    → IsSane config
    → last_is_maxed config (segments_of base gs) ≡ false
    → (length (frames (map code (last_group gs))) < 2 ^ 63) × (length (last_group gs) < 2 ^ 32)
unfolding last_is_maxed is_maxed
room_left config base [] limits h = (omega arith, omega arith)
room_left config base (g ∷ []) limits h =
    let a : config.max_store_bytes < 2 ^ 63 = limits.store_limit in
    let b : config.max_index_bytes < 2 ^ 35 = limits.index_limit in
    let count : length (offsets 0 (map code g)) ≡ length g =
      length-offsets 0 (map code g) ∙ length-map code g in
    (ground arith, ground (arith, rw count at h))
room_left config base (g ∷ x ∷ gs) limits h = room_left config (base + length g) (x ∷ gs) limits h

pub segments_of-append :
    (base : ℕ) (gs hs : List (List MutationEntry))
    → segments_of base (gs ++ hs)
      ≡ segments_of base gs ++ segments_of (base + length (concat gs)) hs
segments_of-append base [] hs = let e : base + 0 ≡ base = omega arith in rw e refl
segments_of-append base (g ∷ gs) hs =
    let e : base + length (concat (g ∷ gs)) ≡ base + length g + length (concat gs) =
      omega (arith, length-cons g gs) in
    rw e (ap (λ l. segment_of base g ∷ l) (segments_of-append (base + length g) gs hs))

pub new_segment-empty : (base : ℕ) → new_segment base ≡ segment_of base []
unfolding new_segment open_store inspect_file inspect_loop open_index inspect_index inspect_entries
new_segment-empty base = let e : base + 0 ≡ base = omega arith in rw e refl

pub new_is_not_maxed :
    (config : SegmentConfig) (segments : List Segment) (base : ℕ)
    → last_is_maxed config (segments ++ (segment_of base [] ∷ [])) ≡ false
unfolding last_is_maxed is_maxed
new_is_not_maxed config [] base = ground arith
new_is_not_maxed config (s ∷ []) base = ground arith
new_is_not_maxed config (s ∷ t ∷ rest) base = new_is_not_maxed config (t ∷ rest) base

pub Proper-new :
    (base : ℕ) (gs : List (List MutationEntry))
    → Proper base gs
    → base + length (concat gs) < 2 ^ 64
    → Proper base (gs ++ ([] ∷ []))
Proper-new base [] p h = (tt, (omega arith, omega arith, omega arith), tt)
Proper-new base (g ∷ gs) (st, fits, p) h =
    (st, fits, Proper-new (base + length g) gs p (omega (arith, h, length-cons g gs)))

pub concat-new : (gs : List (List MutationEntry)) → concat (gs ++ ([] ∷ [])) ≡ concat gs
concat-new [] = refl
concat-new (g ∷ gs) = ap (λ l. g ++ l) (concat-new gs)

pub is_empty-new : (gs : List (List MutationEntry)) → is_empty (gs ++ ([] ∷ [])) ≡ false
is_empty-new [] = refl
is_empty-new (g ∷ gs) = refl
