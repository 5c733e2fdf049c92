-- ===== src/Raft/Log/Search.antt =====
-- The searches of Raft/RaftLog.cpp over segments that are seen as lists of entries.
use stoneleaf_db.Common.Slices.{
  drop_append_left, drop_append_right, get_append_left, get_append_right,
}
use stoneleaf_db.Common.{
  ℕ, zero, suc, ◌+◌, ◌-◌, ◌≤◌, ◌<◌, true, false, some, List, [], ◌∷◌, ◌++◌, length, drop, max,
  get_elem?, leb, ◌≡◌, refl, arith, inl, inr, ◌⊎◌,
}
use stoneleaf_db.Raft.Entry.{MutationEntry}
use stoneleaf_db.Raft.Segment.{is_outside}
use stoneleaf_db.Raft.Segment.Entries.{segment_of}
use stoneleaf_db.Raft.Segment.Laws.{read-segment_of, term_at-segment_of}
use stoneleaf_db.Raft.Segment.Scan.{scan-segment_of}
use stoneleaf_db.Raft.Log.{read_in, term_in, scan_segments}
use stoneleaf_db.Raft.Log.Groups.{concat, segments_of, Proper}

le_or_gt : (a b : ℕ) → (a < b) ⊎ (b ≤ a)
le_or_gt a b = omega arith

module _ {ℓ} {A : Type ℓ} where
  -- An entry of all groups is in the first or in the later ones.
  pub in_group :
      (g : List A) (rest : List A) (n : ℕ) {e : A}
      → get_elem? (g ++ rest) n ≡ some e
      → ((n < length g) × (get_elem? g n ≡ some e))
        ⊎ ((length g ≤ n) × (get_elem? rest (n - length g) ≡ some e))
  in_group g rest n h = elim (le_or_gt n (length g)) [
    | inl inside ↦ inl (inside, rw (get_append_left g rest n inside) at h)
    | inr behind ↦ inr (behind, rw (get_append_right g rest n behind) at h)
  ]

pub read_in-segments_of :
    (base : ℕ) (gs : List (List MutationEntry)) (n : ℕ) {e : MutationEntry}
    → Proper base gs
    → get_elem? (concat gs) n ≡ some e
    → read_in (segments_of base gs) (base + n) ≡ some e
unfolding read_in
read_in-segments_of base [] n p h = cc
read_in-segments_of base (g ∷ gs) n {e} (st, fits, p) h = elim (in_group g (concat gs) n h) [
  | inl (inside, get) ↦
      let within : is_outside (segment_of base g) (base + n) ≡ false = ground arith in
      rw within (read-segment_of base g st n fits get)
  | inr (behind, get) ↦
      let outside : is_outside (segment_of base g) (base + n) ≡ true = ground arith in
      let same : base + length g + (n - length g) ≡ base + n = omega arith in
      rw outside (rw same at (read_in-segments_of (base + length g) gs (n - length g) p get))
]

pub term_in-segments_of :
    (base : ℕ) (gs : List (List MutationEntry)) (n : ℕ) {e : MutationEntry}
    → Proper base gs
    → get_elem? (concat gs) n ≡ some e
    → term_in (segments_of base gs) (base + n) ≡ some e.term
unfolding term_in
term_in-segments_of base [] n p h = cc
term_in-segments_of base (g ∷ gs) n {e} (st, fits, p) h = elim (in_group g (concat gs) n h) [
  | inl (inside, get) ↦
      let within : is_outside (segment_of base g) (base + n) ≡ false = ground arith in
      rw within (term_at-segment_of base g st n fits get)
  | inr (behind, get) ↦
      let outside : is_outside (segment_of base g) (base + n) ≡ true = ground arith in
      let same : base + length g + (n - length g) ≡ base + n = omega arith in
      rw outside (rw same at (term_in-segments_of (base + length g) gs (n - length g) p get))
]

-- From an index before a segment, all of it is taken.
scan_behind :
    (base : ℕ) (gs : List (List MutationEntry)) (index : ℕ)
    → Proper base gs
    → index ≤ base
    → scan_segments (segments_of base gs) index ≡ some (concat gs)
unfolding scan_segments
scan_behind base [] index p h = refl
scan_behind base ([] ∷ gs) index (st, fits, p) h =
    let ih = scan_behind (base + 0) gs index p (omega arith) in
    let from : max index base - base ≡ 0 = omega arith in
    rw (ih, scan-segment_of base [] st fits, from) (ground arith)
scan_behind base ((e ∷ g) ∷ gs) index (st, fits, p) h =
    let ih = scan_behind (base + suc (length g)) gs index p (omega arith) in
    let from : max index base - base ≡ 0 = omega arith in
    rw (ih, scan-segment_of base (e ∷ g) st fits, from) (ground arith)

pub scan_segments-segments_of :
    (base : ℕ) (gs : List (List MutationEntry)) (n : ℕ)
    → Proper base gs
    → scan_segments (segments_of base gs) (base + n) ≡ some (drop n (concat gs))
unfolding scan_segments
scan_segments-segments_of base [] zero p = refl
scan_segments-segments_of base [] (suc n) p = refl
scan_segments-segments_of base (g ∷ gs) n (st, fits, p) = elim (le_or_gt n (length g)) [
  | inl inside ↦
      let ih = scan_behind (base + length g) gs (base + n) p (omega arith) in
      let from : max (base + n) base - base ≡ n = omega arith in
      let kept : leb (base + length g) (base + n) ≡ false = ground arith in
      rw
        (
          kept,
          ih,
          scan-segment_of base g st fits,
          from,
          drop_append_left g (concat gs) n (omega arith),
        )
        refl
  | inr behind ↦
      let same : base + n ≡ base + length g + (n - length g) = omega arith in
      let skipped : leb (base + length g) (base + n) ≡ true = ground arith in
      rw (skipped, drop_append_right g (concat gs) n behind, same)
        (scan_segments-segments_of (base + length g) gs (n - length g) p)
]
