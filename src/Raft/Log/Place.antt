-- ===== src/Raft/Log/Place.antt =====
-- Where RaftLog::append of Raft/RaftLog.cpp puts an entry among the segments.
use mathlib.Core.List.{append_assoc}
use stoneleaf_db.Common.{
  ℕ, ◌+◌, ◌≤◌, ◌<◌, true, false, List, [], ◌∷◌, ◌++◌, length, ◌≡◌, refl, sym, ap, ◌∙◌, arith, inl,
  inr, ◌⊎◌,
}
use stoneleaf_db.Raft.Entry.{MutationEntry}
use stoneleaf_db.Raft.Segment.{Segment, SegmentConfig, is_maxed}
use stoneleaf_db.Raft.Segment.Entries.{segment_of}
use stoneleaf_db.Raft.Log.{is_empty, last_is_maxed}
use stoneleaf_db.Raft.Log.Groups.{concat, segments_of, add}
use stoneleaf_db.Raft.Log.Append.{segments_of-append}

abbrev pub IsFull : SegmentConfig → Segment → Type 0
IsFull config s = (config.max_store_bytes < s.store.size) ⊎ (config.max_index_bytes < s.index.size)

abbrev pub HasRoom : SegmentConfig → Segment → Type 0
HasRoom config s = (s.store.size ≤ config.max_store_bytes) × (s.index.size ≤ config.max_index_bytes)

-- The last segment `s` is over a limit and stays, with a new segment `t` from the next index on
-- behind it; or it is within the limits, and `t` from its base index on takes its place.
abbrev pub Placed : SegmentConfig → List Segment → ℕ → List Segment → Type 0
Placed config before next after =
    (front : List Segment) × (s : Segment) × (t : Segment) × (before ≡ front ++ (s ∷ []))
    × ((IsFull config s × (after ≡ front ++ (s ∷ t ∷ [])) × (t.base_index ≡ next))
        ⊎ (HasRoom config s × (after ≡ front ++ (t ∷ [])) × (t.base_index ≡ s.base_index)))

module _ (config : SegmentConfig) where
  limit_cases :
      (s : Segment)
      → ((is_maxed config s ≡ true) × IsFull config s)
        ⊎ ((is_maxed config s ≡ false) × HasRoom config s)
  unfolding is_maxed
  limit_cases s = ground arith

  -- The last of the segments, and what an entry more makes of it.
  last_of :
      (base : ℕ) (e : MutationEntry) (gs : List (List MutationEntry))
      → is_empty gs ≡ false
      → (front : List Segment) × (b : ℕ) × (g : List MutationEntry) × (segments_of base gs
          ≡ front ++ (segment_of b g ∷ []))
        × (last_is_maxed config (segments_of base gs) ≡ is_maxed config (segment_of b g))
        × (segments_of base (add e gs) ≡ front ++ (segment_of b (g ++ (e ∷ [])) ∷ []))
  unfolding last_is_maxed
  last_of base e [] h = cc
  last_of base e (g ∷ []) h = ([], base, g, refl, refl, refl)
  last_of base e (g ∷ x ∷ gs) h =
      let (front, b, last, split, maxed, grown) = last_of (base + length g) e (x ∷ gs) refl in
      (
        segment_of base g ∷ front,
        b,
        last,
        ap (λ l. segment_of base g ∷ l) split,
        maxed,
        ap (λ l. segment_of base g ∷ l) grown,
      )

  pub Placed-add :
      (next : ℕ) (e : MutationEntry) (gs : List (List MutationEntry))
      → is_empty gs ≡ false
      → last_is_maxed config (segments_of 1 gs) ≡ false
      → Placed config (segments_of 1 gs) next (segments_of 1 (add e gs))
  Placed-add next e gs h room =
      let (front, b, g, split, maxed, grown) = last_of 1 e gs h in
      (
        front,
        segment_of b g,
        segment_of b (g ++ (e ∷ [])),
        split,
        elim (limit_cases (segment_of b g)) [
          | inl (full, _) ↦ cc
          | inr (_, small) ↦ inr (small, grown, refl)
        ],
      )

  add-new :
      (e : MutationEntry) (gs : List (List MutationEntry))
      → add e (gs ++ ([] ∷ [])) ≡ gs ++ ((e ∷ []) ∷ [])
  add-new e [] = refl
  add-new e (g ∷ []) = refl
  add-new e (g ∷ x ∷ gs) = ap (λ l. g ∷ l) (add-new e (x ∷ gs))

  pub Placed-new :
      (next : ℕ) (e : MutationEntry) (gs : List (List MutationEntry))
      → is_empty gs ≡ false
      → next ≡ 1 + length (concat gs)
      → last_is_maxed config (segments_of 1 gs) ≡ true
      → Placed config (segments_of 1 gs) next (segments_of 1 (add e (gs ++ ([] ∷ []))))
  Placed-new next e gs h at_end over =
      let (front, b, g, split, maxed, _) = last_of 1 e gs h in
      let t : Segment = segment_of (1 + length (concat gs)) (e ∷ []) in
      let after : segments_of 1 (add e (gs ++ ([] ∷ []))) ≡ front ++ (segment_of b g ∷ t ∷ []) =
        ap (segments_of 1) (add-new e gs)
        ∙ segments_of-append 1 gs ((e ∷ []) ∷ [])
        ∙ ap (λ l. l ++ (t ∷ [])) split
        ∙ append_assoc front (segment_of b g ∷ []) (t ∷ []) in
      (
        front,
        segment_of b g,
        t,
        split,
        elim (limit_cases (segment_of b g)) [
          | inl (_, full) ↦ inl (full, after, sym at_end)
          | inr (small, _) ↦ cc
        ],
      )
