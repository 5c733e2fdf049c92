-- ===== src/Raft/Log/Durable.antt =====
-- `sync_through` of Raft/RaftLog.cpp over segments that are seen as lists of entries.
use mathlib.Core.List.{Memᴰ}
use stoneleaf_db.Common.Slices.{get-take, get-drop, get_length, get_append_left, get_append_right}
use stoneleaf_db.Common.{
  ℕ, suc, ◌+◌, ◌-◌, ◌≤◌, ◌<◌, ◌||◌, some, List, [], ◌∷◌, length, take, drop, get_elem?, leb, ◌==◌,
  ◌≡◌, refl, sym, ◌∙◌, arith, inl, inr, ◌⊎◌, Bool-cases, length-take,
}
use stoneleaf_db.Raft.Entry.{MutationEntry}
use stoneleaf_db.Raft.Segment.{Segment, DiskSync, store_file, index_file, sync_files}
use stoneleaf_db.Raft.Segment.{read as segment_read}
use stoneleaf_db.Raft.Segment.Entries.{segment_of}
use stoneleaf_db.Raft.Segment.Laws.{read-segment_of}
use stoneleaf_db.Raft.Log.{sync_segments}
use stoneleaf_db.Raft.Log.Groups.{concat, segments_of, Proper, length-cons}

-- The synchronised index is reached, where it was not before, and the end of the log is not passed.
pub sync_segments-reaches :
    (base index durable : ℕ) (gs : List (List MutationEntry))
    → 0 < base
    → (index ≤ durable) ⊎ (base ≤ index)
    → index < base + length (concat gs)
    → (durable + 1 ≤ base + length (concat gs))
    → (index ≤ (sync_segments index durable (segments_of base gs)).0)
      × ((sync_segments index durable (segments_of base gs)).0 < base + length (concat gs))
      × (durable ≤ (sync_segments index durable (segments_of base gs)).0)
unfolding sync_segments
sync_segments-reaches base index durable [] h0 h h1 h2 = elim h [
  | inl done ↦ (done, omega arith, omega arith)
  | inr left ↦ absurd (omega arith)
]
sync_segments-reaches base index durable (g ∷ gs) h0 h h1 h2 =
    elim (Bool-cases (base + length g == base || leb (base + length g - 1) durable)) [
      | inl skip ↦
          let later : (index ≤ durable) ⊎ (base + length g ≤ index) =
            ground (arith, h, length-cons g gs) in
          let (a, b, c) =
            sync_segments-reaches (base + length g) index durable gs (omega arith) later
              (omega (arith, length-cons g gs)) (omega (arith, length-cons g gs)) in
          rw skip (a, omega (arith, b, length-cons g gs), c)
      | inr sync ↦ elim (Bool-cases (leb index (base + length g - 1))) [
        | inl last ↦ rw (sync, last) (ground arith, ground (arith, length-cons g gs), ground arith)
        | inr more ↦
            let (a, b, c) =
              sync_segments-reaches (base + length g) index (base + length g - 1) gs (omega arith)
                (inr (ground arith)) (omega (arith, length-cons g gs))
                (ground (arith, length-cons g gs)) in
            rw (sync, more) (a, omega (arith, b, length-cons g gs), ground (arith, c))
      ]
    ]

-- The calls made both files of one of the segments durable, and the segment reads the entry at its
-- index.
abbrev pub Synced : List Segment → List DiskSync → ℕ → MutationEntry → Type 0
Synced segments syncs index e =
    (s : Segment) × Memᴰ s segments
    × Memᴰ (store_file s.base_index s.store) syncs
    × Memᴰ (index_file s.base_index s.index) syncs
    × (segment_read s index ≡ some e)

-- The same of each of the entries, from an index on.
abbrev pub AllSynced : List Segment → List DiskSync → ℕ → List MutationEntry → Type 0
AllSynced segments syncs index [] = Unit
AllSynced segments syncs index (e ∷ es) =
    Synced segments syncs index e × AllSynced segments syncs (index + 1) es

AllSynced-of :
    (segments : List Segment) (syncs : List DiskSync) (index : ℕ) (es : List MutationEntry)
    → ((n : ℕ) (e : MutationEntry) → get_elem? es n ≡ some e → Synced segments syncs (index + n) e)
    → AllSynced segments syncs index es
AllSynced-of segments syncs index [] h = tt
AllSynced-of segments syncs index (e ∷ es) h =
    let here : index + 0 ≡ index = omega arith in
    (
      rw here at (h 0 e refl),
      AllSynced-of segments syncs (index + 1) es (λ n x get.
          let same : index + suc n ≡ index + 1 + n = omega arith in rw same at (h (suc n) x get)),
    )

-- An entry that the loop passes is in a segment that it synchronises.
sync_segments-Synced :
    (base index durable : ℕ) (gs : List (List MutationEntry)) (n : ℕ) {e : MutationEntry}
    → Proper base gs
    → get_elem? (concat gs) n ≡ some e
    → durable < base + n
    → base + n ≤ (sync_segments index durable (segments_of base gs)).0
    → Synced
        (segments_of base gs)
        (sync_segments index durable (segments_of base gs)).1
        (base + n)
        e
unfolding sync_segments sync_files
sync_segments-Synced base index durable [] n p get above upto = cc
sync_segments-Synced base index durable (g ∷ gs) n {e} (st, fits, p) get above upto =
    elim (Bool-cases (base + length g == base || leb (base + length g - 1) durable)) [
      | inl skip ↦
          let beyond : length g ≤ n = ground arith in
          let (s, mem, a, b, reads) =
            sync_segments-Synced (base + length g) index durable gs (n - length g) p (later beyond)
              (omega arith) (rw (same beyond) (rw skip at upto)) in
          rw skip (s, Memᴰ.tail mem, a, b, rw (same beyond) at reads)
      | inr sync ↦ elim (Bool-cases (leb index (base + length g - 1))) [
        | inl last ↦
            let within : n < length g = ground arith in
            rw (sync, last)
              (
                segment_of base g,
                Memᴰ.head refl,
                Memᴰ.head refl,
                Memᴰ.tail (Memᴰ.head refl),
                read-segment_of base g st n fits (here within),
              )
        | inr more ↦ elim (Bool-cases (leb (length g) n)) [
          | inl over ↦
              let beyond : length g ≤ n = ground arith in
              let (s, mem, a, b, reads) =
                sync_segments-Synced (base + length g) index (base + length g - 1) gs (n - length g)
                  p (later beyond) (ground arith) (rw (same beyond) (rw (sync, more) at upto)) in
              rw (sync, more)
                (
                  s,
                  Memᴰ.tail mem,
                  Memᴰ.tail (Memᴰ.tail a),
                  Memᴰ.tail (Memᴰ.tail b),
                  rw (same beyond) at reads,
                )
          | inr under ↦
              rw (sync, more)
                (
                  segment_of base g,
                  Memᴰ.head refl,
                  Memᴰ.head refl,
                  Memᴰ.tail (Memᴰ.head refl),
                  read-segment_of base g st n fits (here (ground arith)),
                )
        ]
      ]
    ]
  where
    same : length g ≤ n → base + length g + (n - length g) ≡ base + n
    same h = omega arith

    later : length g ≤ n → get_elem? (concat gs) (n - length g) ≡ some e
    later h = sym (get_append_right g (concat gs) n h) ∙ get

    here : n < length g → get_elem? g n ≡ some e
    here h = sym (get_append_left g (concat gs) n h) ∙ get

-- The entries behind the old durable index and up to the new one are in synchronised segments.
pub sync_segments-AllSynced :
    (index durable : ℕ) (gs : List (List MutationEntry))
    → Proper 1 gs
    → AllSynced
        (segments_of 1 gs)
        (sync_segments index durable (segments_of 1 gs)).1
        (durable + 1)
        (drop durable (take (sync_segments index durable (segments_of 1 gs)).0 (concat gs)))
sync_segments-AllSynced index durable gs p =
    let upto : ℕ = (sync_segments index durable (segments_of 1 gs)).0 in
    AllSynced-of (segments_of 1 gs) _ (durable + 1) (drop durable (take upto (concat gs)))
      (λ n e get.
        let at_place = sym (get-drop (take upto (concat gs)) durable n) ∙ get in
        let inside : durable + n < upto = omega (
          arith,
          get_length (take upto (concat gs)) (durable + n) at_place,
          length-take upto (concat gs),
        ) in
        let found = sym (get-take (concat gs) upto (durable + n) inside) ∙ at_place in
        let same : 1 + (durable + n) ≡ durable + 1 + n = omega arith in
        rw same at (
          sync_segments-Synced 1 index durable gs (durable + n) p found (omega arith)
            (omega (arith, inside))))
