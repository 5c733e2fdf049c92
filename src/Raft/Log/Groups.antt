-- ===== src/Raft/Log/Groups.antt =====
-- The segments of Raft/RaftLog.cpp as lists of entries, one after the other.
use stoneleaf_db.Common.Slices.{map-append, take-map, take_append_left, take_append_right}
use stoneleaf_db.Common.{
  ℕ, zero, suc, ◌+◌, ◌-◌, ◌≤◌, ◌<◌, false, List, [], ◌∷◌, ◌++◌, length, take, leb, ◌≡◌, refl, sym,
  arith, length-append, length-take, map, ◌^◌, if◌then◌else◌, Bool-cases, inl, inr,
}
use stoneleaf_db.Storage.Store.Scan.{frame, frames, length-frame}
use stoneleaf_db.Storage.Store.Records.{frames-append}
use stoneleaf_db.Raft.Segment.Entries.{code, Encodable, start_bound}
use stoneleaf_db.Raft.Segment.Laws.{Stored-append}
use stoneleaf_db.Raft.Log.{is_empty}
use mathlib.Core.List.{append_assoc, append-nil}
use stoneleaf_db.Raft.Entry.{MutationEntry}
use stoneleaf_db.Raft.Segment.{Segment}
use stoneleaf_db.Raft.Segment.Entries.{segment_of, Stored, Fits}

abbrev pub concat {ℓ} : {A : Type ℓ} → List (List A) → List A
concat [] = []
concat (xs ∷ xss) = xs ++ concat xss

-- The segments that hold the groups of entries, the first from `base` on.
abbrev pub segments_of : ℕ → List (List MutationEntry) → List Segment
segments_of base [] = []
segments_of base (g ∷ gs) = segment_of base g ∷ segments_of (base + length g) gs

abbrev pub Proper : ℕ → List (List MutationEntry) → Type 0
Proper base [] = Unit
Proper base (g ∷ gs) = Stored base g × Fits base g × Proper (base + length g) gs

-- The groups that `truncate_suffix` leaves of the first `n` entries.
abbrev pub cut : ℕ → List (List MutationEntry) → List (List MutationEntry)
cut n [] = []
cut n (g ∷ gs) = if leb n (length g) then take n g ∷ [] else g ∷ cut (n - length g) gs

-- The groups with an entry more in the last.
abbrev pub add : MutationEntry → List (List MutationEntry) → List (List MutationEntry)
add e [] = []
add e (g ∷ []) = (g ++ (e ∷ [])) ∷ []
add e (g ∷ h ∷ gs) = g ∷ add e (h ∷ gs)

abbrev pub last_group : List (List MutationEntry) → List MutationEntry
last_group [] = []
last_group (g ∷ []) = g
last_group (g ∷ h ∷ gs) = last_group (h ∷ gs)

pub concat-add :
    (e : MutationEntry) (gs : List (List MutationEntry))
    → is_empty gs ≡ false
    → concat (add e gs) ≡ concat gs ++ (e ∷ [])
concat-add e [] h = cc
concat-add e (g ∷ []) h = rw (append-nil g, append-nil (g ++ (e ∷ []))) refl
concat-add e (g ∷ x ∷ gs) h =
    rw (concat-add e (x ∷ gs) refl) (sym (append_assoc g (x ++ concat gs) (e ∷ [])))

pub concat-cut :
    (n : ℕ) (gs : List (List MutationEntry))
    → n ≤ length (concat gs)
    → concat (cut n gs) ≡ take n (concat gs)
concat-cut zero [] h = refl
concat-cut (suc n) [] h = refl
concat-cut n (g ∷ gs) h = elim (Bool-cases (leb n (length g))) [
  | inl within ↦
      rw (within, append-nil (take n g)) (sym (take_append_left g (concat gs) n (ground arith)))
  | inr behind ↦
      rw (behind, concat-cut (n - length g) gs (omega (arith, h, length-append g (concat gs))))
        (sym (take_append_right g (concat gs) n (ground arith)))
]

pub nonempty : (gs : List (List MutationEntry)) → 0 < length (concat gs) → is_empty gs ≡ false
nonempty [] h = absurd (omega arith)
nonempty (g ∷ gs) h = refl

pub is_empty-cut : (n : ℕ) (gs : List (List MutationEntry)) → is_empty (cut n gs) ≡ is_empty gs
is_empty-cut n [] = refl
is_empty-cut n (g ∷ gs) = elim (Bool-cases (leb n (length g))) [
  | inl within ↦ rw within refl
  | inr behind ↦ rw behind refl
]

Stored-take :
    (base : ℕ) (es : List MutationEntry) (n : ℕ) → Stored base es → Stored base (take n es)
Stored-take base es zero h = tt
Stored-take base [] (suc n) h = h
Stored-take base (e ∷ es) (suc n) (i, ok, h) = (i, ok, Stored-take (base + 1) es n h)

Fits-take : (base : ℕ) (es : List MutationEntry) (n : ℕ) → Fits base es → Fits base (take n es)
Fits-take base es n (small, index, count) = (
  rw (← take-map code n es) (omega (arith, small, start_bound (map code es) n)),
  omega (arith, index, length-take n es),
  omega (arith, count, length-take n es),
)

pub Proper-cut :
    (base n : ℕ) (gs : List (List MutationEntry)) → Proper base gs → Proper base (cut n gs)
Proper-cut base n [] p = p
Proper-cut base n (g ∷ gs) (st, fits, p) = elim (Bool-cases (leb n (length g))) [
  | inl within ↦ rw within (Stored-take base g n st, Fits-take base g n fits, tt)
  | inr behind ↦ rw behind (st, fits, Proper-cut (base + length g) (n - length g) gs p)
]

pub length-cons :
    (g : List MutationEntry) (gs : List (List MutationEntry))
    → length (concat (g ∷ gs)) ≡ length g + length (concat gs)
length-cons g gs = length-append g (concat gs)

-- The groups stay proper when the last has room for the entry.
pub Proper-add :
    (base : ℕ) (e : MutationEntry) (gs : List (List MutationEntry))
    → Proper base gs
    → e.index ≡ base + length (concat gs)
    → Encodable e
    → base + length (concat gs) + 1 < 2 ^ 64
    → length (frames (map code (last_group gs))) < 2 ^ 63
    → length (last_group gs) < 2 ^ 32
    → Proper base (add e gs)
Proper-add base e [] p i good next size room = p
Proper-add base e (g ∷ []) (st, fits, p) i good next size room =
    let whole : map code (g ++ (e ∷ [])) ≡ map code g ++ (code e ∷ []) =
      map-append code g (e ∷ []) in
    let longer : length (frames (map code (g ++ (e ∷ [])))) < 2 ^ 64 =
      rw (whole, frames-append (map code g) (code e ∷ []), append-nil (frame (code e)))
        (omega (
          arith,
          size,
          good.1,
          length-append (frames (map code g)) (frame (code e)),
          length-frame (code e),
        )) in
    let count : length (g ++ (e ∷ [])) ≡ length g + 1 = omega (arith, length-append g (e ∷ [])) in
    (
      Stored-append base g e st (omega (arith, i, length-cons g [])) good,
      (longer, omega (arith, next, count, length-cons g []), omega (arith, room, count)),
      tt,
    )
Proper-add base e (g ∷ x ∷ gs) (st, fits, p) i good next size room = (
  st,
  fits,
  Proper-add (base + length g) e (x ∷ gs) p (omega (arith, i, length-cons g (x ∷ gs))) good
      (omega (arith, next, length-cons g (x ∷ gs))) size room,
)
