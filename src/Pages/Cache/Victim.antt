-- ===== src/Pages/Cache/Victim.antt =====
-- What the loop of `put` in PCache.cpp chooses.
use stoneleaf_db.Common.{
  ℕ, Bool, true, false, ◌||◌, not, Option, none, some, List, [], ◌∷◌, ◌==◌, eq_self, if◌then◌else◌,
  ◌≡◌, refl, sym, ap, ◌∙◌, arith, Option-cases, inl, inr,
}
use stoneleaf_db.Pages.Cache.{CachedPage, find_page, is_listed, choose_victim, or_first, Choice}
use stoneleaf_db.Pages.Cache.Invariant.{is_unpinned, find_page-num}

-- A page of the map that no one uses and that does not wait for the log.
abbrev pub Evictable : List CachedPage → Option CachedPage → Type 0
Evictable ps none = Unit {0}
Evictable ps (some p) =
    (find_page ps p.page_num ≡ some p) × (p.refs_num ≡ 0) × (p.wal_pending ≡ false)

-- The three branches of a round.
by_flags :
    (ps : List CachedPage) (x y z : Choice) (waits dirty : Bool)
    → (waits ≡ true → Evictable ps x.0)
    → (waits ≡ false → dirty ≡ false → Evictable ps y.0)
    → (waits ≡ false → dirty ≡ true → Evictable ps z.0)
    → Evictable ps (if waits then x else if not dirty then y else z).0
by_flags ps x y z true dirty a b c = a refl
by_flags ps x y z false false a b c = b refl refl
by_flags ps x y z false true a b c = c refl refl

pub choose_victim-Evictable :
    (ps : List CachedPage) (ns : List ℕ) (victim : Option CachedPage) (pending : Bool)
    → ((n : ℕ) → is_listed n ns ≡ true → is_unpinned (find_page ps n) ≡ true)
    → Evictable ps victim
    → Evictable ps (choose_victim ps ns victim pending).0
unfolding choose_victim
choose_victim-Evictable ps [] victim pending h good = good
choose_victim-Evictable ps (n ∷ ns) victim pending h good =
    let later : (m : ℕ) → is_listed m ns ≡ true → is_unpinned (find_page ps m) ≡ true =
      λ m l. h m (rw l (either (n == m))) in
    elim (Option-cases (find_page ps n)) [
      | inl gone ↦ rw gone (choose_victim-Evictable ps ns victim pending later good)
      | inr (p, found) ↦
          let num : n ≡ p.page_num = sym (find_page-num ps n found) in
          let unused : is_unpinned (find_page ps n) ≡ true = h n (rw (eq_self n) refl) in
          let free : (p.refs_num == 0) ≡ true = rw found at unused in
          let this : p.wal_pending ≡ false → Evictable ps (some p) =
            λ ready. (sym (ap (find_page ps) num) ∙ found, ground arith, ready) in
          rw found (
            by_flags ps (choose_victim ps ns victim true) (some p, pending)
              (choose_victim ps ns (or_first victim p) pending) p.wal_pending p.is_dirty
              (λ waits. choose_victim-Evictable ps ns victim true later good)
              (λ ready clean. this ready)
              (λ ready dirty.
                choose_victim-Evictable ps ns (or_first victim p) pending later
                  (first victim p good (this ready))))
    ]
  where
    either : (b : Bool) → (b || true) ≡ true
    either true = refl
    either false = refl

    first :
        (v : Option CachedPage) (p : CachedPage)
        → Evictable ps v
        → Evictable ps (some p)
        → Evictable ps (or_first v p)
    first none p a b = b
    first (some v) p a b = a
