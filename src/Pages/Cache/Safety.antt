-- ===== src/Pages/Cache/Safety.antt =====
-- What the operations of PCache.cpp keep, and what `put` does on every branch.
use stoneleaf_db.Common.{
  ℕ, ◌+◌, ◌-◌, ◌≤◌, Bool, true, false, ◌&&◌, Option, none, some, List, length, ltb, ◌==◌,
  if◌then◌else◌, ◌≡◌, ◌≢◌, refl, sym, ap, ◌∙◌, arith, Bool-cases, inl, inr, ◌⊎◌,
}
use stoneleaf_db.Pages.Cache.{
  CachedPage, PageCache, PutResult, CacheResult, success, dirty_flush, find_page, erase_page,
  is_listed, save_page, drop_page, choose_victim, put, evict, remove, no_numbers, refused,
  checked_save, Choice, no_victim,
}
use stoneleaf_db.Pages.Cache.Invariant.{
  IsCache, length-erase_page, find_page-erase_page, drop_page-IsCache, save_page-IsCache,
}
use stoneleaf_db.Pages.Cache.Victim.{Evictable, choose_victim-Evictable}

abbrev is_success : CacheResult → Bool
is_success success = true
is_success _ = false

-- The page that was evicted.
abbrev pub evicted : PutResult → Option ℕ
evicted r = if r.happened then r.victim_num else none

-- Whether a number is that of the evicted page.
abbrev pub was_evicted : Option ℕ → ℕ → Bool
was_evicted none m = false
was_evicted (some n) m = n == m

-- An evicted page is one that no one uses, that does not wait for the log, and that is clean or needs
-- no flushing.
abbrev pub MayEvict : List CachedPage → Option ℕ → Type 0
MayEvict ps none = Unit {0}
MayEvict ps (some n) =
    (v : CachedPage) × (find_page ps n ≡ some v)
    × (v.refs_num ≡ 0)
    × (v.wal_pending ≡ false)
    × ((v.is_dirty && v.need_flushing) ≡ false)

-- The page is put in and at most one is evicted, or the cache is as it was.
abbrev pub Outcome : PageCache → CachedPage → PageCache → PutResult → Type 0
Outcome c page c' r =
    ((r.status ≡ success)
      × ((m : ℕ)
          → find_page c'.cache_map m ≡ (
              if page.page_num == m
              then some page
              else if was_evicted (evicted r) m
              then none
              else find_page c.cache_map m))
      × MayEvict c.cache_map (evicted r))
    ⊎ ((r.status ≢ success) × (c' ≡ c))

unlisted_fresh :
    (c : PageCache) (n : ℕ)
    → IsCache c
    → find_page c.cache_map n ≡ none
    → is_listed n c.unpinned_pages ≡ false
unlisted_fresh c n h fresh = rw (h.listed n, fresh) refl

checked :
    (c : PageCache) (page : CachedPage)
    → IsCache c
    → find_page c.cache_map page.page_num ≡ none
    → checked_save c page ≡ some (save_page c page)
checked c page h fresh = elim (Bool-cases (page.refs_num == 0)) [
  | inl unused ↦ rw (unlisted_fresh c page.page_num h fresh, unused) refl
  | inr used ↦ rw used refl
]

remove-unused :
    (c : PageCache) (v : CachedPage)
    → IsCache c
    → find_page c.cache_map v.page_num ≡ some v
    → v.refs_num ≡ 0
    → remove c v.page_num ≡ some (drop_page c v.page_num, success)
unfolding remove
remove-unused c v h found free =
    let listed : is_listed v.page_num c.unpinned_pages ≡ true =
      rw (h.listed v.page_num, found, free) refl in
    let pinned : ltb 0 v.refs_num ≡ false = rw free refl in rw (found, pinned, listed) refl

no_success : {s : CacheResult} → is_success s ≡ false → s ≢ success
no_success {s} f e = let t : is_success s ≡ true = ap is_success e in absurd (cc)

evict-Outcome :
    (c : PageCache) (page : CachedPage) (chosen : Option CachedPage × Bool)
    → IsCache c
    → find_page c.cache_map page.page_num ≡ none
    → Evictable c.cache_map chosen.0
    → (c' : PageCache) × (r : PutResult) × (evict c page chosen ≡ some (c', r))
      × IsCache c'
      × Outcome c page c' r
unfolding evict
evict-Outcome c page (none, true) h fresh good = (c, _, refl, h, inr (no_success refl, refl))
evict-Outcome c page (none, false) h fresh good = (c, _, refl, h, inr (no_success refl, refl))
evict-Outcome c page (some v, pending) h fresh (found, free, ready) =
    elim (Bool-cases (v.is_dirty && v.need_flushing)) [
      | inl flush ↦ (
        c,
        record {
          status = dirty_flush;
          happened = false;
          victim_num = some v.page_num;
          was_dirty = true;
        },
        rw flush refl,
        h,
        inr (no_success refl, refl),
      )
      | inr clean ↦
          let d : PageCache = drop_page c v.page_num in
          let dropped : IsCache d = drop_page-IsCache c v.page_num h found in
          let still : find_page d.cache_map page.page_num ≡ none = still_fresh v in
          (
            save_page d page,
            record {
              status = success;
              happened = true;
              victim_num = some v.page_num;
              was_dirty = v.is_dirty;
            },
            rw (clean, remove-unused c v h found free) (rw (checked d page dropped still) refl),
            save_page-IsCache d page dropped still (room v found),
            inl (refl, looked_up v, (v, found, free, ready, clean)),
          )
    ]
  where
    still_fresh :
        (v : CachedPage) → find_page (drop_page c v.page_num).cache_map page.page_num ≡ none
    still_fresh v =
        unfold drop_page in
        (find_page-erase_page c.cache_map v.page_num page.page_num ∙ rw fresh (ground arith))

    roomy :
        (v : CachedPage)
        → length (erase_page c.cache_map v.page_num) + 1 ≡ length c.cache_map
        → c.page_count - 1 + 1 ≤ c.capacity
    roomy v less = omega (arith, less, h.counted, h.bounded)

    room :
        (v : CachedPage)
        → find_page c.cache_map v.page_num ≡ some v
        → (drop_page c v.page_num).page_count + 1 ≤ (drop_page c v.page_num).capacity
    room v found =
        unfold drop_page in roomy v (length-erase_page c.cache_map v.page_num h.distinct found)

    looked_up :
        (v : CachedPage) (m : ℕ)
        → find_page (save_page (drop_page c v.page_num) page).cache_map m ≡ (
            if page.page_num == m
            then some page
            else if v.page_num == m
            then none
            else find_page c.cache_map m)
    looked_up v m =
        unfold save_page in
        (unfold drop_page in (rw (find_page-erase_page c.cache_map v.page_num m) refl))

-- On a cache that counts its pages, holds no more than its capacity, no two under one number, and
-- lists exactly those that no one uses, PCache::put of a page whose number is not cached fails no
-- assertion and leaves such a cache. Either it answers success and the cache has the page and all
-- it had, less an evicted one, which no one uses, which does not wait for the log, and which is
-- clean or needs no flushing; or it answers otherwise and the cache is as it was.
pub put-Outcome :
    (c : PageCache) (page : CachedPage)
    → IsCache c
    → find_page c.cache_map page.page_num ≡ none
    → (c' : PageCache) × (r : PutResult) × (put c page ≡ some (c', r))
      × IsCache c'
      × Outcome c page c' r
unfolding put
put-Outcome c page h fresh = elim (Bool-cases (c.page_count == c.capacity)) [
  | inl full ↦ elim (Bool-cases (no_numbers c.unpinned_pages)) [
    | inl pinned ↦
        (c, refused no_victim, rw (fresh, full, pinned) refl, h, inr (no_success refl, refl))
    | inr some_unpinned ↦
        let chosen : Choice = choose_victim c.cache_map c.unpinned_pages none false in
        let good : Evictable c.cache_map chosen.0 =
          choose_victim-Evictable c.cache_map c.unpinned_pages none false
            (λ n l. sym (h.listed n) ∙ l) tt in
        let (c', r, runs, after, outcome) = evict-Outcome c page chosen h fresh good in
        (c', r, rw (fresh, full, some_unpinned) runs, after, outcome)
  ]
  | inr room ↦ (
    save_page c page,
    refused success,
    rw (fresh, room, checked c page h fresh) refl,
    save_page-IsCache c page h fresh (ground (arith, h.bounded)),
    inl (refl, looked_up, tt),
  )
]
  where
    looked_up :
        (m : ℕ)
        → find_page (save_page c page).cache_map m ≡ (
            if page.page_num == m
            then some page
            else if false
            then none
            else find_page c.cache_map m)
    looked_up m = unfold save_page in refl
