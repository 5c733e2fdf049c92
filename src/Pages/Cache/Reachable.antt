-- ===== src/Pages/Cache/Reachable.antt =====
-- Every sequence of calls keeps the map and the list of PCache.cpp in agreement.
use stoneleaf_db.Common.{
  ℕ, suc, ◌+◌, ◌-◌, ◌%◌, ◌^◌, ◌<◌, Bool, true, false, Option, none, some, List, [], ◌∷◌, length,
  ltb, ◌==◌, eq_self, eq→≡, if◌then◌else◌, ◌≡◌, refl, sym, ap, ◌∙◌, arith, Bool-cases, inl, inr,
}
use stoneleaf_db.Pages.Cache.Refs.{
  PagerResult, success, set_refs, ref_found, ref_page, unref_found, unref_page,
}
use stoneleaf_db.Pages.Cache.{
  CachedPage, PageCache, PutResult, CacheResult, find_page, is_listed, unlist, list_last, drop_page,
  put, remove, remove_found, force_remove, force_found, pin_page, unpin_page,
}
use stoneleaf_db.Pages.Cache.Invariant.{
  IsCache, Distinct, is_unpinned, drop_page-IsCache, is_listed-unlist, is_listed-list_last,
}
use stoneleaf_db.Pages.Cache.Safety.{put-Outcome}

with_refs : ℕ → Option CachedPage → Option CachedPage
with_refs refs none = none
with_refs refs (some p) = some (record p { refs_num = refs })

find_page-set_refs :
    (ps : List CachedPage) (n refs m : ℕ)
    → find_page (set_refs ps n refs) m
      ≡ (if n == m then with_refs refs (find_page ps m) else find_page ps m)
unfolding with_refs
find_page-set_refs [] n refs m = elim (Bool-cases (n == m)) [
  | inl same ↦ rw same refl
  | inr other ↦ rw other refl
]
find_page-set_refs (p ∷ ps) n refs m = elim (Bool-cases (p.page_num == n)) [
  | inl here ↦
      let is : p.page_num ≡ n = eq→≡ p.page_num n here in
      elim (Bool-cases (n == m)) [
        | inl same ↦ let both : (p.page_num == m) ≡ true = rw is same in rw (here, both, same) refl
        | inr other ↦
            let neither : (p.page_num == m) ≡ false = rw is other in rw (here, neither, other) refl
      ]
  | inr away ↦ elim (Bool-cases (p.page_num == m)) [
    | inl there ↦ let other : (n == m) ≡ false = ground arith in rw (away, there, other) refl
    | inr later ↦ rw (away, later) (find_page-set_refs ps n refs m)
  ]
]

length-set_refs : (ps : List CachedPage) (n refs : ℕ) → length (set_refs ps n refs) ≡ length ps
length-set_refs [] n refs = refl
length-set_refs (p ∷ ps) n refs = elim (Bool-cases (p.page_num == n)) [
  | inl here ↦ rw here refl
  | inr away ↦ rw away (ap suc (length-set_refs ps n refs))
]

Distinct-set_refs :
    (ps : List CachedPage) (n refs : ℕ) → Distinct ps → Distinct (set_refs ps n refs)
unfolding with_refs
Distinct-set_refs [] n refs d = d
Distinct-set_refs (p ∷ ps) n refs (fresh, d) = elim (Bool-cases (p.page_num == n)) [
  | inl here ↦ rw here (fresh, d)
  | inr away ↦
      let other : (n == p.page_num) ≡ false = ground arith in
      rw away
        (rw (find_page-set_refs ps n refs p.page_num, other) fresh, Distinct-set_refs ps n refs d)
]

some_injective : {a b : PageCache × PagerResult} → some a ≡ some b → a.0 ≡ b.0
some_injective {a} {b} h = let same : a ≡ b = cc in ap (λ x. x.0) same

-- A call of the cache by the pager, and the cache after it.
pub data CacheStep : PageCache → PageCache → Type 0 where
  puts :
      {c c' : PageCache} {r : PutResult} (page : CachedPage)
      → find_page c.cache_map page.page_num ≡ none
      → put c page ≡ some (c', r)
      → CacheStep c c'
  removes :
      {c c' : PageCache} {r : CacheResult} (n : ℕ) → remove c n ≡ some (c', r) → CacheStep c c'
  forces : {c c' : PageCache} (n : ℕ) → force_remove c n ≡ some c' → CacheStep c c'
  takes :
      {c c' : PageCache} {r : PagerResult} (is_open : Bool) (n : ℕ) (p : CachedPage)
      → find_page c.cache_map n ≡ some p
      → p.refs_num + 1 < 2 ^ 32
      → ref_page is_open c n ≡ some (c', r)
      → CacheStep c c'
  releases :
      {c c' : PageCache} {r : PagerResult} (is_open : Bool) (n : ℕ) (p : CachedPage)
      → find_page c.cache_map n ≡ some p
      → 0 < p.refs_num
      → p.refs_num < 2 ^ 32
      → unref_page is_open c n ≡ some (c', r)
      → CacheStep c c'

put-IsCache :
    (c c' : PageCache) (r : PutResult) (page : CachedPage)
    → IsCache c
    → find_page c.cache_map page.page_num ≡ none
    → put c page ≡ some (c', r)
    → IsCache c'
put-IsCache c c' r page h fresh runs =
    let (d, q, same, after, _) = put-Outcome c page h fresh in
    let is : d ≡ c' = cc in rw (← is) after

remove_found-IsCache :
    (c c' : PageCache) (r : CacheResult) (n : ℕ) (o : Option CachedPage)
    → IsCache c
    → find_page c.cache_map n ≡ o
    → remove_found c n o ≡ some (c', r)
    → IsCache c'
remove_found-IsCache c c' r n none h e runs = let is : c ≡ c' = cc in rw (← is) h
remove_found-IsCache c c' r n (some p) h e runs = elim (Bool-cases (ltb 0 p.refs_num)) [
  | inl pinned ↦ let is : c ≡ c' = ground arith in rw (← is) h
  | inr free ↦ elim (Bool-cases (is_listed n c.unpinned_pages)) [
    | inl listed ↦
        let is : drop_page c n ≡ c' = ground arith in rw (← is) (drop_page-IsCache c n h e)
    | inr missing ↦ absurd (ground arith)
  ]
]

force_found-IsCache :
    (c c' : PageCache) (n : ℕ) (o : Option CachedPage)
    → IsCache c
    → find_page c.cache_map n ≡ o
    → force_found c n o ≡ some c'
    → IsCache c'
force_found-IsCache c c' n none h e runs = let is : c ≡ c' = cc in rw (← is) h
force_found-IsCache c c' n (some p) h e runs =
    let is : drop_page c n ≡ c' = ground arith in rw (← is) (drop_page-IsCache c n h e)

-- A page whose count changes, with a list that has it where no one uses it.
recounted :
    (c : PageCache) (n refs : ℕ) (p : CachedPage) (ms : List ℕ)
    → IsCache c
    → find_page c.cache_map n ≡ some p
    → is_listed n ms ≡ (refs == 0)
    → ((m : ℕ) → (n == m) ≡ false → is_listed m ms ≡ is_listed m c.unpinned_pages)
    → IsCache (record c { cache_map = set_refs c.cache_map n refs; unpinned_pages = ms })
unfolding with_refs
recounted c n refs p ms h e here others = record {
  counted = h.counted ∙ sym (length-set_refs c.cache_map n refs);
  bounded = h.bounded;
  distinct = Distinct-set_refs c.cache_map n refs h.distinct;
  listed = λ m. elim (Bool-cases (n == m)) [
    | inl same ↦
        let is : n ≡ m = eq→≡ n m same in
        let found : find_page (set_refs c.cache_map n refs) m
            ≡ some (record p { refs_num = refs }) =
          find_page-set_refs c.cache_map n refs m ∙ rw (same, ← is, e) refl in
        ap (λ k. is_listed k ms) (sym is) ∙ here ∙ sym (ap is_unpinned found)
    | inr other ↦
        let found : find_page (set_refs c.cache_map n refs) m ≡ find_page c.cache_map m =
          find_page-set_refs c.cache_map n refs m ∙ rw other refl in
        others m other ∙ h.listed m ∙ sym (ap is_unpinned found)
  ];
}

found_after :
    (c : PageCache) (n refs : ℕ) (p : CachedPage)
    → find_page c.cache_map n ≡ some p
    → find_page (set_refs c.cache_map n refs) n ≡ some (record p { refs_num = refs })
unfolding with_refs
found_after c n refs p e = find_page-set_refs c.cache_map n refs n ∙ rw (eq_self n, e) refl

ref_found-IsCache :
    (c c' : PageCache) (r : PagerResult) (n : ℕ) (p : CachedPage)
    → IsCache c
    → find_page c.cache_map n ≡ some p
    → p.refs_num + 1 < 2 ^ 32
    → ref_found c n (some p) ≡ some (c', r)
    → IsCache c'
unfolding ref_found pin_page
ref_found-IsCache c c' r n p h e small runs =
    let more : (p.refs_num + 1) % 2 ^ 32 ≡ p.refs_num + 1 = omega arith in
    let found = found_after c n (p.refs_num + 1) p e in
    let before : is_listed n c.unpinned_pages ≡ (p.refs_num == 0) = h.listed n ∙ ap is_unpinned e in
    let used : (p.refs_num + 1 == 0) ≡ false = ground arith in
    elim (Bool-cases (p.refs_num == 0)) [
      | inl first ↦
          let d : PageCache = record c {
            cache_map = set_refs c.cache_map n (p.refs_num + 1);
            unpinned_pages = unlist n c.unpinned_pages;
          } in
          let one : (p.refs_num + 1 == 1) ≡ true = ground arith in
          let went : ref_found c n (some p) ≡ some (d, success) =
            rw (more, one, found, used, one, before, first) refl in
          let is : d ≡ c' = some_injective (sym went ∙ runs) in
          rw (← is) (
            recounted c n (p.refs_num + 1) p (unlist n c.unpinned_pages) h e
              (rw (is_listed-unlist n n c.unpinned_pages, eq_self n, used) refl)
              (λ m other. rw (is_listed-unlist n m c.unpinned_pages, other) refl))
      | inr again ↦
          let d : PageCache = record c { cache_map = set_refs c.cache_map n (p.refs_num + 1) } in
          let many : (p.refs_num + 1 == 1) ≡ false = ground arith in
          let went : ref_found c n (some p) ≡ some (d, success) = rw (more, many) refl in
          let is : d ≡ c' = some_injective (sym went ∙ runs) in
          rw (← is) (
            recounted c n (p.refs_num + 1) p c.unpinned_pages h e (before ∙ again ∙ sym used)
              (λ m other. refl))
    ]

unref_found-IsCache :
    (c c' : PageCache) (r : PagerResult) (n : ℕ) (p : CachedPage)
    → IsCache c
    → find_page c.cache_map n ≡ some p
    → 0 < p.refs_num
    → p.refs_num < 2 ^ 32
    → unref_found c n (some p) ≡ some (c', r)
    → IsCache c'
unfolding unref_found unpin_page
unref_found-IsCache c c' r n p h e used small runs =
    let less : (p.refs_num + (2 ^ 32 - 1)) % 2 ^ 32 ≡ p.refs_num - 1 = omega arith in
    let found = found_after c n (p.refs_num - 1) p e in
    let in_use : (p.refs_num == 0) ≡ false = ground arith in
    let before : is_listed n c.unpinned_pages ≡ false = h.listed n ∙ ap is_unpinned e ∙ in_use in
    elim (Bool-cases (p.refs_num - 1 == 0)) [
      | inl last ↦
          let d : PageCache = record c {
            cache_map = set_refs c.cache_map n (p.refs_num - 1);
            unpinned_pages = list_last n c.unpinned_pages;
          } in
          let went : unref_found c n (some p) ≡ some (d, success) =
            rw (less, last, found, last, before) refl in
          let is : d ≡ c' = some_injective (sym went ∙ runs) in
          rw (← is) (
            recounted c n (p.refs_num - 1) p (list_last n c.unpinned_pages) h e
              (rw (is_listed-list_last n n c.unpinned_pages, eq_self n, last) refl)
              (λ m other. rw (is_listed-list_last n m c.unpinned_pages, other) refl))
      | inr more ↦
          let d : PageCache = record c { cache_map = set_refs c.cache_map n (p.refs_num - 1) } in
          let went : unref_found c n (some p) ≡ some (d, success) = rw (less, more) refl in
          let is : d ≡ c' = some_injective (sym went ∙ runs) in
          rw (← is) (
            recounted c n (p.refs_num - 1) p c.unpinned_pages h e (before ∙ sym more)
              (λ m other. refl))
    ]

-- A pager that is not open leaves the cache as it is.
ref_page-IsCache :
    (is_open : Bool) (c c' : PageCache) (r : PagerResult) (n : ℕ) (p : CachedPage)
    → IsCache c
    → find_page c.cache_map n ≡ some p
    → p.refs_num + 1 < 2 ^ 32
    → ref_page is_open c n ≡ some (c', r)
    → IsCache c'
unfolding ref_page
ref_page-IsCache false c c' r n p h e small runs =
    let is : c ≡ c' = some_injective runs in rw (← is) h
ref_page-IsCache true c c' r n p h e small runs = elim (Bool-cases (n == 0)) [
  | inl header ↦ absurd (cc)
  | inr other ↦ ref_found-IsCache c c' r n p h e small (rw (other, e) at runs)
]

unref_page-IsCache :
    (is_open : Bool) (c c' : PageCache) (r : PagerResult) (n : ℕ) (p : CachedPage)
    → IsCache c
    → find_page c.cache_map n ≡ some p
    → 0 < p.refs_num
    → p.refs_num < 2 ^ 32
    → unref_page is_open c n ≡ some (c', r)
    → IsCache c'
unfolding unref_page
unref_page-IsCache false c c' r n p h e used small runs =
    let is : c ≡ c' = some_injective runs in rw (← is) h
unref_page-IsCache true c c' r n p h e used small runs =
    unref_found-IsCache c c' r n p h e used small (rw e at runs)

pub CacheStep-IsCache : {c c' : PageCache} → CacheStep c c' → IsCache c → IsCache c'
unfolding remove force_remove
CacheStep-IsCache {c} {c'} (puts {r} page fresh runs) h = put-IsCache c c' r page h fresh runs
CacheStep-IsCache {c} {c'} (removes {r} n runs) h =
    remove_found-IsCache c c' r n (find_page c.cache_map n) h refl runs
CacheStep-IsCache {c} {c'} (forces n runs) h =
    force_found-IsCache c c' n (find_page c.cache_map n) h refl runs
CacheStep-IsCache {c} {c'} (takes {r} is_open n p e small runs) h =
    ref_page-IsCache is_open c c' r n p h e small runs
CacheStep-IsCache {c} {c'} (releases {r} is_open n p e used small runs) h =
    unref_page-IsCache is_open c c' r n p h e used small runs

-- The cache that the constructor makes, and those that calls lead to.
abbrev pub empty_cache : ℕ → PageCache
empty_cache capacity = record {
  capacity = capacity;
  page_count = 0;
  cache_map = [];
  unpinned_pages = [];
}

pub data CacheReach : ℕ → PageCache → Type 0 where
  begins : {k : ℕ} → CacheReach k (empty_cache k)
  goes_on : {k : ℕ} {c c' : PageCache} → CacheReach k c → CacheStep c c' → CacheReach k c'

-- In every cache that puts of uncached pages, removals, and counts of the users of pages below
-- 2^32 reach from an empty one, the pages are counted and no more than the capacity, no two have
-- one number, and the list of unpinned pages has exactly those that no one uses.
pub CacheReach-IsCache : {k : ℕ} {c : PageCache} → CacheReach k c → IsCache c
CacheReach-IsCache begins = record {
  counted = refl;
  bounded = omega arith;
  distinct = tt;
  listed = λ n. refl;
}
CacheReach-IsCache (goes_on r s) = CacheStep-IsCache s (CacheReach-IsCache r)
