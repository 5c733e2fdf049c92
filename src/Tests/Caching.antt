-- ===== src/Tests/Caching.antt =====
-- A cache of one page, whose page is unpinned when another comes.
use stoneleaf_db.Common.{ℕ, true, false, some, none, [], ◌∷◌, ◌≡◌, refl, arith}
use stoneleaf_db.Pages.Cache.Refs.{PagerResult, unref_page, unref_found}
use stoneleaf_db.Pages.Cache.{
  CachedPage, PageCache, PutResult, success, put, unpin_page, list_last, unlist, save_page,
}
use stoneleaf_db.Pages.Cache.Invariant.{IsCache}
use stoneleaf_db.Pages.Cache.Safety.{Outcome, put-Outcome}
use stoneleaf_db.Pages.Cache.Reachable.{
  CacheReach, begins, goes_on, puts, releases, empty_cache, CacheReach-IsCache,
}

abbrev page : ℕ → ℕ → CachedPage
page number uses = record {
  page_num = number;
  refs_num = uses;
  is_dirty = false;
  wal_pending = false;
  need_flushing = false;
}

abbrev one_page : PageCache
one_page = record { capacity = 1; page_count = 1; cache_map = page 5 1 ∷ []; unpinned_pages = [] }

abbrev unpinned_page : PageCache
unpinned_page = record {
  capacity = 1;
  page_count = 1;
  cache_map = page 5 0 ∷ [];
  unpinned_pages = 5 ∷ [];
}

first_put :
    put (empty_cache 1) (page 5 1)
    ≡ some (
      one_page,
      record { status = success; happened = false; victim_num = none; was_dirty = false },
    )
unfolding put save_page
first_put = refl

then_released : unref_page true one_page 5 ≡ some (unpinned_page, PagerResult.success)
unfolding unref_page unref_found unpin_page list_last unlist
then_released = refl

reached : CacheReach 1 unpinned_page
reached =
    goes_on (goes_on begins (puts (page 5 1) refl first_put))
      (releases true 5 (page 5 1) refl (omega arith) (omega arith) then_released)

CacheReach-IsCache_example : IsCache unpinned_page
CacheReach-IsCache_example = CacheReach-IsCache reached

unpinned-IsCache : IsCache unpinned_page
unpinned-IsCache = CacheReach-IsCache reached

put-Outcome_example :
    (c' : PageCache) × (r : PutResult) × (put unpinned_page (page 7 1) ≡ some (c', r))
    × IsCache c'
    × Outcome unpinned_page (page 7 1) c' r
put-Outcome_example = put-Outcome unpinned_page (page 7 1) unpinned-IsCache refl
