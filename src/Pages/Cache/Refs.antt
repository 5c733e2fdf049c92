-- ===== src/Pages/Cache/Refs.antt =====
-- How Pager.cpp counts the users of a cached page. `none` is a failed assertion.
use stoneleaf_db.Encoding.Stream.{◌>>=◌}
use stoneleaf_db.Common.{
  ℕ, ◌+◌, ◌-◌, ◌%◌, ◌^◌, Bool, not, Option, none, some, List, [], ◌∷◌, ◌==◌, if◌then◌else◌,
}
use stoneleaf_db.Pages.Cache.{CachedPage, PageCache, find_page, pin_page, unpin_page}

-- The results of the two operations.
pub data PagerResult : Type 0 where
  success database_not_open page_not_cached : PagerResult

abbrev pub set_refs : List CachedPage → ℕ → ℕ → List CachedPage
set_refs [] n refs = []
set_refs (p ∷ ps) n refs =
    let rest = set_refs ps n refs in
    if p.page_num == n then record p { refs_num = refs } ∷ ps else p ∷ rest

-- `page->refs_num++`, on a page that the cache has
unfoldable pub ref_found : PageCache → ℕ → Option CachedPage → Option (PageCache × PagerResult)
ref_found c n none = some (c, page_not_cached)
ref_found c n (some p) =
    let refs : ℕ = (p.refs_num + 1) % 2 ^ 32 in
    let counted : PageCache = record c { cache_map = set_refs c.cache_map n refs } in
    (if refs == 1 then pin_page counted n else some counted) >>= λ c'. some (c', success)

-- Pager::ref_page, where `is_open` is the pager's; the page of the database header is not counted.
unfoldable pub ref_page : Bool → PageCache → ℕ → Option (PageCache × PagerResult)
ref_page is_open c n =
    if not is_open
    then some (c, database_not_open)
    else if n == 0
    then none
    else ref_found c n (find_page c.cache_map n)

-- `page->refs_num--`
unfoldable pub unref_found : PageCache → ℕ → Option CachedPage → Option (PageCache × PagerResult)
unref_found c n none = none
unref_found c n (some p) =
    let refs : ℕ = (p.refs_num + (2 ^ 32 - 1)) % 2 ^ 32 in
    let counted : PageCache = record c { cache_map = set_refs c.cache_map n refs } in
    (if refs == 0 then unpin_page counted n else some counted) >>= λ c'. some (c', success)

-- Pager::unref_page
unfoldable pub unref_page : Bool → PageCache → ℕ → Option (PageCache × PagerResult)
unref_page is_open c n =
    if not is_open then some (c, database_not_open) else unref_found c n (find_page c.cache_map n)
