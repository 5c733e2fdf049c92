-- ===== src/Pages/Cache.antt =====
-- PCache.cpp with its list of unpinned pages (containers/DLList.cpp). A page is its run-time fields;
-- the map is a list of pages, and the list of unpinned pages the list of their numbers, the last added
-- first. `none` is a failed assertion.
pub mod Invariant
pub mod Victim
pub mod Safety
pub mod Refs
pub mod Reachable
use stoneleaf_db.Encoding.Stream.{◌>>=◌}
use stoneleaf_db.Common.{
  ℕ, zero, suc, ◌+◌, ◌-◌, ◌%◌, ◌^◌, Bool, true, false, ◌&&◌, ◌||◌, not, Option, none, some, List,
  [], ◌∷◌, length, ltb, ◌==◌, if◌then◌else◌,
}

pub record CachedPage : Type 0 where
  pub page_num : ℕ
  pub refs_num : ℕ
  pub is_dirty : Bool
  pub wal_pending : Bool
  pub need_flushing : Bool

pub record PageCache : Type 0 where
  pub capacity : ℕ
  pub page_count : ℕ
  pub cache_map : List CachedPage
  pub unpinned_pages : List ℕ

pub data CacheResult : Type 0 where
  success no_victim dirty_flush wal_pending_victim removing_pinned_page : CacheResult

pub record PutResult : Type 0 where
  pub status : CacheResult
  pub happened : Bool
  pub victim_num : Option ℕ
  pub was_dirty : Bool

-- `cache_map.find` and PCache::get
abbrev pub find_page : List CachedPage → ℕ → Option CachedPage
find_page [] n = none
find_page (p ∷ ps) n = if p.page_num == n then some p else find_page ps n

-- `cache_map.erase`
abbrev pub erase_page : List CachedPage → ℕ → List CachedPage
erase_page [] n = []
erase_page (p ∷ ps) n = let rest = erase_page ps n in if p.page_num == n then rest else p ∷ rest

-- DLList::exists
abbrev pub is_listed : ℕ → List ℕ → Bool
is_listed n [] = false
is_listed n (m ∷ ms) = m == n || is_listed n ms

-- DLList::remove
unfoldable pub unlist : ℕ → List ℕ → List ℕ
unlist n [] = []
unlist n (m ∷ ms) = let rest = unlist n ms in if m == n then rest else m ∷ rest

-- DLList::add
unfoldable pub list_last : ℕ → List ℕ → List ℕ
list_last n ms = n ∷ unlist n ms

abbrev pub or_first : Option CachedPage → CachedPage → Option CachedPage
or_first none p = some p
or_first (some v) p = some v

abbrev pub Choice : Type 0
Choice = Option CachedPage × Bool

-- One round of the loop of `put` over the unpinned pages; `next` is the rest of them. A number that is
-- listed is in the map, so `none` does not come up.
abbrev pub consider :
    Option CachedPage → Option CachedPage → Bool → (Option CachedPage → Bool → Choice) → Choice
consider none victim pending next = next victim pending
consider (some p) victim pending next =
    if p.wal_pending
    then next victim true
    else if not p.is_dirty
    then (some p, pending)
    else next (or_first victim p) pending

-- The loop: the victim, and whether a page waits for the log.
unfoldable pub choose_victim : List CachedPage → List ℕ → Option CachedPage → Bool → Choice
choose_victim ps [] victim pending = (victim, pending)
choose_victim ps (n ∷ ns) victim pending =
    consider (find_page ps n) victim pending (choose_victim ps ns)

abbrev pub refused : CacheResult → PutResult
refused status = record { status = status; happened = false; victim_num = none; was_dirty = false }

-- The page put where it has room.
unfoldable pub save_page : PageCache → CachedPage → PageCache
save_page c page = record c {
  page_count = c.page_count + 1;
  cache_map = page ∷ c.cache_map;
  unpinned_pages =
      if page.refs_num == 0 then list_last page.page_num c.unpinned_pages else c.unpinned_pages;
}

unfoldable pub drop_page : PageCache → ℕ → PageCache
drop_page c n = record c {
  page_count = c.page_count - 1;
  cache_map = erase_page c.cache_map n;
  unpinned_pages = unlist n c.unpinned_pages;
}

abbrev pub remove_found : PageCache → ℕ → Option CachedPage → Option (PageCache × CacheResult)
remove_found c n none = some (c, success)
remove_found c n (some p) =
    if ltb 0 p.refs_num
    then some (c, removing_pinned_page)
    else if not (is_listed n c.unpinned_pages)
    then none
    else some (drop_page c n, success)

-- PCache::remove
unfoldable pub remove : PageCache → ℕ → Option (PageCache × CacheResult)
remove c n = remove_found c n (find_page c.cache_map n)

-- The page saved, where no page of its number is listed already.
abbrev checked_save : PageCache → CachedPage → Option PageCache
checked_save c page =
    if page.refs_num == 0 && is_listed page.page_num c.unpinned_pages
    then none
    else some (save_page c page)

abbrev after_removal :
    CachedPage → CachedPage → PageCache × CacheResult → Option (PageCache × PutResult)
after_removal page victim (c, success) = checked_save c page >>= λ c'. some (
  c',
  record {
    status = success;
    happened = true;
    victim_num = some victim.page_num;
    was_dirty = victim.is_dirty;
  },
)
after_removal page victim (c, _) = none

-- What `put` does in a full cache with what the loop has found.
unfoldable pub evict : PageCache → CachedPage → Choice → Option (PageCache × PutResult)
evict c page (none, pending) = some (c, refused (if pending then wal_pending_victim else no_victim))
evict c page (some victim, pending) =
    if victim.is_dirty && victim.need_flushing
    then some (
      c,
      record {
        status = dirty_flush;
        happened = false;
        victim_num = some victim.page_num;
        was_dirty = true;
      },
    )
    else (remove c victim.page_num >>= after_removal page victim)

abbrev is_absent : Option CachedPage → Bool
is_absent none = true
is_absent (some p) = false

abbrev no_numbers : List ℕ → Bool
no_numbers [] = true
no_numbers (n ∷ ns) = false

-- PCache::put
unfoldable pub put : PageCache → CachedPage → Option (PageCache × PutResult)
put c page =
    if not (is_absent (find_page c.cache_map page.page_num))
    then none
    else if c.page_count == c.capacity
    then if no_numbers c.unpinned_pages
      then some (c, refused no_victim)
      else evict c page (choose_victim c.cache_map c.unpinned_pages none false)
    else (checked_save c page >>= λ c'. some (c', refused success))

abbrev pub force_found : PageCache → ℕ → Option CachedPage → Option PageCache
force_found c n none = some c
force_found c n (some p) =
    if p.refs_num == 0
    then (if not (is_listed n c.unpinned_pages) then none else some (drop_page c n))
    else (if is_listed n c.unpinned_pages then none else some (drop_page c n))

-- PCache::force_remove
unfoldable pub force_remove : PageCache → ℕ → Option PageCache
force_remove c n = force_found c n (find_page c.cache_map n)

-- PCache::pin_page
unfoldable pub pin_page : PageCache → ℕ → Option PageCache
pin_page c n = find_page c.cache_map n >>= λ p.
    if p.refs_num == 0
    then none
    else if p.refs_num == 1 && is_listed n c.unpinned_pages
    then some (record c { unpinned_pages = unlist n c.unpinned_pages })
    else if p.refs_num == 1 || not (is_listed n c.unpinned_pages)
    then some c
    else none

-- PCache::unpin_page
unfoldable pub unpin_page : PageCache → ℕ → Option PageCache
unpin_page c n = find_page c.cache_map n >>= λ p.
    if not (p.refs_num == 0)
    then none
    else if is_listed n c.unpinned_pages
    then none
    else some (record c { unpinned_pages = list_last n c.unpinned_pages })
