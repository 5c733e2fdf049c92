-- ===== src/Pages/Cache/Invariant.antt =====
-- The map and the list of unpinned pages of PCache.cpp agree.
use stoneleaf_db.Common.{
  ℕ, ◌+◌, ◌≤◌, Bool, false, ◌&&◌, ◌||◌, not, Option, none, some, List, [], ◌∷◌, length, ◌==◌, eq→≡,
  if◌then◌else◌, ◌≡◌, refl, ap, arith, Bool-cases, inl, inr,
}
use stoneleaf_db.Pages.Cache.{
  CachedPage, PageCache, find_page, erase_page, is_listed, unlist, list_last, save_page, drop_page,
}

abbrev pub is_unpinned : Option CachedPage → Bool
is_unpinned none = false
is_unpinned (some p) = p.refs_num == 0

-- No two pages have the same number.
abbrev pub Distinct : List CachedPage → Type 0
Distinct [] = Unit
Distinct (p ∷ ps) = (find_page ps p.page_num ≡ none) × Distinct ps

-- The pages are counted, no more than the capacity, under different numbers, and the list has exactly
-- those that no one uses.
pub record IsCache (c : PageCache) : Type 0 where
  pub counted : c.page_count ≡ length c.cache_map
  pub bounded : c.page_count ≤ c.capacity
  pub distinct : Distinct c.cache_map
  pub listed : (n : ℕ) → is_listed n c.unpinned_pages ≡ is_unpinned (find_page c.cache_map n)

pub find_page-num :
    (ps : List CachedPage) (n : ℕ) {p : CachedPage} → find_page ps n ≡ some p → p.page_num ≡ n
find_page-num [] n h = cc
find_page-num (q ∷ ps) n {p} h = elim (Bool-cases (q.page_num == n)) [
  | inl same ↦ let is : q ≡ p = ground arith in rw (← is) (eq→≡ q.page_num n same)
  | inr other ↦ find_page-num ps n (rw other at h)
]

pub find_page-erase_page :
    (ps : List CachedPage) (n m : ℕ)
    → find_page (erase_page ps n) m ≡ (if n == m then none else find_page ps m)
find_page-erase_page [] n m = ground arith
find_page-erase_page (p ∷ ps) n m = ground (arith, find_page-erase_page ps n m)

pub erase_page-absent :
    (ps : List CachedPage) (n : ℕ) → find_page ps n ≡ none → erase_page ps n ≡ ps
erase_page-absent [] n h = refl
erase_page-absent (p ∷ ps) n h = elim (Bool-cases (p.page_num == n)) [
  | inl same ↦ let found : some p ≡ none = rw same at h in absurd (cc)
  | inr other ↦ rw other (ap (λ l. p ∷ l) (erase_page-absent ps n (rw other at h)))
]

pub length-erase_page :
    (ps : List CachedPage) (n : ℕ) {p : CachedPage}
    → Distinct ps
    → find_page ps n ≡ some p
    → length (erase_page ps n) + 1 ≡ length ps
length-erase_page [] n d h = cc
length-erase_page (q ∷ ps) n (fresh, d) h = elim (Bool-cases (q.page_num == n)) [
  | inl same ↦
      let is : q.page_num ≡ n = eq→≡ q.page_num n same in
      let gone : erase_page ps n ≡ ps = erase_page-absent ps n (rw (← is) fresh) in
      rw (same, gone) (omega arith)
  | inr other ↦ rw other (omega (arith, length-erase_page ps n d (rw other at h)))
]

pub Distinct-erase_page : (ps : List CachedPage) (n : ℕ) → Distinct ps → Distinct (erase_page ps n)
Distinct-erase_page [] n d = d
Distinct-erase_page (p ∷ ps) n (fresh, d) = elim (Bool-cases (p.page_num == n)) [
  | inl same ↦ rw same (Distinct-erase_page ps n d)
  | inr other ↦
      rw other (
        rw (find_page-erase_page ps n p.page_num, fresh) (ground arith),
        Distinct-erase_page ps n d,
      )
]

pub is_listed-unlist :
    (n m : ℕ) (ms : List ℕ) → is_listed m (unlist n ms) ≡ (not (n == m) && is_listed m ms)
unfolding unlist
is_listed-unlist n m [] = ground arith
is_listed-unlist n m (k ∷ ms) = ground (arith, is_listed-unlist n m ms)

pub is_listed-list_last :
    (n m : ℕ) (ms : List ℕ) → is_listed m (list_last n ms) ≡ (n == m || is_listed m ms)
unfolding list_last
is_listed-list_last n m ms = ground (arith, is_listed-unlist n m ms)

-- A page taken out.
pub drop_page-IsCache :
    (c : PageCache) (n : ℕ) {p : CachedPage}
    → IsCache c
    → find_page c.cache_map n ≡ some p
    → IsCache (drop_page c n)
unfolding drop_page
drop_page-IsCache c n h e =
    let less : length (erase_page c.cache_map n) + 1 ≡ length c.cache_map =
      length-erase_page c.cache_map n h.distinct e in
    record {
      counted = omega (arith, h.counted, less);
      bounded = omega (arith, h.bounded);
      distinct = Distinct-erase_page c.cache_map n h.distinct;
      listed = λ m.
          rw
            (
              is_listed-unlist n m c.unpinned_pages,
              find_page-erase_page c.cache_map n m,
              h.listed m,
            )
            (ground arith);
    }

-- A page put in, where there is room.
pub save_page-IsCache :
    (c : PageCache) (page : CachedPage)
    → IsCache c
    → find_page c.cache_map page.page_num ≡ none
    → c.page_count + 1 ≤ c.capacity
    → IsCache (save_page c page)
unfolding save_page
save_page-IsCache c page h fresh room = record {
  counted = omega (arith, h.counted);
  bounded = room;
  distinct = (fresh, h.distinct);
  listed = λ m. elim (Bool-cases (page.refs_num == 0)) [
    | inl unused ↦
        rw (unused, is_listed-list_last page.page_num m c.unpinned_pages, h.listed m)
          (elim (Bool-cases (page.page_num == m)) [
            | inl same ↦ rw (same, unused) refl
            | inr other ↦ rw other refl
          ])
    | inr used ↦
        rw (used, h.listed m)
          (elim (Bool-cases (page.page_num == m)) [
            | inl same ↦
                let is : page.page_num ≡ m = eq→≡ page.page_num m same in
                rw (same, used, ← is, fresh) refl
            | inr other ↦ rw other refl
          ])
  ];
}
