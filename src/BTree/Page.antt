-- ===== src/BTree/Page.antt =====
-- The keys, values and children of containers/BTreePage.cpp in memory; the images of the pages are
-- left out.
pub mod Order
pub mod Bound
pub mod Leaf
pub mod Edit
pub mod Updates
use stoneleaf_db.Common.{
  ℕ, zero, suc, ◌+◌, ◌-◌, ◌/◌, ◌%◌, ◌^◌, Bool, true, false, ◌&&◌, ◌||◌, not, Option, none, some,
  List, [], ◌∷◌, length, get_elem?, set, ltb, leb, ◌==◌, if◌then◌else◌,
}
use stoneleaf_db.Common.Int.{ℤ, pos, negsuc}
use stoneleaf_db.Encoding.Key.{Key, compare, equal, validate_key}
use stoneleaf_db.Encoding.Value.{Value, validate_value}

abbrev pub is_negative : ℤ → Bool
is_negative (pos n) = false
is_negative (negsuc n) = true

-- `KeyCodec::compare(lhs, rhs) < 0`
abbrev pub before : Key → Key → Bool
before lhs rhs = is_negative (compare lhs rhs)

abbrev pub before_at : Option Key → Key → Bool
before_at none key = false
before_at (some k) key = before k key

-- The loop of `lower_bound_key`, on fuel: the interval shrinks in every round, so its length is enough.
-- The index `mid` is below `right`, so the vector is not left.
unfoldable pub lower_bound_loop : ℕ → List Key → Key → ℕ → ℕ → ℕ
lower_bound_loop zero keys key left right = left
lower_bound_loop (suc fuel) keys key left right =
    let mid = left + (right - left) / 2 in
    let behind = lower_bound_loop fuel keys key (mid + 1) right in
    let within = lower_bound_loop fuel keys key left mid in
    if ltb left right then (if before_at (get_elem? keys mid) key then behind else within) else left

-- BTreePage::lower_bound_key
unfoldable pub lower_bound_key : List Key → Key → ℕ
lower_bound_key keys key = lower_bound_loop (length keys) keys key 0 (length keys)

-- `vector::insert` and `vector::erase` at an index
abbrev pub insert_in {ℓ} : {A : Type ℓ} → List A → ℕ → A → List A
insert_in xs zero a = a ∷ xs
insert_in [] (suc i) a = a ∷ []
insert_in (x ∷ xs) (suc i) a = x ∷ insert_in xs i a

abbrev pub erase_from {ℓ} : {A : Type ℓ} → List A → ℕ → List A
erase_from [] i = []
erase_from (x ∷ xs) zero = xs
erase_from (x ∷ xs) (suc i) = x ∷ erase_from xs i

pub record LeafPage : Type 0 where
  pub keys : List Key
  pub values : List Value
  pub key_count : ℕ

pub record InternalPage : Type 0 where
  pub keys : List Key
  pub child_page_nums : List ℕ
  pub key_count : ℕ

abbrev pub equal_at : Option Key → Key → Bool
equal_at none key = false
equal_at (some k) key = equal k key

-- BLeafPage::get
unfoldable pub get : LeafPage → Key → Option Value
get p key =
    let index = lower_bound_key p.keys key in
    if leb (length p.keys) index
    then none
    else if not (equal_at (get_elem? p.keys index) key)
    then none
    else get_elem? p.values index

-- BLeafPage::insert_at: the page and whether it took the entry
unfoldable pub insert_at : LeafPage → ℕ → Key → Value → LeafPage × Bool
insert_at p index key value =
    if ltb (length p.keys) index
    then (p, false)
    else if not (validate_key key)
    then (p, false)
    else if not (validate_value value)
    then (p, false)
    else (
      record {
        keys = insert_in p.keys index key;
        values = insert_in p.values index value;
        key_count = length (insert_in p.keys index key) % 2 ^ 16;
      },
      true,
    )

-- BLeafPage::remove_at
unfoldable pub remove_at : LeafPage → ℕ → LeafPage × Bool
remove_at p index =
    if leb (length p.keys) index
    then (p, false)
    else if not (length p.values == length p.keys)
    then (p, false)
    else (
      record {
        keys = erase_from p.keys index;
        values = erase_from p.values index;
        key_count = length (erase_from p.keys index) % 2 ^ 16;
      },
      true,
    )

-- BLeafPage::set
unfoldable pub set_value : LeafPage → Key → Value → LeafPage × Bool
set_value p key value =
    let index = lower_bound_key p.keys key in
    if leb (length p.keys) index
    then (p, false)
    else if not (equal_at (get_elem? p.keys index) key)
    then (p, false)
    else if not (validate_value value)
    then (p, false)
    else (record p { values = set p.values index value }, true)

-- BLeafPage::remove
unfoldable pub remove : LeafPage → Key → LeafPage × Bool
remove p key =
    let index = lower_bound_key p.keys key in
    if leb (length p.keys) index
    then (p, false)
    else if not (equal_at (get_elem? p.keys index) key)
    then (p, false)
    else remove_at p index

-- BInternalPage::insert_separator_at
unfoldable pub insert_separator_at : InternalPage → ℕ → Key → ℕ → InternalPage × Bool
insert_separator_at p index key right_child =
    if ltb (length p.keys) index
    then (p, false)
    else if not (validate_key key)
    then (p, false)
    else if not (length p.child_page_nums == length p.keys + 1)
    then (p, false)
    else (
      record {
        keys = insert_in p.keys index key;
        child_page_nums = insert_in p.child_page_nums (index + 1) right_child;
        key_count = length (insert_in p.keys index key) % 2 ^ 16;
      },
      true,
    )

-- BInternalPage::remove_separator_at
unfoldable pub remove_separator_at : InternalPage → ℕ → InternalPage × Bool
remove_separator_at p index =
    if leb (length p.keys) index
    then (p, false)
    else if not (length p.child_page_nums == length p.keys + 1)
    then (p, false)
    else (
      record {
        keys = erase_from p.keys index;
        child_page_nums = erase_from p.child_page_nums (index + 1);
        key_count = length (erase_from p.keys index) % 2 ^ 16;
      },
      true,
    )

-- BInternalPage::get_left_child and get_right_child
unfoldable pub get_left_child : InternalPage → ℕ → Option ℕ
get_left_child p index =
    if leb (length p.keys) index
    then none
    else if not (length p.child_page_nums == length p.keys + 1)
    then none
    else get_elem? p.child_page_nums index

unfoldable pub get_right_child : InternalPage → ℕ → Option ℕ
get_right_child p index =
    if leb (length p.keys) index
    then none
    else if not (length p.child_page_nums == length p.keys + 1)
    then none
    else get_elem? p.child_page_nums (index + 1)
