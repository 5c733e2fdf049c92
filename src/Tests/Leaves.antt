-- ===== src/Tests/Leaves.antt =====
-- A leaf of the B-tree with three keys.
use stoneleaf_db.Common.{ℕ, true, none, some, [], ◌∷◌, ◌≡◌, ◌≢◌, refl, arith, if◌then◌else◌}
use stoneleaf_db.Encoding.Key.{
  Key, bytes, validate_key, compare, compare_bytes, compare_loop, compare_sizes, equal, is_zero,
}
use stoneleaf_db.Encoding.Value.{Value, char, validate_value}
use stoneleaf_db.BTree.Page.{LeafPage, lower_bound_key, lower_bound_loop, get, insert_at, remove}
use stoneleaf_db.BTree.Page.Order.{SortedKeys}
use stoneleaf_db.BTree.Page.Leaf.{IsLeaf, find, get-find}
use stoneleaf_db.BTree.Page.Updates.{insert_at-get, remove-get}

abbrev key_of : ℕ → Key
key_of b = record { type = bytes; size = 1; payload = b ∷ [] }

abbrev letter : ℕ → Value
letter c = record { type = char; size = 1; payload = c ∷ [] }

abbrev leaf : LeafPage
leaf = record {
  keys = key_of 10 ∷ key_of 20 ∷ key_of 30 ∷ [];
  values = letter 65 ∷ letter 66 ∷ letter 67 ∷ [];
  key_count = 3;
}

leaf_sorted : SortedKeys leaf.keys
unfolding compare compare_bytes compare_loop compare_sizes
leaf_sorted = ((refl, (refl, tt)), ((refl, tt), (tt, tt)))

leaf-IsLeaf : IsLeaf leaf
leaf-IsLeaf = record { sorted = leaf_sorted; paired = refl; counted = refl }

belongs_third : lower_bound_key leaf.keys (key_of 25) ≡ 2
unfolding lower_bound_key lower_bound_loop compare compare_bytes compare_loop compare_sizes
belongs_third = refl

get-find_example : get leaf (key_of 20) ≡ find leaf.keys leaf.values (key_of 20)
get-find_example = get-find leaf (key_of 20) leaf-IsLeaf

absent_key : get leaf (key_of 25) ≡ none
unfolding get lower_bound_key lower_bound_loop compare compare_bytes compare_loop compare_sizes
    equal is_zero
absent_key = refl

key_valid : validate_key (key_of 25) ≡ true
unfolding validate_key
key_valid = refl

letter_valid : validate_value (letter 68) ≡ true
unfolding validate_value
letter_valid = refl

insert_at-get_example :
    (p' : LeafPage) × (insert_at leaf
        (lower_bound_key leaf.keys (key_of 25))
        (key_of 25)
        (letter 68)
      ≡ (p', true))
    × IsLeaf p'
    × ((other : Key)
        → get p' other ≡ (if equal (key_of 25) other then some (letter 68) else get leaf other))
insert_at-get_example =
    insert_at-get leaf (key_of 25) (letter 68) leaf-IsLeaf absent_key key_valid letter_valid
      (omega arith)

present_key : get leaf (key_of 20) ≢ none
unfolding get lower_bound_key lower_bound_loop compare compare_bytes compare_loop compare_sizes
    equal is_zero
present_key e = cc

remove-get_example :
    (p' : LeafPage) × (remove leaf (key_of 20) ≡ (p', true))
    × IsLeaf p'
    × ((other : Key) → get p' other ≡ (if equal (key_of 20) other then none else get leaf other))
remove-get_example = remove-get leaf (key_of 20) leaf-IsLeaf present_key (omega arith)
