-- ===== src/BTree/Page/Updates.antt =====
-- The updates of a leaf of containers/BTreePage.cpp as updates of a map.
use stoneleaf_db.Common.Slices.{get_length}
use stoneleaf_db.Common.{
  ℕ, ◌+◌, ◌%◌, ◌^◌, ◌<◌, true, false, some, none, get_elem?, set, ◌≡◌, ◌≢◌, refl, sym, ap, ◌∙◌,
  arith, inl, inr, Bool-cases, Option-cases, ltb, leb, ◌==◌, eq_self, length, if◌then◌else◌,
  length-set,
}
use stoneleaf_db.Encoding.Key.{Key, equal, validate_key}
use stoneleaf_db.Encoding.Value.{Value, validate_value}
use stoneleaf_db.BTree.Page.{
  before, LeafPage, get, insert_at, remove, remove_at, set_value, lower_bound_key, insert_in,
  erase_from, equal_at,
}
use stoneleaf_db.BTree.Page.Order.{before-cases}
use stoneleaf_db.BTree.Page.Bound.{Splits, lower_bound_key-Splits}
use stoneleaf_db.BTree.Page.Leaf.{
  IsLeaf, get-find, absent_differs, find-none, differs_all, differs_before, differs_behind,
}
use stoneleaf_db.BTree.Page.Edit.{
  length-insert_in, length-erase_from, SortedKeys-insert_in, SortedKeys-erase_from, find-insert_in,
  find-erase_from, find-set,
}

-- A leaf that has sorted keys, one value to each, fewer than 2^16 - 1 of them and no value for a
-- valid key takes the key with a valid value where the binary search puts it, and is again such a
-- leaf: it then has that value for the key, and what it had for every other key.
pub insert_at-get :
    (p : LeafPage) (key : Key) (value : Value)
    → IsLeaf p
    → get p key ≡ none
    → validate_key key ≡ true
    → validate_value value ≡ true
    → length p.keys + 1 < 2 ^ 16
    → (p' : LeafPage) × (insert_at p (lower_bound_key p.keys key) key value ≡ (p', true))
      × IsLeaf p'
      × ((other : Key) → get p' other ≡ (if equal key other then some value else get p other))
unfolding insert_at
insert_at-get p key value leaf absent valid_key valid_value room =
    let i : ℕ = lower_bound_key p.keys key in
    let split : Splits p.keys key i = lower_bound_key-Splits p.keys key leaf.sorted in
    let differs = absent_differs p key leaf absent in
    let count : length (insert_in p.keys i key) ≡ length p.keys + 1 =
      length-insert_in p.keys i key split.inside in
    let p' : LeafPage = record {
      keys = insert_in p.keys i key;
      values = insert_in p.values i value;
      key_count = length (insert_in p.keys i key) % 2 ^ 16;
    } in
    let leaf' : IsLeaf p' = record {
      sorted =
          SortedKeys-insert_in p.keys i key leaf.sorted (λ j k h e. split.below j k h e)
            (λ j k h e. follows j k (differs j k e) (split.above j k h e));
      paired = omega (
        arith,
        count,
        leaf.paired,
        length-insert_in p.values i value (omega (arith, leaf.paired, split.inside)),
      );
      counted = omega (arith, count, room);
    } in
    let inside : ltb (length p.keys) i ≡ false = ground (arith, split.inside) in
    (
      p',
      rw (inside, valid_key, valid_value) refl,
      leaf',
      λ other.
          get-find p' other leaf'
          ∙ find-insert_in p.keys p.values i key value other split.inside leaf.paired differs
          ∙ ap (λ o. if equal key other then some value else o) (sym (get-find p other leaf)),
    )
  where
    follows : (j : ℕ) (k : Key) → equal k key ≡ false → before k key ≡ false → before key k ≡ true
    follows j k h n = elim (before-cases k key) [
      | inl b ↦ absurd (cc)
      | inr (inl b) ↦ absurd (cc)
      | inr (inr b) ↦ b
    ]

-- Where a leaf has a value for a key, the binary search stands at it, and no other key is equal.
present :
    (p : LeafPage) (key : Key)
    → IsLeaf p
    → get p key ≢ none
    → (k : Key) × (get_elem? p.keys (lower_bound_key p.keys key) ≡ some k)
      × (equal k key ≡ true)
      × ((j : ℕ) (x : Key)
          → j ≢ lower_bound_key p.keys key
          → get_elem? p.keys j ≡ some x
          → equal x key ≡ false)
present p key leaf has =
    let i : ℕ = lower_bound_key p.keys key in
    let split : Splits p.keys key i = lower_bound_key-Splits p.keys key leaf.sorted in
    elim (Bool-cases (equal_at (get_elem? p.keys i) key)) [
      | inr other ↦ absurd (
          has (
            get-find p key leaf
            ∙ find-none p.keys p.values key (differs_all p.keys key i leaf.sorted split other)))
      | inl same ↦ elim (Option-cases (get_elem? p.keys i)) [
        | inl gone ↦ let none_there : equal_at none key ≡ true = rw gone at same in absurd (cc)
        | inr (k, at_i) ↦ (
          k,
          at_i,
          rw at_i at same,
          λ j x n e. elim (Bool-cases (ltb j i)) [
            | inl sooner ↦ differs_before p.keys key i leaf.sorted split j x (ground arith) e
            | inr later ↦
                differs_behind p.keys key i leaf.sorted split at_i j x (behind j i n later) e
          ],
        )
      ]
    ]
  where
    behind : (j i : ℕ) → j ≢ i → ltb j i ≡ false → i < j
    behind j i n h = ground (arith, n)

-- A leaf that has sorted keys, one value to each, fewer than 2^16 of them and a value for a key
-- removes the key and is again such a leaf: it then has no value for the key, and what it had for
-- every other key.
pub remove-get :
    (p : LeafPage) (key : Key)
    → IsLeaf p
    → get p key ≢ none
    → length p.keys < 2 ^ 16
    → (p' : LeafPage) × (remove p key ≡ (p', true))
      × IsLeaf p'
      × ((other : Key) → get p' other ≡ (if equal key other then none else get p other))
unfolding remove remove_at
remove-get p key leaf has room =
    let i : ℕ = lower_bound_key p.keys key in
    let (k, at_i, same, differs) = present p key leaf has in
    let inside : i < length p.keys = get_length p.keys i at_i in
    let within : leb (length p.keys) i ≡ false = ground arith in
    let count : length (erase_from p.keys i) + 1 ≡ length p.keys =
      length-erase_from p.keys i inside in
    let paired : (length p.values == length p.keys) ≡ true =
      rw (leaf.paired) (eq_self (length p.keys)) in
    let p' : LeafPage = record {
      keys = erase_from p.keys i;
      values = erase_from p.values i;
      key_count = length (erase_from p.keys i) % 2 ^ 16;
    } in
    let leaf' : IsLeaf p' = record {
      sorted = SortedKeys-erase_from p.keys i leaf.sorted;
      paired = omega (
        arith,
        count,
        leaf.paired,
        length-erase_from p.values i (omega (arith, leaf.paired, inside)),
      );
      counted = omega (arith, count, room);
    } in
    (
      p',
      rw (within, at_i, same, paired) refl,
      leaf',
      λ other.
          get-find p' other leaf'
          ∙ find-erase_from p.keys p.values i key other at_i same leaf.paired differs
          ∙ ap (λ o. if equal key other then none else o) (sym (get-find p other leaf)),
    )

-- A leaf that has a value for a key takes another in its place, and keeps all others.
pub set_value-get :
    (p : LeafPage) (key : Key) (value : Value)
    → IsLeaf p
    → get p key ≢ none
    → validate_value value ≡ true
    → (p' : LeafPage) × (set_value p key value ≡ (p', true))
      × IsLeaf p'
      × ((other : Key) → get p' other ≡ (if equal key other then some value else get p other))
unfolding set_value
set_value-get p key value leaf has valid =
    let i : ℕ = lower_bound_key p.keys key in
    let (k, at_i, same, differs) = present p key leaf has in
    let inside : i < length p.keys = get_length p.keys i at_i in
    let within : leb (length p.keys) i ≡ false = ground arith in
    let p' : LeafPage = record p { values = set p.values i value } in
    let leaf' : IsLeaf p' = record {
      sorted = leaf.sorted;
      paired = length-set p.values i value ∙ leaf.paired;
      counted = leaf.counted;
    } in
    (
      p',
      rw (within, at_i, same, valid) refl,
      leaf',
      λ other.
          get-find p' other leaf'
          ∙ find-set p.keys p.values i key value other at_i same leaf.paired differs
          ∙ ap (λ o. if equal key other then some value else o) (sym (get-find p other leaf)),
    )
