-- ===== src/BTree/Page/Leaf.antt =====
-- A leaf of containers/BTreePage.cpp as a map from keys to values.
use stoneleaf_db.Common.Slices.{get_length, get_within}
use stoneleaf_db.Common.{
  ℕ, zero, suc, ◌<◌, true, false, List, [], ◌∷◌, Option, some, none, get_elem?, ◌≡◌, refl, sym, ◌∙◌,
  arith, inl, inr, Bool-cases, Option-cases, ltb, leb, length, if◌then◌else◌,
}
use stoneleaf_db.Encoding.Key.{Key, equal}
use stoneleaf_db.Encoding.Value.{Value}
use stoneleaf_db.BTree.Page.{before, LeafPage, get, lower_bound_key, equal_at}
use stoneleaf_db.BTree.Page.Order.{SortedKeys, sorted_at, before-equal, before-equal_right}
use stoneleaf_db.BTree.Page.Bound.{Splits, lower_bound_key-Splits}

-- The value of the first entry with the key, searched from the front.
abbrev pub find : List Key → List Value → Key → Option Value
find [] vs key = none
find (k ∷ ks) [] key = none
find (k ∷ ks) (v ∷ vs) key = if equal k key then some v else find ks vs key

-- Sorted keys, one value to each, and the right count.
pub record IsLeaf (p : LeafPage) : Type 0 where
  pub sorted : SortedKeys p.keys
  pub paired : length p.values ≡ length p.keys
  pub counted : p.key_count ≡ length p.keys

pub find-none :
    (ks : List Key) (vs : List Value) (key : Key)
    → ((j : ℕ) (k : Key) → get_elem? ks j ≡ some k → equal k key ≡ false)
    → find ks vs key ≡ none
find-none [] vs key h = refl
find-none (k ∷ ks) [] key h = refl
find-none (k ∷ ks) (v ∷ vs) key h = rw (h 0 k refl) (find-none ks vs key (λ j x e. h (suc j) x e))

find_at :
    (ks : List Key) (vs : List Value) (key : Key) (i : ℕ) {k : Key}
    → get_elem? ks i ≡ some k
    → length vs ≡ length ks
    → equal k key ≡ true
    → ((j : ℕ) (x : Key) → j < i → get_elem? ks j ≡ some x → equal x key ≡ false)
    → find ks vs key ≡ get_elem? vs i
find_at [] vs key i e l h d = cc
find_at (x ∷ ks) [] key i e l h d = absurd (omega arith)
find_at (x ∷ ks) (v ∷ vs) key zero {k} e l h d =
    let is : x ≡ k = cc in let here : equal x key ≡ true = rw is h in rw here refl
find_at (x ∷ ks) (v ∷ vs) key (suc i) e l h d =
    rw (d 0 x (omega arith) refl)
      (find_at ks vs key i e (omega arith) h (λ j y b ey. d (suc j) y (omega arith) ey))

-- Only at its own place stands a key that is equal.
module _ (ks : List Key) (key : Key) (i : ℕ) (s : SortedKeys ks) (split : Splits ks key i) where
  pub differs_before : (j : ℕ) (x : Key) → j < i → get_elem? ks j ≡ some x → equal x key ≡ false
  differs_before j x h e = before-equal x key (split.below j x h e)

  pub differs_behind :
      {k : Key}
      → get_elem? ks i ≡ some k
      → (j : ℕ) (x : Key) → i < j
      → get_elem? ks j ≡ some x
      → equal x key ≡ false
  differs_behind {k} at_i j x h e = elim (Bool-cases (equal x key)) [
    | inr f ↦ f
    | inl same ↦
        let sooner : before k key ≡ true =
          before-equal_right k x key same (sorted_at ks i j s h at_i e) in
        let later : before k key ≡ false = split.above i k (omega arith) at_i in absurd (cc)
  ]

  pub differs_all :
      equal_at (get_elem? ks i) key ≡ false
      → (j : ℕ) (x : Key) → get_elem? ks j ≡ some x
      → equal x key ≡ false
  differs_all h j x e = elim (Bool-cases (ltb j i)) [
    | inl sooner ↦ differs_before j x (ground arith) e
    | inr later ↦
        let inside : i < length ks = ground (arith, get_length ks j e) in
        let (k, at_i) = get_within ks i inside in
        elim (Bool-cases (ltb i j)) [
          | inl more ↦ differs_behind at_i j x (ground arith) e
          | inr same ↦
              let is : j ≡ i = ground arith in
              let same_key : k ≡ x = cc in rw (← same_key) (rw at_i at h)
        ]
  ]

-- On a leaf that has sorted keys and one value to each, the binary search finds the value that a
-- search from the front finds.
pub get-find : (p : LeafPage) (key : Key) → IsLeaf p → get p key ≡ find p.keys p.values key
unfolding get
get-find p key leaf =
    let i : ℕ = lower_bound_key p.keys key in
    let split : Splits p.keys key i = lower_bound_key-Splits p.keys key leaf.sorted in
    elim (Bool-cases (equal_at (get_elem? p.keys i) key)) [
      | inr other ↦
          let nothing =
            find-none p.keys p.values key (differs_all p.keys key i leaf.sorted split other) in
          rw (other, nothing) (ground arith)
      | inl same ↦ elim (Option-cases (get_elem? p.keys i)) [
        | inl gone ↦ let none_there : equal_at none key ≡ true = rw gone at same in absurd (cc)
        | inr (k, at_i) ↦
            let equal_key : equal k key ≡ true = rw at_i at same in
            let inside : leb (length p.keys) i ≡ false = ground (arith, get_length p.keys i at_i) in
            let found =
              find_at p.keys p.values key i at_i leaf.paired equal_key
                (differs_before p.keys key i leaf.sorted split) in
            rw (inside, same, found) refl
      ]
    ]

-- Where a leaf has no value for a key, no key of it is equal.
pub absent_differs :
    (p : LeafPage) (key : Key)
    → IsLeaf p
    → get p key ≡ none
    → (j : ℕ) (k : Key) → get_elem? p.keys j ≡ some k
    → equal k key ≡ false
absent_differs p key leaf h = go p.keys p.values leaf.paired (sym (get-find p key leaf) ∙ h)
  where
    go :
        (ks : List Key) (vs : List Value)
        → length vs ≡ length ks
        → find ks vs key ≡ none
        → (j : ℕ) (k : Key) → get_elem? ks j ≡ some k
        → equal k key ≡ false
    go [] vs l f j k e = cc
    go (x ∷ ks) [] l f j k e = absurd (omega arith)
    go (x ∷ ks) (v ∷ vs) l f zero k e =
        let is : x ≡ k = cc in
        let there : (if equal k key then some v else find ks vs key) ≡ none = rw is at f in
        ground arith
    go (x ∷ ks) (v ∷ vs) l f (suc j) k e = go ks vs (omega arith) (ground arith) j k e
