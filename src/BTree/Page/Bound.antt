-- ===== src/BTree/Page/Bound.antt =====
-- The binary search of containers/BTreePage.cpp finds where a key belongs.
use stoneleaf_db.Common.Slices.{get_within}
use stoneleaf_db.Common.{
  ℕ, zero, suc, ◌+◌, ◌-◌, ◌/◌, ◌≤◌, ◌<◌, true, false, List, [], ◌∷◌, some, get_elem?, ◌≡◌, arith,
  inl, inr, Bool-cases, ltb, length,
}
use stoneleaf_db.Encoding.Key.{Key}
use stoneleaf_db.BTree.Page.{before, lower_bound_loop, lower_bound_key}
use stoneleaf_db.BTree.Page.Order.{SortedKeys, sorted_at, before_trans}

-- The keys at the indices below a bound come before the key, and those from it on do not.
pub record Splits (keys : List Key) (key : Key) (index : ℕ) : Type 0 where
  pub inside : index ≤ length keys
  pub below : (j : ℕ) (k : Key) → j < index → get_elem? keys j ≡ some k → before k key ≡ true
  pub above : (j : ℕ) (k : Key) → index ≤ j → get_elem? keys j ≡ some k → before k key ≡ false

pub not_before : (m k key : Key) → before m k ≡ true → before m key ≡ false → before k key ≡ false
not_before m k key h n = elim (Bool-cases (before k key)) [
  | inl sooner ↦ let earlier : before m key ≡ true = before_trans m k key h sooner in absurd (cc)
  | inr f ↦ f
]

search :
    (fuel : ℕ) (keys : List Key) (key : Key) (left right : ℕ)
    → SortedKeys keys
    → left ≤ right
    → right ≤ length keys
    → right - left ≤ fuel
    → ((j : ℕ) (k : Key) → j < left → get_elem? keys j ≡ some k → before k key ≡ true)
    → ((j : ℕ) (k : Key) → right ≤ j → get_elem? keys j ≡ some k → before k key ≡ false)
    → Splits keys key (lower_bound_loop fuel keys key left right)
unfolding lower_bound_loop
search zero keys key left right s lr rl enough low high = record {
  inside = omega arith;
  below = low;
  above = λ j k h e. high j k (omega arith) e;
}
search (suc fuel) keys key left right s lr rl enough low high = elim (Bool-cases (ltb left right)) [
  | inr done ↦
      rw done
        (record { inside = omega arith; below = low; above = λ j k h e. high j k (ground arith) e })
  | inl more ↦
      let mid : ℕ = left + (right - left) / 2 in
      let lower : left ≤ mid = omega arith in
      let higher : mid < right = ground arith in
      let (m, at_mid) = get_within keys mid (omega (arith, higher, rl)) in
      elim (Bool-cases (before m key)) [
        | inl small ↦
            let low' : (j : ℕ) (k : Key)
                → j < mid + 1
                → get_elem? keys j ≡ some k
                → before k key ≡ true =
              λ j k h e. elim (Bool-cases (ltb j mid)) [
                | inl less ↦
                    before_trans k m key (sorted_at keys j mid s (ground arith) e at_mid) small
                | inr same ↦
                    let is : j ≡ mid = ground arith in let is_m : m ≡ k = cc in rw (← is_m) small
              ] in
            rw (more, at_mid, small)
              (search fuel keys key (mid + 1) right s (omega (arith, higher)) rl
                (omega (arith, lower)) low' high)
        | inr large ↦
            let high' : (j : ℕ) (k : Key)
                → mid ≤ j
                → get_elem? keys j ≡ some k
                → before k key ≡ false =
              λ j k h e. elim (Bool-cases (ltb mid j)) [
                | inl greater ↦
                    not_before m k key (sorted_at keys mid j s (ground arith) at_mid e) large
                | inr same ↦
                    let is : j ≡ mid = ground arith in let is_m : m ≡ k = cc in rw (← is_m) large
              ] in
            rw (more, at_mid, large)
              (search fuel keys key left mid s lower (omega (arith, higher, rl))
                (omega (arith, higher)) low high')
      ]
]

pub lower_bound_key-Splits :
    (keys : List Key) (key : Key) → SortedKeys keys → Splits keys key (lower_bound_key keys key)
unfolding lower_bound_key
lower_bound_key-Splits keys key s =
    search (length keys) keys key 0 (length keys) s (omega arith) (omega arith) (omega arith)
      (λ j k h e. absurd (omega arith)) (λ j k h e. absurd (beyond keys j h e))
  where
    beyond : (xs : List Key) (j : ℕ) {k : Key} → length xs ≤ j → get_elem? xs j ≡ some k → ⊥
    beyond [] j h e = cc
    beyond (x ∷ xs) zero h e = omega arith
    beyond (x ∷ xs) (suc j) h e = beyond xs j (omega arith) e
