-- ===== src/BTree/Page/Edit.antt =====
-- What inserting, erasing and setting does to the sorted keys and the values of
-- containers/BTreePage.cpp.
use stoneleaf_db.Common.{
  ℕ, zero, suc, ◌+◌, ◌≤◌, ◌<◌, true, false, List, [], ◌∷◌, some, none, get_elem?, set, All, ◌≡◌,
  ◌≢◌, refl, arith, inl, inr, Bool-cases, length, if◌then◌else◌,
}
use stoneleaf_db.Encoding.Key.{Key, equal}
use stoneleaf_db.Encoding.Value.{Value}
use stoneleaf_db.BTree.Page.{before, insert_in, erase_from}
use stoneleaf_db.BTree.Page.Order.{SortedKeys, equal_sym, equal_trans}
use stoneleaf_db.BTree.Page.Leaf.{find, find-none}

module _ {ℓ} {A : Type ℓ} where
  pub length-insert_in :
      (xs : List A) (i : ℕ) (a : A) → i ≤ length xs → length (insert_in xs i a) ≡ length xs + 1
  length-insert_in xs zero a h = omega arith
  length-insert_in [] (suc i) a h = absurd (omega arith)
  length-insert_in (x ∷ xs) (suc i) a h = omega (arith, length-insert_in xs i a (omega arith))

  pub length-erase_from :
      (xs : List A) (i : ℕ) → i < length xs → length (erase_from xs i) + 1 ≡ length xs
  length-erase_from [] i h = absurd (omega arith)
  length-erase_from (x ∷ xs) zero h = omega arith
  length-erase_from (x ∷ xs) (suc i) h = omega (arith, length-erase_from xs i (omega arith))

  pub All-insert_in {κ} :
      (P : A → Type κ) (xs : List A) (i : ℕ) (a : A) → All P xs → P a → All P (insert_in xs i a)
  All-insert_in P xs zero a h p = (p, h)
  All-insert_in P [] (suc i) a h p = (p, h)
  All-insert_in P (x ∷ xs) (suc i) a (q, h) p = (q, All-insert_in P xs i a h p)

  pub All-erase_from {κ} :
      (P : A → Type κ) (xs : List A) (i : ℕ) → All P xs → All P (erase_from xs i)
  All-erase_from P [] i h = h
  All-erase_from P (x ∷ xs) zero (_, h) = h
  All-erase_from P (x ∷ xs) (suc i) (p, h) = (p, All-erase_from P xs i h)

  pub All-from_index {κ} :
      (P : A → Type κ) (xs : List A) → ((j : ℕ) (x : A) → get_elem? xs j ≡ some x → P x) → All P xs
  All-from_index P [] h = tt
  All-from_index P (x ∷ xs) h = (h 0 x refl, All-from_index P xs (λ j y e. h (suc j) y e))

pub SortedKeys-insert_in :
    (ks : List Key) (i : ℕ) (key : Key)
    → SortedKeys ks
    → ((j : ℕ) (k : Key) → j < i → get_elem? ks j ≡ some k → before k key ≡ true)
    → ((j : ℕ) (k : Key) → i ≤ j → get_elem? ks j ≡ some k → before key k ≡ true)
    → SortedKeys (insert_in ks i key)
SortedKeys-insert_in ks zero key s low high =
    (All-from_index _ ks (λ j x e. high j x (omega arith) e), s)
SortedKeys-insert_in [] (suc i) key s low high = (tt, tt)
SortedKeys-insert_in (k ∷ ks) (suc i) key (h, s) low high = (
  All-insert_in (λ x. before k x ≡ true) ks i key h (low 0 k (omega arith) refl),
  SortedKeys-insert_in ks i key s (λ j x b e. low (suc j) x (omega arith) e)
      (λ j x b e. high (suc j) x (omega arith) e),
)

pub SortedKeys-erase_from : (ks : List Key) (i : ℕ) → SortedKeys ks → SortedKeys (erase_from ks i)
SortedKeys-erase_from [] i s = s
SortedKeys-erase_from (k ∷ ks) zero (_, s) = s
SortedKeys-erase_from (k ∷ ks) (suc i) (h, s) =
    (All-erase_from _ ks i h, SortedKeys-erase_from ks i s)

-- Of two keys that differ, at most one is equal to a third.
pub not_both :
    (k key other : Key) → equal k key ≡ false → equal key other ≡ true → equal k other ≡ false
not_both k key other h same = elim (Bool-cases (equal k other)) [
  | inr f ↦ f
  | inl both ↦
      let joined : equal k key ≡ true = equal_trans k other key both (equal_sym key other same) in
      absurd (cc)
]

pub find-insert_in :
    (ks : List Key) (vs : List Value) (i : ℕ) (key : Key) (value : Value) (other : Key)
    → i ≤ length ks
    → length vs ≡ length ks
    → ((j : ℕ) (k : Key) → get_elem? ks j ≡ some k → equal k key ≡ false)
    → find (insert_in ks i key) (insert_in vs i value) other
      ≡ (if equal key other then some value else find ks vs other)
find-insert_in ks vs zero key value other h l d = refl
find-insert_in [] vs (suc i) key value other h l d = absurd (omega arith)
find-insert_in (k ∷ ks) [] (suc i) key value other h l d = absurd (omega arith)
find-insert_in (k ∷ ks) (v ∷ vs) (suc i) key value other h l d =
    let ih =
      find-insert_in ks vs i key value other (omega arith) (omega arith) (λ j x e. d (suc j) x e) in
    elim (Bool-cases (equal key other)) [
      | inr differs ↦ rw (ih, differs) refl
      | inl same ↦ rw (ih, same, not_both k key other (d 0 k refl) same) refl
    ]

-- A key that is not behind the removed one keeps its value, and the removed one loses it.
pub find-erase_from :
    (ks : List Key) (vs : List Value) (i : ℕ) (key : Key) {k : Key} (other : Key)
    → get_elem? ks i ≡ some k
    → equal k key ≡ true
    → length vs ≡ length ks
    → ((j : ℕ) (x : Key) → j ≢ i → get_elem? ks j ≡ some x → equal x key ≡ false)
    → find (erase_from ks i) (erase_from vs i) other
      ≡ (if equal key other then none else find ks vs other)
find-erase_from [] vs i key other e same l d = cc
find-erase_from (x ∷ ks) [] i key other e same l d = absurd (omega arith)
find-erase_from (x ∷ ks) (v ∷ vs) zero key {k} other e same l d =
    let is : x ≡ k = cc in
    let here : equal x key ≡ true = rw is same in
    elim (Bool-cases (equal key other)) [
      | inl hit ↦
          let nothing =
            find-none ks vs other
              (λ j y ey. not_both y key other (d (suc j) y (λ z. absurd (omega arith)) ey) hit) in
          rw (hit, nothing) refl
      | inr miss ↦ let skip : equal x other ≡ false = missed x here miss in rw (miss, skip) refl
    ]
  where
    missed : (x : Key) → equal x key ≡ true → equal key other ≡ false → equal x other ≡ false
    missed x h m = elim (Bool-cases (equal x other)) [
      | inr f ↦ f
      | inl both ↦
          let joined : equal key other ≡ true = equal_trans key x other (equal_sym x key h) both in
          absurd (cc)
    ]
find-erase_from (x ∷ ks) (v ∷ vs) (suc i) key other e same l d =
    let ih =
      find-erase_from ks vs i key other e same (omega arith)
        (λ j y n ey. d (suc j) y (λ z. n (omega arith)) ey) in
    elim (Bool-cases (equal key other)) [
      | inr miss ↦ rw (ih, miss) refl
      | inl hit ↦
          rw (ih, hit, not_both x key other (d 0 x (λ z. absurd (omega arith)) refl) hit) refl
    ]

pub find-set :
    (ks : List Key) (vs : List Value) (i : ℕ) (key : Key) (value : Value) {k : Key} (other : Key)
    → get_elem? ks i ≡ some k
    → equal k key ≡ true
    → length vs ≡ length ks
    → ((j : ℕ) (x : Key) → j ≢ i → get_elem? ks j ≡ some x → equal x key ≡ false)
    → find ks (set vs i value) other ≡ (if equal key other then some value else find ks vs other)
find-set [] vs i key value other e same l d = cc
find-set (x ∷ ks) [] i key value other e same l d = absurd (omega arith)
find-set (x ∷ ks) (v ∷ vs) zero key value {k} other e same l d =
    let is : x ≡ k = cc in
    let here : equal x key ≡ true = rw is same in
    elim (Bool-cases (equal key other)) [
      | inl hit ↦ rw (hit, equal_trans x key other here hit) refl
      | inr miss ↦ elim (Bool-cases (equal x other)) [
        | inr f ↦ rw (f, miss) refl
        | inl both ↦
            let joined : equal key other ≡ true =
              equal_trans key x other (equal_sym x key here) both in
            absurd (cc)
      ]
    ]
find-set (x ∷ ks) (v ∷ vs) (suc i) key value other e same l d =
    let ih =
      find-set ks vs i key value other e same (omega arith)
        (λ j y n ey. d (suc j) y (λ z. n (omega arith)) ey) in
    elim (Bool-cases (equal key other)) [
      | inr miss ↦ rw (ih, miss) refl
      | inl hit ↦
          rw (ih, hit, not_both x key other (d 0 x (λ z. absurd (omega arith)) refl) hit) refl
    ]
