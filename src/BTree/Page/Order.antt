-- ===== src/BTree/Page/Order.antt =====
-- KeyCodec::compare as the strict order in which containers/BTreePage.cpp keeps keys.
use stoneleaf_db.Common.{
  ℕ, zero, suc, ◌<◌, true, false, List, [], ◌∷◌, some, get_elem?, All, ◌≡◌, refl, sym, ◌∙◌, arith,
  inl, inr, ◌⊎◌,
}
use stoneleaf_db.Common.Int.{ℤ, pos, negsuc}
use stoneleaf_db.Encoding.Key.{Key, compare, equal, is_zero}
use stoneleaf_db.Encoding.Key.Lex.{lex, compare_bytes-lex, opposite}
use stoneleaf_db.Encoding.Key.Order.{compare_trans, compare-opposite, equal_iff}
use stoneleaf_db.BTree.Page.{is_negative, before}

lex_is_minus_one : (xs ys : List ℕ) → is_negative (lex xs ys) ≡ true → lex xs ys ≡ negsuc 0
unfolding lex
lex_is_minus_one [] [] h = cc
lex_is_minus_one [] (y ∷ ys) h = refl
lex_is_minus_one (x ∷ xs) [] h = cc
lex_is_minus_one (x ∷ xs) (y ∷ ys) h = ground (arith, lex_is_minus_one xs ys)

pub before→compare : (a b : Key) → before a b ≡ true → compare a b ≡ negsuc 0
unfolding compare
before→compare a b h =
    ground (arith, compare_bytes-lex a.payload b.payload, lex_is_minus_one a.payload b.payload)

pub before_trans : (a b c : Key) → before a b ≡ true → before b c ≡ true → before a c ≡ true
before_trans a b c h k = rw (compare_trans a b c (before→compare a b h) (before→compare b c k)) refl

pub before-equal : (a b : Key) → before a b ≡ true → equal a b ≡ false
unfolding equal is_zero
before-equal a b h = rw (before→compare a b h) refl

pub before_asym : (a b : Key) → before a b ≡ true → before b a ≡ false
before_asym a b h =
    let e : compare b a ≡ opposite (compare a b) = compare-opposite a b in
    rw (e, before→compare a b h) refl

by_sign : (z : ℤ) → (is_negative z ≡ true) ⊎ (is_zero z ≡ true) ⊎ (is_negative (opposite z) ≡ true)
unfolding is_zero
by_sign (pos zero) = inr (inl (ground arith))
by_sign (pos (suc n)) = inr (inr refl)
by_sign (negsuc n) = inl refl

pub before-cases : (a b : Key) → (before a b ≡ true) ⊎ (equal a b ≡ true) ⊎ (before b a ≡ true)
unfolding equal
before-cases a b = elim (by_sign (compare a b)) [
  | inl h ↦ inl h
  | inr (inl h) ↦ inr (inl h)
  | inr (inr h) ↦ inr (inr (rw (compare-opposite a b) h))
]

pub equal_sym : (a b : Key) → equal a b ≡ true → equal b a ≡ true
equal_sym a b h = let (t, p) = (equal_iff a b).0 h in (equal_iff b a).1 (sym t, sym p)

pub equal_trans : (a b c : Key) → equal a b ≡ true → equal b c ≡ true → equal a c ≡ true
equal_trans a b c h k =
    let (t, p) = (equal_iff a b).0 h in
    let (u, q) = (equal_iff b c).0 k in (equal_iff a c).1 (t ∙ u, p ∙ q)

-- Equal keys stand on the same side of every key.
pub before-equal_left : (a b c : Key) → equal a b ≡ true → before a c ≡ true → before b c ≡ true
unfolding compare
before-equal_left a b c h k = let (t, p) = (equal_iff a b).0 h in rw (← t, ← p) k

-- Every key of a page comes before all later ones.
abbrev pub SortedKeys : List Key → Type 0
SortedKeys [] = Unit
SortedKeys (k ∷ ks) = All (λ x. before k x ≡ true) ks × SortedKeys ks

All-at :
    (k : Key) (ks : List Key) (j : ℕ) {b : Key}
    → All (λ x. before k x ≡ true) ks
    → get_elem? ks j ≡ some b
    → before k b ≡ true
All-at k [] j h e = cc
All-at k (x ∷ ks) zero {b} (h, _) e = let is : x ≡ b = cc in rw (← is) h
All-at k (x ∷ ks) (suc j) (_, h) e = All-at k ks j h e

pub sorted_at :
    (ks : List Key) (i j : ℕ) {a b : Key}
    → SortedKeys ks
    → i < j
    → get_elem? ks i ≡ some a
    → get_elem? ks j ≡ some b
    → before a b ≡ true
sorted_at [] i j s h ea eb = cc
sorted_at (k ∷ ks) zero zero s h ea eb = absurd (omega arith)
sorted_at (k ∷ ks) (suc i) zero s h ea eb = absurd (omega arith)
sorted_at (k ∷ ks) zero (suc j) {a} (s, _) h ea eb =
    let is : k ≡ a = cc in rw (← is) (All-at k ks j s eb)
sorted_at (k ∷ ks) (suc i) (suc j) (_, s) h ea eb = sorted_at ks i j s (omega arith) ea eb

pub before-equal_right : (a b c : Key) → equal b c ≡ true → before a b ≡ true → before a c ≡ true
unfolding compare
before-equal_right a b c h k = let (t, p) = (equal_iff b c).0 h in rw (← t, ← p) k
