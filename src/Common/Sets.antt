-- ===== src/Common/Sets.antt =====
-- `std::unordered_set` and `std::unordered_map` as lists. A set lists its elements once, a map its
-- keys once; the order of a list stands for the unspecified order of iteration.
use Prim.Native.Nat.{◌≤◌}
use mathlib.Core.Path.{◌≡◌, refl}
use mathlib.Core.Logic.{inl, inr}
use mathlib.Core.Bool.{Bool, false, ◌||◌, ◌&&◌, not}
use mathlib.Core.List.{List, [], ◌∷◌}
use native.Mathlib.Omega.{arith}
use stoneleaf_db.Common.Tests.{if◌then◌else◌, Bool-cases}
use stoneleaf_db.Common.Lists.{length}
use stoneleaf_db.Common.Eq.{Eq, same, same→≡}

module _ {ℓ} {A : Type ℓ} ⦃e : Eq A⦄ where
  unfoldable pub contains : A → List A → Bool
  contains a [] = false
  contains a (x ∷ xs) = same x a || contains a xs

  unfoldable pub insert : A → List A → List A
  insert a xs = if contains a xs then xs else a ∷ xs

  unfoldable pub erase : A → List A → List A
  erase a [] = []
  erase a (x ∷ xs) = if same x a then erase a xs else x ∷ erase a xs

  pub contains-insert :
      (a b : A) (xs : List A) → contains b (insert a xs) ≡ (same a b || contains b xs)
  unfolding insert contains
  contains-insert a b xs = elim (Bool-cases (contains a xs)) [
    | inl old ↦ elim (Bool-cases (same a b)) [
      | inl p ↦ rw (old, p) (rw (same→≡ a b p) at old)
      | inr q ↦ rw (old, q)
    ]
    | inr new ↦ rw new
  ]

  pub contains-erase :
      (a b : A) (xs : List A) → contains b (erase a xs) ≡ (not (same a b) && contains b xs)
  unfolding erase contains
  contains-erase a b [] = ground arith
  contains-erase a b (x ∷ xs) =
      ground (arith, e.beq_iff x a, e.beq_iff x b, e.beq_iff a b, contains-erase a b xs)

  pub length-erase : (a : A) (xs : List A) → length (erase a xs) ≤ length xs
  unfolding erase
  length-erase a [] = omega arith
  length-erase a (x ∷ xs) = ground (arith, length-erase a xs)

  pub erase-absent : (a : A) (xs : List A) → contains a xs ≡ false → erase a xs ≡ xs
  unfolding erase contains
  erase-absent a [] h = refl
  erase-absent a (x ∷ xs) h = ground (arith, erase-absent a xs)

  -- No element stands twice.
  abbrev pub IsSetList : List A → Type 0
  IsSetList [] = Unit {0}
  IsSetList (x ∷ xs) = (contains x xs ≡ false) × IsSetList xs

  pub insert-IsSetList : (a : A) (xs : List A) → IsSetList xs → IsSetList (insert a xs)
  unfolding insert
  insert-IsSetList a xs h = elim (Bool-cases (contains a xs)) [
    | inl old ↦ rw old h
    | inr new ↦ rw new (new, h)
  ]

  pub erase-IsSetList : (a : A) (xs : List A) → IsSetList xs → IsSetList (erase a xs)
  unfolding erase
  erase-IsSetList a [] h = tt
  erase-IsSetList a (x ∷ xs) (h, hs) = elim (Bool-cases (same x a)) [
    | inl p ↦ rw p (erase-IsSetList a xs hs)
    | inr q ↦ rw q (ground (arith, contains-erase a x xs), erase-IsSetList a xs hs)
  ]
