-- ===== src/Raft/Cluster/Quorum.antt =====
-- Two majorities of one cluster have a node in common.
use stoneleaf_db.Common.{◌+◌, ◌≤◌, ◌<◌, true, List, [], ◌∷◌, length, arith}
use stoneleaf_db.Common.{◌≡◌, inl, inr, Bool-cases}
use stoneleaf_db.Common.Eq.{Eq, same, same_self}
use stoneleaf_db.Common.Sets.{contains, erase, IsSetList, contains-erase, length-erase}

module _ {A : Type 0} ⦃e : Eq A⦄ where
  erase_shortens : (x : A) (zs : List A) → contains x zs ≡ true → length (erase x zs) < length zs
  unfolding contains erase
  erase_shortens x [] h = cc
  erase_shortens x (z ∷ zs) h = elim (Bool-cases (same z x)) [
    | inl p ↦ rw p (omega (arith, length-erase x zs))
    | inr q ↦ rw q (omega (arith, erase_shortens x zs (rw q at h)))
  ]

  -- A list without repetitions whose elements stand in another is no longer than it.
  pub length_le_of_subset :
      (xs zs : List A)
      → IsSetList xs
      → ((x : A) → contains x xs ≡ true → contains x zs ≡ true)
      → length xs ≤ length zs
  unfolding contains
  length_le_of_subset [] zs h sub = omega arith
  length_le_of_subset (x ∷ xs) zs (new, h) sub =
      let first : contains x zs ≡ true = sub x (rw (same_self x)) in
      omega (
        arith,
        erase_shortens x zs first,
        length_le_of_subset xs (erase x zs) h (λ y m. elim (Bool-cases (same x y)) [
          | inl p ↦ absurd (ground (arith, e.beq_iff x y))
          | inr q ↦ ground (arith, contains-erase x y zs, sub y)
        ]),
      )

  -- Two lists that are longer together than the list that holds them meet.
  pub common :
      (xs ys zs : List A)
      → IsSetList xs
      → IsSetList ys
      → ((x : A) → contains x xs ≡ true → contains x zs ≡ true)
      → ((x : A) → contains x ys ≡ true → contains x zs ≡ true)
      → length zs < length xs + length ys
      → (v : A) × (contains v xs ≡ true) × (contains v ys ≡ true)
  unfolding contains
  common [] ys zs hx hy sx sy big = absurd (omega (arith, length_le_of_subset ys zs hy sy))
  common (x ∷ xs) ys zs (new, hx) hy sx sy big = elim (Bool-cases (contains x ys)) [
    | inl both ↦ (x, rw (same_self x), both)
    | inr apart ↦
        let (v, inx, iny) =
          common xs (x ∷ ys) zs hx (apart, hy) (λ y m. sx y (ground arith))
            (λ y m. elim (Bool-cases (same x y)) [ inl p ↦ sx y (rw p) | inr q ↦ sy y (rw q at m) ])
            (omega arith) in
        (
          v,
          ground arith,
          elim (Bool-cases (same x v)) [
            | inl p ↦ absurd (ground (arith, e.beq_iff x v))
            | inr q ↦ rw q at iny
          ],
        )
  ]
