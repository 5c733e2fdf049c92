-- ===== src/Common/Slices.antt =====
-- Laws of the parts of lists: take, drop, append, map, and the element at an index.
use stoneleaf_db.Common.{
  ℕ, zero, suc, ◌-◌, ◌≤◌, ◌<◌, none, some, List, [], ◌∷◌, ◌++◌, map, length, take, drop, get_elem?,
  ◌+◌, ◌≡◌, refl, sym, ap, arith,
}

module _ {ℓ} {A : Type ℓ} where
  pub take-append : (xs ys : List A) → take (length xs) (xs ++ ys) ≡ xs
  take-append [] ys = refl
  take-append (x ∷ xs) ys = ap (λ l. x ∷ l) (take-append xs ys)

  pub drop-append : (xs ys : List A) → drop (length xs) (xs ++ ys) ≡ ys
  drop-append [] ys = refl
  drop-append (x ∷ xs) ys = drop-append xs ys

  pub take_self : (xs : List A) → take (length xs) xs ≡ xs
  take_self [] = refl
  take_self (x ∷ xs) = ap (λ l. x ∷ l) (take_self xs)

  pub take-drop : (n : ℕ) (xs : List A) → take n xs ++ drop n xs ≡ xs
  take-drop zero xs = refl
  take-drop (suc n) [] = refl
  take-drop (suc n) (x ∷ xs) = ap (λ l. x ∷ l) (take-drop n xs)

  pub drop_beyond : (n : ℕ) (xs : List A) → length xs ≤ n → drop n xs ≡ []
  drop_beyond zero [] h = refl
  drop_beyond zero (x ∷ xs) h = absurd (omega arith)
  drop_beyond (suc n) [] h = refl
  drop_beyond (suc n) (x ∷ xs) h = drop_beyond n xs (omega arith)

  -- An element with what stands before and behind it.
  pub split_at :
      (xs : List A) (n : ℕ) {x : A}
      → get_elem? xs n ≡ some x
      → (post : List A) × (xs ≡ take n xs ++ (x ∷ post)) × (length (take n xs) ≡ n)
  split_at [] n h = cc
  split_at (y ∷ ys) zero {x} h = let e : y ≡ x = cc in (ys, ap (λ z. z ∷ ys) e, refl)
  split_at (y ∷ ys) (suc n) h =
      let (post, e, l) = split_at ys n h in (post, ap (λ l. y ∷ l) e, ap suc l)

  pub get_length : (xs : List A) (n : ℕ) {x : A} → get_elem? xs n ≡ some x → n < length xs
  get_length [] n h = cc
  get_length (y ∷ xs) zero h = omega arith
  get_length (y ∷ xs) (suc n) h = omega (arith, get_length xs n h)

  pub get_beyond : (xs : List A) (n : ℕ) → length xs ≤ n → get_elem? xs n ≡ none
  get_beyond [] n h = refl
  get_beyond (x ∷ xs) zero h = absurd (omega arith)
  get_beyond (x ∷ xs) (suc n) h = get_beyond xs n (omega arith)

  pub get_within : (xs : List A) (n : ℕ) → n < length xs → (x : A) × (get_elem? xs n ≡ some x)
  get_within [] n h = absurd (omega arith)
  get_within (x ∷ xs) zero h = (x, refl)
  get_within (x ∷ xs) (suc n) h = get_within xs n (omega arith)

  pub get-take : (xs : List A) (c n : ℕ) → n < c → get_elem? (take c xs) n ≡ get_elem? xs n
  get-take xs zero n h = absurd (omega arith)
  get-take [] (suc c) n h = refl
  get-take (x ∷ xs) (suc c) zero h = refl
  get-take (x ∷ xs) (suc c) (suc n) h = get-take xs c n (omega arith)

  pub get-drop : (xs : List A) (d n : ℕ) → get_elem? (drop d xs) n ≡ get_elem? xs (d + n)
  get-drop xs zero n = let e : 0 + n ≡ n = omega arith in rw e refl
  get-drop [] (suc d) n = sym (get_beyond [] (suc d + n) (omega arith))
  get-drop (x ∷ xs) (suc d) n =
      let e : suc d + n ≡ suc (d + n) = omega arith in rw e (get-drop xs d n)

  pub no_elements : (xs : List A) → length xs ≡ 0 → xs ≡ []
  no_elements [] h = refl
  no_elements (x ∷ xs) h = absurd (omega arith)

-- The parts of two lists, one behind the other.
module _ {ℓ} {A : Type ℓ} where
  pub get_append_left :
      (xs ys : List A) (n : ℕ) → n < length xs → get_elem? (xs ++ ys) n ≡ get_elem? xs n
  get_append_left [] ys n h = absurd (omega arith)
  get_append_left (x ∷ xs) ys zero h = refl
  get_append_left (x ∷ xs) ys (suc n) h = get_append_left xs ys n (omega arith)

  pub get_append_right :
      (xs ys : List A) (n : ℕ)
      → length xs ≤ n
      → get_elem? (xs ++ ys) n ≡ get_elem? ys (n - length xs)
  get_append_right [] ys n h = let e : n - 0 ≡ n = omega arith in rw e refl
  get_append_right (x ∷ xs) ys zero h = absurd (omega arith)
  get_append_right (x ∷ xs) ys (suc n) h =
      let e : suc n - suc (length xs) ≡ n - length xs = omega arith in
      rw e (get_append_right xs ys n (omega arith))

  pub take_append_left : (xs ys : List A) (n : ℕ) → n ≤ length xs → take n (xs ++ ys) ≡ take n xs
  take_append_left xs ys zero h = refl
  take_append_left [] ys (suc n) h = absurd (omega arith)
  take_append_left (x ∷ xs) ys (suc n) h = ap (λ l. x ∷ l) (take_append_left xs ys n (omega arith))

  pub take_append_right :
      (xs ys : List A) (n : ℕ) → length xs ≤ n → take n (xs ++ ys) ≡ xs ++ take (n - length xs) ys
  take_append_right [] ys n h = let e : n - 0 ≡ n = omega arith in rw e refl
  take_append_right (x ∷ xs) ys zero h = absurd (omega arith)
  take_append_right (x ∷ xs) ys (suc n) h =
      let e : suc n - suc (length xs) ≡ n - length xs = omega arith in
      rw e (ap (λ l. x ∷ l) (take_append_right xs ys n (omega arith)))

  pub drop_append_left :
      (xs ys : List A) (n : ℕ) → n ≤ length xs → drop n (xs ++ ys) ≡ drop n xs ++ ys
  drop_append_left xs ys zero h = refl
  drop_append_left [] ys (suc n) h = absurd (omega arith)
  drop_append_left (x ∷ xs) ys (suc n) h = drop_append_left xs ys n (omega arith)

  pub drop_append_right :
      (xs ys : List A) (n : ℕ) → length xs ≤ n → drop n (xs ++ ys) ≡ drop (n - length xs) ys
  drop_append_right [] ys n h = let e : n - 0 ≡ n = omega arith in rw e refl
  drop_append_right (x ∷ xs) ys zero h = absurd (omega arith)
  drop_append_right (x ∷ xs) ys (suc n) h =
      let e : suc n - suc (length xs) ≡ n - length xs = omega arith in
      rw e (drop_append_right xs ys n (omega arith))

module _ {ℓ κ} {A : Type ℓ} {B : Type κ} (f : A → B) where
  pub length-map : (xs : List A) → length (map f xs) ≡ length xs
  length-map [] = refl
  length-map (x ∷ xs) = ap suc (length-map xs)

  pub map-append : (xs ys : List A) → map f (xs ++ ys) ≡ map f xs ++ map f ys
  map-append [] ys = refl
  map-append (x ∷ xs) ys = ap (λ l. f x ∷ l) (map-append xs ys)

  pub take-map : (n : ℕ) (xs : List A) → take n (map f xs) ≡ map f (take n xs)
  take-map zero xs = refl
  take-map (suc n) [] = refl
  take-map (suc n) (x ∷ xs) = ap (λ l. f x ∷ l) (take-map n xs)

  pub drop-map : (n : ℕ) (xs : List A) → drop n (map f xs) ≡ map f (drop n xs)
  drop-map zero xs = refl
  drop-map (suc n) [] = refl
  drop-map (suc n) (x ∷ xs) = drop-map n xs

  pub get-map :
      (xs : List A) (n : ℕ) {x : A} → get_elem? xs n ≡ some x → get_elem? (map f xs) n ≡ some (f x)
  get-map [] n h = cc
  get-map (y ∷ xs) zero h = cc
  get-map (y ∷ xs) (suc n) h = get-map xs n h
