-- ===== src/Encoding/Key/Lex.antt =====
-- compare_bytes of encoding/KeyCodec.cpp is the lexicographic order of byte strings.
use native.Mathlib.Nat.{pow-suc}
use stoneleaf_db.Common.{ℕ, zero, suc, ◌+◌, ◌*◌, ◌^◌, ◌<◌, ◌≡◌, refl, ap, ◌∙◌}
use stoneleaf_db.Common.{List, [], ◌∷◌, length, All, arith, ltb, if◌then◌else◌}
use stoneleaf_db.Common.Bytes.{IsByte}
use stoneleaf_db.Common.Int.{ℤ, pos, negsuc, sign_of}
use stoneleaf_db.Encoding.Key.{compare_loop, compare_bytes}

-- -1, 0 or 1 as the first string comes before, is, or comes after the second.
unfoldable pub lex : List ℕ → List ℕ → ℤ
lex [] [] = pos 0
lex [] (y ∷ ys) = negsuc 0
lex (x ∷ xs) [] = pos 1
lex (x ∷ xs) (y ∷ ys) = if ltb x y then negsuc 0 else if ltb y x then pos 1 else lex xs ys

loop_shift :
    (n i x y : ℕ) (xs ys : List ℕ)
    → compare_loop n (suc i) (x ∷ xs) (y ∷ ys) ≡ compare_loop n i xs ys
unfolding compare_loop
loop_shift zero i x y xs ys = refl
loop_shift (suc n) i x y xs ys =
    let e : suc i + 1 ≡ suc (i + 1) = omega arith in rw e (rw (loop_shift n (i + 1) x y xs ys))

compare_bytes-cons :
    (x y : ℕ) (xs ys : List ℕ)
    → compare_bytes (x ∷ xs) (y ∷ ys)
      ≡ (if ltb x y then negsuc 0 else if ltb y x then pos 1 else compare_bytes xs ys)
unfolding compare_bytes
compare_bytes-cons x y xs ys =
    ground (arith, loop_shift (length xs) 0 x y xs ys, loop_shift (length ys) 0 x y xs ys)

pub compare_bytes-lex : (lhs rhs : List ℕ) → compare_bytes lhs rhs ≡ lex lhs rhs
unfolding lex
compare_bytes-lex [] [] = unfold compare_bytes in refl
compare_bytes-lex [] (y ∷ ys) = unfold compare_bytes in ground arith
compare_bytes-lex (x ∷ xs) [] = unfold compare_bytes in ground arith
compare_bytes-lex (x ∷ xs) (y ∷ ys) = compare_bytes-cons x y xs ys ∙ rw (compare_bytes-lex xs ys)

-- The answer with the sides exchanged.
abbrev pub opposite : ℤ → ℤ
opposite (pos zero) = pos 0
opposite (pos (suc n)) = negsuc n
opposite (negsuc n) = pos (suc n)

pub lex-opposite : (xs ys : List ℕ) → lex ys xs ≡ opposite (lex xs ys)
unfolding lex
lex-opposite [] [] = refl
lex-opposite [] (y ∷ ys) = refl
lex-opposite (x ∷ xs) [] = refl
lex-opposite (x ∷ xs) (y ∷ ys) = ground (arith, lex-opposite xs ys)

pub lex_self : (xs : List ℕ) → lex xs xs ≡ pos 0
unfolding lex
lex_self [] = refl
lex_self (x ∷ xs) = ground (arith, lex_self xs)

pub lex-zero : (xs ys : List ℕ) → lex xs ys ≡ pos 0 → xs ≡ ys
unfolding lex
lex-zero [] [] h = refl
lex-zero [] (y ∷ ys) h = cc
lex-zero (x ∷ xs) [] h = cc
lex-zero (x ∷ xs) (y ∷ ys) h = ground (arith, lex-zero xs ys)

pub lex_trans :
    (xs ys zs : List ℕ) → lex xs ys ≡ negsuc 0 → lex ys zs ≡ negsuc 0 → lex xs zs ≡ negsuc 0
unfolding lex
lex_trans [] [] zs h k = k
lex_trans [] (y ∷ ys) [] h k = cc
lex_trans [] (y ∷ ys) (z ∷ zs) h k = refl
lex_trans (x ∷ xs) [] zs h k = cc
lex_trans (x ∷ xs) (y ∷ ys) [] h k = cc
lex_trans (x ∷ xs) (y ∷ ys) (z ∷ zs) h k = ground (arith, lex_trans xs ys zs)

-- The number that a string of bytes spells, first byte highest.
abbrev pub spelled : List ℕ → ℕ
spelled [] = 0
spelled (b ∷ bs) = b * 256 ^ length bs + spelled bs

spelled-lt : (bs : List ℕ) → All IsByte bs → spelled bs < 256 ^ length bs
spelled-lt [] h = omega arith
spelled-lt (b ∷ bs) (h, hs) = grind (arith, spelled-lt bs hs, pow-suc 256 (length bs))

-- The leading byte decides.
lead-lt : (x y p r s : ℕ) → x < y → r < p → x * p + r < y * p + s
lead-lt x y p r s h k = grind arith

-- Strings of one length are ordered as the numbers that they spell.
pub lex-spelled :
    (xs ys : List ℕ)
    → All IsByte xs
    → All IsByte ys
    → length xs ≡ length ys
    → lex xs ys ≡ sign_of (spelled xs) (spelled ys)
unfolding lex
lex-spelled [] [] hx hy e = refl
lex-spelled [] (y ∷ ys) hx hy e = absurd (omega arith)
lex-spelled (x ∷ xs) [] hx hy e = absurd (omega arith)
lex-spelled (x ∷ xs) (y ∷ ys) (hx, hxs) (hy, hys) e =
    let e' : length xs ≡ length ys = omega arith in
    ground (
      arith,
      ap (λ (n : ℕ). 256 ^ n) e',
      spelled-lt xs hxs,
      spelled-lt ys hys,
      lead-lt x y (256 ^ length xs) (spelled xs) (spelled ys),
      lead-lt y x (256 ^ length xs) (spelled ys) (spelled xs),
      lex-spelled xs ys hxs hys e',
    )
