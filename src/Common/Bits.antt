-- ===== src/Common/Bits.antt =====
-- `&`, `|` and `^` on machine words as arithmetic, at every width. All go through one fact: a digit
-- operation works on the high and the low part of its operands separately.
use Prim.Native.Nat.{
  ℕ, zero, suc, ◌+◌, ◌-◌, ◌*◌, ◌/◌, ◌%◌, ◌^◌, ◌≤◌, ◌<◌, min, max, digits, bitwise,
}
use Prim.Native.Nat.{bit_and, bit_or, bit_xor, bit_and-bitwise, bit_or-bitwise, bit_xor-bitwise}
use Prim.Native.Nat.{differ}
use mathlib.Core.Path.{◌≡◌, refl, ap}
use native.Mathlib.Nat.{pow-suc, one-le-pow}
use native.Mathlib.Omega.{arith}

module _ (z : ℕ → ℕ) (f : ℕ → ℕ → ℕ) where
  digits_enough : (n m a b : ℕ) → a ≤ n → a ≤ m → digits z f n a b ≡ digits z f m a b
  digits_enough zero zero a b p q = refl
  digits_enough zero (suc m) zero b p q = refl
  digits_enough zero (suc m) (suc a) b p q = absurd (omega arith)
  digits_enough (suc n) zero zero b p q = refl
  digits_enough (suc n) zero (suc a) b p q = absurd (omega arith)
  digits_enough (suc n) (suc m) zero b p q = refl
  digits_enough (suc n) (suc m) (suc a) b p q =
      omega (arith, digits_enough n m (suc a / 2) (b / 2) (omega arith) (omega arith))

  -- The lowest digit, where the rule for a used-up operand agrees with the digit rule.
  bitwise_low :
      ((b : ℕ) → z b ≡ z (b / 2) * 2 + f 0 (b % 2))
      → (a b : ℕ) → bitwise z f a b ≡ bitwise z f (a / 2) (b / 2) * 2 + f (a % 2) (b % 2)
  bitwise_low agrees zero b = agrees b
  bitwise_low agrees (suc a) b =
      omega (arith, digits_enough a (suc a / 2) (suc a / 2) (b / 2) (omega arith) (omega arith))

pub and_low : (a b : ℕ) → bit_and a b ≡ bit_and (a / 2) (b / 2) * 2 + min (a % 2) (b % 2)
and_low a b = simp bit_and-bitwise (bitwise_low (λ _. 0) min (λ _. omega arith) a b)

pub or_low : (a b : ℕ) → bit_or a b ≡ bit_or (a / 2) (b / 2) * 2 + max (a % 2) (b % 2)
or_low a b = simp bit_or-bitwise (bitwise_low (λ y. y) max (λ _. omega arith) a b)

differ_low : (b : ℕ) → b ≡ b / 2 * 2 + differ 0 (b % 2)
differ_low b = omega arith

pub xor_low : (a b : ℕ) → bit_xor a b ≡ bit_xor (a / 2) (b / 2) * 2 + differ (a % 2) (b % 2)
xor_low a b = simp bit_xor-bitwise (bitwise_low (λ y. y) differ differ_low a b)

mul-two_pow : (q k : ℕ) → q * 2 ^ suc k ≡ q * 2 ^ k * 2
mul-two_pow q k = omega (arith, ap (λ (t : ℕ). q * t) (pow-suc 2 k))

-- A digit operation works on the digits from `k` on and on the `k` lowest digits separately.
module _ (op f : ℕ → ℕ → ℕ) (none_set : op 0 0 ≡ 0)
    (low : (a b : ℕ) → op a b ≡ op (a / 2) (b / 2) * 2 + f (a % 2) (b % 2)) where
  split_low :
      (k q r p s : ℕ)
      → r < 2 ^ k
      → s < 2 ^ k
      → op (q * 2 ^ k + r) (p * 2 ^ k + s) ≡ op q p * 2 ^ k + op r s
  split_low zero q r p s hr hs = ground (arith, none_set)
  split_low (suc k) q r p s hr hs = ground (
    arith,
    mul-two_pow q k,
    mul-two_pow p k,
    mul-two_pow (op q p) k,
    pow-suc 2 k,
    low (q * 2 ^ suc k + r) (p * 2 ^ suc k + s),
    low r s,
    split_low k q (r / 2) p (s / 2),
  )

pub and_split :
    (k q r p s : ℕ)
    → r < 2 ^ k
    → s < 2 ^ k
    → bit_and (q * 2 ^ k + r) (p * 2 ^ k + s) ≡ bit_and q p * 2 ^ k + bit_and r s
and_split = split_low bit_and min refl and_low

pub or_split :
    (k q r p s : ℕ)
    → r < 2 ^ k
    → s < 2 ^ k
    → bit_or (q * 2 ^ k + r) (p * 2 ^ k + s) ≡ bit_or q p * 2 ^ k + bit_or r s
or_split = split_low bit_or max refl or_low

pub xor_split :
    (k q r p s : ℕ)
    → r < 2 ^ k
    → s < 2 ^ k
    → bit_xor (q * 2 ^ k + r) (p * 2 ^ k + s) ≡ bit_xor q p * 2 ^ k + bit_xor r s
xor_split = split_low bit_xor differ refl xor_low

-- An operand that is 0.
pub zero-or : (b : ℕ) → bit_or 0 b ≡ b
zero-or b = bit_or-bitwise 0 b

pub zero-xor : (b : ℕ) → bit_xor 0 b ≡ b
zero-xor b = bit_xor-bitwise 0 b

pub zero-and : (b : ℕ) → bit_and 0 b ≡ 0
zero-and b = bit_and-bitwise 0 b

or-zero_below : (n a : ℕ) → a ≤ n → bit_or a 0 ≡ a
or-zero_below n zero h = refl
or-zero_below zero (suc a) h = absurd (omega arith)
or-zero_below (suc n) (suc a) h =
    omega (arith, or_low (suc a) 0, or-zero_below n (suc a / 2) (omega arith))

pub or-zero : (a : ℕ) → bit_or a 0 ≡ a
or-zero a = or-zero_below a a (omega arith)

differ-zero : (a : ℕ) → differ a 0 ≡ a
differ-zero zero = refl
differ-zero (suc a) = refl

differ-one : (a : ℕ) → a < 2 → differ a 1 ≡ 1 - a
differ-one zero h = refl
differ-one (suc zero) h = refl
differ-one (suc (suc a)) h = absurd (omega arith)

xor-zero_below : (n a : ℕ) → a ≤ n → bit_xor a 0 ≡ a
xor-zero_below n zero h = refl
xor-zero_below zero (suc a) h = absurd (omega arith)
xor-zero_below (suc n) (suc a) h =
    omega (
      arith,
      xor_low (suc a) 0,
      differ-zero (suc a % 2),
      xor-zero_below n (suc a / 2) (omega arith),
    )

pub xor-zero : (a : ℕ) → bit_xor a 0 ≡ a
xor-zero a = xor-zero_below a a (omega arith)

and-zero_below : (n a : ℕ) → a ≤ n → bit_and a 0 ≡ 0
and-zero_below n zero h = refl
and-zero_below zero (suc a) h = absurd (omega arith)
and-zero_below (suc n) (suc a) h =
    omega (arith, and_low (suc a) 0, and-zero_below n (suc a / 2) (omega arith))

pub and-zero : (a : ℕ) → bit_and a 0 ≡ 0
and-zero a = and-zero_below a a (omega arith)

pub two_pow-pos : (k : ℕ) → 1 ≤ 2 ^ k
two_pow-pos k = one-le-pow k 2 (omega arith)

-- `|` of a value shifted past another is their sum, whichever stands first.
pub or_high : (k q r : ℕ) → r < 2 ^ k → bit_or (q * 2 ^ k) r ≡ q * 2 ^ k + r
or_high k q r h = ground (arith, two_pow-pos k, or_split k q 0 0 r, or-zero q, zero-or r)

pub or_low_high : (k q r : ℕ) → r < 2 ^ k → bit_or r (q * 2 ^ k) ≡ r + q * 2 ^ k
or_low_high k q r h = ground (arith, two_pow-pos k, or_split k 0 r q 0, or-zero r, zero-or q)

-- `&` with a mask of `k` ones keeps the `k` lowest digits.
and_ones : (k r : ℕ) → r < 2 ^ k → bit_and r (2 ^ k - 1) ≡ r
and_ones zero r h = rw and-zero (omega arith)
and_ones (suc k) r h =
    ground (arith, pow-suc 2 k, two_pow-pos k, and_low r (2 ^ suc k - 1), and_ones k (r / 2))

pub and_mask : (k a : ℕ) → bit_and a (2 ^ k - 1) ≡ a % 2 ^ k
and_mask k a = ground (
  arith,
  two_pow-pos k,
  and_split k (a / 2 ^ k) (a % 2 ^ k) 0 (2 ^ k - 1),
  and-zero (a / 2 ^ k),
  and_ones k (a % 2 ^ k),
)

-- `^` with a mask of `k` ones takes the complement of a word of `k` bits.
pub xor_ones : (k r : ℕ) → r < 2 ^ k → bit_xor r (2 ^ k - 1) ≡ 2 ^ k - 1 - r
xor_ones zero r h = rw xor-zero (omega arith)
xor_ones (suc k) r h = ground (
  arith,
  pow-suc 2 k,
  two_pow-pos k,
  xor_low r (2 ^ suc k - 1),
  differ-one (r % 2),
  xor_ones k (r / 2),
)

-- `^` with the top bit of a word of `k + 1` bits flips that bit.
pub xor_top :
    (k a : ℕ) → a < 2 ^ k → (bit_xor a (2 ^ k) ≡ 2 ^ k + a) × (bit_xor (2 ^ k + a) (2 ^ k) ≡ a)
xor_top k a h = (
  ground (arith, two_pow-pos k, xor_split k 0 a 1 0, xor-zero a),
  ground (arith, two_pow-pos k, xor_split k 1 a 1 0, xor-zero a),
)

differ-lt : (a b : ℕ) → a < 2 → b < 2 → differ a b < 2
differ-lt zero b ha hb = hb
differ-lt (suc a) zero ha hb = rw (differ-zero (suc a)) ha
differ-lt (suc zero) (suc zero) ha hb = omega arith
differ-lt (suc zero) (suc (suc b)) ha hb = absurd (omega arith)
differ-lt (suc (suc a)) (suc b) ha hb = absurd (omega arith)

-- `^` and `&` do not leave the words of `k` bits.
pub xor-lt : (k a b : ℕ) → a < 2 ^ k → b < 2 ^ k → bit_xor a b < 2 ^ k
xor-lt zero a b ha hb =
    let ea : a ≡ 0 = omega arith in let eb : b ≡ 0 = omega arith in rw (ea, eb) (omega arith)
xor-lt (suc k) a b ha hb =
    ground (arith, pow-suc 2 k, xor_low a b, xor-lt k (a / 2) (b / 2), differ-lt (a % 2) (b % 2))

pub and-lt : (k a b : ℕ) → a < 2 ^ k → bit_and a b < 2 ^ k
and-lt zero a b ha = let ea : a ≡ 0 = omega arith in rw (ea, zero-and b) (omega arith)
and-lt (suc k) a b ha = ground (arith, pow-suc 2 k, and_low a b, and-lt k (a / 2) (b / 2))
