-- ===== src/Pages/Journal/Checksum.antt =====
-- The loop of Journal::checksum in JournalCodec.cpp as one sum.
use stoneleaf_db.Common.{
  ℕ, zero, suc, ◌+◌, ◌-◌, ◌*◌, ◌/◌, ◌%◌, ◌^◌, ◌≤◌, ◌<◌, ◌≡◌, refl, ap, List, length, ltb, arith,
  inl, inr, Bool-cases,
}
use stoneleaf_db.Common.Bytes.{byte_at}
use stoneleaf_db.Pages.Journal.{checksum_loop, page_checksum, stride}

-- f 0 + ... + f (n - 1)
abbrev pub sum_below : ℕ → (ℕ → ℕ) → ℕ
sum_below zero f = 0
sum_below (suc n) f = f 0 + sum_below n (λ k. f (suc k))

-- The byte that stands `k + 1` strides before an end.
abbrev pub byte_before : ℕ → List ℕ → ℕ → ℕ
byte_before end page k = byte_at page (end - 200 * (k + 1))

sum_below-ap : (n : ℕ) (f g : ℕ → ℕ) → ((k : ℕ) → f k ≡ g k) → sum_below n f ≡ sum_below n g
sum_below-ap zero f g h = refl
sum_below-ap (suc n) f g h =
    rw (h 0, sum_below-ap n (λ k. f (suc k)) (λ k. g (suc k)) (λ k. h (suc k))) refl

-- The bytes of an end are the last one and those of the end a stride before.
sum_below-stride :
    (left : ℕ) (page : List ℕ)
    → stride ≤ left
    → sum_below (left / 200) (byte_before left page)
      ≡ byte_at page (left - 200) + sum_below ((left - 200) / 200) (byte_before (left - 200) page)
sum_below-stride left page h =
    let rounds : left / 200 ≡ suc ((left - 200) / 200) = omega arith in
    let first : left - 200 * (0 + 1) ≡ left - 200 = omega arith in
    let later =
      sum_below-ap ((left - 200) / 200) (λ k. byte_before left page (suc k))
        (byte_before (left - 200) page)
        (λ k.
          let same : left - 200 * (suc k + 1) ≡ left - 200 - 200 * (k + 1) = omega arith in
          ap (byte_at page) same) in
    rw (rounds, first, later) refl

checksum_loop-sum :
    (fuel left sum : ℕ) (page : List ℕ)
    → left ≤ fuel
    → sum < 2 ^ 32
    → checksum_loop fuel left sum page
      ≡ (sum + sum_below (left / 200) (byte_before left page)) % 2 ^ 32
unfolding checksum_loop
checksum_loop-sum zero left sum page h small =
    let none_left : left / 200 ≡ 0 = omega arith in rw none_left (omega arith)
checksum_loop-sum (suc fuel) left sum page h small = elim (Bool-cases (ltb left 200)) [
  | inl ends ↦ let none_left : left / 200 ≡ 0 = ground arith in rw (ends, none_left) (omega arith)
  | inr goes ↦
      let ih =
        checksum_loop-sum fuel (left - 200) ((sum + byte_at page (left - 200)) % 2 ^ 32) page
          (ground arith) (omega arith) in
      rw (goes, ih, sum_below-stride left page (ground arith)) (omega arith)
]

-- The checksum of a journal page under a nonce below 2^32 is the sum modulo 2^32 of the nonce and
-- of the bytes at every 200th place before the end of the page, as many as there are: the loop
-- ends, and skips none of them.
pub page_checksum-sum :
    (nonce : ℕ) (page : List ℕ)
    → nonce < 2 ^ 32
    → page_checksum nonce page
      ≡ (nonce + sum_below (length page / 200) (byte_before (length page) page)) % 2 ^ 32
unfolding page_checksum
page_checksum-sum nonce page small =
    checksum_loop-sum (length page) (length page) nonce page (omega arith) small
