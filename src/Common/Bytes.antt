-- ===== src/Common/Bytes.antt =====
-- Byte buffers as lists of numbers below 256: a `char` is its unsigned value. A pointer into a
-- buffer is the buffer and an offset.
use Prim.Native.Nat.{ℕ, suc, ◌+◌, ◌-◌, ◌<◌, ◌≤◌}
use mathlib.Core.Path.{◌≡◌, refl}
use mathlib.Core.Bool.{◌&&◌}
use mathlib.Core.List.{List, [], ◌∷◌}
use native.Mathlib.Omega.{arith}
use stoneleaf_db.Common.Tests.{ltb, leb, if◌then◌else◌}
use stoneleaf_db.Common.Lists.{length, get_or, set, take, length-set, get_or-set}

abbrev pub IsByte : ℕ → Type 0
IsByte b = b < 256

-- `in[i]`
abbrev pub byte_at : List ℕ → ℕ → ℕ
byte_at buf i = get_or buf i 0

-- `out[0] = b0; out[1] = b1; …` where `out` points to `off` in the buffer
unfoldable pub write : List ℕ → ℕ → List ℕ → List ℕ
write buf off [] = buf
write buf off (b ∷ bs) = write (set buf off b) (off + 1) bs

pub length-write : (buf : List ℕ) (off : ℕ) (bs : List ℕ) → length (write buf off bs) ≡ length buf
unfolding write
length-write buf off [] = refl
length-write buf off (b ∷ bs) =
    omega (arith, length-write (set buf off b) (off + 1) bs, length-set buf off b)

-- A write within the buffer changes the bytes that it covers, and those only.
pub byte_at-write :
    (buf : List ℕ) (off : ℕ) (bs : List ℕ) (i : ℕ)
    → off + length bs ≤ length buf
    → byte_at (write buf off bs) i
      ≡ (if leb off i && ltb i (off + length bs) then byte_at bs (i - off) else byte_at buf i)
unfolding write
byte_at-write buf off [] i h = ground arith
byte_at-write buf off (b ∷ bs) i h = ground (
  arith,
  length-set buf off b,
  get_or-set buf off i b 0,
  byte_at-write (set buf off b) (off + 1) bs i,
  next,
)
  where
    next : off < i → get_or (b ∷ bs) (i - off) 0 ≡ get_or bs (i - (off + 1)) 0
    next p = let e : i - off ≡ suc (i - (off + 1)) = omega arith in rw e

-- A buffer starts with the bytes of `bs`.
pub take-bytes :
    (bs buf : List ℕ)
    → length bs ≤ length buf
    → ((i : ℕ) → i < length bs → byte_at buf i ≡ byte_at bs i)
    → take (length bs) buf ≡ bs
take-bytes [] buf h same = refl
take-bytes (b ∷ bs) [] h same = absurd (omega arith)
take-bytes (b ∷ bs) (x ∷ buf) h same =
    let first : x ≡ b = same 0 (omega arith) in
    rw (first, take-bytes bs buf (omega arith) (λ i p. same (suc i) (omega arith)))
