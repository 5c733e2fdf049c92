-- ===== src/Encoding/Endian/Apart.antt =====
-- Numbers that encoding/Endian.cpp writes at places that do not overlap.
use stoneleaf_db.Common.{ℕ, ◌+◌, ◌≤◌, ◌≡◌, ◌⊎◌, inl, inr, List, length, arith}
use stoneleaf_db.Encoding.Endian.{put_u32_be, get_u32_be, put_u64_be, get_u64_be}
use stoneleaf_db.Encoding.Endian.Laws.{
  put_u32_be-outside, put_u64_be-outside, get_u32_be-ext, get_u64_be-ext,
}

module _ (out : List ℕ) (at value off : ℕ) where
  pub get_u32_be-put_u32_be_apart :
      at + 4 ≤ length out
      → (off + 4 ≤ at) ⊎ (at + 4 ≤ off)
      → get_u32_be (put_u32_be out at value) off ≡ get_u32_be out off
  get_u32_be-put_u32_be_apart fits apart =
      get_u32_be-ext (put_u32_be out at value) out off (λ i low high.
        put_u32_be-outside out at value i fits
          (elim apart [ inl before ↦ inl (omega arith) | inr after ↦ inr (omega arith) ]))

  pub get_u32_be-put_u64_be_apart :
      at + 8 ≤ length out
      → (off + 4 ≤ at) ⊎ (at + 8 ≤ off)
      → get_u32_be (put_u64_be out at value) off ≡ get_u32_be out off
  get_u32_be-put_u64_be_apart fits apart =
      get_u32_be-ext (put_u64_be out at value) out off (λ i low high.
        put_u64_be-outside out at value i fits
          (elim apart [ inl before ↦ inl (omega arith) | inr after ↦ inr (omega arith) ]))

  pub get_u64_be-put_u32_be_apart :
      at + 4 ≤ length out
      → (off + 8 ≤ at) ⊎ (at + 4 ≤ off)
      → get_u64_be (put_u32_be out at value) off ≡ get_u64_be out off
  get_u64_be-put_u32_be_apart fits apart =
      get_u64_be-ext (put_u32_be out at value) out off (λ i low high.
        put_u32_be-outside out at value i fits
          (elim apart [ inl before ↦ inl (omega arith) | inr after ↦ inr (omega arith) ]))
