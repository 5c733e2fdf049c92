-- ===== src/Common/Eq.antt =====
-- Types with a Boolean equality that decides equality.
use mathlib.Core.Bool.{Bool, true, false}
use mathlib.Core.Path.{◌≡◌, refl}
use mathlib.Core.Logic.{◌↔◌, ◌≢◌, inl, inr}
use Prim.Native.Nat.{ℕ}
use native.Mathlib.Omega.{arith}
use stoneleaf_db.Common.Tests.{◌==◌, Bool-cases}

pub record Eq {ℓ} (A : Type ℓ) : Type ℓ where
  pub beq : A → A → Bool
  pub beq_iff : (a b : A) → (beq a b ≡ true) ↔ (a ≡ b)

abbrev pub same {ℓ} : {A : Type ℓ} ⦃e : Eq A⦄ → A → A → Bool
same ⦃e⦄ = e.beq

pub nat_beq_iff : (a b : ℕ) → ((a == b) ≡ true) ↔ (a ≡ b)
nat_beq_iff a b = ground arith

instance abbrev pub nat_eq : Eq ℕ
nat_eq = record { beq = ◌==◌; beq_iff = nat_beq_iff }

module _ {ℓ} {A : Type ℓ} ⦃e : Eq A⦄ where
  pub same_self : (a : A) → same a a ≡ true
  same_self a = (e.beq_iff a a).1 refl

  pub same→≡ : (a b : A) → same a b ≡ true → a ≡ b
  same→≡ a b h = (e.beq_iff a b).0 h

  pub ≢→not-same : (a b : A) → a ≢ b → same a b ≡ false
  ≢→not-same a b h = elim (Bool-cases (same a b)) [ inl p ↦ absurd (h (same→≡ a b p)) | inr q ↦ q ]
