-- ===== src/Raft/Address.antt =====
-- Raft/NodeAddress.h: the identity of a node is its host and its port.
use stoneleaf_db.Common.{ℕ, Bool, true, false, ◌&&◌, List, [], ◌∷◌, ◌==◌, ◌≡◌, ◌↔◌, refl, arith}
use stoneleaf_db.Common.Eq.{Eq}

pub record NodeAddress : Type 0 where
  pub host : List ℕ
  pub port : ℕ

-- `host == other.host` on strings
same_text : List ℕ → List ℕ → Bool
same_text [] [] = true
same_text [] (y ∷ ys) = false
same_text (x ∷ xs) [] = false
same_text (x ∷ xs) (y ∷ ys) = x == y && same_text xs ys

same_text_self : (xs : List ℕ) → same_text xs xs ≡ true
unfolding same_text
same_text_self [] = refl
same_text_self (x ∷ xs) = ground (arith, same_text_self xs)

same_text→≡ : (xs ys : List ℕ) → same_text xs ys ≡ true → xs ≡ ys
unfolding same_text
same_text→≡ [] [] h = refl
same_text→≡ [] (y ∷ ys) h = cc
same_text→≡ (x ∷ xs) [] h = cc
same_text→≡ (x ∷ xs) (y ∷ ys) h = ground (arith, same_text→≡ xs ys)

-- `operator==`
unfoldable pub same_address : NodeAddress → NodeAddress → Bool
unfolding same_text
same_address a b = same_text a.host b.host && a.port == b.port

pub same_address_iff : (a b : NodeAddress) → (same_address a b ≡ true) ↔ (a ≡ b)
unfolding same_address
same_address_iff a b = (
  λ h. ground (arith, same_text→≡ a.host b.host),
  λ e. rw e (ground (arith, same_text_self b.host)),
)

instance abbrev pub address_eq : Eq NodeAddress
address_eq = record { beq = same_address; beq_iff = same_address_iff }
