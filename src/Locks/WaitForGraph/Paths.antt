-- ===== src/Locks/WaitForGraph/Paths.antt =====
-- The paths that path_exists of WaitForGraph.cpp finds.
use stoneleaf_db.Common.{ℕ, zero, suc, ◌+◌, true, List, [], ◌∷◌, ◌++◌, ◌==◌, ◌≡◌}
use stoneleaf_db.Common.{arith, All, All-append, Bool-cases, inl, inr, length, eq→≡}
use mathlib.Core.Path.{subst}
use stoneleaf_db.Common.Eq.{nat_eq, same_self}
use stoneleaf_db.Common.Sets.{contains}
use stoneleaf_db.Locks.WaitForGraph.{
  Links, WaitForGraph, links_of, ends_or_none, visit, search_loop, path_exists,
}

-- `a` waits for `b`, directly or through others, or is `b`.
pub data Waits (links : Links) (a : ℕ) : ℕ → Type 0 where
  self : Waits links a a
  then_for :
      {b c : ℕ}
      → Waits links a b
      → contains c (ends_or_none (links_of b links)) ≡ true
      → Waits links a c

module _ (P : ℕ → Type 0) (to : ℕ) where
  visit-All :
      (ns pending visited : List ℕ)
      → ((c : ℕ) → contains c ns ≡ true → P c)
      → All P pending
      → (((visit to ns pending visited).0 ≡ true) → P to) × All P (visit to ns pending visited).1
  unfolding visit contains
  visit-All [] pending visited h k = (λ e. cc, k)
  visit-All (n ∷ ns) pending visited h k =
      let here : P n = h n (rw (same_self n)) in
      let later : (c : ℕ) → contains c ns ≡ true → P c = λ c m. h c (ground arith) in
      elim (Bool-cases (n == to)) [
        | inl e ↦ rw e (λ _. subst P (eq→≡ n to e) here, k)
        | inr d ↦ rw d (elim (Bool-cases (contains n visited)) [
          | inl old ↦ rw old (visit-All ns pending visited later k)
          | inr new ↦ rw new (
              visit-All ns (pending ++ n ∷ []) (n ∷ visited) later
                (All-append P pending (n ∷ []) k (here, tt)))
        ])
      ]

module _ (links : Links) (from to : ℕ) where
  search_loop-Waits :
      (fuel : ℕ) (pending visited : List ℕ)
      → All (Waits links from) pending
      → search_loop fuel links to pending visited ≡ true
      → Waits links from to
  unfolding search_loop
  search_loop-Waits zero pending visited h e = cc
  search_loop-Waits (suc fuel) [] visited h e = cc
  search_loop-Waits (suc fuel) (current ∷ pending) visited (here, h) e =
      let ends = ends_or_none (links_of current links) in
      let (found, rest) =
        visit-All (Waits links from) to ends pending visited (λ c m. then_for here m) h in
      elim (Bool-cases (visit to ends pending visited).0) [
        | inl met ↦ found met
        | inr unmet ↦
            search_loop-Waits fuel (visit to ends pending visited).1
              (visit to ends pending visited).2 rest (rw unmet at e)
      ]

-- Where path_exists finds a path between two transactions, the first waits for the second,
-- directly or through others, or is the second.
pub path_exists-Waits :
    (g : WaitForGraph) (from to : ℕ) → path_exists g from to ≡ true → Waits g.outgoing_links from to
unfolding path_exists
path_exists-Waits g from to h = elim (Bool-cases (from == to)) [
  | inl e ↦ subst (Waits g.outgoing_links from) (eq→≡ from to e) self
  | inr d ↦
      search_loop-Waits g.outgoing_links from to (length g.outgoing_links + 1) (from ∷ [])
        (from ∷ []) (self, tt) (ground arith)
]
