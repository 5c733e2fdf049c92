-- ===== src/Raft/Replication/Merge.antt =====
-- What the merged entries of AppendEntries in Raft/RaftServiceImpl.cpp keep of the log and of the
-- request.
use stoneleaf_db.Common.{
  ℕ, zero, suc, ◌+◌, ◌≤◌, true, some, List, [], ◌∷◌, length, get_elem?, ◌==◌, eq_self, ◌≡◌, refl,
  ap, ◌∙◌, arith, inl, inr, Bool-cases, eq→≡,
}
use stoneleaf_db.Raft.Entry.{MutationEntry}
use stoneleaf_db.Raft.Log.Refinement.{list_term}
use stoneleaf_db.Raft.Replication.Match.{merge}

pub merge_agrees :
    (es : List MutationEntry) (n k : ℕ) (new : List MutationEntry) {e : MutationEntry}
    → n ≤ length es
    → get_elem? new k ≡ some e
    → list_term (merge es n new) (suc (n + k)) ≡ e.term
merge_agrees [] (suc n) k new hn h = absurd (omega arith)
merge_agrees [] zero k new {e} hn h = let same : 0 + k ≡ k = omega arith in rw (same, h) refl
merge_agrees (x ∷ es) zero k [] hn h = cc
merge_agrees (x ∷ es) zero zero (y ∷ new) {e} hn h =
    let is : y ≡ e = cc in
    elim (Bool-cases (x.term == y.term)) [
      | inl same ↦ rw same (eq→≡ x.term y.term same ∙ ap (λ z. z.term) is)
      | inr other ↦ rw other (ap (λ z. z.term) is)
    ]
merge_agrees (x ∷ es) zero (suc k) (y ∷ new) {e} hn h =
    let plain : 0 + suc k ≡ suc k = omega arith in
    let less : 0 + k ≡ k = omega arith in
    elim (Bool-cases (x.term == y.term)) [
      | inl same ↦ rw (same, plain) (rw less at (merge_agrees es zero k new (omega arith) h))
      | inr other ↦ rw (other, plain, h) refl
    ]
merge_agrees (x ∷ es) (suc n) k new hn h =
    let same : suc n + k ≡ suc (n + k) = omega arith in
    rw same (merge_agrees es n k new (omega arith) h)

-- The entries of the request differ in no term from those that the log holds at their places.
abbrev pub Agrees : List MutationEntry → ℕ → List MutationEntry → Type 0
Agrees es n new =
    (k : ℕ) (x e : MutationEntry)
    → get_elem? es (n + k) ≡ some x
    → get_elem? new k ≡ some e
    → x.term ≡ e.term

pub merge_keeps :
    (es : List MutationEntry) (n : ℕ) (new : List MutationEntry)
    → n ≤ length es
    → Agrees es n new
    → (i : ℕ) {x : MutationEntry} → get_elem? es i ≡ some x
    → get_elem? (merge es n new) i ≡ some x
merge_keeps [] n new hn agrees i h = cc
merge_keeps (y ∷ es) zero [] hn agrees i h = h
merge_keeps (y ∷ es) zero (e ∷ new) hn agrees i {x} h =
    let same : (y.term == e.term) ≡ true = rw (agrees 0 y e refl refl) (eq_self e.term) in
    let later : Agrees es zero new = λ k a b ha hb. agrees (suc k) a b (rw (up k) ha) hb in
    rw same (
      cons_keeps i (merge es zero new)
        (λ j z. merge_keeps es zero new (omega arith) later j {x = z}) h)
  where
    up : (k : ℕ) → 0 + suc k ≡ suc (0 + k)
    up k = omega arith

    cons_keeps :
        (i : ℕ) (rest : List MutationEntry)
        → ((j : ℕ) (z : MutationEntry) → get_elem? es j ≡ some z → get_elem? rest j ≡ some z)
        → get_elem? (y ∷ es) i ≡ some x
        → get_elem? (y ∷ rest) i ≡ some x
    cons_keeps zero rest ih h = h
    cons_keeps (suc i) rest ih h = ih i x h
merge_keeps (y ∷ es) (suc n) new hn agrees zero h = h
merge_keeps (y ∷ es) (suc n) new hn agrees (suc i) h =
    let later : Agrees es n new = λ k a b ha hb. agrees k a b (rw (up k) ha) hb in
    merge_keeps es n new (omega arith) later i h
  where
    up : (k : ℕ) → suc n + k ≡ suc (n + k)
    up k = omega arith
