-- ===== src/Raft/Node/Valid.antt =====
-- What every event keeps on one node of Raft/RaftState.cpp: the persistent record mirrors term and
-- vote, a campaigning node has voted for itself, a leader has a majority; and how its vote may
-- change.
use stoneleaf_db.Common.{ℕ, ◌+◌, ◌≤◌, ◌<◌, Bool, true, false, Option, none, some}
use stoneleaf_db.Common.{[], length, ltb, leb, ◌==◌, ◌≡◌, refl, sym, ap, ◌∙◌, arith}
use stoneleaf_db.Common.{Bool-cases, inl, inr, ◌⊎◌}
use stoneleaf_db.Common.Eq.{same}
use stoneleaf_db.Common.Sets.{contains, IsSetList}
use stoneleaf_db.Raft.Address.{NodeAddress, address_eq, same_address_iff}
use stoneleaf_db.Raft.Node.{Role, leader, follower, candidate, Node, VoteRequest, VoteResponse}
use stoneleaf_db.Raft.Node.{ok, persist, advance_term, become_follower}
use stoneleaf_db.Raft.Node.{Reply, invalid_argument, thrown, majority, voted_other, voted_same}

abbrev pub campaigns : Role → Bool
campaigns leader = true
campaigns follower = false
campaigns candidate = true

pub record IsValid (n : Node) : Type 0 where
  pub term_stored : n.durable.term ≡ n.current_term
  pub vote_stored : n.durable.voted_for ≡ n.voted_for
  pub self_vote : campaigns n.role ≡ true → n.voted_for ≡ some n.self
  pub listed_once : IsSetList n.votes
  pub from_peers : (p : NodeAddress) → contains p n.votes ≡ true → contains p n.peers ≡ true
  pub quorum : n.role ≡ leader → majority n ≤ length n.votes + 1
  pub vote_term : (v : NodeAddress) → n.voted_for ≡ some v → 0 < n.current_term

-- Terms do not fall, and a vote cast in a term stays.
pub record Evolves (n n' : Node) : Type 0 where
  pub same_self : n'.self ≡ n.self
  pub same_peers : n'.peers ≡ n.peers
  pub term_le : n.current_term ≤ n'.current_term
  pub vote_kept :
      (v : NodeAddress)
      → n'.current_term ≡ n.current_term
      → n.voted_for ≡ some v
      → n'.voted_for ≡ some v

pub no_votes : (p : NodeAddress) {P : Type 0} → contains p [] ≡ true → P
unfolding contains
no_votes p h = absurd (cc)

-- `P` holds of the result, where there is one.
abbrev pub Always {ℓ} : {A : Type ℓ} → (A → Type 0) → Option A → Type 0
Always P none = Unit {0}
Always P (some x) = P x

-- The votes that a campaigning node counts were counted before, in the same term, or are new.
abbrev pub Counts : (NodeAddress → Type 0) → Node → Node → Type 0
Counts new n n' =
    (p : NodeAddress)
    → campaigns n'.role ≡ true
    → contains p n'.votes ≡ true
    → ((n'.current_term ≡ n.current_term) × (campaigns n.role ≡ true) × (contains p n.votes ≡ true))
      ⊎ new p

-- No vote is new.
abbrev pub Nobody : NodeAddress → Type 0
Nobody p = ⊥

-- A new vote is that of the peer that granted it, in the term that it was asked for.
abbrev pub Won : Node → NodeAddress → ℕ → VoteResponse → NodeAddress → Type 0
Won n peer term r p = (p ≡ peer) × (r.vote_granted ≡ true) × (term ≡ n.current_term)

-- A node that is valid again, having evolved from `n`.
abbrev pub Good : (NodeAddress → Type 0) → Node → Node → Type 0
Good new n n' = IsValid n' × Evolves n n' × Counts new n n'

pub sender_eq :
    (vote : Option NodeAddress) (sender w : NodeAddress)
    → voted_other vote sender ≡ false
    → vote ≡ some w
    → sender ≡ w
sender_eq none sender w h e = cc
sender_eq (some u) sender w h e = ground (arith, same_address_iff u sender)

pub sender_is :
    (vote : Option NodeAddress) (sender self : NodeAddress)
    → voted_other vote sender ≡ false
    → vote ≡ some self
    → same sender self ≡ false
    → ⊥
sender_is vote sender self h e other =
    ground (arith, sender_eq vote sender self h e, same_address_iff sender self)

pub same_vote :
    (vote : Option NodeAddress) (sender : NodeAddress)
    → voted_same vote sender ≡ true
    → vote ≡ some sender
same_vote none sender h = cc
same_vote (some u) sender h = ap some ((same_address_iff u sender).0 h)

pub Good-weaken : (new : NodeAddress → Type 0) (n n' : Node) → Good Nobody n n' → Good new n n'
Good-weaken new n n' (valid, evolved, counts) =
    (valid, evolved, λ p c h. elim (counts p c h) [ inl old ↦ inl old | inr never ↦ absurd never ])

pub weaken_all {ℓ} :
    {A : Type ℓ} (P Q : A → Type 0)
    → ((x : A) → P x → Q x)
    → (o : Option A) → Always P o
    → Always Q o
weaken_all P Q f none h = tt
weaken_all P Q f (some x) h = f x h

pub in_place : (new : NodeAddress → Type 0) (n : Node) → IsValid n → Good new n n
in_place new n v = (
  v,
  record { same_self = refl; same_peers = refl; term_le = omega arith; vote_kept = λ w t e. e },
  λ p c h. inl (refl, c, h),
)

-- What an answer to a vote request says: the node's new term, and a vote that was cast in the
-- term of the request. The handler throws at most for a request of term zero.
abbrev pub GoodReply : Node → VoteRequest → Reply → Type 0
GoodReply n r (ok n' response) =
    Good Nobody n n'
    × (response.term ≡ n'.current_term)
    × (response.vote_granted ≡ true → (n'.voted_for ≡ some r.sender) × (n'.current_term ≡ r.term))
GoodReply n r invalid_argument = Unit {0}
GoodReply n r thrown = r.term ≡ 0

-- The same of `grant_vote`, which throws at most in term zero.
abbrev pub GoodGrant : Node → NodeAddress → Option (Node × Bool) → Type 0
GoodGrant n sender none = n.current_term ≡ 0
GoodGrant n sender (some (n', granted)) =
    Good Nobody n n'
    × (n'.current_term ≡ n.current_term)
    × (granted ≡ true → n'.voted_for ≡ some sender)

pub persist_later :
    (term : ℕ) (vote : Option NodeAddress)
    → 0 < term
    → persist term vote ≡ some (record { term = term; voted_for = vote })
unfolding persist
persist_later term vote h = let positive : (term == 0) ≡ false = ground arith in rw positive refl

module _ (n : Node) (v : IsValid n) where
  -- A new term forgets the vote, so nothing is asked of it.
  pub fresh_term :
      (n' : Node)
      → n'.self ≡ n.self
      → n'.peers ≡ n.peers
      → n.current_term < n'.current_term
      → Evolves n n'
  fresh_term n' s p h = record {
    same_self = s;
    same_peers = p;
    term_le = omega arith;
    vote_kept = λ w t e. absurd (omega arith);
  }

  pub follower_of :
      (new : NodeAddress → Type 0) (term : ℕ) (l : Option NodeAddress)
      → Always (Good new n) (become_follower n term l)
  unfolding become_follower advance_term
  follower_of new term l = elim (Bool-cases (ltb n.current_term term)) [
    | inl higher ↦
        let later : leb term n.current_term ≡ false = ground arith in
        rw higher (
          rw (later, persist_later term none (ground arith))
            (
              record {
                term_stored = refl;
                vote_stored = refl;
                self_vote = λ c. cc;
                listed_once = tt;
                from_peers = λ p. no_votes p;
                quorum = λ c. cc;
                vote_term = λ w e. cc;
              },
              fresh_term _ refl refl (ground arith),
              λ p c. cc,
            ))
    | inr same_term ↦ rw same_term (
      record {
        term_stored = v.term_stored;
        vote_stored = v.vote_stored;
        self_vote = λ c. cc;
        listed_once = v.listed_once;
        from_peers = v.from_peers;
        quorum = λ c. cc;
        vote_term = v.vote_term;
      },
      record { same_self = refl; same_peers = refl; term_le = omega arith; vote_kept = λ w t e. e },
      λ p c. cc,
    )
  ]

pub Good-trans : (a b c : Node) → Good Nobody a b → Good Nobody b c → Good Nobody a c
Good-trans a b c (_, ab, fab) (vc, bc, fbc) = (
  vc,
  record {
    same_self = bc.same_self ∙ ab.same_self;
    same_peers = bc.same_peers ∙ ab.same_peers;
    term_le = omega (arith, ab.term_le, bc.term_le);
    vote_kept = λ w t e.
        let mid : b.current_term ≡ a.current_term = omega (arith, ab.term_le, bc.term_le) in
        bc.vote_kept w (t ∙ sym mid) (ab.vote_kept w mid e);
  },
  λ p k h. elim (fbc p k h) [
    | inr never ↦ absurd never
    | inl (t, k', h') ↦ elim (fab p k' h') [
      | inr never ↦ absurd never
      | inl (t', k'', h'') ↦ inl (t ∙ t', k'', h'')
    ]
  ],
)
