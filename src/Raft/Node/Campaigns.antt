-- ===== src/Raft/Node/Campaigns.antt =====
-- Campaigns, the answers to them and restarts of Raft/RaftElection.cpp keep a node valid.
use stoneleaf_db.Common.{ℕ, ◌+◌, ◌≤◌, true, false, not, ◌||◌, none, some}
use stoneleaf_db.Common.{[], length, ltb, leb, ◌==◌, ◌≡◌, refl, sym, ◌∙◌, arith}
use stoneleaf_db.Common.{◌%◌, ◌^◌, Bool-cases, inl, inr, ◌⊎◌}
use stoneleaf_db.Common.Eq.{same}
use stoneleaf_db.Common.Sets.{contains, insert, contains-insert, insert-IsSetList}
use stoneleaf_db.Raft.Address.{NodeAddress, address_eq, same_address_iff}
use stoneleaf_db.Raft.Node.{Role, leader, follower, candidate, Node, VoteResponse}
use stoneleaf_db.Raft.Node.{advance_term, become_candidate, become_leader, become_follower}
use stoneleaf_db.Raft.Node.{
  lead_if_alone, lead_if_won, is_candidate, record_vote, campaign, on_vote_response, restart,
  majority,
}
use stoneleaf_db.Raft.Node.Valid.{
  campaigns, IsValid, no_votes, Always, Nobody, Won, Good, Good-weaken, weaken_all, in_place,
  persist_later, fresh_term, follower_of,
}

module _ (n : Node) (v : IsValid n) where
  -- The candidate's record, and that of a node that leads alone.
  elected :
      (n' : Node)
      → IsValid n'
      → n'.role ≡ candidate
      → (majority n' ≤ length n'.votes + 1)
      → IsValid (become_leader n')
  unfolding become_leader
  elected n' h c m = record {
    term_stored = h.term_stored;
    vote_stored = h.vote_stored;
    self_vote = λ _. h.self_vote (rw c);
    listed_once = h.listed_once;
    from_peers = h.from_peers;
    quorum = λ _. m;
    vote_term = h.vote_term;
  }

  -- The node after become_candidate, and after record_vote.
  abbrev candidate_of : Node
  candidate_of = record n {
    durable = record { term = n.current_term + 1; voted_for = some n.self };
    voted_for = some n.self;
    votes = [];
    leader_address = none;
    current_term = n.current_term + 1;
    role = candidate;
  }

  abbrev voted_by : NodeAddress → Node
  voted_by peer = record n { votes = insert peer n.votes }

  -- The term does not grow where it wraps around.
  become_candidate_is : (become_candidate n ≡ none) ⊎ (become_candidate n ≡ some candidate_of)
  unfolding become_candidate advance_term
  become_candidate_is = elim (Bool-cases (ltb (n.current_term + 1) (2 ^ 64))) [
    | inl small ↦
        let plain : (n.current_term + 1) % 2 ^ 64 ≡ n.current_term + 1 = ground arith in
        let later : leb (n.current_term + 1) n.current_term ≡ false = ground arith in
        inr (rw (plain, later, persist_later (n.current_term + 1) (some n.self) (omega arith)) refl)
    | inr wraps ↦
        let back : leb ((n.current_term + 1) % 2 ^ 64) n.current_term ≡ true = ground arith in
        inl (rw back refl)
  ]

  candidate_of-IsValid : IsValid candidate_of
  candidate_of-IsValid = record {
    term_stored = refl;
    vote_stored = refl;
    self_vote = λ c. refl;
    listed_once = tt;
    from_peers = λ p. no_votes p;
    quorum = λ c. cc;
    vote_term = λ w e. omega arith;
  }

  candidacy : Always (Good Nobody n) (lead_if_alone (become_candidate n))
  candidacy = elim become_candidate_is [
    | inl fails ↦ rw fails tt
    | inr stands ↦ rw stands (elim (Bool-cases (leb (majority candidate_of) 1)) [
      | inl alone ↦ rw alone (
        elected candidate_of candidate_of-IsValid refl (ground arith),
        unfold become_leader in fresh_term n v _ refl refl (omega arith),
        unfold become_leader in λ p c h. no_votes p h,
      )
      | inr others ↦ rw others (
        candidate_of-IsValid,
        fresh_term n v candidate_of refl refl (omega arith),
        λ p c h. no_votes p h,
      )
    ])
  ]

  campaign_is : (campaign n ≡ some n) ⊎ (campaign n ≡ lead_if_alone (become_candidate n))
  unfolding campaign
  campaign_is = ground arith

  pub campaign_of : Always (Good Nobody n) (campaign n)
  campaign_of = elim campaign_is [ inl e ↦ rw e (in_place _ n v) | inr e ↦ rw e candidacy ]

  voted_by-IsValid :
      (peer : NodeAddress)
      → n.role ≡ candidate
      → contains peer n.peers ≡ true
      → IsValid (voted_by peer)
  voted_by-IsValid peer c is = record {
    term_stored = v.term_stored;
    vote_stored = v.vote_stored;
    self_vote = v.self_vote;
    listed_once = insert-IsSetList peer n.votes v.listed_once;
    from_peers = λ p h. elim (Bool-cases (same peer p)) [
      | inl e ↦ rw ((same_address_iff peer p).0 e) at is
      | inr d ↦ v.from_peers p (ground (arith, contains-insert peer p n.votes))
    ];
    quorum = λ l. cc;
    vote_term = v.vote_term;
  }

  candidate_is : (role : Role) → is_candidate role ≡ true → role ≡ candidate
  candidate_is leader h = cc
  candidate_is follower h = cc
  candidate_is candidate h = refl

  -- The vote is counted, and a majority makes a leader.
  counted :
      (peer : NodeAddress)
      → n.role ≡ candidate
      → contains peer n.peers ≡ true
      → Good (λ p. p ≡ peer) n (lead_if_won (record_vote n peer))
  unfolding record_vote
  counted peer c is =
      let valid = voted_by-IsValid peer c is in
      elim (Bool-cases (leb (majority n) (length (voted_by peer).votes + 1))) [
        | inl won ↦ rw won (
          elected (voted_by peer) valid c (ground arith),
          unfold become_leader in
              record {
                same_self = refl;
                same_peers = refl;
                term_le = omega arith;
                vote_kept = λ w t e. e;
              },
          unfold become_leader in λ p k h. new_vote p h,
        )
        | inr lost ↦ rw lost (
          valid,
          record {
            same_self = refl;
            same_peers = refl;
            term_le = omega arith;
            vote_kept = λ w t e. e;
          },
          λ p k h. new_vote p h,
        )
      ]
    where
      new_vote :
          (p : NodeAddress)
          → contains p (insert peer n.votes) ≡ true
          → ((n.current_term ≡ n.current_term)
              × (campaigns n.role ≡ true)
              × (contains p n.votes ≡ true))
            ⊎ (p ≡ peer)
      new_vote p h = elim (Bool-cases (same peer p)) [
        | inl e ↦ inr (sym ((same_address_iff peer p).0 e))
        | inr d ↦ inl (refl, rw c, ground (arith, contains-insert peer p n.votes))
      ]

  kept_term :
      (peer : NodeAddress) → (lead_if_won (record_vote n peer)).current_term ≡ n.current_term
  unfolding record_vote become_leader
  kept_term peer = ground arith

  counted_once :
      (peer : NodeAddress) (term : ℕ) (r : VoteResponse) {n' : Node}
      → term ≡ n.current_term
      → r.vote_granted ≡ true
      → Good (λ p. p ≡ peer) n n'
      → n'.current_term ≡ n.current_term
      → Good (Won n' peer term r) n n'
  counted_once peer term r t g (valid, evolved, counts) k = (
    valid,
    evolved,
    λ p c h. elim (counts p c h) [ inl old ↦ inl old | inr e ↦ inr (e, g, t ∙ sym k) ],
  )

  pub answered_by :
      (peer : NodeAddress) (term : ℕ) (r : VoteResponse)
      → contains peer n.peers ≡ true
      → Always (λ n'. Good (Won n' peer term r) n n') (on_vote_response n peer term r)
  unfolding on_vote_response
  answered_by peer term r is = elim (Bool-cases (ltb n.current_term r.term)) [
    | inl higher ↦ rw higher (
        weaken_all (Good Nobody n) (λ n'. Good (Won n' peer term r) n n') (λ n'. Good-weaken _ n n')
          (become_follower n r.term none) (follower_of n v Nobody r.term none))
    | inr low ↦
        rw low (elim (Bool-cases (not (term == n.current_term) || not (is_candidate n.role))) [
          | inl stale ↦ rw stale (in_place _ n v)
          | inr live ↦ rw live (elim (Bool-cases (not r.vote_granted)) [
            | inl refused ↦ rw refused (in_place _ n v)
            | inr granted ↦ rw granted (
                counted_once peer term r (ground arith) (ground arith)
                  (counted peer (candidate_is n.role (ground arith)) is) (kept_term peer))
          ])
        ])
  ]

  pub restarted : Good Nobody n (restart n)
  unfolding restart
  restarted = (
    record {
      term_stored = refl;
      vote_stored = refl;
      self_vote = λ c. cc;
      listed_once = tt;
      from_peers = λ p. no_votes p;
      quorum = λ c. cc;
      vote_term = λ w e. omega (arith, v.term_stored, v.vote_term w (sym v.vote_stored ∙ e));
    },
    record {
      same_self = refl;
      same_peers = refl;
      term_le = omega (arith, v.term_stored);
      vote_kept = λ w t e. v.vote_stored ∙ e;
    },
    λ p c. cc,
  )
