-- ===== src/Raft/Node/Laws.antt =====
-- RequestVote of Raft/RaftServiceImpl.cpp keeps a node valid, and what a granted vote says.
use mathlib.Core.Path.{subst}
use stoneleaf_db.Common.{ℕ, ◌<◌, Bool, true, false, not, ◌&&◌, ◌||◌, Option, none, some}
use stoneleaf_db.Common.{ltb, leb, ◌==◌, ◌≡◌, ◌≢◌, refl, sym, ap, ◌∙◌, arith}
use stoneleaf_db.Common.{eq→≡, Bool-cases, inl, inr}
use stoneleaf_db.Common.Eq.{same}
use stoneleaf_db.Encoding.Stream.{◌>>=◌}
use stoneleaf_db.Raft.Address.{NodeAddress, address_eq}
use stoneleaf_db.Raft.Node.{Node, HardState, VoteRequest, VoteResponse}
use stoneleaf_db.Raft.Node.{ok, persist, advance_term, grant_vote, answer, become_follower}
use stoneleaf_db.Raft.Node.{
  is_peer, vote_on, Reply, invalid_argument, thrown, request_vote, voted_other, voted_same,
}
use stoneleaf_db.Raft.Node.Valid.{
  IsValid, Always, Nobody, Good, sender_eq, sender_is, same_vote, in_place, GoodReply, GoodGrant,
  persist_later, follower_of, Good-trans,
}

module _ (n : Node) (v : IsValid n) where
  -- A vote in a term in which none was cast.
  first_vote :
      (sender : NodeAddress)
      → same sender n.self ≡ false
      → voted_other n.voted_for sender ≡ false
      → GoodGrant n sender (
          persist n.current_term (some sender) >>= λ durable.
          some (record n { durable = durable; voted_for = some sender }, true))
  unfolding persist
  first_vote sender other free = elim (Bool-cases (n.current_term == 0)) [
    | inl zeroth ↦ rw zeroth (eq→≡ n.current_term 0 zeroth)
    | inr later ↦ rw later (
      (
        record {
          term_stored = refl;
          vote_stored = refl;
          self_vote = λ c. absurd (sender_is n.voted_for sender n.self free (v.self_vote c) other);
          listed_once = v.listed_once;
          from_peers = v.from_peers;
          quorum = v.quorum;
          vote_term = λ w e. ground arith;
        },
        record {
          same_self = refl;
          same_peers = refl;
          term_le = omega arith;
          vote_kept = λ w t e. ap some (sender_eq n.voted_for sender w free e);
        },
        λ p c h. inl (refl, c, h),
      ),
      refl,
      λ g. refl,
    )
  ]

  granted_to :
      (sender : NodeAddress) (i t : ℕ)
      → same sender n.self ≡ false
      → GoodGrant n sender (grant_vote n sender i t)
  unfolding grant_vote
  granted_to sender i t other = elim (Bool-cases (voted_other n.voted_for sender)) [
    | inl taken ↦ rw taken (in_place _ n v, refl, λ g. cc)
    | inr free ↦
        rw free (elim (Bool-cases (ltb n.last_term t || t == n.last_term && leb n.last_index i)) [
          | inr behind ↦ rw behind (in_place _ n v, refl, λ g. cc)
          | inl recent ↦ rw recent (elim (Bool-cases (voted_same n.voted_for sender)) [
            | inl again ↦ rw again (in_place _ n v, refl, λ g. same_vote n.voted_for sender again)
            | inr first ↦ rw first (first_vote sender other free)
          ])
        ])
  ]

  -- The handler of RequestVote after the step to the request's term.
  vote_of :
      (r : VoteRequest)
      → same r.sender n.self ≡ false
      → n.current_term ≡ r.term
      → GoodReply n r (vote_on r (some n))
  vote_of r other t =
      answered (grant_vote n r.sender r.last_log_index r.last_log_term)
        (granted_to r.sender r.last_log_index r.last_log_term other)
    where
      answered : (o : Option (Node × Bool)) → GoodGrant n r.sender o → GoodReply n r (answer o)
      answered none zeroth = sym t ∙ zeroth
      answered (some (n', granted)) (good, same_term, cast) =
          (good, refl, λ g. (cast g, same_term ∙ t))

-- The node that answers a request of a later term, before it votes.
stepped_term :
    (n : Node) (r : VoteRequest)
    → ltb n.current_term r.term ≡ true
    → Always (λ n'. (n'.current_term ≡ r.term) × (n'.self ≡ n.self)) (become_follower n r.term none)
unfolding become_follower advance_term
stepped_term n r h =
    let later : leb r.term n.current_term ≡ false = ground arith in
    rw (h, later, persist_later r.term none (ground arith)) (refl, refl)

GoodReply-trans :
    (n n' : Node) (r : VoteRequest) (reply : Reply)
    → Good Nobody n n'
    → GoodReply n' r reply
    → GoodReply n r reply
GoodReply-trans n n' r (ok n'' response) g (good, term, granted) =
    (Good-trans n n' n'' g good, term, granted)
GoodReply-trans n n' r invalid_argument g h = h
GoodReply-trans n n' r thrown g h = h

vote_after :
    (n : Node) (r : VoteRequest) (o : Option Node)
    → Always (Good Nobody n) o
    → Always (λ n'. (n'.current_term ≡ r.term) × (n'.self ≡ n.self)) o
    → (o ≢ none)
    → same r.sender n.self ≡ false
    → GoodReply n r (vote_on r o)
vote_after n r none g t some_ other = absurd (some_ refl)
vote_after n r (some n') g (t, s) some_ other =
    GoodReply-trans n n' r (vote_on r (some n')) g (vote_of n' g.0 r (rw s other) t)

become_follower-ne-none :
    (n : Node) (term : ℕ) (l : Option NodeAddress) → become_follower n term l ≢ none
unfolding become_follower advance_term
become_follower-ne-none n term l = ground (arith, persist_later term none)

-- Every answer to a vote request is good.
pub request_vote-GoodReply :
    (n : Node) (r : VoteRequest) → IsValid n → GoodReply n r (request_vote n r)
unfolding request_vote
request_vote-GoodReply n r v = elim (Bool-cases (not (is_peer n r.sender))) [
  | inl stranger ↦ rw stranger tt
  | inr peer ↦ rw peer (elim (Bool-cases (ltb r.term n.current_term)) [
    | inl stale ↦ rw stale (in_place Nobody n v, refl, λ g. cc)
    | inr recent ↦ rw recent (elim (Bool-cases (ltb n.current_term r.term)) [
      | inl higher ↦ rw higher (
          vote_after n r (become_follower n r.term none) (follower_of n v Nobody r.term none)
            (stepped_term n r higher) (become_follower-ne-none n r.term none) (ground arith))
      | inr same_term ↦ rw same_term (vote_of n v r (ground arith) (ground arith))
    ])
  ])
]

-- Where a valid node answers a vote request with a granted vote, it has voted for the sender of
-- the request, in the request's term, which is not zero, and its persistent record says the same.
pub request_vote-granted :
    (n n' : Node) (r : VoteRequest) (response : VoteResponse)
    → IsValid n
    → request_vote n r ≡ ok n' response
    → response.vote_granted ≡ true
    → (n'.voted_for ≡ some r.sender)
      × (n'.current_term ≡ r.term)
      × (n'.durable ≡ record { term = r.term; voted_for = some r.sender })
      × (0 < r.term)
request_vote-granted n n' r response v e g =
    let (good, _, granted) = subst (GoodReply n r) e (request_vote-GoodReply n r v) in
    let (vote, term) = granted g in
    (
      vote,
      term,
      stored_is n'.durable (good.0.term_stored ∙ term) (good.0.vote_stored ∙ vote),
      omega (arith, term, good.0.vote_term r.sender vote),
    )
  where
    stored_is :
        (h : HardState) {t : ℕ} {w : Option NodeAddress}
        → h.term ≡ t
        → h.voted_for ≡ w
        → h ≡ record { term = t; voted_for = w }
    stored_is h p q = rw (sym p, sym q)
