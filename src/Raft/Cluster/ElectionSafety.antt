-- ===== src/Raft/Cluster/ElectionSafety.antt =====
-- At most one leader per term, for RaftState, RaftElection and RaftServiceImpl::RequestVote.
use mathlib.Core.List.{Memᴰ}
use mathlib.Core.Path.{subst}
use mathlib.Core.Option.{some-injective}
use stoneleaf_db.Common.{
  ℕ, suc, ◌+◌, ◌/◌, ◌≤◌, ◌<◌, true, false, ◌&&◌, Option, none, some, List, [], ◌∷◌, length,
}
use stoneleaf_db.Common.{
  ltb, ◌==◌, if◌then◌else◌, ◌≡◌, refl, sym, ap, ◌∙◌, arith, All, Bool-cases, inl, inr, eq_self,
}
use stoneleaf_db.Common.Eq.{same, same_self}
use stoneleaf_db.Common.Sets.{contains, IsSetList}
use stoneleaf_db.Raft.Address.{NodeAddress, address_eq, same_address_iff}
use stoneleaf_db.Raft.Node.{leader, Node, VoteRequest, VoteResponse, ok, on_vote_response}
use stoneleaf_db.Raft.Node.Valid.{
  campaigns, IsValid, Evolves, Always, Nobody, Good, Won, GoodReply, follower_of, no_votes,
}
use stoneleaf_db.Raft.Node.Campaigns.{campaign_of, answered_by, restarted}
use stoneleaf_db.Raft.Node.Laws.{request_vote-GoodReply}
use stoneleaf_db.Raft.Cluster.{
  Answer, Cluster, update, boot, Step, campaigns_at, asked_at, answered_at, follows_at, logs_at,
  restarts_at, Reach, start, next,
}
use stoneleaf_db.Raft.Cluster.Quorum.{common}

abbrev Ballot : Type 0
Ballot = NodeAddress → ℕ → Option NodeAddress

-- The history agrees with the node `n` at the address `a`.
record Tracks (peers : NodeAddress → List NodeAddress) (ballot : Ballot) (a : NodeAddress)
    (n : Node) : Type 0 where
  valid : IsValid n
  at_self : n.self ≡ a
  at_peers : n.peers ≡ peers a
  now : ballot a n.current_term ≡ n.voted_for
  later : (t : ℕ) → n.current_term < t → ballot a t ≡ none
  counted :
      (p : NodeAddress)
      → campaigns n.role ≡ true
      → contains p n.votes ≡ true
      → ballot p n.current_term ≡ some a

-- A granted vote was cast.
abbrev Cast : Ballot → Answer → Type 0
Cast ballot m = m.response.vote_granted ≡ true → ballot m.voter m.asked.term ≡ some m.asked.sender

record Agrees (peers : NodeAddress → List NodeAddress) (c : Cluster) : Type 0 where
  tracked : (a : NodeAddress) → Tracks peers c.ballot a (c.nodes a)
  cast : All (Cast c.ballot) c.answers

All-mem : (P : Answer → Type 0) (m : Answer) (ms : List Answer) → All P ms → Memᴰ m ms → P m
All-mem P m [] h k = elim k [ ]
All-mem P m (x ∷ xs) (h, hs) (Memᴰ.head e) = subst P (sym e) h
All-mem P m (x ∷ xs) (h, hs) (Memᴰ.tail k) = All-mem P m xs hs k

module _ (c : Cluster) (a : NodeAddress) (n : Node) (v : NodeAddress) where
  node_other : same a v ≡ false → (update c a n).nodes v ≡ c.nodes v
  node_other h = ap (λ b. if b then n else c.nodes v) h

  node_here : same a v ≡ true → (update c a n).nodes v ≡ n
  node_here h = ap (λ b. if b then n else c.nodes v) h

  ballot_other : (t : ℕ) → same a v ≡ false → (update c a n).ballot v t ≡ c.ballot v t
  ballot_other t h = ap (λ b. if b && t == n.current_term then n.voted_for else c.ballot v t) h

  ballot_past : (t : ℕ) → (t == n.current_term) ≡ false → (update c a n).ballot v t ≡ c.ballot v t
  ballot_past t h = elim (Bool-cases (same a v)) [
    | inr other ↦ ballot_other t other
    | inl here ↦
        ap (λ b. if b && t == n.current_term then n.voted_for else c.ballot v t) here
        ∙ ap (λ b. if b then n.voted_for else c.ballot v t) h
  ]

  ballot_now :
      (t : ℕ)
      → same a v ≡ true
      → (t == n.current_term) ≡ true
      → (update c a n).ballot v t ≡ n.voted_for
  ballot_now t here h =
      ap (λ b. if b && t == n.current_term then n.voted_for else c.ballot v t) here
      ∙ ap (λ b. if b then n.voted_for else c.ballot v t) h

module _ (peers : NodeAddress → List NodeAddress) (c : Cluster) (a : NodeAddress) (n : Node)
    (k : Tracks peers c.ballot a (c.nodes a)) (e : Evolves (c.nodes a) n) where
  -- A vote of the history was cast in no later term than the node's.
  not_later : (t : ℕ) (w : NodeAddress) → c.ballot a t ≡ some w → t ≤ (c.nodes a).current_term
  not_later t w h = elim (Bool-cases (ltb (c.nodes a).current_term t)) [
    | inl more ↦ absurd (cc (k.later t (ground arith)))
    | inr less ↦ ground arith
  ]

  kept_now : (w : NodeAddress) → c.ballot a n.current_term ≡ some w → n.voted_for ≡ some w
  kept_now w h =
      let same_term : n.current_term ≡ (c.nodes a).current_term =
        omega (arith, e.term_le, not_later n.current_term w h) in
      e.vote_kept w same_term (sym k.now ∙ (ap (c.ballot a) (sym same_term) ∙ h))

  -- No vote of the history changes when the node at `a` evolves.
  keeps : (v w : NodeAddress) (t : ℕ) → c.ballot v t ≡ some w → (update c a n).ballot v t ≡ some w
  keeps v w t h = elim (Bool-cases (same a v)) [
    | inr other ↦ ballot_other c a n v t other ∙ h
    | inl here ↦ elim (Bool-cases (t == n.current_term)) [
      | inr past ↦ ballot_past c a n v t past ∙ h
      | inl present ↦
          let at_a : a ≡ v = (same_address_iff a v).0 here in
          let at_t : n.current_term ≡ t = ground arith in
          ballot_now c a n v t here present
          ∙ kept_now w (ap (c.ballot a) at_t ∙ (ap (λ b. c.ballot b t) at_a ∙ h))
    ]
  ]

  -- The answers that were cast before stay cast.
  keeps_answers : (ms : List Answer) → All (Cast c.ballot) ms → All (Cast (update c a n).ballot) ms
  keeps_answers [] h = tt
  keeps_answers (m ∷ ms) (h, hs) =
      (λ g. keeps m.voter m.asked.sender m.asked.term (h g), keeps_answers ms hs)

  other_node :
      (b : NodeAddress)
      → same a b ≡ false
      → Tracks peers c.ballot b (c.nodes b)
      → Tracks peers (update c a n).ballot b (c.nodes b)
  other_node b other kb = record {
    valid = kb.valid;
    at_self = kb.at_self;
    at_peers = kb.at_peers;
    now = ballot_other c a n b (c.nodes b).current_term other ∙ kb.now;
    later = λ t h. ballot_other c a n b t other ∙ kb.later t h;
    counted = λ p r h. keeps p b (c.nodes b).current_term (kb.counted p r h);
  }

  -- The node at `a` itself, whose new votes are those that the history holds for it.
  same_node :
      (new : NodeAddress → Type 0)
      → Good new (c.nodes a) n
      → ((p : NodeAddress) → new p → c.ballot p n.current_term ≡ some a)
      → Tracks peers (update c a n).ballot a n
  same_node new (valid, _, counts) cast = record {
    valid = valid;
    at_self = e.same_self ∙ k.at_self;
    at_peers = e.same_peers ∙ k.at_peers;
    now = ballot_now c a n a n.current_term (same_self a) (eq_self n.current_term);
    later = λ t h. ballot_past c a n a t (ground arith) ∙ k.later t (omega (arith, e.term_le));
    counted = λ p r h. keeps p a n.current_term (elim (counts p r h) [
      | inl (t, r', h') ↦ ap (c.ballot p) t ∙ k.counted p r' h'
      | inr m ↦ cast p m
    ]);
  }

-- An event of one node keeps the agreement.
event_keeps :
    (peers : NodeAddress → List NodeAddress) (c : Cluster) (a : NodeAddress) (n : Node)
    (new : NodeAddress → Type 0)
    → Agrees peers c
    → Good new (c.nodes a) n
    → ((p : NodeAddress) → new p → c.ballot p n.current_term ≡ some a)
    → Agrees peers (update c a n)
event_keeps peers c a n new h good cast = record {
  tracked = λ b. elim (Bool-cases (same a b)) [
    | inr other ↦
        subst (Tracks peers (update c a n).ballot b) (sym (node_other c a n b other))
          (other_node peers c a n (h.tracked a) good.1 b other (h.tracked b))
    | inl here ↦ subst (Tracks peers (update c a n).ballot b) (sym (node_here c a n b here)) (
        subst (λ x. Tracks peers (update c a n).ballot x n) ((same_address_iff a b).0 here)
          (same_node peers c a n (h.tracked a) good.1 new good cast))
  ];
  cast = keeps_answers peers c a n (h.tracked a) good.1 c.answers h.cast;
}

always_some : (P : Node → Type 0) (o : Option Node) (n : Node) → Always P o → o ≡ some n → P n
always_some P o n h e = subst (Always P) e h

-- An event that counts no new vote.
quiet_keeps :
    (peers : NodeAddress → List NodeAddress) (c : Cluster) (a : NodeAddress) (n : Node)
    → Agrees peers c
    → Good Nobody (c.nodes a) n
    → Agrees peers (update c a n)
quiet_keeps peers c a n h good = event_keeps peers c a n Nobody h good (λ p never. absurd never)

asked_keeps :
    (peers : NodeAddress → List NodeAddress) (c : Cluster) (a : NodeAddress) (r : VoteRequest)
    (n : Node) (response : VoteResponse)
    → Agrees peers c
    → GoodReply (c.nodes a) r (ok n response)
    → Agrees peers (record (update c a n) {
      answers = record { voter = a; asked = r; response = response } ∷ c.answers;
    })
asked_keeps peers c a r n response h (good, _, granted) =
    let after = quiet_keeps peers c a n h good in
    record {
      tracked = after.tracked;
      cast = (
        λ g.
            let (vote, term) = granted g in
            ap ((update c a n).ballot a) (sym term)
            ∙ (ballot_now c a n a n.current_term (same_self a) (eq_self n.current_term) ∙ vote),
        after.cast,
      );
    }

answered_keeps :
    (peers : NodeAddress → List NodeAddress) (c : Cluster) (a : NodeAddress) (m : Answer) (n : Node)
    → Agrees peers c
    → Memᴰ m c.answers
    → m.asked.sender ≡ a
    → contains m.voter (c.nodes a).peers ≡ true
    → on_vote_response (c.nodes a) m.voter m.asked.term m.response ≡ some n
    → Agrees peers (update c a n)
answered_keeps peers c a m n h sent to_a is e =
    event_keeps peers c a n (Won n m.voter m.asked.term m.response) h
      (always_some (λ n'. Good (Won n' m.voter m.asked.term m.response) (c.nodes a) n') _ n
        (answered_by (c.nodes a) (h.tracked a).valid m.voter m.asked.term m.response is) e)
      (λ p (p_is, granted, term).
        ap (λ x. c.ballot x n.current_term) p_is
        ∙ (ap (c.ballot m.voter) (sym term)
            ∙ (All-mem (Cast c.ballot) m c.answers h.cast sent granted ∙ ap some to_a)))

logs_only :
    (n : Node) (index term : ℕ)
    → IsValid n
    → Good Nobody n (record n { last_index = index; last_term = term })
logs_only n index term v = (
  record {
    term_stored = v.term_stored;
    vote_stored = v.vote_stored;
    self_vote = v.self_vote;
    listed_once = v.listed_once;
    from_peers = v.from_peers;
    quorum = v.quorum;
    vote_term = v.vote_term;
  },
  record { same_self = refl; same_peers = refl; term_le = omega arith; vote_kept = λ w t e. e },
  λ p r h. inl (refl, r, h),
)

Step-Agrees :
    (peers : NodeAddress → List NodeAddress) {c d : Cluster}
    → Agrees peers c
    → Step c d
    → Agrees peers d
Step-Agrees peers h (campaigns_at a n e) =
    quiet_keeps peers _ a n h
      (always_some (Good Nobody _) _ n (campaign_of _ (h.tracked a).valid) e)
Step-Agrees peers {c} h (asked_at a r n response e) =
    asked_keeps peers _ a r n response h
      (subst (GoodReply (c.nodes a) r) e (request_vote-GoodReply _ r (h.tracked a).valid))
Step-Agrees peers h (answered_at a m n sent to_a is e) =
    answered_keeps peers _ a m n h sent to_a is e
Step-Agrees peers h (follows_at a term l n e) =
    quiet_keeps peers _ a n h
      (always_some (Good Nobody _) _ n (follower_of _ (h.tracked a).valid Nobody term l) e)
Step-Agrees peers h (logs_at a index term) =
    quiet_keeps peers _ a _ h (logs_only _ index term (h.tracked a).valid)
Step-Agrees peers h (restarts_at a) = quiet_keeps peers _ a _ h (restarted _ (h.tracked a).valid)

boot_holds : (peers : NodeAddress → List NodeAddress) → Agrees peers (boot peers)
boot_holds peers = record {
  tracked = λ a. record {
    valid = record {
      term_stored = refl;
      vote_stored = refl;
      self_vote = λ r. cc;
      listed_once = tt;
      from_peers = λ p. no_votes p;
      quorum = λ r. cc;
      vote_term = λ v e. cc;
    };
    at_self = refl;
    at_peers = refl;
    now = refl;
    later = λ t h. refl;
    counted = λ p r. cc;
  };
  cast = tt;
}

Reach-Agrees :
    (peers : NodeAddress → List NodeAddress) {c : Cluster} → Reach (boot peers) c → Agrees peers c
Reach-Agrees peers start = boot_holds peers
Reach-Agrees peers (next r s) = Step-Agrees peers (Reach-Agrees peers r) s

-- Whoever stands in a leader's list of voters, or leads, has voted for it.
voted_for_leader :
    (peers : NodeAddress → List NodeAddress) (c : Cluster) (a : NodeAddress)
    → Agrees peers c
    → (c.nodes a).role ≡ leader
    → (p : NodeAddress) → contains p (a ∷ (c.nodes a).votes) ≡ true
    → c.ballot p (c.nodes a).current_term ≡ some a
unfolding contains
voted_for_leader peers c a h l p m =
    let k = h.tracked a in
    elim (Bool-cases (same a p)) [
      | inl here ↦
          ap (λ x. c.ballot x (c.nodes a).current_term) (sym ((same_address_iff a p).0 here))
          ∙ (k.now ∙ (k.valid.self_vote (ap campaigns l) ∙ ap some k.at_self))
      | inr other ↦ k.counted p (ap campaigns l) (rw other at m)
    ]

-- A leader and its voters are distinct members, and more than half of them.
module _ (members : List NodeAddress) (peers : NodeAddress → List NodeAddress) (a : NodeAddress)
    (inside : (p : NodeAddress) → contains p (peers a) ≡ true → contains p members ≡ true)
    (apart : contains a (peers a) ≡ false) (counted : length members ≡ suc (length (peers a)))
    (n : Node) (is_peers : n.peers ≡ peers a) (v : IsValid n) where
  voters-IsSetList : IsSetList (a ∷ n.votes)
  voters-IsSetList = (
    elim (Bool-cases (contains a n.votes)) [
      | inr absent ↦ absent
      | inl own ↦ absurd (cc (apart, ap (contains a) is_peers, v.from_peers a own))
    ],
    v.listed_once,
  )

  voters_inside :
      contains a members ≡ true
      → (p : NodeAddress) → contains p (a ∷ n.votes) ≡ true
      → contains p members ≡ true
  unfolding contains
  voters_inside m p h = elim (Bool-cases (same a p)) [
    | inl here ↦ ap (λ x. contains x members) (sym ((same_address_iff a p).0 here)) ∙ m
    | inr other ↦ inside p (ap (contains p) (sym is_peers) ∙ v.from_peers p (rw other at h))
  ]

  voters_quorum : n.role ≡ leader → length members / 2 + 1 ≤ length (a ∷ n.votes)
  voters_quorum l = omega (arith, v.quorum l, counted, ap length is_peers)

-- In every cluster that campaigns, vote requests, answers, messages of leaders, log changes and
-- restarts reach from the first start, two leaders of the same term are the same node. Every
-- member lists exactly the other members as its peers: its peers are members, it is not among
-- them, and the members are one more than its peers.
pub election_safety :
    (members : List NodeAddress) (peers : NodeAddress → List NodeAddress)
    → ((a p : NodeAddress)
        → contains a members ≡ true
        → contains p (peers a) ≡ true
        → contains p members ≡ true)
    → ((a : NodeAddress) → contains a members ≡ true → contains a (peers a) ≡ false)
    → ((a : NodeAddress) → contains a members ≡ true → length members ≡ suc (length (peers a)))
    → (c : Cluster) (a b : NodeAddress) → Reach (boot peers) c
    → contains a members ≡ true
    → contains b members ≡ true
    → (c.nodes a).role ≡ leader
    → (c.nodes b).role ≡ leader
    → (c.nodes a).current_term ≡ (c.nodes b).current_term
    → a ≡ b
election_safety members peers inside apart counted c a b r ma mb la lb t =
    let h = Reach-Agrees peers r in
    let ka = h.tracked a in
    let kb = h.tracked b in
    let (v, va, vb) =
      common (a ∷ (c.nodes a).votes) (b ∷ (c.nodes b).votes) members
        (voters-IsSetList members peers a (λ p. inside a p ma) (apart a ma) (counted a ma) _
          ka.at_peers ka.valid)
        (voters-IsSetList members peers b (λ p. inside b p mb) (apart b mb) (counted b mb) _
          kb.at_peers kb.valid)
        (voters_inside members peers a (λ p. inside a p ma) (apart a ma) (counted a ma) _
          ka.at_peers ka.valid ma)
        (voters_inside members peers b (λ p. inside b p mb) (apart b mb) (counted b mb) _
          kb.at_peers kb.valid mb)
        (omega (
          arith,
          voters_quorum members peers a (λ p. inside a p ma) (apart a ma) (counted a ma) _
              ka.at_peers ka.valid la,
          voters_quorum members peers b (λ p. inside b p mb) (apart b mb) (counted b mb) _
              kb.at_peers kb.valid lb,
        )) in
    some-injective a b (
      sym (voted_for_leader peers c a h la v va)
      ∙ (ap (c.ballot v) t ∙ voted_for_leader peers c b h lb v vb))
