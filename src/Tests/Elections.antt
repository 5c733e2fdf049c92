-- ===== src/Tests/Elections.antt =====
-- A cluster of three nodes, of which the first wins the election of the first term.
use stoneleaf_db.Common.{
  suc, ◌<◌, true, false, some, List, [], ◌∷◌, length, if◌then◌else◌, ◌≡◌, refl, arith,
}
use mathlib.Core.List.{Memᴰ}
use stoneleaf_db.Common.Eq.{same}
use stoneleaf_db.Common.Sets.{contains, insert}
use stoneleaf_db.Raft.Address.{NodeAddress, address_eq, same_address, same_address_iff}
use stoneleaf_db.Raft.Node.{
  Node, Role, leader, VoteRequest, VoteResponse, ok, persist, advance_term, grant_vote,
  become_candidate, become_leader, become_follower, record_vote, request_vote, campaign,
  campaign_request, on_vote_response,
}
use stoneleaf_db.Raft.Node.Valid.{IsValid, no_votes}
use stoneleaf_db.Raft.Node.Laws.{request_vote-granted}
use stoneleaf_db.Raft.Cluster.{
  Answer, Cluster, update, boot, first_node, campaigns_at, asked_at, answered_at, Reach, start,
  next,
}
use stoneleaf_db.Raft.Cluster.ElectionSafety.{election_safety}

abbrev node_a : NodeAddress
node_a = record { host = 1 ∷ []; port = 7000 }

abbrev node_b : NodeAddress
node_b = record { host = 2 ∷ []; port = 7000 }

abbrev node_c : NodeAddress
node_c = record { host = 3 ∷ []; port = 7000 }

abbrev members : List NodeAddress
members = node_a ∷ node_b ∷ node_c ∷ []

abbrev others : NodeAddress → List NodeAddress
others x =
    if same node_a x
    then node_b ∷ node_c ∷ []
    else if same node_b x
    then node_a ∷ node_c ∷ []
    else node_a ∷ node_b ∷ []

-- `a` after it has stood for election, `b` after it has voted for `a`, and `a` as the leader.
abbrev standing : Node
standing = record (first_node others node_a) {
  role = Role.candidate;
  current_term = 1;
  voted_for = some node_a;
  durable = record { term = 1; voted_for = some node_a };
}

abbrev voter : Node
voter = record (first_node others node_b) {
  current_term = 1;
  voted_for = some node_a;
  durable = record { term = 1; voted_for = some node_a };
}

abbrev elected : Node
elected = record standing {
  role = leader;
  votes = node_b ∷ [];
  leader_address = some node_a;
  send_next = (node_b, 1) ∷ (node_c, 1) ∷ [];
  replicated_index = (node_b, 0) ∷ (node_c, 0) ∷ [];
}

abbrev asks : VoteRequest
asks = campaign_request standing

abbrev yes : VoteResponse
yes = record { term = 1; vote_granted = true }

abbrev given : Answer
given = record { voter = node_b; asked = asks; response = yes }

stands : campaign (first_node others node_a) ≡ some standing
unfolding campaign become_candidate advance_term persist same_address
stands = refl

votes_for : request_vote (first_node others node_b) asks ≡ ok voter yes
unfolding request_vote become_follower advance_term persist grant_vote same_address contains
votes_for = refl

wins : on_vote_response standing node_b 1 yes ≡ some elected
unfolding on_vote_response record_vote become_leader same_address contains insert
wins = refl

abbrev c1 : Cluster
c1 = update (boot others) node_a standing

abbrev c2 : Cluster
c2 = record (update c1 node_b voter) { answers = given ∷ [] }

abbrev c3 : Cluster
c3 = update c2 node_a elected

three_steps : Reach (boot others) c3
unfolding same_address contains
three_steps =
    next
      (next (next start (campaigns_at node_a standing stands))
        (asked_at node_b asks voter yes votes_for))
      (answered_at node_a given elected (Memᴰ.head refl) refl refl wins)

inside :
    (x p : NodeAddress)
    → contains x members ≡ true
    → contains p (others x) ≡ true
    → contains p members ≡ true
unfolding contains
inside x p m h = ground arith

apart : (x : NodeAddress) → contains x members ≡ true → contains x (others x) ≡ false
unfolding contains same_address
apart x m =
    ground (arith, same_address_iff node_a x, same_address_iff node_b x, same_address_iff node_c x)

counted : (x : NodeAddress) → contains x members ≡ true → length members ≡ suc (length (others x))
counted x m = ground arith

is_member : contains node_a members ≡ true
unfolding contains same_address
is_member = refl

leads : (c3.nodes node_a).role ≡ leader
unfolding same_address
leads = refl

election_safety_example : node_a ≡ node_a
election_safety_example =
    election_safety members others inside apart counted c3 node_a node_a three_steps is_member
      is_member leads leads refl

first-IsValid : IsValid (first_node others node_b)
first-IsValid = record {
  term_stored = refl;
  vote_stored = refl;
  self_vote = λ r. cc;
  listed_once = tt;
  from_peers = λ p. no_votes p;
  quorum = λ r. cc;
  vote_term = λ v e. cc;
}

request_vote-granted_example :
    (voter.voted_for ≡ some node_a)
    × (voter.current_term ≡ 1)
    × (voter.durable ≡ record { term = 1; voted_for = some node_a })
    × (0 < asks.term)
request_vote-granted_example =
    request_vote-granted (first_node others node_b) voter asks yes first-IsValid votes_for refl
