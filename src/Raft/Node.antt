-- ===== src/Raft/Node.antt =====
-- Raft/RaftState.{h,cpp}, the campaign of Raft/RaftElection.cpp and RequestVote of
-- Raft/RaftServiceImpl.cpp, on one node. The
-- node's persistent record is part of the state: `persist` writes it. Deadlines and condition
-- variables are left out, since they decide when a node acts and not what it does.
pub mod Valid
pub mod Campaigns
pub mod Laws
use stoneleaf_db.Common.{
  ℕ, suc, ◌+◌, ◌/◌, ◌%◌, ◌^◌, Bool, true, false, not, ◌&&◌, ◌||◌, Option, none, some,
}
use stoneleaf_db.Common.{List, [], ◌∷◌, map, length, ltb, leb, ◌==◌, if◌then◌else◌}
use stoneleaf_db.Common.Eq.{same}
use stoneleaf_db.Common.Sets.{contains, insert}
use stoneleaf_db.Encoding.Stream.{◌>>=◌}
use stoneleaf_db.Raft.Address.{NodeAddress, address_eq}

pub data Role : Type 0 where
  leader follower candidate : Role

-- What RaftHardStateStore keeps on disk.
pub record HardState : Type 0 where
  pub term : ℕ
  pub voted_for : Option NodeAddress

-- RaftState, with its node's log as the index and the term of its last entry.
pub record Node : Type 0 where
  pub self : NodeAddress
  pub peers : List NodeAddress
  pub role : Role
  pub current_term : ℕ
  pub voted_for : Option NodeAddress
  pub leader_address : Option NodeAddress
  pub votes : List NodeAddress
  pub send_next : List (NodeAddress × ℕ)
  pub replicated_index : List (NodeAddress × ℕ)
  pub last_index : ℕ
  pub last_term : ℕ
  pub durable : HardState

abbrev pub cluster_size : Node → ℕ
cluster_size n = suc (length n.peers)

abbrev pub is_peer : Node → NodeAddress → Bool
is_peer n a = not (same a n.self) && contains a n.peers

abbrev has_vote : Option NodeAddress → Bool
has_vote none = false
has_vote (some v) = true

-- What encode_state of RaftHardStateStore::persist accepts. `none` is the exception for a vote in
-- term zero; the text of an address is neither empty nor as long as 2^32. The store's other checks,
-- that its term does not fall and its vote in a term does not change, hold at every call, since its
-- record is that of the node (`IsValid` of Raft.Node.Valid).
unfoldable pub persist : ℕ → Option NodeAddress → Option HardState
persist term vote =
    if term == 0 && has_vote vote then none else some (record { term = term; voted_for = vote })

-- RaftState::advance_term. `none` is the exception for a term that does not move forward, or that
-- of `persist`.
unfoldable pub advance_term : Node → ℕ → Option NodeAddress → Option Node
advance_term n new_term new_vote =
    if leb new_term n.current_term
    then none
    else persist new_term new_vote >>= λ durable. some (record n {
      durable = durable;
      voted_for = new_vote;
      votes = [];
      leader_address = none;
      current_term = new_term;
    })

abbrev pub voted_other : Option NodeAddress → NodeAddress → Bool
voted_other none wanted = false
voted_other (some v) wanted = not (same v wanted)

abbrev pub voted_same : Option NodeAddress → NodeAddress → Bool
voted_same none wanted = false
voted_same (some v) wanted = same v wanted

-- RaftState::grant_vote. `none` is the exception of `persist`.
unfoldable pub grant_vote : Node → NodeAddress → ℕ → ℕ → Option (Node × Bool)
grant_vote n sender candidate_index candidate_term =
    if voted_other n.voted_for sender
    then some (n, false)
    else if not (
        ltb n.last_term candidate_term
        || candidate_term == n.last_term && leb n.last_index candidate_index)
    then some (n, false)
    else if not (voted_same n.voted_for sender)
    then (persist n.current_term (some sender) >>= λ durable.
        some (record n { durable = durable; voted_for = some sender }, true))
    else some (n, true)

abbrev set_candidate : Option Node → Option Node
set_candidate none = none
set_candidate (some n) = some (record n { role = candidate })

-- RaftState::become_candidate
unfoldable pub become_candidate : Node → Option Node
become_candidate n = set_candidate (advance_term n ((n.current_term + 1) % 2 ^ 64) (some n.self))

-- RaftState::become_leader
unfoldable pub become_leader : Node → Node
become_leader n = record n {
  send_next = map (λ peer. (peer, n.last_index + 1)) n.peers;
  replicated_index = map (λ peer. (peer, 0)) n.peers;
  leader_address = some n.self;
  role = leader;
}

abbrev set_follower : Option NodeAddress → Option Node → Option Node
set_follower l none = none
set_follower l (some n) = some (record n { leader_address = l; role = follower })

-- RaftState::become_follower
unfoldable pub become_follower : Node → ℕ → Option NodeAddress → Option Node
become_follower n new_term l =
    set_follower l (if ltb n.current_term new_term then advance_term n new_term none else some n)

-- RaftState::record_vote
unfoldable pub record_vote : Node → NodeAddress → Node × Bool
record_vote n peer =
    let votes = insert peer n.votes in
    (record n { votes = votes }, leb (cluster_size n / 2 + 1) (length votes + 1))

pub record VoteRequest : Type 0 where
  pub term : ℕ
  pub sender : NodeAddress
  pub last_log_index : ℕ
  pub last_log_term : ℕ

pub record VoteResponse : Type 0 where
  pub term : ℕ
  pub vote_granted : Bool

-- The status of an RPC, and an exception.
pub data Reply : Type 0 where
  ok : Node → VoteResponse → Reply
  invalid_argument : Reply
  thrown : Reply

abbrev pub answer : Option (Node × Bool) → Reply
answer none = thrown
answer (some (n, granted)) = ok n (record { term = n.current_term; vote_granted = granted })

abbrev vote_on : VoteRequest → Option Node → Reply
vote_on r none = thrown
vote_on r (some n) = answer (grant_vote n r.sender r.last_log_index r.last_log_term)

-- RaftServiceImpl::RequestVote, once the candidate's address is parsed
unfoldable pub request_vote : Node → VoteRequest → Reply
request_vote n r =
    if not (is_peer n r.sender)
    then invalid_argument
    else if ltb r.term n.current_term
    then ok n (record { term = n.current_term; vote_granted = false })
    else vote_on r (if ltb n.current_term r.term then become_follower n r.term none else some n)

abbrev pub majority : Node → ℕ
majority n = cluster_size n / 2 + 1

-- What a campaign sends to every peer.
abbrev pub campaign_request : Node → VoteRequest
campaign_request n = record {
  term = n.current_term;
  sender = n.self;
  last_log_index = n.last_index;
  last_log_term = n.last_term;
}

abbrev lead_if_alone : Option Node → Option Node
lead_if_alone none = none
lead_if_alone (some n) = some (if leb (majority n) 1 then become_leader n else n)

-- The locked part of RaftElection::campaign; a leader does not campaign.
unfoldable pub campaign : Node → Option Node
campaign n = elim n.role [ leader ↦ some n | _ ↦ lead_if_alone (become_candidate n) ]

abbrev is_candidate : Role → Bool
is_candidate candidate = true
is_candidate _ = false

abbrev lead_if_won : Node × Bool → Node
lead_if_won (n, won) = if won then become_leader n else n

-- What RaftElection::campaign does with the answer of one peer to the request of `sent_term`.
unfoldable pub on_vote_response : Node → NodeAddress → ℕ → VoteResponse → Option Node
on_vote_response n peer sent_term response =
    if ltb n.current_term response.term
    then become_follower n response.term none
    else if not (sent_term == n.current_term) || not (is_candidate n.role)
    then some n
    else if not response.vote_granted
    then some n
    else some (lead_if_won (record_vote n peer))

-- The RaftState constructor over a persistent record: a node that starts, or starts again, is a
-- follower of the recorded term with the recorded vote.
unfoldable pub restart : Node → Node
restart n = record n {
  role = follower;
  current_term = n.durable.term;
  voted_for = n.durable.voted_for;
  leader_address = none;
  votes = [];
  send_next = [];
  replicated_index = [];
}
