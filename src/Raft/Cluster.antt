-- ===== src/Raft/Cluster.antt =====
-- A cluster of Raft nodes as interleavings: each event runs on one node under its state mutex. The
-- network may lose, delay, repeat and reorder messages; any vote request may arrive at any node. The
-- ballot is a history of the votes that were cast, and no node reads it.
pub mod Quorum
pub mod ElectionSafety
use mathlib.Core.List.{Memᴰ}
use stoneleaf_db.Common.{
  ℕ, ◌≤◌, Option, none, some, List, [], ◌∷◌, ◌==◌, if◌then◌else◌, ◌≡◌, true, ◌&&◌,
}
use stoneleaf_db.Common.Eq.{same}
use stoneleaf_db.Common.Sets.{contains}
use stoneleaf_db.Raft.Address.{NodeAddress, address_eq}
use stoneleaf_db.Raft.Node.{Node, follower, VoteRequest, VoteResponse, ok, campaign, request_vote}
use stoneleaf_db.Raft.Node.{on_vote_response, become_follower, restart}

-- An answer on its way: who gave it, to which request, and what it says.
pub record Answer : Type 0 where
  pub voter : NodeAddress
  pub asked : VoteRequest
  pub response : VoteResponse

pub record Cluster : Type 0 where
  pub nodes : NodeAddress → Node
  pub ballot : NodeAddress → ℕ → Option NodeAddress
  pub answers : List Answer

-- Every node before its first event, with a file that holds no term, as its `peers` configure it.
abbrev pub first_node : (NodeAddress → List NodeAddress) → NodeAddress → Node
first_node peers a = record {
  self = a;
  peers = peers a;
  role = follower;
  current_term = 0;
  voted_for = none;
  leader_address = none;
  votes = [];
  send_next = [];
  replicated_index = [];
  last_index = 0;
  last_term = 0;
  durable = record { term = 0; voted_for = none };
}

abbrev pub boot : (NodeAddress → List NodeAddress) → Cluster
boot peers = record { nodes = first_node peers; ballot = λ voter term. none; answers = [] }

-- Node `a` becomes `n`, and its vote in its term is noted.
abbrev pub update : Cluster → NodeAddress → Node → Cluster
update c a n = record c {
  nodes = λ b. if same a b then n else c.nodes b;
  ballot = λ b t. if same a b && t == n.current_term then n.voted_for else c.ballot b t;
}

pub data Step (c : Cluster) : Cluster → Type 0 where
  campaigns_at :
      (a : NodeAddress) (n : Node) → campaign (c.nodes a) ≡ some n → Step c (update c a n)
  asked_at :
      (a : NodeAddress) (r : VoteRequest) (n : Node) (response : VoteResponse)
      → request_vote (c.nodes a) r ≡ ok n response
      → Step c (record (update c a n) {
        answers = record { voter = a; asked = r; response = response } ∷ c.answers;
      })
  answered_at :
      (a : NodeAddress) (m : Answer) (n : Node)
      → Memᴰ m c.answers
      → m.asked.sender ≡ a
      → contains m.voter (c.nodes a).peers ≡ true
      → on_vote_response (c.nodes a) m.voter m.asked.term m.response ≡ some n
      → Step c (update c a n)
  -- An AppendEntries of a term that is not stale.
  follows_at :
      (a : NodeAddress) (term : ℕ) (l : Option NodeAddress) (n : Node)
      → become_follower (c.nodes a) term l ≡ some n
      → Step c (update c a n)
  logs_at :
      (a : NodeAddress) (index term : ℕ)
      → Step c (update c a (record (c.nodes a) { last_index = index; last_term = term }))
  restarts_at : (a : NodeAddress) → Step c (update c a (restart (c.nodes a)))

pub data Reach (c : Cluster) : Cluster → Type 0 where
  start : Reach c c
  next : {d e : Cluster} → Reach c d → Step d e → Reach c e
