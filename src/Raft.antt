-- ===== src/Raft.antt =====
-- Raft/: the consensus state of one node, its election and its RequestVote handler.
pub mod Address
pub mod Entry
pub mod Segment
pub mod Log
pub mod Replication
pub mod Node
pub mod Cluster
