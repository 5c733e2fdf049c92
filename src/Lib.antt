-- ===== src/Lib.antt =====
-- StoneleafDB: a key-value store with a B-tree over pages, key locks with deadlock detection, a
-- write-ahead log, and Raft between the nodes of a cluster.
--
-- The parts that are modelled, and the files that they come from:
-- * Encoding.Endian (src/encoding/Endian.cpp), Encoding.Key (include/Key.h, src/encoding/KeyCodec.cpp)
--   and Encoding.Value (include/Value.h, src/encoding/ValueCodec.cpp): one definition per function,
--   named as it is. A buffer is a list of bytes, a pointer into it the buffer and an offset.
-- * Net.Codec (src/client/NetCodec.cpp): keys and values on the network. It uses the validation of
--   Encoding.Key and Encoding.Value.
-- * Pages.Codec (src/V2PageCodec.cpp), Pages.Crc32c (src/encoding/Crc32c.cpp), Pages.Header
--   (src/DBHeaderCodec.cpp) and Pages.Journal (src/JournalCodec.cpp): what the pager puts on disk.
-- * Pages.Cache (src/PCache.cpp, src/containers/DLList.cpp) is the pager's cache of pages, and
--   Pages.Cache.Refs the counting of a page's users in src/Pager.cpp. A failed assertion is `none`.
-- * Locks.State (include/LockManager/LockState.h) is the lock of one key, and Locks.Manager
--   (src/LockManager/LockManager.cpp) the table of them, sharded by the hash of
--   include/LockManager/KeyHash.h. A call holds its shard's mutex, so a call is one step on the table.
--   The transaction manager is the interface TxnManager. Locks.WaitForGraph
--   (src/TransactionManager/WaitForGraph.cpp) is the graph behind its deadlock detection.
--   A request that must wait answers `waits`.
-- * Storage.File is what the model takes of src/disk/DiskIO.cpp: a file is the list of its bytes.
--   Storage.Store (src/Log/Store.cpp) keeps records behind their lengths, Storage.Index
--   (src/storage/Index.cpp) the offsets of the records.
-- * Encoding.Stream is the Writer and the Reader of src/Raft/RaftEntryCodec.cpp, and Raft.Entry the
--   entries and their codec (include/Raft/RaftEntry.h, src/Raft/RaftEntryCodec.cpp).
-- * Raft.Segment (src/Raft/RaftSegment.cpp) is a store with its index, and Raft.Log
--   (src/Raft/RaftLog.cpp) a row of segments. A log keeps the calls that made its files and their
--   names durable, `disk_syncs`. Raft.Segment.Entries and Raft.Log.Refinement see segments and logs
--   as lists of entries: `segment_of` is the segment of given entries, and `Holds` says which
--   entries a log has. Raft.Log.Place is about the segment that an entry comes to, and
--   Raft.Log.Durable about what a synchronisation reaches.
-- * Raft.Node (src/Raft/RaftState.cpp, src/Raft/RaftElection.cpp, RequestVote of
--   src/Raft/RaftServiceImpl.cpp) is one node with its persistent record, of which `persist`
--   (src/Raft/RaftHardStateStore.cpp) refuses a vote in term zero. Raft.Node.Valid says what holds
--   of a node at all times. Raft.Cluster is a step relation on all nodes, over a network that loses,
--   delays, repeats and reorders messages.
--   Raft.Replication is AppendEntries of src/Raft/RaftServiceImpl.cpp, on a node with its log: the
--   handler holds the state's mutex throughout, so a call is one step.
-- * BTree.Page (src/containers/BTreePage.cpp) has the decoded pages of the B-tree.
--
-- Machine integers are natural numbers with their wrap-around written out; signed 64-bit numbers are
-- the integers of Common.Int, and their casts are definitions there. A sum or a size that the code
-- keeps in a wider type than it needs has no wrap-around, and neither has the index that a scan or a
-- check counts along with entries.
--
-- Loops: grant_rounds runs on fuel, one more than the waiters, since a round that is followed by
-- another takes a waiter from the queue; checksum_loop runs on fuel, the bytes of the page; varints
-- are written by recursion on a number that falls; path_exists runs on fuel, one more than the
-- transactions, since each enters the queue once; inspect_loop, scan_loop and missing_offsets run
-- on the bytes of the file, since a record takes four at least; lower_bound_loop runs on the number
-- of keys, since the interval shrinks in every round. All other loops are recursion on lists.
--
-- Not modelled: the images of the B-tree's pages and the operations of the tree, the pager
-- above its cache, the write-ahead log above its stores, recovery, the transaction manager, the
-- opening of the Raft log, the leader's side of replication, sockets, threads, files and their
-- failures, clocks and random numbers. A failure of the allocator is not modelled anywhere. After an exception that sets
-- `recovery_required_`, a Raft log refuses everything until it is opened again; such a call is `none`.
pub mod BTree
pub mod Common
pub mod Encoding
pub mod Locks
pub mod Net
pub mod Pages
pub mod Storage
pub mod Raft
mod Tests
