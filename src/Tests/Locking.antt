-- ===== src/Tests/Locking.antt =====
-- Locks of one key, and a lock table whose transaction manager knows some transactions only.
use stoneleaf_db.Common.{
  ℕ, Bool, true, false, not, none, some, [], ◌∷◌, ◌==◌, ◌≡◌, ◌≢◌, refl, arith,
}
use stoneleaf_db.Common.Eq.{nat_eq}
use stoneleaf_db.Common.Sets.{contains}
use stoneleaf_db.Encoding.Key.{Key, KeyType}
use stoneleaf_db.Locks.State.{shared, exclusive, LockState}
use stoneleaf_db.Locks.Manager.{
  TxnManager, LockManagerStatus, returned, registered, Table, lock_shared, lock_exclusive, find,
  key_equal, key_hash, shard_of, new_waiter,
}
use stoneleaf_db.Locks.Manager
use stoneleaf_db.Locks.WaitForGraph.{
  WaitForGraph, path_exists, exists, links_of, search_loop, visit, add_edge, add_edges, all_allowed,
}
use stoneleaf_db.Locks.WaitForGraph.Paths.{Waits, path_exists-Waits}
use stoneleaf_db.Locks.Manager.Reachable.{empty_table}
use stoneleaf_db.Locks.Manager.Refused.{lock_shared_forgets}

-- A reader, a writer that also reads, and a reader wait while transaction 1 reads.
abbrev busy : LockState
busy = record {
  shared_owners = 1 ∷ [];
  exclusive_owner = none;
  waiters = new_waiter 2 shared ∷ new_waiter 3 exclusive ∷ new_waiter 4 shared ∷ [];
}

abbrev not_nine : ℕ → Bool
not_nine txn = not (txn == 9)

-- A manager without state that knows every transaction but number 9.
abbrev few : TxnManager
few = record {
  Manager = Unit {0};
  record_lock = λ m txn key mode. (m, not_nine txn);
  register_wait = λ m txn blockers. (m, registered);
  remove_wait = λ m txn. m;
}

abbrev a_key : Key
a_key = record { type = KeyType.bool; size = 1; payload = 1 ∷ [] }

abbrev after_one : Table few
after_one = (lock_shared few (empty_table few) 1 a_key).0

-- Transaction 1 reads the key.
abbrev read_by_one : LockState
read_by_one = record { shared_owners = 1 ∷ []; exclusive_owner = none; waiters = [] }

abbrev one_reader : Table few
one_reader = record { shards = λ i. (a_key, read_by_one) ∷ []; txn_mgr = some tt }

key_found : find a_key (one_reader.shards (shard_of few a_key)) ≡ some read_by_one
unfolding find key_equal
key_found = refl

stranger_absent : contains {A = ℕ} 9 (1 ∷ []) ≡ false
unfolding contains
stranger_absent = refl

reader_present : contains {A = ℕ} 1 (1 ∷ []) ≡ true
unfolding contains
reader_present = refl

lock_shared_forgets_example :
    ((lock_exclusive few one_reader 2 a_key).1 ≢ returned Manager.success)
    × ((lock_exclusive few (lock_shared few one_reader 9 a_key).0 2 a_key).1
        ≡ returned Manager.success)
lock_shared_forgets_example =
    lock_shared_forgets few one_reader a_key tt tt read_by_one 9 refl key_found refl refl
      stranger_absent refl 1 2 reader_present (omega arith) refl

-- 1 waits for 2, and 2 for 3.
abbrev chain : WaitForGraph
chain = record {
  outgoing_links = (1, 2 ∷ []) ∷ (2, 3 ∷ []) ∷ (3, []) ∷ [];
  incoming_links = (1, []) ∷ (2, 1 ∷ []) ∷ (3, 2 ∷ []) ∷ [];
}

chain_found : path_exists chain 1 3 ≡ true
unfolding path_exists exists links_of search_loop visit contains
chain_found = refl

cycle_refused : (add_edge chain 3 1).1 ≡ false
unfolding add_edge add_edges all_allowed path_exists exists links_of search_loop visit contains
cycle_refused = refl

path_exists-Waits_example : Waits chain.outgoing_links 1 3
path_exists-Waits_example = path_exists-Waits chain 1 3 chain_found
