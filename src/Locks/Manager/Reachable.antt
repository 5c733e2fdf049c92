-- ===== src/Locks/Manager/Reachable.antt =====
-- Tables that calls of LockManager.cpp reach, in any order and by any threads: each call holds its
-- shard's mutex throughout, so the calls follow one another.
use stoneleaf_db.Common.{ℕ, Option, none, some, List, [], All}
use stoneleaf_db.Common.{◌≡◌}
use stoneleaf_db.Encoding.Key.{Key}
use stoneleaf_db.Locks.State.{Waiter}
use stoneleaf_db.Locks.Manager.{TxnManager, Table, Shard, LockManagerStatus}
use stoneleaf_db.Locks.Manager.{lock_shared, lock_exclusive, unlock_shared, unlock_exclusive}
use stoneleaf_db.Locks.Manager.Safety.{IsGood}

abbrev IsGoodShard : Shard → Type 0
IsGoodShard = All (λ entry. IsGood entry.1)

module _ (T : TxnManager) where
  open T use {Manager}

  -- Every lock of the table is exclusive and settled.
  abbrev pub IsGoodTable : Table T → Type 0
  IsGoodTable t = (i : ℕ) → IsGoodShard (t.shards i)

  -- What a call gives, where it does not fail to end.
  abbrev pub Answer : Type 0
  Answer = Table T × List Waiter × LockManagerStatus

  -- A call, or a change of the transaction manager by itself.
  pub data Step (t : Table T) : Table T → Type 0 where
    locks_shared : (txn : ℕ) (key : Key) → Step t (lock_shared T t txn key).0
    locks_exclusive : (txn : ℕ) (key : Key) → Step t (lock_exclusive T t txn key).0
    unlocks_shared :
        (txn : ℕ) (key : Key) (r : Answer) → unlock_shared T t txn key ≡ some r → Step t r.0
    unlocks_exclusive :
        (txn : ℕ) (key : Key) (r : Answer) → unlock_exclusive T t txn key ≡ some r → Step t r.0
    manages : (m : Option Manager) → Step t (record t { txn_mgr = m })

  pub data Reach (t : Table T) : Table T → Type 0 where
    here : Reach t t
    next : {u v : Table T} → Reach t u → Step u v → Reach t v

  -- A new LockManager.
  abbrev pub empty_table : Table T
  empty_table = record { shards = λ i. []; txn_mgr = none }

  -- An unlock ends, and leaves a good table.
  abbrev EndsIn : Option Answer → Type 0
  EndsIn r = (a : Answer) × (r ≡ some a) × IsGoodTable a.0
