-- ===== src/Locks/Manager/Refused.antt =====
-- lock_shared of LockManager.cpp where the transaction manager does not know the transaction: the
-- code erases the whole entry of the key, also when other transactions share the lock.
use stoneleaf_db.Common.{
  ℕ, true, false, ◌&&◌, Option, none, some, List, [], ◌∷◌, ◌==◌, if◌then◌else◌,
}
use stoneleaf_db.Common.{◌≡◌, ◌≢◌, refl, sym, length, eq_self, ◌||◌, ◌∙◌, arith}
use stoneleaf_db.Common.Eq.{nat_eq}
use stoneleaf_db.Common.Sets.{contains}
use stoneleaf_db.Encoding.Key.{Key}
use stoneleaf_db.Locks.State.{shared, exclusive, LockState, unlocked, is_empty}
use stoneleaf_db.Locks.Manager.{TxnManager, Table, find, remove, store, shard_of, or_unlocked}
use stoneleaf_db.Locks.Manager.{
  lock_shared, lock_exclusive, lock_shared_entry, lock_exclusive_entry,
}
use stoneleaf_db.Locks.Manager.{returned, success, transaction_not_found}

find-remove : (key : Key) (shard : List (Key × LockState)) → find key (remove key shard) ≡ none
unfolding find remove
find-remove key [] = refl
find-remove key ((k, s) ∷ rest) = ground (arith, find-remove key rest)

-- Where someone else owns the lock too, a request is not the only owner's.
not_alone :
    (owner taker : ℕ) (owners : List ℕ)
    → contains owner owners ≡ true
    → owner ≢ taker
    → (is_empty owners || contains taker owners && length owners == 1) ≡ false
unfolding contains
not_alone owner taker [] h k = cc
not_alone owner taker (x ∷ []) h k = ground arith
not_alone owner taker (x ∷ y ∷ owners) h k = ground arith

module _ (T : TxnManager) where
  open T use {Manager, record_lock}

  -- The entry of a key.
  abbrev pub entry_at : Table T → Key → Option LockState
  entry_at t key = find key (t.shards (shard_of T key))

  exclusive_outcome :
      (t : Table T) (txn : ℕ) (key : Key)
      → (lock_exclusive T t txn key).1
        ≡ (lock_exclusive_entry T t.txn_mgr key txn (or_unlocked (entry_at t key))).outcome
  unfolding lock_exclusive
  exclusive_outcome t txn key = refl

  on_unlocked :
      (m : Manager) (key : Key) (txn : ℕ)
      → (record_lock m txn key exclusive).1 ≡ true
      → (lock_exclusive_entry T (some m) key txn unlocked).outcome ≡ returned success
  unfolding lock_exclusive_entry contains
  on_unlocked m key txn h = rw h

  behind_owner :
      (mgr : Option Manager) (key : Key) (owner taker : ℕ) (s : LockState)
      → s.exclusive_owner ≡ none
      → contains owner s.shared_owners ≡ true
      → owner ≢ taker
      → (lock_exclusive_entry T mgr key taker s).outcome ≢ returned success
  unfolding lock_exclusive_entry
  behind_owner mgr key owner taker s free own other e =
      ground (arith, not_alone owner taker s.shared_owners own other)

  module _ (t : Table T) (key : Key) (m m' : Manager) (s : LockState) (stranger : ℕ)
      (attached : t.txn_mgr ≡ some m) (entry : entry_at t key ≡ some s)
      (no_exclusive : s.exclusive_owner ≡ none) (no_waiters : s.waiters ≡ [])
      (not_owner : contains stranger s.shared_owners ≡ false)
      (refuses : record_lock m stranger key shared ≡ (m', false)) where
    refused_entry :
        lock_shared_entry T t.txn_mgr key stranger (or_unlocked (entry_at t key))
        ≡ record { entry = none; manager = some m'; outcome = returned transaction_not_found }
    unfolding lock_shared_entry
    refused_entry = rw (attached, entry) (rw (not_owner, no_exclusive, no_waiters) (rw refuses))

    after_refusal : (lock_shared T t stranger key).0 ≡ record {
      shards = λ i. if i == shard_of T key then remove key (t.shards i) else t.shards i;
      txn_mgr = some m';
    }
    unfolding lock_shared store
    after_refusal = rw refused_entry

    entry_after : entry_at (lock_shared T t stranger key).0 key ≡ none
    entry_after = rw (after_refusal, eq_self (shard_of T key)) (find-remove key _)

    manager_after : (lock_shared T t stranger key).0.txn_mgr ≡ some m'
    manager_after = rw after_refusal

    -- Where no one owns a lock exclusively or waits for it, and the transaction manager refuses to
    -- record a shared lock for a transaction that does not own the lock, another owner's lock is
    -- forgotten: an exclusive request of a transaction that is not that owner, which the manager
    -- records, does not succeed before that and succeeds after it.
    pub lock_shared_forgets :
        (owner taker : ℕ)
        → contains owner s.shared_owners ≡ true
        → owner ≢ taker
        → (record_lock m' taker key exclusive).1 ≡ true
        → ((lock_exclusive T t taker key).1 ≢ returned success)
          × ((lock_exclusive T (lock_shared T t stranger key).0 taker key).1 ≡ returned success)
    lock_shared_forgets owner taker own other records = (
      λ granted.
          behind_owner (some m) key owner taker s no_exclusive own other
            (rw (attached, entry) at (sym (exclusive_outcome t taker key) ∙ granted)),
      exclusive_outcome _ taker key
          ∙ rw (manager_after, entry_after) (on_unlocked m' key taker records),
    )
