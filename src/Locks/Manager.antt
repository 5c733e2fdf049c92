-- ===== src/Locks/Manager.antt =====
-- LockManager/LockManager.{h,cpp} and KeyHash.h. A request that has to wait answers `waits`: its
-- thread goes on when an unlock grants or cancels its waiter. Exceptions of the allocator are left
-- out. The transaction manager is an interface, since the table also runs without one.
pub mod Rounds
pub mod Safety
pub mod Reachable
pub mod Refused
use stoneleaf_db.Common.{
  ℕ, zero, suc, ◌+◌, ◌*◌, ◌%◌, ◌^◌, bit_xor, Bool, true, false, not, ◌&&◌, ◌||◌,
}
use stoneleaf_db.Common.{Option, none, some, List, [], ◌∷◌, ◌++◌, map, length, ◌==◌, if◌then◌else◌}
use stoneleaf_db.Common.Eq.{nat_eq}
use stoneleaf_db.Common.Sets.{contains, insert, erase}
use stoneleaf_db.Encoding.Key.{Key, type_code}
use stoneleaf_db.Locks.State.{
  LockMode, shared, exclusive, Waiter, LockState, unlocked, is_some, is_empty,
}
use stoneleaf_db.Locks.State.{grant_waiters}

pub data LockManagerStatus : Type 0 where
  success txn_holds_exclusive txn_holds_shared not_owner deadlock transaction_not_found :
      LockManagerStatus

pub data Outcome : Type 0 where
  returned : LockManagerStatus → Outcome
  waits : Outcome

pub data WaitRegistrationStatus : Type 0 where
  registered registration_deadlock no_transaction blocker_not_found : WaitRegistrationStatus

-- What LockManager.cpp calls of TransactionManager, over the manager's own state.
pub record TxnManager : Type 1 where
  pub Manager : Type 0
  pub record_lock : Manager → ℕ → Key → LockMode → Manager × Bool
  pub register_wait : Manager → ℕ → List ℕ → Manager × WaitRegistrationStatus
  pub remove_wait : Manager → ℕ → Manager

-- `hash ^= byte; hash *= prime;` of KeyHash
hash_byte : ℕ → ℕ → ℕ
hash_byte hash byte = bit_xor hash byte * 1099511628211 % 2 ^ 64

hash_bytes : ℕ → List ℕ → ℕ
unfolding hash_byte
hash_bytes hash [] = hash
hash_bytes hash (byte ∷ bytes) = hash_bytes (hash_byte hash byte) bytes

-- `KeyHash{}(key)`
unfoldable pub key_hash : Key → ℕ
unfolding hash_byte hash_bytes
key_hash key = hash_bytes (hash_byte 14695981039346656037 (type_code key.type)) key.payload

pub same_bytes : List ℕ → List ℕ → Bool
same_bytes [] [] = true
same_bytes [] (y ∷ ys) = false
same_bytes (x ∷ xs) [] = false
same_bytes (x ∷ xs) (y ∷ ys) = x == y && same_bytes xs ys

-- `KeyEqual{}(lhs, rhs)`
unfoldable pub key_equal : Key → Key → Bool
unfolding same_bytes
key_equal lhs rhs = type_code lhs.type == type_code rhs.type && same_bytes lhs.payload rhs.payload

-- `LockShard::states`
abbrev pub Shard : Type 0
Shard = List (Key × LockState)

unfoldable pub find : Key → Shard → Option LockState
find key [] = none
find key ((k, s) ∷ rest) = if key_equal k key then some s else find key rest

unfoldable pub remove : Key → Shard → Shard
remove key [] = []
remove key ((k, s) ∷ rest) = if key_equal k key then remove key rest else (k, s) ∷ remove key rest

abbrev pub or_unlocked : Option LockState → LockState
or_unlocked none = unlocked
or_unlocked (some s) = s

-- An entry that a call leaves behind: `none` where it erases the entry.
unfoldable pub store : Key → Option LockState → Shard → Shard
store key none shard = remove key shard
store key (some s) shard = (key, s) ∷ remove key shard

abbrev pub shard_count : ℕ
shard_count = 64

abbrev pub owner_is : Option ℕ → ℕ → Bool
owner_is none txn = false
owner_is (some t) txn = t == txn

abbrev pub owner_list : Option ℕ → List ℕ
owner_list none = []
owner_list (some t) = t ∷ []

abbrev pub new_waiter : ℕ → LockMode → Waiter
new_waiter txn mode = record { txn_id = txn; lock_mode = mode; granted = false; cancelled = false }

-- The waiters for an exclusive lock, in queue order.
unfoldable pub exclusive_waiters : List Waiter → List ℕ
exclusive_waiters [] = []
exclusive_waiters (w ∷ queue) = elim w.lock_mode [
  | exclusive ↦ w.txn_id ∷ exclusive_waiters queue
  | shared ↦ exclusive_waiters queue
]

module _ (T : TxnManager) where
  open T use {Manager, record_lock, register_wait, remove_wait}

  -- What a call does to its key's entry and to the transaction manager, if one is attached.
  pub record Effect : Type 0 where
    pub entry : Option LockState
    pub manager : Option Manager
    pub outcome : Outcome

  pub record Granting : Type 0 where
    pub state : LockState
    pub manager : Option Manager
    pub finished : List Waiter

  pub record Recording : Type 0 where
    pub state : LockState
    pub manager : Manager
    pub finished : List Waiter
    pub retry : Bool

  -- The queueing half of a request, which both modes share: push the waiter, register its edges, and
  -- pop it again if the manager refuses.
  enqueue : Option Manager → LockState → ℕ → LockMode → List ℕ → Effect
  enqueue none s txn mode blockers = record {
    entry = some (record s { waiters = s.waiters ++ new_waiter txn mode ∷ [] });
    manager = none;
    outcome = waits;
  }
  enqueue (some m) s txn mode blockers =
      let (m', answer) = register_wait m txn blockers in
      elim answer [
        | registered ↦ record {
          entry = some (record s { waiters = s.waiters ++ new_waiter txn mode ∷ [] });
          manager = some m';
          outcome = waits;
        }
        | registration_deadlock ↦ record {
          entry = some s;
          manager = some m';
          outcome = returned deadlock;
        }
        | _ ↦ record { entry = some s; manager = some m'; outcome = returned transaction_not_found }
      ]

  -- `record_lock`, where a manager is attached: `granted` is the entry if it agrees.
  record_or : Option Manager → ℕ → Key → LockMode → LockState → Option LockState → Effect
  record_or none txn key mode granted refused = record {
    entry = some granted;
    manager = none;
    outcome = returned success;
  }
  record_or (some m) txn key mode granted refused =
      let (m', recorded) = record_lock m txn key mode in
      if recorded
      then record { entry = some granted; manager = some m'; outcome = returned success }
      else record { entry = refused; manager = some m'; outcome = returned transaction_not_found }

  -- LockManager::lock_shared on the entry of its key. Where the manager refuses to record an
  -- immediate grant, the code erases the entry.
  pub lock_shared_entry : Option Manager → Key → ℕ → LockState → Effect
  unfolding enqueue record_or
  lock_shared_entry mgr key txn s =
      if contains txn s.shared_owners
      then record { entry = some s; manager = mgr; outcome = returned txn_holds_shared }
      else if owner_is s.exclusive_owner txn
      then record { entry = some s; manager = mgr; outcome = returned txn_holds_exclusive }
      else if not (is_some s.exclusive_owner) && is_empty s.waiters
      then record_or mgr txn key shared (record s { shared_owners = insert txn s.shared_owners })
          none
      else enqueue mgr s txn shared (owner_list s.exclusive_owner ++ exclusive_waiters s.waiters)

  -- LockManager::lock_exclusive on the entry of its key.
  pub lock_exclusive_entry : Option Manager → Key → ℕ → LockState → Effect
  unfolding enqueue record_or
  lock_exclusive_entry mgr key txn s =
      let promotion = contains txn s.shared_owners in
      let no_other = is_empty s.shared_owners || promotion && length s.shared_owners == 1 in
      if owner_is s.exclusive_owner txn
      then record { entry = some s; manager = mgr; outcome = returned txn_holds_exclusive }
      else if no_other && not (is_some s.exclusive_owner) && is_empty s.waiters
      then record_or mgr txn key exclusive
          (record s {
            shared_owners = if promotion then erase txn s.shared_owners else s.shared_owners;
            exclusive_owner = some txn;
          })
          (if promotion
            then some (record s {
              shared_owners = insert txn (erase txn s.shared_owners);
              exclusive_owner = none;
            })
            else none)
      else enqueue mgr s txn exclusive (
          owner_list s.exclusive_owner
          ++ (erase txn s.shared_owners ++ map (λ w. w.txn_id) s.waiters))

  -- Ownership that the manager would not record is taken back.
  take_back : LockState → Waiter → LockState
  take_back s w = elim w.lock_mode [
    | shared ↦ record s { shared_owners = erase w.txn_id s.shared_owners }
    | exclusive ↦
        if owner_is s.exclusive_owner w.txn_id then record s { exclusive_owner = none } else s
  ]

  -- The inner loop of LockManager::grant_waiters over the waiters just granted.
  record_granted : Key → Manager → LockState → List Waiter → Recording
  record_granted key m s [] = record { state = s; manager = m; finished = []; retry = false }
  record_granted key m s (w ∷ ws) =
      let (m1, recorded) = record_lock m w.txn_id key w.lock_mode in
      let m2 = remove_wait m1 w.txn_id in
      let s1 = if recorded then s else take_back s w in
      let w1 = if recorded then w else record w { granted = false; cancelled = true } in
      let rest = record_granted key m2 s1 ws in
      record rest { finished = w1 ∷ rest.finished; retry = not recorded || rest.retry }

  -- The `for (;;)` of LockManager::grant_waiters, on fuel; `done` are the waiters of earlier rounds.
  grant_rounds : ℕ → Key → Option Manager → LockState → List Waiter → Option Granting
  grant_rounds zero key mgr s done = none
  grant_rounds (suc fuel) key mgr s done =
      let (s1, granted) = grant_waiters s in
      if is_empty granted
      then some (record { state = s1; manager = mgr; finished = done })
      else elim mgr [
        | none ↦ some (record { state = s1; manager = none; finished = done ++ granted })
        | some m ↦
            let r = record_granted key m s1 granted in
            elim r.retry [
              | true ↦ grant_rounds fuel key (some r.manager) r.state (done ++ r.finished)
              | false ↦ some (record {
                state = r.state;
                manager = some r.manager;
                finished = done ++ r.finished;
              })
            ]
      ]

  -- A round that is followed by another has taken a waiter from the queue.
  pub grant_all : Key → Option Manager → LockState → Option Granting
  unfolding grant_rounds
  grant_all key mgr s = grant_rounds (suc (length s.waiters)) key mgr s []

  -- An entry that no one owns and no one waits for is erased.
  abbrev pub keep_used : LockState → Option LockState
  keep_used s =
      if not (is_some s.exclusive_owner) && is_empty s.waiters && is_empty s.shared_owners
      then none
      else some s

  -- What an unlock does: the entry, the manager, and the waiters whose threads go on.
  pub record Release : Type 0 where
    pub entry : Option LockState
    pub manager : Option Manager
    pub finished : List Waiter
    pub status : LockManagerStatus

  abbrev pub as_release : Option Granting → Option Release
  as_release none = none
  as_release (some g) = some (record {
    entry = keep_used g.state;
    manager = g.manager;
    finished = g.finished;
    status = success;
  })

  abbrev pub not_the_owner : Option Manager → Option LockState → Option Release
  not_the_owner mgr entry =
      some (record { entry = entry; manager = mgr; finished = []; status = not_owner })

  -- LockManager::unlock_shared on what `states.find(key)` gives.
  pub unlock_shared_entry : Option Manager → Key → ℕ → Option LockState → Option Release
  unfolding grant_all
  unlock_shared_entry mgr key txn none = not_the_owner mgr none
  unlock_shared_entry mgr key txn (some s) =
      if contains txn s.shared_owners
      then as_release (grant_all key mgr (record s { shared_owners = erase txn s.shared_owners }))
      else not_the_owner mgr (some s)

  -- LockManager::unlock_exclusive on what `states.find(key)` gives.
  pub unlock_exclusive_entry : Option Manager → Key → ℕ → Option LockState → Option Release
  unfolding grant_all
  unlock_exclusive_entry mgr key txn none = not_the_owner mgr none
  unlock_exclusive_entry mgr key txn (some s) =
      if owner_is s.exclusive_owner txn
      then as_release (grant_all key mgr (record s { exclusive_owner = none }))
      else not_the_owner mgr (some s)

  pub record Table : Type 0 where
    pub shards : ℕ → Shard
    pub txn_mgr : Option Manager

  abbrev pub shard_of : Key → ℕ
  shard_of key = key_hash key % shard_count

  abbrev pub store_in : Table → Key → Option LockState → Option Manager → Table
  store_in t key entry mgr = record {
    shards = λ i. if i == shard_of key then store key entry (t.shards i) else t.shards i;
    txn_mgr = mgr;
  }

  pub lock_shared : Table → ℕ → Key → Table × Outcome
  unfolding lock_shared_entry
  lock_shared t txn key =
      let e =
        lock_shared_entry t.txn_mgr key txn (or_unlocked (find key (t.shards (shard_of key)))) in
      (store_in t key e.entry e.manager, e.outcome)

  pub lock_exclusive : Table → ℕ → Key → Table × Outcome
  unfolding lock_exclusive_entry
  lock_exclusive t txn key =
      let e =
        lock_exclusive_entry t.txn_mgr key txn (or_unlocked (find key (t.shards (shard_of key)))) in
      (store_in t key e.entry e.manager, e.outcome)

  abbrev pub released :
      Table → Key → Option Release → Option (Table × List Waiter × LockManagerStatus)
  released t key none = none
  released t key (some r) = some (store_in t key r.entry r.manager, r.finished, r.status)

  pub unlock_shared : Table → ℕ → Key → Option (Table × List Waiter × LockManagerStatus)
  unfolding unlock_shared_entry
  unlock_shared t txn key =
      released t key (unlock_shared_entry t.txn_mgr key txn (find key (t.shards (shard_of key))))

  pub unlock_exclusive : Table → ℕ → Key → Option (Table × List Waiter × LockManagerStatus)
  unfolding unlock_exclusive_entry
  unlock_exclusive t txn key =
      released t key (unlock_exclusive_entry t.txn_mgr key txn (find key (t.shards (shard_of key))))
