-- ===== src/Locks/State.antt =====
-- LockManager/LockMode.h, Waiter.h and LockState.h: the lock of one key. The condition variable is
-- left out: a waiter that is granted or cancelled is one that the next notification lets go on.
pub mod Grant
use stoneleaf_db.Common.{ℕ, zero, suc, Bool, true, false, ◌&&◌, ◌||◌, Option, none, some}
use stoneleaf_db.Common.{List, [], ◌∷◌, ◌++◌, length, ◌==◌, if◌then◌else◌}
use stoneleaf_db.Common.Eq.{nat_eq}
use stoneleaf_db.Common.Sets.{contains, insert, erase}

pub data LockMode : Type 0 where
  shared exclusive : LockMode

pub record Waiter : Type 0 where
  pub txn_id : ℕ
  pub lock_mode : LockMode
  pub granted : Bool
  pub cancelled : Bool

pub record LockState : Type 0 where
  pub shared_owners : List ℕ
  pub exclusive_owner : Option ℕ
  pub waiters : List Waiter

-- `LockState{}`
abbrev pub unlocked : LockState
unlocked = record { shared_owners = []; exclusive_owner = none; waiters = [] }

abbrev pub is_some {ℓ} : {A : Type ℓ} → Option A → Bool
is_some none = false
is_some (some a) = true

abbrev pub is_empty {ℓ} : {A : Type ℓ} → List A → Bool
is_empty [] = true
is_empty (x ∷ xs) = false

abbrev pub mark_granted : Waiter → Waiter
mark_granted w = record w { granted = true }

-- A promoting waiter may replace its own shared lock once it is the only one.
abbrev pub only_shared : ℕ → List ℕ → Bool
only_shared txn owners = length owners == 1 && contains txn owners

-- The `while (!queue.empty())` of grant_waiters, where no one owns the lock exclusively: the owners,
-- the queue and the waiters granted so far.
unfoldable pub grant_loop : List ℕ → List Waiter → List Waiter → LockState × List Waiter
grant_loop owners [] done =
    (record { shared_owners = owners; exclusive_owner = none; waiters = [] }, done)
grant_loop owners (w ∷ queue) done = elim w.lock_mode [
  | exclusive ↦
      if is_empty owners || only_shared w.txn_id owners
      then (
        record {
          shared_owners = if only_shared w.txn_id owners then erase w.txn_id owners else owners;
          exclusive_owner = some w.txn_id;
          waiters = queue;
        },
        done ++ mark_granted w ∷ [],
      )
      else (record { shared_owners = owners; exclusive_owner = none; waiters = w ∷ queue }, done)
  | shared ↦ grant_loop (insert w.txn_id owners) queue (done ++ mark_granted w ∷ [])
]

-- The new state and the waiters that were granted, in order.
unfoldable pub grant_waiters : LockState → LockState × List Waiter
unfolding grant_loop
grant_waiters state =
    if is_some state.exclusive_owner || is_empty state.waiters
    then (state, [])
    else grant_loop state.shared_owners state.waiters []
