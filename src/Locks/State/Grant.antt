-- ===== src/Locks/State/Grant.antt =====
-- What grant_waiters of LockManager/LockState.h does to a lock.
use mathlib.Core.List.{append_assoc, map-append}
use stoneleaf_db.Common.{ℕ, ◌≤◌, true, false, not, ◌||◌, Option, none, some}
use stoneleaf_db.Common.{
  List, [], ◌∷◌, ◌++◌, map, length, length-append, All, All-append, if◌then◌else◌,
}
use stoneleaf_db.Common.{◌≡◌, refl, sym, ap, ◌∙◌, ◌⊎◌, inl, inr, arith, Bool-cases}
use stoneleaf_db.Common.Eq.{nat_eq}
use stoneleaf_db.Common.Sets.{contains, insert, erase, contains-insert, IsSetList}
use stoneleaf_db.Common.Sets.{insert-IsSetList}
use stoneleaf_db.Locks.State.{LockMode, shared, exclusive, Waiter, LockState, is_some, is_empty}
use stoneleaf_db.Locks.State.{only_shared, mark_granted, grant_loop, grant_waiters}

-- A lock that is owned exclusively has no other owner, and no owner is listed twice.
pub record IsExclusive (s : LockState) : Type 0 where
  pub alone : is_some s.exclusive_owner ≡ true → s.shared_owners ≡ []
  pub listed_once : IsSetList s.shared_owners

-- No waiter could be granted the lock.
abbrev pub IsSettled : LockState → Type 0
IsSettled s = (grant_waiters s).1 ≡ []

erase_only : (txn : ℕ) (owners : List ℕ) → only_shared txn owners ≡ true → erase txn owners ≡ []
unfolding erase contains
erase_only txn [] h = refl
erase_only txn (x ∷ []) h = ground arith
erase_only txn (x ∷ y ∷ owners) h = absurd (ground arith)

pub promoted_owners :
    (txn : ℕ) (owners : List ℕ)
    → (is_empty owners || only_shared txn owners) ≡ true
    → (if only_shared txn owners then erase txn owners else owners) ≡ []
promoted_owners txn [] h = refl
promoted_owners txn (x ∷ owners) h = ground (arith, erase_only txn (x ∷ owners))

-- The front of the queue is shared, or exclusive and grantable, or exclusive and blocked.
data Front (owners : List ℕ) (w : Waiter) : Type 0 where
  reader : w.lock_mode ≡ shared → Front owners w
  writer :
      w.lock_mode ≡ exclusive
      → (is_empty owners || only_shared w.txn_id owners) ≡ true
      → Front owners w
  blocked :
      w.lock_mode ≡ exclusive
      → (is_empty owners || only_shared w.txn_id owners) ≡ false
      → Front owners w

LockMode-cases : (m : LockMode) → (m ≡ shared) ⊎ (m ≡ exclusive)
LockMode-cases shared = inl refl
LockMode-cases exclusive = inr refl

front : (owners : List ℕ) (w : Waiter) → Front owners w
front owners w = elim (LockMode-cases w.lock_mode) [
  | inl e ↦ reader e
  | inr e ↦ elim (Bool-cases (is_empty owners || only_shared w.txn_id owners)) [
    | inl t ↦ writer e t
    | inr f ↦ blocked e f
  ]
]

loop_nil :
    (owners : List ℕ) (done : List Waiter)
    → grant_loop owners [] done
      ≡ (record { shared_owners = owners; exclusive_owner = none; waiters = [] }, done)
unfolding grant_loop
loop_nil owners done = refl

module _ (owners : List ℕ) (w : Waiter) (queue done : List Waiter) where
  loop_reader :
      w.lock_mode ≡ shared
      → grant_loop owners (w ∷ queue) done
        ≡ grant_loop (insert w.txn_id owners) queue (done ++ mark_granted w ∷ [])
  unfolding grant_loop
  loop_reader e = ground arith

  loop_writer :
      w.lock_mode ≡ exclusive
      → (is_empty owners || only_shared w.txn_id owners) ≡ true
      → grant_loop owners (w ∷ queue) done ≡ (
        record { shared_owners = []; exclusive_owner = some w.txn_id; waiters = queue },
        done ++ mark_granted w ∷ [],
      )
  unfolding grant_loop
  loop_writer e t = ground (arith, promoted_owners w.txn_id owners t)

  loop_blocked :
      w.lock_mode ≡ exclusive
      → (is_empty owners || only_shared w.txn_id owners) ≡ false
      → grant_loop owners (w ∷ queue) done
        ≡ (record { shared_owners = owners; exclusive_owner = none; waiters = w ∷ queue }, done)
  unfolding grant_loop
  loop_blocked e f = ground arith

grant_loop-IsExclusive :
    (owners : List ℕ) (queue done : List Waiter)
    → IsSetList owners
    → IsExclusive (grant_loop owners queue done).0
grant_loop-IsExclusive owners [] done h =
    unfold grant_loop in record { alone = λ e. cc; listed_once = h }
grant_loop-IsExclusive owners (w ∷ queue) done h = elim (front owners w) [
  | reader e ↦ rw (loop_reader owners w queue done e) (
      grant_loop-IsExclusive (insert w.txn_id owners) queue (done ++ mark_granted w ∷ [])
        (insert-IsSetList w.txn_id owners h))
  | writer e t ↦
      rw (loop_writer owners w queue done e t) (record { alone = λ _. refl; listed_once = tt })
  | blocked e f ↦
      rw (loop_blocked owners w queue done e f) (record { alone = λ c. cc; listed_once = h })
]

-- Where the loop stops with waiters left, the front one is blocked.
grant_loop-IsSettled :
    (owners : List ℕ) (queue done : List Waiter) → IsSettled (grant_loop owners queue done).0
unfolding grant_waiters
grant_loop-IsSettled owners [] done = unfold grant_loop in refl
grant_loop-IsSettled owners (w ∷ queue) done = elim (front owners w) [
  | reader e ↦
      rw (loop_reader owners w queue done e)
        (grant_loop-IsSettled (insert w.txn_id owners) queue (done ++ mark_granted w ∷ []))
  | writer e t ↦ rw (loop_writer owners w queue done e t)
  | blocked e f ↦
      rw (loop_blocked owners w queue done e f) (rw (loop_blocked owners w queue [] e f))
]

-- What a waiter asked for.
abbrev pub request : Waiter → ℕ × LockMode
request w = (w.txn_id, w.lock_mode)

grant_loop-fifo :
    (owners : List ℕ) (queue done : List Waiter)
    → map request (grant_loop owners queue done).1
        ++ map request (grant_loop owners queue done).0.waiters
      ≡ map request done ++ map request queue
grant_loop-fifo owners [] done = unfold grant_loop in refl
grant_loop-fifo owners (w ∷ queue) done = elim (front owners w) [
  | reader e ↦ rw (loop_reader owners w queue done e) (
      grant_loop-fifo (insert w.txn_id owners) queue (done ++ mark_granted w ∷ [])
      ∙ simp (map-append, append_assoc))
  | writer e t ↦ rw (loop_writer owners w queue done e t) (simp (map-append, append_assoc))
  | blocked e f ↦ rw (loop_blocked owners w queue done e f) refl
]

-- What a transaction owns is at least a shared lock.
abbrev pub IsOwner : LockState → ℕ → Type 0
IsOwner s txn = (s.exclusive_owner ≡ some txn) ⊎ (contains txn s.shared_owners ≡ true)

-- The owner has at least what the waiter asked for.
abbrev pub Holds : LockState → Waiter → Type 0
Holds s w = (s.exclusive_owner ≡ some w.txn_id) ⊎ ((w.lock_mode ≡ shared) × IsOwner s w.txn_id)

only_is :
    (t txn : ℕ) (owners : List ℕ)
    → only_shared txn owners ≡ true
    → contains t owners ≡ true
    → t ≡ txn
unfolding contains
only_is t txn [] h k = cc
only_is t txn (x ∷ []) h k = ground arith
only_is t txn (x ∷ y ∷ owners) h k = absurd (ground arith)

writer_is :
    (t txn : ℕ) (owners : List ℕ)
    → (is_empty owners || only_shared txn owners) ≡ true
    → contains t owners ≡ true
    → t ≡ txn
writer_is t txn [] h k = absurd (unfold contains in cc)
writer_is t txn (x ∷ owners) h k = only_is t txn (x ∷ owners) h k

-- No owner loses the lock.
grant_loop-IsOwner :
    (t : ℕ) (owners : List ℕ) (queue done : List Waiter)
    → contains t owners ≡ true
    → IsOwner (grant_loop owners queue done).0 t
grant_loop-IsOwner t owners [] done h = unfold grant_loop in inr h
grant_loop-IsOwner t owners (w ∷ queue) done h = elim (front owners w) [
  | reader e ↦ rw (loop_reader owners w queue done e) (
      grant_loop-IsOwner t (insert w.txn_id owners) queue (done ++ mark_granted w ∷ [])
        (ground (arith, contains-insert w.txn_id t owners)))
  | writer e f ↦
      rw (loop_writer owners w queue done e f)
        (inl (ap some (sym (writer_is t w.txn_id owners f h))))
  | blocked e f ↦ rw (loop_blocked owners w queue done e f) (inr h)
]

abbrev ReadsIn : List ℕ → Waiter → Type 0
ReadsIn owners v = (v.lock_mode ≡ shared) × (contains v.txn_id owners ≡ true)

ReadsIn-insert :
    (txn : ℕ) (owners : List ℕ) (done : List Waiter)
    → All (ReadsIn owners) done
    → All (ReadsIn (insert txn owners)) done
ReadsIn-insert txn owners [] h = tt
ReadsIn-insert txn owners (v ∷ done) (h, hs) =
    ((h.0, ground (arith, contains-insert txn v.txn_id owners)), ReadsIn-insert txn owners done hs)

ReadsIn-Holds :
    (s : LockState) (owners : List ℕ) (done : List Waiter)
    → ((t : ℕ) → contains t owners ≡ true → IsOwner s t)
    → All (ReadsIn owners) done
    → All (Holds s) done
ReadsIn-Holds s owners [] keep h = tt
ReadsIn-Holds s owners (v ∷ done) keep (h, hs) =
    (inr (h.0, keep v.txn_id h.1), ReadsIn-Holds s owners done keep hs)

abbrev pub lock : List ℕ → Option ℕ → List Waiter → LockState
lock owners owner queue = record {
  shared_owners = owners;
  exclusive_owner = owner;
  waiters = queue;
}

-- Every waiter that was granted owns what it asked for.
grant_loop-Holds :
    (owners : List ℕ) (queue done : List Waiter)
    → All (ReadsIn owners) done
    → All (Holds (grant_loop owners queue done).0) (grant_loop owners queue done).1
grant_loop-Holds owners [] done h =
    rw (loop_nil owners done) (ReadsIn-Holds (lock owners none []) owners done (λ t c. inr c) h)
grant_loop-Holds owners (w ∷ queue) done h = elim (front owners w) [
  | reader e ↦ rw (loop_reader owners w queue done e) (
      grant_loop-Holds (insert w.txn_id owners) queue (done ++ mark_granted w ∷ []) (
        All-append (ReadsIn (insert w.txn_id owners)) done (mark_granted w ∷ [])
          (ReadsIn-insert w.txn_id owners done h)
          ((e, ground (arith, contains-insert w.txn_id w.txn_id owners)), tt)))
  | writer e f ↦ rw (loop_writer owners w queue done e f) (
      All-append (Holds (lock [] (some w.txn_id) queue)) done (mark_granted w ∷ [])
        (ReadsIn-Holds (lock [] (some w.txn_id) queue) owners done
          (λ t c. inl (ap some (sym (writer_is t w.txn_id owners f c)))) h)
        (inl refl, tt))
  | blocked e f ↦
      rw (loop_blocked owners w queue done e f)
        (ReadsIn-Holds (lock owners none (w ∷ queue)) owners done (λ t c. inr c) h)
]

-- Granting keeps a lock exclusive, leaves no waiter that could be granted, takes the lock from no
-- owner and serves the queue in order: the granted waiters are its front, each owns what it asked
-- for, and the others keep their places.
pub record Granted (s r : LockState) (granted : List Waiter) : Type 0 where
  pub exclusive : IsExclusive r
  pub settled : IsSettled r
  pub in_order : map request granted ++ map request r.waiters ≡ map request s.waiters
  pub served : All (Holds r) granted
  pub kept : (t : ℕ) → IsOwner s t → IsOwner r t

pub grant_waiters-Granted :
    (s : LockState) → IsExclusive s → Granted s (grant_waiters s).0 (grant_waiters s).1
grant_waiters-Granted s h = elim (Bool-cases (is_some s.exclusive_owner || is_empty s.waiters)) [
  | inl idle ↦ rw (grant_idle idle) (record {
    exclusive = h;
    settled = ap (λ (p : LockState × List Waiter). p.1) (grant_idle idle);
    in_order = refl;
    served = tt;
    kept = λ t o. o;
  })
  | inr busy ↦ rw (grant_busy busy) (record {
    exclusive = grant_loop-IsExclusive s.shared_owners s.waiters [] h.listed_once;
    settled = grant_loop-IsSettled s.shared_owners s.waiters [];
    in_order = grant_loop-fifo s.shared_owners s.waiters [];
    served = grant_loop-Holds s.shared_owners s.waiters [] tt;
    kept = λ t o. grant_loop-IsOwner t s.shared_owners s.waiters [] (ground arith);
  })
]
  where
    grant_idle :
        (is_some s.exclusive_owner || is_empty s.waiters) ≡ true → grant_waiters s ≡ (s, [])
    grant_idle e = unfold grant_waiters in rw e

    grant_busy :
        (is_some s.exclusive_owner || is_empty s.waiters) ≡ false
        → grant_waiters s ≡ grant_loop s.shared_owners s.waiters []
    grant_busy e = unfold grant_waiters in rw e

-- A waiter once granted stays among the granted.
grant_loop-done :
    (owners : List ℕ) (queue done : List Waiter)
    → length done ≤ length (grant_loop owners queue done).1
grant_loop-done owners [] done = rw (loop_nil owners done) (omega arith)
grant_loop-done owners (w ∷ queue) done = elim (front owners w) [
  | reader e ↦ rw (loop_reader owners w queue done e) (
      omega (
        arith,
        length-append done (mark_granted w ∷ []),
        grant_loop-done (insert w.txn_id owners) queue (done ++ mark_granted w ∷ []),
      ))
  | writer e f ↦
      rw (loop_writer owners w queue done e f)
        (omega (arith, length-append done (mark_granted w ∷ [])))
  | blocked e f ↦ rw (loop_blocked owners w queue done e f) (omega arith)
]

blocked_push :
    (owners : List ℕ) (w v : Waiter) (queue : List Waiter)
    → (grant_loop owners (w ∷ queue) []).1 ≡ []
    → (grant_loop owners (w ∷ (queue ++ v ∷ [])) []).1 ≡ []
blocked_push owners w v queue h = elim (front owners w) [
  | reader e ↦ absurd (
      omega (
        arith,
        grant_loop-done (insert w.txn_id owners) queue (mark_granted w ∷ []),
        ap (length {A = Waiter}) (rw (loop_reader owners w queue [] e) at h),
      ))
  | writer e f ↦
      absurd (omega (arith, ap (length {A = Waiter}) (rw (loop_writer owners w queue [] e f) at h)))
  | blocked e f ↦ rw (loop_blocked owners w (queue ++ v ∷ []) [] e f)
]

-- A waiter that joins behind an exclusive owner or behind other waiters cannot be granted.
pub IsSettled-push :
    (owners : List ℕ) (owner : Option ℕ) (queue : List Waiter) (v : Waiter)
    → (is_some owner || not (is_empty queue)) ≡ true
    → IsSettled (lock owners owner queue)
    → IsSettled (lock owners owner (queue ++ v ∷ []))
unfolding grant_waiters
IsSettled-push owners (some t) queue v e h = refl
IsSettled-push owners none [] v e h = cc
IsSettled-push owners none (w ∷ queue) v e h = blocked_push owners w v queue h

-- An exclusive request that other shared owners block is settled.
pub IsSettled-blocked :
    (owners : List ℕ) (v : Waiter)
    → v.lock_mode ≡ exclusive
    → (is_empty owners || only_shared v.txn_id owners) ≡ false
    → IsSettled (lock owners none (v ∷ []))
unfolding grant_waiters
IsSettled-blocked owners v e f = rw (loop_blocked owners v [] [] e f)
