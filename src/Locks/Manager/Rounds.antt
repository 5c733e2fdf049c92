-- ===== src/Locks/Manager/Rounds.antt =====
-- LockManager::grant_waiters: its loop ends, and a lock stays well-formed through it.
use stoneleaf_db.Common.{ℕ, zero, suc, ◌+◌, ◌≤◌, ◌<◌, Bool, true, false, Option, none, some}
use stoneleaf_db.Common.{List, [], ◌∷◌, ◌++◌, map, length, length-append, if◌then◌else◌}
use stoneleaf_db.Common.{◌≡◌, refl, ap, ◌∙◌, ◌⊎◌, inl, inr, arith, Bool-cases}
use stoneleaf_db.Common.Eq.{nat_eq}
use stoneleaf_db.Common.Sets.{erase, erase-IsSetList}
use stoneleaf_db.Encoding.Key.{Key}
use stoneleaf_db.Locks.State.{
  LockMode, shared, exclusive, Waiter, LockState, is_empty, grant_waiters,
}
use stoneleaf_db.Locks.State.Grant.{IsExclusive, IsSettled, grant_waiters-Granted, request}
use stoneleaf_db.Locks.Manager.{
  TxnManager, Granting, Recording, owner_is, take_back, record_granted,
}
use stoneleaf_db.Locks.Manager.{grant_rounds, grant_all}

LockMode-cases : (m : LockMode) → (m ≡ shared) ⊎ (m ≡ exclusive)
LockMode-cases shared = inl refl
LockMode-cases exclusive = inr refl

length-map {ℓ κ} :
    {A : Type ℓ} {B : Type κ} (f : A → B) (xs : List A) → length (map f xs) ≡ length xs
length-map f [] = refl
length-map f (x ∷ xs) = ap suc (length-map f xs)

erase-nil : (txn : ℕ) (owners : List ℕ) → owners ≡ [] → erase txn owners ≡ []
unfolding erase
erase-nil txn owners e = rw e

module _ (T : TxnManager) where
  open T use {Manager, record_lock, remove_wait}

  take_back-IsExclusive :
      (s : LockState) (w : Waiter) → IsExclusive s → IsExclusive (take_back T s w)
  unfolding take_back
  take_back-IsExclusive s w h = elim (LockMode-cases w.lock_mode) [
    | inl e ↦ rw e (record {
      alone = λ o. erase-nil w.txn_id s.shared_owners (h.alone o);
      listed_once = erase-IsSetList w.txn_id s.shared_owners h.listed_once;
    })
    | inr e ↦ rw e (elim (Bool-cases (owner_is s.exclusive_owner w.txn_id)) [
      | inl own ↦ rw own (record { alone = λ o. cc; listed_once = h.listed_once })
      | inr other ↦ rw other h
    ])
  ]

  take_back-waiters : (s : LockState) (w : Waiter) → (take_back T s w).waiters ≡ s.waiters
  unfolding take_back
  take_back-waiters s w = ground arith

  kept_or_back :
      (b : Bool) (s : LockState) (w : Waiter)
      → IsExclusive s
      → IsExclusive (if b then s else take_back T s w)
  kept_or_back true s w h = h
  kept_or_back false s w h = take_back-IsExclusive s w h

  kept_or_back-waiters :
      (b : Bool) (s : LockState) (w : Waiter)
      → (if b then s else take_back T s w).waiters ≡ s.waiters
  kept_or_back-waiters true s w = refl
  kept_or_back-waiters false s w = take_back-waiters s w

  -- The entry and the manager after the first of the granted waiters.
  abbrev next_state : Key → Manager → LockState → Waiter → LockState
  next_state key m s w = if (record_lock m w.txn_id key w.lock_mode).1 then s else take_back T s w

  abbrev next_manager : Key → Manager → Waiter → Manager
  next_manager key m w = remove_wait (record_lock m w.txn_id key w.lock_mode).0 w.txn_id

  record_granted-IsExclusive :
      (key : Key) (m : Manager) (s : LockState) (ws : List Waiter)
      → IsExclusive s
      → IsExclusive (record_granted T key m s ws).state
  unfolding record_granted
  record_granted-IsExclusive key m s [] h = h
  record_granted-IsExclusive key m s (w ∷ ws) h =
      record_granted-IsExclusive key (next_manager key m w) (next_state key m s w) ws
        (kept_or_back (record_lock m w.txn_id key w.lock_mode).1 s w h)

  record_granted-waiters :
      (key : Key) (m : Manager) (s : LockState) (ws : List Waiter)
      → (record_granted T key m s ws).state.waiters ≡ s.waiters
  unfolding record_granted
  record_granted-waiters key m s [] = refl
  record_granted-waiters key m s (w ∷ ws) =
      record_granted-waiters key (next_manager key m w) (next_state key m s w) ws
      ∙ kept_or_back-waiters (record_lock m w.txn_id key w.lock_mode).1 s w

  -- Where every grant is recorded, the entry stays.
  record_granted-state :
      (key : Key) (m : Manager) (s : LockState) (ws : List Waiter)
      → (record_granted T key m s ws).retry ≡ false
      → (record_granted T key m s ws).state ≡ s
  unfolding record_granted
  record_granted-state key m s [] h = refl
  record_granted-state key m s (w ∷ ws) h =
      elim (Bool-cases (record_lock m w.txn_id key w.lock_mode).1) [
        | inl good ↦
            record_granted-state key (next_manager key m w) (next_state key m s w) ws (ground arith)
            ∙ rw good
        | inr bad ↦ absurd (ground arith)
      ]

  -- What a finished loop leaves.
  pub record IsGranting (s : LockState) (g : Granting T) : Type 0 where
    pub exclusive : IsExclusive g.state
    pub settled : IsSettled g.state
    pub no_new_waiters : length g.state.waiters ≤ length s.waiters

  fewer_waiters :
      (s : LockState)
      → IsExclusive s
      → length (grant_waiters s).1 + length (grant_waiters s).0.waiters ≡ length s.waiters
  fewer_waiters s h =
      let fifo = (grant_waiters-Granted s h).in_order in
      omega (
        arith,
        ap (length {A = ℕ × LockMode}) fifo,
        length-append (map request (grant_waiters s).1) (map request (grant_waiters s).0.waiters),
        length-map request (grant_waiters s).1,
        length-map request (grant_waiters s).0.waiters,
        length-map request s.waiters,
      )

  some_granted : (ws : List Waiter) → is_empty ws ≡ false → 1 ≤ length ws
  some_granted [] h = cc
  some_granted (w ∷ ws) h = omega arith

  none_granted : (ws : List Waiter) → is_empty ws ≡ true → ws ≡ []
  none_granted [] h = refl
  none_granted (w ∷ ws) h = cc

  -- One round, by its four ways to go on.
  module _ (fuel : ℕ) (key : Key) (s : LockState) (done : List Waiter) where
    round_stop :
        (mgr : Option Manager)
        → is_empty (grant_waiters s).1 ≡ true
        → grant_rounds T (suc fuel) key mgr s done
          ≡ some (record { state = (grant_waiters s).0; manager = mgr; finished = done })
    unfolding grant_rounds
    round_stop mgr e = rw e

    round_detached :
        is_empty (grant_waiters s).1 ≡ false
        → grant_rounds T (suc fuel) key none s done
          ≡ some (record {
            state = (grant_waiters s).0;
            manager = none;
            finished = done ++ (grant_waiters s).1;
          })
    unfolding grant_rounds
    round_detached e = rw e

    abbrev recorded : Manager → Recording T
    recorded m = record_granted T key m (grant_waiters s).0 (grant_waiters s).1

    round_last :
        (m : Manager)
        → is_empty (grant_waiters s).1 ≡ false
        → (recorded m).retry ≡ false
        → grant_rounds T (suc fuel) key (some m) s done
          ≡ some (record {
            state = (recorded m).state;
            manager = some (recorded m).manager;
            finished = done ++ (recorded m).finished;
          })
    unfolding grant_rounds
    round_last m e r = rw e (rw r)

    round_again :
        (m : Manager)
        → is_empty (grant_waiters s).1 ≡ false
        → (recorded m).retry ≡ true
        → grant_rounds T (suc fuel) key (some m) s done
          ≡ grant_rounds T fuel key
              (some (recorded m).manager)
              (recorded m).state
              (done ++ (recorded m).finished)
    unfolding grant_rounds
    round_again m e r = rw e (rw r)

  -- The end of the loop, where it is reached in this round.
  abbrev pub Ends : Option (Granting T) → LockState → Type 0
  Ends r s = (g : Granting T) × (r ≡ some g) × IsGranting s g

  last_state :
      (s : LockState) (mgr : Option Manager) (ws : List Waiter)
      → IsExclusive s
      → IsGranting s (record { state = (grant_waiters s).0; manager = mgr; finished = ws })
  last_state s mgr ws h = record {
    exclusive = (grant_waiters-Granted s h).exclusive;
    settled = (grant_waiters-Granted s h).settled;
    no_new_waiters = omega (arith, fewer_waiters s h);
  }

  -- With more fuel than waiters the loop ends.
  grant_rounds_end :
      (fuel : ℕ) (key : Key) (mgr : Option Manager) (s : LockState) (done : List Waiter)
      → length s.waiters < fuel
      → IsExclusive s
      → Ends (grant_rounds T fuel key mgr s done) s
  grant_rounds_end zero key mgr s done f h = absurd (omega arith)
  grant_rounds_end (suc fuel) key none s done f h =
      elim (Bool-cases (is_empty (grant_waiters s).1)) [
        | inl stop ↦ (_, round_stop fuel key s done none stop, last_state s none done h)
        | inr more ↦ (_, round_detached fuel key s done more, last_state s none _ h)
      ]
  grant_rounds_end (suc fuel) key (some m) s done f h =
      let r = recorded fuel key s done m in
      let granted = grant_waiters-Granted s h in
      elim (Bool-cases (is_empty (grant_waiters s).1)) [
        | inl stop ↦ (_, round_stop fuel key s done (some m) stop, last_state s (some m) done h)
        | inr more ↦ elim (Bool-cases r.retry) [
          | inr final ↦ (
            _,
            round_last fuel key s done m more final,
            let same = record_granted-state key m (grant_waiters s).0 (grant_waiters s).1 final in
                record {
                  exclusive = rw same granted.exclusive;
                  settled = rw same granted.settled;
                  no_new_waiters = rw same (omega (arith, fewer_waiters s h));
                },
          )
          | inl again ↦
              let kept = record_granted-waiters key m (grant_waiters s).0 (grant_waiters s).1 in
              let fewer : length r.state.waiters < length s.waiters =
                rw kept (omega (arith, fewer_waiters s h, some_granted (grant_waiters s).1 more)) in
              let (g, ends, good) =
                grant_rounds_end fuel key (some r.manager) r.state (done ++ r.finished)
                  (omega arith)
                  (record_granted-IsExclusive key m (grant_waiters s).0 (grant_waiters s).1
                    granted.exclusive) in
              (
                g,
                round_again fuel key s done m more again ∙ ends,
                record {
                  exclusive = good.exclusive;
                  settled = good.settled;
                  no_new_waiters = omega (arith, good.no_new_waiters);
                },
              )
        ]
      ]

  -- Granting ends, and leaves a lock that is exclusive and settled.
  pub grant_all_end :
      (key : Key) (mgr : Option Manager) (s : LockState)
      → IsExclusive s
      → Ends (grant_all T key mgr s) s
  unfolding grant_all
  grant_all_end key mgr s h = grant_rounds_end (suc (length s.waiters)) key mgr s [] (omega arith) h
