-- ===== src/Locks/Manager/Safety.antt =====
-- Every call of LockManager.cpp keeps every lock of the table well-formed.
use stoneleaf_db.Common.{ℕ, Bool, true, false, not, ◌&&◌, ◌||◌, Option, none, some}
use stoneleaf_db.Common.{List, [], ◌∷◌, ◌++◌, length, ◌==◌, if◌then◌else◌}
use stoneleaf_db.Common.{◌≡◌, refl, ap, ◌⊎◌, inl, inr, arith, Bool-cases}
use stoneleaf_db.Common.Eq.{nat_eq}
use stoneleaf_db.Common.Sets.{contains, insert, erase, IsSetList, erase-IsSetList, insert-IsSetList}
use stoneleaf_db.Encoding.Key.{Key}
use stoneleaf_db.Locks.State.{LockMode, shared, exclusive, LockState, is_some, is_empty}
use stoneleaf_db.Locks.State.{only_shared, grant_waiters}
use stoneleaf_db.Locks.State.Grant.{
  IsExclusive, IsSettled, IsSettled-push, IsSettled-blocked, promoted_owners,
}
use stoneleaf_db.Locks.Manager.{TxnManager, Release, owner_is, new_waiter}
use stoneleaf_db.Locks.Manager.{
  lock_shared_entry, lock_exclusive_entry, enqueue, record_or, grant_all,
}
use stoneleaf_db.Locks.Manager.{unlock_shared_entry, unlock_exclusive_entry}
use stoneleaf_db.Locks.Manager.{keep_used, as_release}
use stoneleaf_db.Locks.Manager.Rounds.{grant_all_end}

-- A lock that is exclusive and has no waiter that could be granted; the lock of an absent entry is.
pub record IsGood (s : LockState) : Type 0 where
  pub exclusive : IsExclusive s
  pub settled : IsSettled s

abbrev pub IsGoodEntry : Option LockState → Type 0
IsGoodEntry none = Unit {0}
IsGoodEntry (some s) = IsGood s

pub idle-IsSettled :
    (owners : List ℕ) (owner : Option ℕ)
    → IsSettled (record { shared_owners = owners; exclusive_owner = owner; waiters = [] })
unfolding grant_waiters
idle-IsSettled owners none = refl
idle-IsSettled owners (some t) = refl

-- A condition of the code that a lock may wait under.
abbrev MustWait : LockState → LockMode → ℕ → Type 0
MustWait s mode txn =
    ((is_some s.exclusive_owner || not (is_empty s.waiters)) ≡ true)
    ⊎ ((mode ≡ exclusive)
        × (s.exclusive_owner ≡ none)
        × (s.waiters ≡ [])
        × ((is_empty s.shared_owners || only_shared txn s.shared_owners) ≡ false))

push-IsGood :
    (s : LockState) (txn : ℕ) (mode : LockMode)
    → IsGood s
    → MustWait s mode txn
    → IsGood (record s { waiters = s.waiters ++ new_waiter txn mode ∷ [] })
push-IsGood s txn mode h (inl busy) = record {
  exclusive = record { alone = h.exclusive.alone; listed_once = h.exclusive.listed_once };
  settled =
      IsSettled-push s.shared_owners s.exclusive_owner s.waiters (new_waiter txn mode) busy
        h.settled;
}
push-IsGood s txn mode h (inr (e, free, idle, b)) = record {
  exclusive = record { alone = h.exclusive.alone; listed_once = h.exclusive.listed_once };
  settled = rw (free, idle) (IsSettled-blocked s.shared_owners (new_waiter txn mode) e b);
}

module _ (T : TxnManager) where
  open T use {Manager, record_lock, register_wait, remove_wait}

  -- The waiter joins the queue, or the entry stays.
  enqueue-entry :
      (mgr : Option Manager) (s : LockState) (txn : ℕ) (mode : LockMode) (blockers : List ℕ)
      → ((enqueue T mgr s txn mode blockers).entry
          ≡ some (record s { waiters = s.waiters ++ new_waiter txn mode ∷ [] }))
        ⊎ ((enqueue T mgr s txn mode blockers).entry ≡ some s)
  unfolding enqueue
  enqueue-entry none s txn mode blockers = inl refl
  enqueue-entry (some m) s txn mode blockers = ground arith

  enqueue-IsGood :
      (mgr : Option Manager) (s : LockState) (txn : ℕ) (mode : LockMode) (blockers : List ℕ)
      → IsGood s
      → MustWait s mode txn
      → IsGoodEntry (enqueue T mgr s txn mode blockers).entry
  enqueue-IsGood mgr s txn mode blockers h w = elim (enqueue-entry mgr s txn mode blockers) [
    | inl joined ↦ rw joined (push-IsGood s txn mode h w)
    | inr stayed ↦ rw stayed h
  ]

  record_or-IsGood :
      (mgr : Option Manager) (txn : ℕ) (key : Key) (mode : LockMode) (granted : LockState)
      (refused : Option LockState)
      → IsGood granted
      → IsGoodEntry refused
      → IsGoodEntry (record_or T mgr txn key mode granted refused).entry
  unfolding record_or
  record_or-IsGood none txn key mode granted refused g r = g
  record_or-IsGood (some m) txn key mode granted refused g r =
      elim (Bool-cases (record_lock m txn key mode).1) [ inl good ↦ rw good g | inr bad ↦ rw bad r ]

  -- A lock that no one waits for is settled.
  idle-IsGood :
      (s : LockState) (owners : List ℕ) (owner : Option ℕ)
      → s.waiters ≡ []
      → (is_some owner ≡ true → owners ≡ [])
      → IsSetList owners
      → IsGood (record s { shared_owners = owners; exclusive_owner = owner })
  idle-IsGood s owners owner idle a l = record {
    exclusive = record { alone = a; listed_once = l };
    settled = rw idle (idle-IsSettled owners owner);
  }

  is_empty→nil {ℓ} : {A : Type ℓ} (xs : List A) → is_empty xs ≡ true → xs ≡ []
  is_empty→nil [] h = refl
  is_empty→nil (x ∷ xs) h = cc

  not_some→none : (o : Option ℕ) → is_some o ≡ false → o ≡ none
  not_some→none none h = refl
  not_some→none (some t) h = cc

  pub lock_shared_entry-IsGood :
      (mgr : Option Manager) (key : Key) (txn : ℕ) (s : LockState)
      → IsGood s
      → IsGoodEntry (lock_shared_entry T mgr key txn s).entry
  unfolding lock_shared_entry
  lock_shared_entry-IsGood mgr key txn s h = elim (Bool-cases (contains txn s.shared_owners)) [
    | inl own ↦ rw own h
    | inr new ↦ rw new (elim (Bool-cases (owner_is s.exclusive_owner txn)) [
      | inl own ↦ rw own h
      | inr other ↦
          rw other (elim (Bool-cases (not (is_some s.exclusive_owner) && is_empty s.waiters)) [
            | inl free ↦ rw free (
                record_or-IsGood mgr txn key shared _ none
                  (idle-IsGood s (insert txn s.shared_owners) s.exclusive_owner
                    (is_empty→nil s.waiters (ground arith)) (λ o. absurd (ground arith))
                    (insert-IsSetList txn s.shared_owners h.exclusive.listed_once))
                  tt)
            | inr busy ↦ rw busy (enqueue-IsGood mgr s txn shared _ h (inl (ground arith)))
          ])
    ])
  ]

  abbrev no_other_owner : LockState → ℕ → Bool
  no_other_owner s txn =
      is_empty s.shared_owners || contains txn s.shared_owners && length s.shared_owners == 1

  -- The same test as that of a waiter at the front.
  no_other_owner-only :
      (s : LockState) (txn : ℕ)
      → no_other_owner s txn ≡ (is_empty s.shared_owners || only_shared txn s.shared_owners)
  no_other_owner-only s txn = ground arith

  promotes :
      (s : LockState) (txn : ℕ)
      → no_other_owner s txn ≡ true
      → (if contains txn s.shared_owners then erase txn s.shared_owners else s.shared_owners) ≡ []
  promotes s txn h =
      ground
        (arith, promoted_owners txn s.shared_owners, is_empty→nil s.shared_owners, erase-nil txn)
    where
      erase-nil : (txn : ℕ) → erase txn [] ≡ []
      erase-nil txn = unfold erase in refl

  must_wait :
      (s : LockState) (txn : ℕ)
      → (no_other_owner s txn && not (is_some s.exclusive_owner) && is_empty s.waiters) ≡ false
      → MustWait s exclusive txn
  must_wait s txn busy = elim (Bool-cases (is_some s.exclusive_owner || not (is_empty s.waiters))) [
    | inl w ↦ inl w
    | inr free ↦ inr (
      refl,
      not_some→none s.exclusive_owner (ground arith),
      is_empty→nil s.waiters (ground arith),
      ground (arith, no_other_owner-only s txn),
    )
  ]

  pub lock_exclusive_entry-IsGood :
      (mgr : Option Manager) (key : Key) (txn : ℕ) (s : LockState)
      → IsGood s
      → IsGoodEntry (lock_exclusive_entry T mgr key txn s).entry
  unfolding lock_exclusive_entry
  lock_exclusive_entry-IsGood mgr key txn s h = elim (Bool-cases (owner_is s.exclusive_owner txn)) [
    | inl own ↦ rw own h
    | inr other ↦
        rw other
          (elim (Bool-cases
            (no_other_owner s txn && not (is_some s.exclusive_owner) && is_empty s.waiters)) [
              | inl free ↦ rw free (
                  let idle = is_empty→nil s.waiters (ground arith) in
                  record_or-IsGood mgr txn key exclusive _ _
                    (idle-IsGood s _ (some txn) idle (λ o. promotes s txn (ground arith))
                      (rw (promotes s txn (ground arith)) tt))
                    (elim (Bool-cases (contains txn s.shared_owners)) [
                      | inl old ↦ rw old (
                          idle-IsGood s _ none idle (λ o. cc)
                            (insert-IsSetList txn _
                              (erase-IsSetList txn s.shared_owners h.exclusive.listed_once)))
                      | inr new ↦ rw new tt
                    ]))
              | inr busy ↦ rw busy (enqueue-IsGood mgr s txn exclusive _ h (must_wait s txn busy))
            ])
  ]

  keep_used-IsGood : (s : LockState) → IsGood s → IsGoodEntry (keep_used T s)
  keep_used-IsGood s h =
      elim (Bool-cases
        (not (is_some s.exclusive_owner) && is_empty s.waiters && is_empty s.shared_owners)) [
          | inl unused ↦ rw unused tt
          | inr used ↦ rw used h
        ]

  -- A release ends, and the entry that it leaves is good.
  abbrev pub EndsGood : Option (Release T) → Type 0
  EndsGood r = (e : Release T) × (r ≡ some e) × IsGoodEntry e.entry

  granted-EndsGood :
      (key : Key) (mgr : Option Manager) (s : LockState)
      → IsExclusive s
      → EndsGood (as_release T (grant_all T key mgr s))
  granted-EndsGood key mgr s h =
      let (g, ends, good) = grant_all_end T key mgr s h in
      (
        _,
        ap (as_release T) ends,
        keep_used-IsGood g.state (record { exclusive = good.exclusive; settled = good.settled }),
      )

  pub unlock_shared_entry-IsGood :
      (mgr : Option Manager) (key : Key) (txn : ℕ) (entry : Option LockState)
      → IsGoodEntry entry
      → EndsGood (unlock_shared_entry T mgr key txn entry)
  unfolding unlock_shared_entry
  unlock_shared_entry-IsGood mgr key txn none h = (_, refl, tt)
  unlock_shared_entry-IsGood mgr key txn (some s) h =
      elim (Bool-cases (contains txn s.shared_owners)) [
        | inl own ↦ rw own (
            granted-EndsGood key mgr _ (record {
              alone = λ o. rw (h.exclusive.alone o) (unfold erase in refl);
              listed_once = erase-IsSetList txn s.shared_owners h.exclusive.listed_once;
            }))
        | inr other ↦ rw other (_, refl, h)
      ]

  pub unlock_exclusive_entry-IsGood :
      (mgr : Option Manager) (key : Key) (txn : ℕ) (entry : Option LockState)
      → IsGoodEntry entry
      → EndsGood (unlock_exclusive_entry T mgr key txn entry)
  unfolding unlock_exclusive_entry
  unlock_exclusive_entry-IsGood mgr key txn none h = (_, refl, tt)
  unlock_exclusive_entry-IsGood mgr key txn (some s) h =
      elim (Bool-cases (owner_is s.exclusive_owner txn)) [
        | inl own ↦ rw own (
            granted-EndsGood key mgr _
              (record { alone = λ o. cc; listed_once = h.exclusive.listed_once }))
        | inr other ↦ rw other (_, refl, h)
      ]
