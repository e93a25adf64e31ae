-- ===== src/RowLock/Release.antt =====
-- `lock_release`: the entry of the transaction goes, and the waiters that can join the owners do.
use veri_txn.Prelude.{
  ℕ, suc, ◌-◌, ◌≡◌, Bool, true, false, List, [], ◌∷◌, All, length, Option, none, some, arith,
  Bool-cases, inl, inr, ◌⊎◌, ◌==◌, refl, sym, ap, subst, Outcome, Ensures, Ensures->>=,
}
use veri_txn.RowLock.{
  LockType, lock_ex, lock_sh, lock_none, LockEntry, RowLock, conflict_lock, remove, drop_owner,
  drop_waiter, drop_entry, admit, promote, checked, lock_release, set_ready, is_empty,
}
use veri_txn.RowLock.Spec.{
  Fits, IsFresh, IsDistinct, IsBlocked, IsWaiting, IsSound, IsValid, OnSome, remove-All,
  remove-IsDistinct, remove-length, left-Fits, join-Fits, HasEntry, IsSome, remove-IsSome,
}

-- The other waiters are still waiting.
others-IsWaiting :
    (ready : ℕ → Bool) (id : ℕ) (l : List LockEntry)
    → IsFresh id l
    → All (IsWaiting ready) l
    → All (IsWaiting (set_ready ready id true)) l
others-IsWaiting ready id [] f h = tt
others-IsWaiting ready id (w ∷ r) f h =
    ((h.0.0, ground (arith, f.0, h.0.1)), others-IsWaiting ready id r f.1 h.1)

admit-IsSound :
    (s : RowLock) (w : LockEntry) (rest : List LockEntry)
    → s.waiters ≡ w ∷ rest
    → conflict_lock s.lock_type w.type ≡ false
    → IsSound s
    → IsSound (admit s w rest)
admit-IsSound s w rest e c v =
    let waiting : All (IsWaiting s.lock_ready) (w ∷ rest) =
      subst (All (IsWaiting s.lock_ready)) e v.waiting in
    let distinct : IsDistinct (w ∷ rest) = subst IsDistinct e v.distinct in
    record {
      owners_counted = omega (arith, v.owners_counted);
      waiters_counted = ground (arith, e, v.waiters_counted);
      fits = join-Fits s.lock_type w.type w s.owners refl waiting.0.0 c v.fits;
      waiting = others-IsWaiting s.lock_ready w.txn.id rest distinct.0 waiting.1;
      distinct = distinct.1;
    }

promote-IsValid :
    (l : List LockEntry) (s : RowLock) → s.waiters ≡ l → IsSound s → Ensures IsValid (promote s l)
unfolding promote
promote-IsValid [] s e v = record { sound = v; blocked = subst (IsBlocked s.lock_type) (sym e) tt }
promote-IsValid (w ∷ rest) s e v = elim (Bool-cases (conflict_lock s.lock_type w.type)) [
  | inl clash ↦
      rw clash (record { sound = v; blocked = subst (IsBlocked s.lock_type) (sym e) clash })
  | inr free ↦
      let waiting : All (IsWaiting s.lock_ready) (w ∷ rest) =
        subst (All (IsWaiting s.lock_ready)) e v.waiting in
      rw (free, waiting.0.1)
        (promote-IsValid rest (admit s w rest) refl (admit-IsSound s w rest e free v))
]

checked-IsValid : (s : RowLock) → IsValid s → Ensures IsValid (checked s)
checked-IsValid s v = go s.owners refl
  where
    go : (l : List LockEntry) → s.owners ≡ l → Ensures IsValid (checked s)
    go [] e =
        let none_left : (s.owner_cnt == 0) ≡ true = ground (arith, e, v.sound.owners_counted) in
        rw (ap is_empty e, none_left) v
    go (o ∷ r) e =
        let some_left : (s.owner_cnt == 0) ≡ false = ground (arith, e, v.sound.owners_counted) in
        rw (ap is_empty e, some_left) v

drop_waiter-IsSound :
    (id : ℕ) (s : RowLock)
    → HasEntry id s.waiters
    → IsSound s
    → Ensures IsSound (drop_waiter s (remove id s.waiters))
drop_waiter-IsSound id s h v =
    go (remove id s.waiters) (remove-IsSome id s.waiters h) (remove-length id s.waiters)
      (remove-All _ id s.waiters v.waiting) (remove-IsDistinct id s.waiters v.distinct)
  where
    go :
        (o : Option (List LockEntry))
        → IsSome o
        → OnSome (λ l. length s.waiters ≡ suc (length l)) o
        → OnSome (All (IsWaiting s.lock_ready)) o
        → OnSome IsDistinct o
        → Ensures IsSound (drop_waiter s o)
    go none i l a d = i
    go (some r) i l a d = record {
      owners_counted = v.owners_counted;
      waiters_counted = omega (arith, l, v.waiters_counted);
      fits = v.fits;
      waiting = a;
      distinct = d;
    }

-- All owners are shared, unless the lock is exclusive.
sharers :
    (t : LockType) (l : List LockEntry) → Fits t l → All (λ o. o.type ≡ lock_sh) l ⊎ (t ≡ lock_ex)
sharers lock_ex l f = inr refl
sharers lock_none [] f = inl tt
sharers lock_none (x ∷ l) f = absurd f
sharers lock_sh [] f = inl tt
sharers lock_sh (x ∷ l) f = inl f

abbrev Sharing : LockType → List LockEntry → Type 0
Sharing t r = All (λ o. o.type ≡ lock_sh) r ⊎ (t ≡ lock_ex)

remove-Sharing :
    (t : LockType) (id : ℕ) (l : List LockEntry) → Sharing t l → OnSome (Sharing t) (remove id l)
remove-Sharing t id l (inl a) = go (remove id l) (remove-All (λ o. o.type ≡ lock_sh) id l a)
  where
    go :
        (o : Option (List LockEntry))
        → OnSome (All (λ o. o.type ≡ lock_sh)) o
        → OnSome (Sharing t) o
    go none h = tt
    go (some r) h = inl h
remove-Sharing t id l (inr e) = go (remove id l)
  where
    go : (o : Option (List LockEntry)) → OnSome (Sharing t) o
    go none = tt
    go (some r) = inr e

drop_owner-IsSound :
    (s : RowLock) (o : Option (List LockEntry)) (rest : Outcome RowLock)
    → IsSound s
    → OnSome (λ r. length s.owners ≡ suc (length r)) o
    → OnSome (Sharing s.lock_type) o
    → ((o ≡ none) → Ensures IsSound rest)
    → Ensures IsSound (drop_owner s o rest)
drop_owner-IsSound s none rest v l a h = h refl
drop_owner-IsSound s (some r) rest v l a h =
    let left : s.owner_cnt - 1 ≡ length r = omega (arith, v.owners_counted) in
    record {
      owners_counted = left;
      waiters_counted = v.waiters_counted;
      fits = rw left (left-Fits s.lock_type s.owners r l v.fits a);
      waiting = v.waiting;
      distinct = v.distinct;
    }

drop_entry-IsSound :
    (id : ℕ) (s : RowLock)
    → HasEntry id s.owners ⊎ HasEntry id s.waiters
    → IsSound s
    → Ensures IsSound (drop_entry id s)
unfolding drop_entry
drop_entry-IsSound id s h v =
    drop_owner-IsSound s (remove id s.owners) _ v (remove-length id s.owners)
      (remove-Sharing s.lock_type id s.owners (sharers s.lock_type s.owners v.fits))
      (λ e. drop_waiter-IsSound id s (waits h e) v)
  where
    waits :
        HasEntry id s.owners ⊎ HasEntry id s.waiters
        → remove id s.owners ≡ none
        → HasEntry id s.waiters
    waits (inl o) e = absurd (subst IsSome e (remove-IsSome id s.owners o))
    waits (inr w) e = w

-- From a valid state `lock_release` of a transaction that owns the lock or waits for it returns: no
-- assertion fails. Afterwards the counts are those of the lists, the owners fit the type of the lock
-- (one exclusive owner, or shared ones only, or nobody under LOCK_NONE), the waiters are distinct and
-- not yet ready, and the first waiter, if there is one, still conflicts with the lock.
pub lock_release-IsValid :
    (id : ℕ) (s : RowLock)
    → HasEntry id s.owners ⊎ HasEntry id s.waiters
    → IsValid s
    → Ensures IsValid (lock_release id s)
unfolding lock_release
lock_release-IsValid id s h v =
    Ensures->>= IsSound IsValid (drop_entry id s) _ (drop_entry-IsSound id s h v.sound) λ s' sound.
      Ensures->>= IsValid IsValid (promote s' s'.waiters) _
        (promote-IsValid s'.waiters s' refl sound) (λ s'' valid. checked-IsValid s'' valid)
