-- ===== src/RowLock/Spec.antt =====
-- What is true of the lock of a row between two calls.
use veri_txn.Prelude.{
  ℕ, suc, ◌≤◌, ◌≡◌, ◌≢◌, Bool, true, false, List, [], ◌∷◌, All, length, Option, none, some, arith,
  Bool-cases, inl, inr, ◌⊎◌, ◌==◌, refl,
}
use veri_txn.RowLock.{
  LockType, lock_ex, lock_sh, lock_none, LockEntry, RowLock, conflict_lock, remove, type_left,
  keep_entry,
}

-- The owners fit the type of the lock: nobody, one exclusive owner, or shared owners only.
abbrev pub Fits : LockType → List LockEntry → Type 0
Fits lock_none [] = Unit {0}
Fits lock_none (e ∷ r) = ⊥
Fits lock_ex [] = ⊥
Fits lock_ex (e ∷ []) = e.type ≡ lock_ex
Fits lock_ex (e ∷ (f ∷ r)) = ⊥
Fits lock_sh [] = ⊥
Fits lock_sh (e ∷ r) = (e.type ≡ lock_sh) × All (λ o. o.type ≡ lock_sh) r

abbrev pub IsFresh : ℕ → List LockEntry → Type 0
IsFresh id = All (λ e. e.txn.id ≢ id)

-- No transaction waits twice.
abbrev pub IsDistinct : List LockEntry → Type 0
IsDistinct [] = Unit {0}
IsDistinct (w ∷ r) = IsFresh w.txn.id r × IsDistinct r

-- The first waiter cannot join the owners.
abbrev pub IsBlocked : LockType → List LockEntry → Type 0
IsBlocked t [] = Unit {0}
IsBlocked t (w ∷ r) = conflict_lock t w.type ≡ true

-- A waiter wants a lock, and has not been told that it has it.
abbrev pub IsWaiting : (ℕ → Bool) → LockEntry → Type 0
IsWaiting ready w = (w.type ≢ lock_none) × (ready w.txn.id ≡ false)

pub record IsSound (s : RowLock) : Type 0 where
  pub owners_counted : s.owner_cnt ≡ length s.owners
  pub waiters_counted : s.waiter_cnt ≡ length s.waiters
  pub fits : Fits s.lock_type s.owners
  pub waiting : All (IsWaiting s.lock_ready) s.waiters
  pub distinct : IsDistinct s.waiters

pub record IsValid (s : RowLock) : Type 0 where
  pub sound : IsSound s
  pub blocked : IsBlocked s.lock_type s.waiters

-- Waiters from the youngest to the oldest.
abbrev pub IsFalling : List LockEntry → Type 0
IsFalling [] = Unit {0}
IsFalling (w ∷ r) = All (λ v. v.txn.ts ≤ w.txn.ts) r × IsFalling r

abbrev pub IsOlder : List LockEntry → LockEntry → Type 0
IsOlder owners w = All (λ o. w.txn.ts ≤ o.txn.ts) owners

-- WAIT_DIE: whoever waits is at least as old as what it waits for, the owners and the waiters ahead.
pub record IsOrdered (s : RowLock) : Type 0 where
  pub falling : IsFalling s.waiters
  pub older : All (IsOlder s.owners) s.waiters

pub All-mono :
    {P Q : LockEntry → Type 0} (l : List LockEntry)
    → ((e : LockEntry) → P e → Q e)
    → All P l
    → All Q l
All-mono [] f h = tt
All-mono (e ∷ r) f h = (f e h.0, All-mono r f h.1)

-- What `remove` leaves has the property, if it finds the transaction.
abbrev pub OnSome : (List LockEntry → Type 0) → Option (List LockEntry) → Type 0
OnSome Q none = Unit {0}
OnSome Q (some l) = Q l

keep_entry-All :
    (P : LockEntry → Type 0) (x : LockEntry) (o : Option (List LockEntry))
    → P x
    → OnSome (All P) o
    → OnSome (All P) (keep_entry x o)
keep_entry-All P x none p h = tt
keep_entry-All P x (some l) p h = (p, h)

pub remove-All :
    (P : LockEntry → Type 0) (id : ℕ) (l : List LockEntry) → All P l → OnSome (All P) (remove id l)
unfolding remove
remove-All P id [] h = tt
remove-All P id (x ∷ r) h = elim (Bool-cases (x.txn.id == id)) [
  | inl hit ↦ rw hit h.1
  | inr miss ↦ rw miss (keep_entry-All P x (remove id r) h.0 (remove-All P id r h.1))
]

keep_entry-IsDistinct :
    (x : LockEntry) (o : Option (List LockEntry))
    → OnSome (IsFresh x.txn.id) o
    → OnSome IsDistinct o
    → OnSome IsDistinct (keep_entry x o)
keep_entry-IsDistinct x none f d = tt
keep_entry-IsDistinct x (some l) f d = (f, d)

pub remove-IsDistinct :
    (id : ℕ) (l : List LockEntry) → IsDistinct l → OnSome IsDistinct (remove id l)
unfolding remove
remove-IsDistinct id [] h = tt
remove-IsDistinct id (x ∷ r) h = elim (Bool-cases (x.txn.id == id)) [
  | inl hit ↦ rw hit h.1
  | inr miss ↦
      rw miss
        (keep_entry-IsDistinct x (remove id r) (remove-All _ id r h.0) (remove-IsDistinct id r h.1))
]

keep_entry-IsFalling :
    (x : LockEntry) (o : Option (List LockEntry))
    → OnSome (All (λ v. v.txn.ts ≤ x.txn.ts)) o
    → OnSome IsFalling o
    → OnSome IsFalling (keep_entry x o)
keep_entry-IsFalling x none f d = tt
keep_entry-IsFalling x (some l) f d = (f, d)

pub remove-IsFalling : (id : ℕ) (l : List LockEntry) → IsFalling l → OnSome IsFalling (remove id l)
unfolding remove
remove-IsFalling id [] h = tt
remove-IsFalling id (x ∷ r) h = elim (Bool-cases (x.txn.id == id)) [
  | inl hit ↦ rw hit h.1
  | inr miss ↦
      rw miss
        (keep_entry-IsFalling x (remove id r) (remove-All _ id r h.0) (remove-IsFalling id r h.1))
]

keep_entry-length :
    (x : LockEntry) (n : ℕ) (o : Option (List LockEntry))
    → OnSome (λ l. n ≡ suc (length l)) o
    → OnSome (λ l. suc n ≡ suc (length l)) (keep_entry x o)
keep_entry-length x n none h = tt
keep_entry-length x n (some l) h = omega arith

pub remove-length :
    (id : ℕ) (l : List LockEntry) → OnSome (λ r. length l ≡ suc (length r)) (remove id l)
unfolding remove
remove-length id [] = tt
remove-length id (x ∷ r) = elim (Bool-cases (x.txn.id == id)) [
  | inl hit ↦ rw hit refl
  | inr miss ↦ rw miss (keep_entry-length x (length r) (remove id r) (remove-length id r))
]

-- The owners that are left fit the type of the lock that is left.
pub left-Fits :
    (t : LockType) (l r : List LockEntry)
    → length l ≡ suc (length r)
    → Fits t l
    → All (λ o. o.type ≡ lock_sh) r ⊎ (t ≡ lock_ex)
    → Fits (type_left (length r) t) r
left-Fits t l [] e f h = tt
left-Fits lock_none [] (y ∷ r) e f h = ground arith
left-Fits lock_none (x ∷ l) (y ∷ r) e f h = absurd f
left-Fits lock_ex [] (y ∷ r) e f h = absurd f
left-Fits lock_ex (x ∷ []) (y ∷ r) e f h = ground arith
left-Fits lock_ex (x ∷ (z ∷ l)) (y ∷ r) e f h = absurd f
left-Fits lock_sh l (y ∷ r) e f (inl a) =
    let left : (suc (length r) == 0) ≡ false = ground arith in rw left a
left-Fits lock_sh l (y ∷ r) e f (inr a) = cc

-- The transaction has an entry in the list.
abbrev pub HasEntry : ℕ → List LockEntry → Type 0
HasEntry id [] = ⊥
HasEntry id (e ∷ r) = (e.txn.id ≡ id) ⊎ HasEntry id r

abbrev pub IsSome : Option (List LockEntry) → Type 0
IsSome none = ⊥
IsSome (some l) = Unit {0}

keep_entry-IsSome :
    (x : LockEntry) (o : Option (List LockEntry)) → IsSome o → IsSome (keep_entry x o)
keep_entry-IsSome x none h = h
keep_entry-IsSome x (some l) h = tt

pub remove-IsSome : (id : ℕ) (l : List LockEntry) → HasEntry id l → IsSome (remove id l)
unfolding remove
remove-IsSome id [] h = h
remove-IsSome id (x ∷ r) h = elim (Bool-cases (x.txn.id == id)) [
  | inl hit ↦ rw hit tt
  | inr miss ↦
      rw miss (keep_entry-IsSome x (remove id r) (remove-IsSome id r (elsewhere h (ground arith))))
]
  where
    elsewhere : HasEntry id (x ∷ r) → x.txn.id ≢ id → HasEntry id r
    elsewhere (inl e) n = absurd (n e)
    elsewhere (inr k) n = k

-- An owner that does not conflict with the lock joins the owners.
pub join-Fits :
    (t u : LockType) (w : LockEntry) (l : List LockEntry)
    → w.type ≡ u
    → u ≢ lock_none
    → conflict_lock t u ≡ false
    → Fits t l
    → Fits u (w ∷ l)
join-Fits lock_none lock_ex w [] e n c f = e
join-Fits lock_none lock_sh w [] e n c f = (e, tt)
join-Fits lock_none lock_none w [] e n c f = absurd (n refl)
join-Fits lock_none u w (x ∷ l) e n c f = absurd f
join-Fits lock_sh lock_sh w [] e n c f = absurd f
join-Fits lock_sh lock_sh w (x ∷ l) e n c f = (e, f)
join-Fits lock_sh lock_none w l e n c f = absurd (n refl)
join-Fits lock_sh lock_ex w l e n c f = cc
join-Fits lock_ex lock_none w l e n c f = absurd (n refl)
join-Fits lock_ex lock_ex w l e n c f = cc
join-Fits lock_ex lock_sh w l e n c f = cc
