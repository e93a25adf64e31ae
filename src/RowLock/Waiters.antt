-- ===== src/RowLock/Waiters.antt =====
-- The waiter list with a new entry, at its place under WAIT_DIE or at the tail under DL_DETECT.
use veri_txn.Prelude.{
  ℕ, suc, ◌≡◌, ◌≢◌, Bool, true, false, not, List, [], ◌∷◌, ◌++◌, All, length, arith, Bool-cases,
  inl, inr, ltb, ◌||◌, refl, sym,
}
use veri_txn.RowLock.{
  LockType, LockEntry, conflict_lock, set_ready, is_empty, head_before, insert_waiter,
}
use veri_txn.RowLock.Spec.{IsFresh, IsDistinct, IsBlocked, IsWaiting, HasEntry, All-mono}

pub insert_waiter-length :
    (e : LockEntry) (l : List LockEntry) → length (insert_waiter e l) ≡ suc (length l)
unfolding insert_waiter
insert_waiter-length e [] = refl
insert_waiter-length e (w ∷ r) = ground (arith, insert_waiter-length e r)

pub insert_waiter-All :
    (P : LockEntry → Type 0) (e : LockEntry) (l : List LockEntry)
    → P e
    → All P l
    → All P (insert_waiter e l)
unfolding insert_waiter
insert_waiter-All P e [] p h = (p, tt)
insert_waiter-All P e (w ∷ r) p h = elim (Bool-cases (ltb e.txn.ts w.txn.ts)) [
  | inl on ↦ rw on (h.0, insert_waiter-All P e r p h.1)
  | inr here ↦ rw here (p, h)
]

pub insert_waiter-IsDistinct :
    (e : LockEntry) (l : List LockEntry)
    → IsFresh e.txn.id l
    → IsDistinct l
    → IsDistinct (insert_waiter e l)
unfolding insert_waiter
insert_waiter-IsDistinct e [] f d = (tt, tt)
insert_waiter-IsDistinct e (w ∷ r) f d = elim (Bool-cases (ltb e.txn.ts w.txn.ts)) [
  | inl on ↦ rw on (
    insert_waiter-All (λ x. x.txn.id ≢ w.txn.id) e r (λ q. f.0 (sym q)) d.0,
    insert_waiter-IsDistinct e r f.1 d.1,
  )
  | inr here ↦ rw here (f, d)
]

pub insert_waiter-HasEntry :
    (e : LockEntry) (l : List LockEntry) → HasEntry e.txn.id (insert_waiter e l)
unfolding insert_waiter
insert_waiter-HasEntry e [] = inl refl
insert_waiter-HasEntry e (w ∷ r) = elim (Bool-cases (ltb e.txn.ts w.txn.ts)) [
  | inl on ↦ rw on (inr (insert_waiter-HasEntry e r))
  | inr here ↦ rw here (inl refl)
]

pub insert_waiter-IsBlocked :
    (t : LockType) (e : LockEntry) (l : List LockEntry)
    → (conflict_lock t e.type || head_before e.txn.ts l) ≡ true
    → IsBlocked t l
    → IsBlocked t (insert_waiter e l)
unfolding insert_waiter
insert_waiter-IsBlocked t e [] c b = ground arith
insert_waiter-IsBlocked t e (w ∷ r) c b = ground arith

-- The new waiter at the tail.
pub tail-All :
    (P : LockEntry → Type 0) (e : LockEntry) (l : List LockEntry)
    → P e
    → All P l
    → All P (l ++ (e ∷ []))
tail-All P e [] p h = (p, tt)
tail-All P e (w ∷ r) p h = (h.0, tail-All P e r p h.1)

pub tail-IsDistinct :
    (e : LockEntry) (l : List LockEntry)
    → IsFresh e.txn.id l
    → IsDistinct l
    → IsDistinct (l ++ (e ∷ []))
tail-IsDistinct e [] f d = (tt, tt)
tail-IsDistinct e (w ∷ r) f d =
    (tail-All (λ x. x.txn.id ≢ w.txn.id) e r (λ q. f.0 (sym q)) d.0, tail-IsDistinct e r f.1 d.1)

pub tail-HasEntry : (e : LockEntry) (l : List LockEntry) → HasEntry e.txn.id (l ++ (e ∷ []))
tail-HasEntry e [] = inl refl
tail-HasEntry e (w ∷ r) = inr (tail-HasEntry e r)

pub tail-IsBlocked :
    (t : LockType) (e : LockEntry) (l : List LockEntry)
    → (conflict_lock t e.type || not (is_empty l)) ≡ true
    → IsBlocked t l
    → IsBlocked t (l ++ (e ∷ []))
tail-IsBlocked t e [] c b = ground arith
tail-IsBlocked t e (w ∷ r) c b = b

pub still-IsWaiting :
    (ready : ℕ → Bool) (id : ℕ) (l : List LockEntry)
    → All (IsWaiting ready) l
    → All (IsWaiting (set_ready ready id false)) l
still-IsWaiting ready id l = All-mono l (λ w h. (h.0, ground (arith, h.1)))
