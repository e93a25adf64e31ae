-- ===== src/RowLock/Get.antt =====
-- `lock_get`: who is granted the lock, who waits, and who has to abort.
use mathlib.Core.List.{reverse-cons}
use veri_txn.Prelude.{
  ℕ, suc, ◌≤◌, ◌<◌, ◌≡◌, ◌≢◌, true, false, not, List, [], ◌∷◌, ◌++◌, reverse, All, length,
  length-append, arith, Bool-cases, inl, inr, ◌⊎◌, ltb, leb, ◌||◌, refl, sym, subst, Ensures,
  if◌then◌else◌, map,
}
use veri_txn.RowLock.{
  LockType, lock_ex, lock_sh, lock_none, LockEntry, RowLock, conflict_lock, set_ready, is_empty,
  CcAlg, no_wait, wait_die, dl_detect, rcok, wait, abort, Txn, conflicts, can_wait, insert_waiter,
  enqueue, conflicting, waits_for, Reply, grant, queue_up, lock_get, wait_behind,
}
use veri_txn.RowLock.Spec.{
  Fits, IsFresh, IsDistinct, IsBlocked, IsWaiting, IsValid, HasEntry, join-Fits,
}
use veri_txn.RowLock.Waiters.{
  insert_waiter-length, insert_waiter-All, insert_waiter-IsDistinct, insert_waiter-HasEntry,
  insert_waiter-IsBlocked, tail-All, tail-IsDistinct, tail-HasEntry, tail-IsBlocked,
  still-IsWaiting,
}

-- What the answers mean.
abbrev pub Answers : LockType → Txn → RowLock → Reply → Type 0
Answers type txn s (s', rcok, ids) =
    (s' ≡ grant type txn s) × (conflict_lock s.lock_type type ≡ false)
Answers type txn s (s', wait, ids) =
    HasEntry txn.id s'.waiters × (s'.lock_ready txn.id ≡ false) × (s'.owners ≡ s.owners)
Answers type txn s (s', abort, ids) = s' ≡ s

-- A transaction joins the waiters of a valid state.
enqueue-IsValid :
    (type : LockType) (txn : Txn) (s : RowLock) (l : List LockEntry)
    → IsValid s
    → length l ≡ suc (length s.waiters)
    → All (IsWaiting (set_ready s.lock_ready txn.id false)) l
    → IsDistinct l
    → IsBlocked s.lock_type l
    → IsValid (enqueue s txn l)
enqueue-IsValid type txn s l v n a d b = record {
  sound = record {
    owners_counted = v.sound.owners_counted;
    waiters_counted = omega (arith, n, v.sound.waiters_counted);
    fits = v.sound.fits;
    waiting = a;
    distinct = d;
  };
  blocked = b;
}

grant-IsBlocked :
    (t u : LockType) (l : List LockEntry)
    → u ≢ lock_none
    → conflict_lock t u ≡ false
    → IsBlocked t l
    → IsBlocked u l
grant-IsBlocked t u [] n c b = tt
grant-IsBlocked lock_none u (w ∷ l) n c b = cc
grant-IsBlocked lock_sh lock_sh (w ∷ l) n c b = b
grant-IsBlocked lock_sh lock_ex (w ∷ l) n c b = cc
grant-IsBlocked lock_ex lock_ex (w ∷ l) n c b = b
grant-IsBlocked lock_ex lock_sh (w ∷ l) n c b = cc
grant-IsBlocked t lock_none (w ∷ l) n c b = absurd (n refl)

grant-IsValid :
    (type : LockType) (txn : Txn) (s : RowLock)
    → type ≢ lock_none
    → conflict_lock s.lock_type type ≡ false
    → IsValid s
    → IsValid (grant type txn s)
unfolding grant
grant-IsValid type txn s n c v = record {
  sound = record {
    owners_counted = omega (arith, v.sound.owners_counted);
    waiters_counted = v.sound.waiters_counted;
    fits = join-Fits s.lock_type type _ s.owners refl n c v.sound.fits;
    waiting = v.sound.waiting;
    distinct = v.sound.distinct;
  };
  blocked = grant-IsBlocked s.lock_type type s.waiters n c v.blocked;
}

abbrev IsCons : List ℕ → Type 0
IsCons [] = ⊥
IsCons (x ∷ r) = Unit {0}

append-IsCons : (xs ys : List ℕ) → IsCons xs ⊎ IsCons ys → IsCons (xs ++ ys)
append-IsCons [] ys (inl h) = absurd h
append-IsCons [] ys (inr h) = h
append-IsCons (x ∷ xs) ys h = tt

conflicting-append :
    (t : LockType) (l : List LockEntry) (w : LockEntry)
    → conflict_lock t w.type ≡ true
    → IsCons (conflicting t (l ++ (w ∷ [])))
unfolding conflicting
conflicting-append t [] w c = rw c tt
conflicting-append t (x ∷ l) w c = elim (Bool-cases (conflict_lock t x.type)) [
  | inl hit ↦ rw hit tt
  | inr miss ↦ rw miss (conflicting-append t l w c)
]

owners-IsCons :
    (t u : LockType) (l : List LockEntry)
    → Fits t l
    → conflict_lock t u ≡ true
    → IsCons (if conflict_lock u t then map (λ e. e.txn.id) l else [])
owners-IsCons lock_none u l f c = cc
owners-IsCons lock_ex u [] f c = absurd f
owners-IsCons lock_sh u [] f c = absurd f
owners-IsCons lock_ex lock_ex (e ∷ l) f c = tt
owners-IsCons lock_ex lock_sh (e ∷ l) f c = tt
owners-IsCons lock_ex lock_none (e ∷ l) f c = cc
owners-IsCons lock_sh lock_ex (e ∷ l) f c = tt
owners-IsCons lock_sh lock_sh (e ∷ l) f c = cc
owners-IsCons lock_sh lock_none (e ∷ l) f c = cc

-- Behind a waiter that is blocked every request waits for somebody.
blocked-conflict :
    (t u v : LockType)
    → u ≢ lock_none
    → conflict_lock t v ≡ true
    → (conflict_lock t u ≡ true) ⊎ (conflict_lock u v ≡ true)
blocked-conflict lock_ex lock_ex v n c = inl refl
blocked-conflict lock_ex lock_sh v n c = inl refl
blocked-conflict lock_sh lock_ex v n c = inl refl
blocked-conflict lock_sh lock_sh v n c = inr c
blocked-conflict lock_none u v n c = cc
blocked-conflict t lock_none v n c = absurd (n refl)

waits_for-IsCons :
    (type : LockType) (s : RowLock) (l : List LockEntry)
    → s.waiters ≡ l
    → type ≢ lock_none
    → IsValid s
    → (conflict_lock s.lock_type type || not (is_empty l)) ≡ true
    → IsCons (waits_for type s)
unfolding waits_for
waits_for-IsCons type s [] e n v c =
    append-IsCons _ _ (inr (owners-IsCons s.lock_type type s.owners v.sound.fits (ground arith)))
waits_for-IsCons type s (w ∷ r) e n v c =
    go (blocked-conflict s.lock_type type w.type n (subst (IsBlocked s.lock_type) e v.blocked))
  where
    go :
        (conflict_lock s.lock_type type ≡ true) ⊎ (conflict_lock type w.type ≡ true)
        → IsCons (waits_for type s)
    go (inl h) = append-IsCons _ _ (inr (owners-IsCons s.lock_type type s.owners v.sound.fits h))
    go (inr h) = append-IsCons _ _ (
        inl (
          subst (λ l. IsCons (conflicting type (reverse l))) (sym e)
            (rw (reverse-cons w r) (conflicting-append type (reverse r) w h))))

conflicts-lock :
    (alg : CcAlg) (type : LockType) (txn : Txn) (s : RowLock)
    → conflicts alg type txn s ≡ false
    → conflict_lock s.lock_type type ≡ false
unfolding conflicts
conflicts-lock no_wait type txn s c = c
conflicts-lock wait_die type txn s c = ground arith
conflicts-lock dl_detect type txn s c = ground arith

-- Nothing is said of a call that cannot be answered.
abbrev Fine : LockType → Txn → RowLock → Reply → Type 0
Fine type txn s r = IsValid r.0 × Answers type txn s r

queue_up-IsValid :
    (alg : CcAlg) (type : LockType) (txn : Txn) (s : RowLock)
    → type ≢ lock_none
    → IsFresh txn.id s.waiters
    → conflicts alg type txn s ≡ true
    → IsValid s
    → Ensures (Fine type txn s) (queue_up alg type txn s)
unfolding queue_up conflicts
queue_up-IsValid no_wait type txn s n f c v = (v, refl)
queue_up-IsValid wait_die type txn s n f c v = elim (Bool-cases (can_wait txn.ts s.owners)) [
  | inl older ↦ rw older (
    enqueue-IsValid type txn s (insert_waiter entry s.waiters) v
        (insert_waiter-length entry s.waiters)
        (insert_waiter-All _ entry s.waiters (n, ground arith)
          (still-IsWaiting s.lock_ready txn.id s.waiters v.sound.waiting))
        (insert_waiter-IsDistinct entry s.waiters f v.sound.distinct)
        (insert_waiter-IsBlocked s.lock_type entry s.waiters c v.blocked),
    (insert_waiter-HasEntry entry s.waiters, ground arith, refl),
  )
  | inr younger ↦ rw younger (v, refl)
]
  where
    entry : LockEntry
    entry = record { type = type; txn = txn }
queue_up-IsValid dl_detect type txn s n f c v =
    wait_behind-Fine (waits_for type s) (waits_for-IsCons type s s.waiters refl n v c) (
      enqueue-IsValid type txn s (s.waiters ++ (entry ∷ [])) v
          (omega (arith, length-append s.waiters (entry ∷ [])))
          (tail-All _ entry s.waiters (n, ground arith)
            (still-IsWaiting s.lock_ready txn.id s.waiters v.sound.waiting))
          (tail-IsDistinct entry s.waiters f v.sound.distinct)
          (tail-IsBlocked s.lock_type entry s.waiters c v.blocked),
      (tail-HasEntry entry s.waiters, ground arith, refl),
    )
  where
    entry : LockEntry
    entry = record { type = type; txn = txn }

    wait_behind-Fine :
        {s' : RowLock} (ids : List ℕ)
        → IsCons ids
        → IsValid s'
          × (HasEntry txn.id s'.waiters × (s'.lock_ready txn.id ≡ false) × (s'.owners ≡ s.owners))
        → Ensures (Fine type txn s) (wait_behind s' ids)
    wait_behind-Fine [] k h = absurd k
    wait_behind-Fine (x ∷ ids) k h = h

-- From a valid state with at most thread_cnt owners and fewer than thread_cnt waiters, lock_get of a
-- transaction that does not wait yet, for a shared or exclusive lock, returns under NO_WAIT, WAIT_DIE and
-- DL_DETECT: no assertion fails, in particular DL_DETECT finds somebody to wait for. The state stays valid.
-- RCOK adds the transaction as owner, and only where its lock does not conflict with the lock held; WAIT
-- leaves the owners and enters the transaction, not ready, among the waiters; Abort changes nothing.
pub lock_get-IsValid :
    (alg : CcAlg) (thread_cnt : ℕ) (type : LockType) (txn : Txn) (s : RowLock)
    → s.owner_cnt ≤ thread_cnt
    → s.waiter_cnt < thread_cnt
    → type ≢ lock_none
    → IsFresh txn.id s.waiters
    → IsValid s
    → Ensures (λ r. IsValid r.0 × Answers type txn s r) (lock_get alg thread_cnt type txn s)
unfolding lock_get
lock_get-IsValid alg thread_cnt type txn s o w n f v =
    let a : leb s.owner_cnt thread_cnt ≡ true = ground arith in
    let b : ltb s.waiter_cnt thread_cnt ≡ true = ground arith in
    elim (Bool-cases (conflicts alg type txn s)) [
      | inl clash ↦ rw (a, b, clash) (queue_up-IsValid alg type txn s n f clash v)
      | inr free ↦
          let free' = conflicts-lock alg type txn s free in
          rw (a, b, free) (grant-IsValid type txn s n free' v, (refl, free'))
    ]
