-- ===== src/RowLock.antt =====
-- trusted/concurrency_control/row_lock.h and row_lock.cpp: the lock of one row under NO_WAIT,
-- WAIT_DIE and DL_DETECT, with the list helpers of common/helper.h that it uses. Each method runs
-- under the row's mutex, so a call is one step.
pub mod Spec
pub mod Release
pub mod Waiters
pub mod Get
pub mod Order
mod Tests
use veri_txn.Prelude.{
  ℕ, ◌+◌, ◌-◌, Bool, true, false, not, ◌&&◌, ◌||◌, List, [], ◌∷◌, ◌++◌, map, reverse, Option, none,
  some, ltb, leb, ◌==◌, if◌then◌else◌, Outcome, done, fault, ◌>>=◌,
}

pub data LockType : Type 0 where
  lock_ex lock_sh lock_none : LockType

-- The values of CC_ALG under which this class is used.
pub data CcAlg : Type 0 where
  no_wait wait_die dl_detect : CcAlg

pub data Rc : Type 0 where
  rcok wait abort : Rc

-- A transaction: its identity and its timestamp.
pub record Txn : Type 0 where
  pub id : ℕ
  pub ts : ℕ

pub record LockEntry : Type 0 where
  pub type : LockType
  pub txn : Txn

-- `owners` from the top of the stack, `waiters` from the head, and `lock_ready` of every transaction.
pub record RowLock : Type 0 where
  pub lock_type : LockType
  pub owner_cnt : ℕ
  pub waiter_cnt : ℕ
  pub owners : List LockEntry
  pub waiters : List LockEntry
  pub lock_ready : ℕ → Bool

abbrev pub set_ready : (ℕ → Bool) → ℕ → Bool → ℕ → Bool
set_ready f id b i = if id == i then b else f i

pub init : (ℕ → Bool) → RowLock
init ready = record {
  lock_type = lock_none;
  owner_cnt = 0;
  waiter_cnt = 0;
  owners = [];
  waiters = [];
  lock_ready = ready;
}

abbrev pub conflict_lock : LockType → LockType → Bool
conflict_lock lock_none l2 = false
conflict_lock lock_ex lock_none = false
conflict_lock lock_sh lock_none = false
conflict_lock lock_ex lock_ex = true
conflict_lock lock_ex lock_sh = true
conflict_lock lock_sh lock_ex = true
conflict_lock lock_sh lock_sh = false

abbrev pub head_before : ℕ → List LockEntry → Bool
head_before ts [] = false
head_before ts (w ∷ r) = ltb ts w.txn.ts

abbrev pub is_empty : List LockEntry → Bool
is_empty [] = true
is_empty (w ∷ r) = false

-- The tests that set `conflict`.
pub conflicts : CcAlg → LockType → Txn → RowLock → Bool
conflicts no_wait type txn s = conflict_lock s.lock_type type
conflicts wait_die type txn s = conflict_lock s.lock_type type || head_before txn.ts s.waiters
conflicts dl_detect type txn s = conflict_lock s.lock_type type || not (is_empty s.waiters)

-- WAIT_DIE: no owner is older than the transaction.
pub can_wait : ℕ → List LockEntry → Bool
can_wait ts [] = true
can_wait ts (o ∷ r) = let rest = can_wait ts r in if ltb o.txn.ts ts then false else rest

-- WAIT_DIE: the place in the waiter list, before the first waiter that is not younger.
pub insert_waiter : LockEntry → List LockEntry → List LockEntry
insert_waiter e [] = e ∷ []
insert_waiter e (w ∷ r) =
    let rest = insert_waiter e r in if ltb e.txn.ts w.txn.ts then w ∷ rest else e ∷ (w ∷ r)

abbrev pub enqueue : RowLock → Txn → List LockEntry → RowLock
enqueue s txn waiters = record s {
  waiters = waiters;
  waiter_cnt = s.waiter_cnt + 1;
  lock_ready = set_ready s.lock_ready txn.id false;
}

-- DL_DETECT: the transactions with a conflicting entry in a list.
pub conflicting : LockType → List LockEntry → List ℕ
conflicting type [] = []
conflicting type (e ∷ r) =
    let rest = conflicting type r in if conflict_lock type e.type then e.txn.id ∷ rest else rest

-- DL_DETECT: what the transaction waits for, the waiters before it from the tail on, then the owners.
pub waits_for : LockType → RowLock → List ℕ
unfolding conflicting
waits_for type s =
    conflicting type (reverse s.waiters)
    ++ (if conflict_lock type s.lock_type then map (λ e. e.txn.id) s.owners else [])

abbrev pub Reply : Type 0
Reply = RowLock × Rc × List ℕ

pub grant : LockType → Txn → RowLock → RowLock
grant type txn s = record s {
  owners = record { type = type; txn = txn } ∷ s.owners;
  owner_cnt = s.owner_cnt + 1;
  lock_type = type;
}

-- `ASSERT(txncnt > 0)`, then the answer WAIT.
abbrev pub wait_behind : RowLock → List ℕ → Outcome Reply
wait_behind s [] = fault
wait_behind s (t ∷ ts) = done (s, wait, t ∷ ts)

-- What is done on a conflict.
pub queue_up : CcAlg → LockType → Txn → RowLock → Outcome Reply
unfolding can_wait insert_waiter waits_for
queue_up no_wait type txn s = done (s, abort, [])
queue_up dl_detect type txn s =
    let entry : LockEntry = record { type = type; txn = txn } in
    wait_behind (enqueue s txn (s.waiters ++ (entry ∷ []))) (waits_for type s)
queue_up wait_die type txn s =
    let entry : LockEntry = record { type = type; txn = txn } in
    if can_wait txn.ts s.owners
    then done (enqueue s txn (insert_waiter entry s.waiters), wait, [])
    else done (s, abort, [])

pub lock_get : CcAlg → ℕ → LockType → Txn → RowLock → Outcome Reply
unfolding conflicts queue_up grant
lock_get alg thread_cnt type txn s =
    if leb s.owner_cnt thread_cnt && ltb s.waiter_cnt thread_cnt
    then (if conflicts alg type txn s
        then queue_up alg type txn s
        else done (grant type txn s, rcok, []))
    else fault

abbrev pub keep_entry : LockEntry → Option (List LockEntry) → Option (List LockEntry)
keep_entry e none = none
keep_entry e (some l) = some (e ∷ l)

-- The list without the first entry of the transaction; `none` if it has no entry.
pub remove : ℕ → List LockEntry → Option (List LockEntry)
remove id [] = none
remove id (e ∷ r) = let rest = keep_entry e (remove id r) in if e.txn.id == id then some r else rest

abbrev pub type_left : ℕ → LockType → LockType
type_left owner_cnt type = if owner_cnt == 0 then lock_none else type

abbrev pub drop_waiter : RowLock → Option (List LockEntry) → Outcome RowLock
drop_waiter s none = fault
drop_waiter s (some waiters) = done (record s { waiters = waiters; waiter_cnt = s.waiter_cnt - 1 })

abbrev pub drop_owner : RowLock → Option (List LockEntry) → Outcome RowLock → Outcome RowLock
drop_owner s none rest = rest
drop_owner s (some owners) rest = done (record s {
  owners = owners;
  owner_cnt = s.owner_cnt - 1;
  lock_type = type_left (s.owner_cnt - 1) s.lock_type;
})

pub drop_entry : ℕ → RowLock → Outcome RowLock
unfolding remove
drop_entry id s = drop_owner s (remove id s.owners) (drop_waiter s (remove id s.waiters))

abbrev pub admit : RowLock → LockEntry → List LockEntry → RowLock
admit s w rest = record s {
  owners = w ∷ s.owners;
  waiters = rest;
  owner_cnt = s.owner_cnt + 1;
  waiter_cnt = s.waiter_cnt - 1;
  lock_ready = set_ready s.lock_ready w.txn.id true;
  lock_type = w.type;
}

-- The `while` that lets waiters join the owners; `waiters` of the state is the list.
pub promote : RowLock → List LockEntry → Outcome RowLock
promote s [] = done s
promote s (w ∷ rest) =
    let later = promote (admit s w rest) rest in
    if conflict_lock s.lock_type w.type
    then done s
    else (if s.lock_ready w.txn.id then fault else later)

abbrev pub checked : RowLock → Outcome RowLock
checked s =
    if is_empty s.owners
    then (if s.owner_cnt == 0 then done s else fault)
    else (if s.owner_cnt == 0 then fault else done s)

pub lock_release : ℕ → RowLock → Outcome RowLock
unfolding drop_entry promote
lock_release id s = do s ← drop_entry id s; s ← promote s s.waiters; checked s
