-- ===== src/Plock.antt =====
-- trusted/concurrency_control/plock.cpp: the partition locks of H-Store. A transaction is its identity
-- and its timestamp; a method of `PartMan` runs under the latch of the partition, as one step.
pub mod Spec
pub mod Acquire
pub mod HandOver
mod Tests
use veri_txn.Prelude.{
  set, ℕ, zero, suc, ◌+◌, ◌-◌, ◌%◌, ◌^◌, Bool, true, false, ◌&&◌, ◌||◌, Option, none, some, List,
  [], ◌∷◌, ltb, ◌==◌, if◌then◌else◌, Outcome, done, fault, ◌>>=◌,
}

pub record Txn : Type 0 where
  pub id : ℕ
  pub ts : ℕ

pub data Rc : Type 0 where
  rcok wait abort : Rc

-- The array `waiters` holds the transactions of the places below `waiter_cnt`.
pub record PartMan : Type 0 where
  pub owner : Option Txn
  pub waiter_cnt : ℕ
  pub waiters : ℕ → Txn

-- `ready_part` of every transaction, the partitions that it still waits for: an int, here its 32 bits.
abbrev pub Ready : Type 0
Ready = ℕ → ℕ

pub init : (ℕ → Txn) → PartMan
init waiters = record { owner = none; waiter_cnt = 0; waiters = waiters }

-- The `for` of `lock`, from the place `i` down.
pub shift_in : Txn → ℕ → (ℕ → Txn) → ℕ → Txn
shift_in txn zero w = set w 0 txn
shift_in txn (suc i) w =
    let further = shift_in txn i (set w (suc i) (w i)) in
    if ltb (w i).ts txn.ts then set w (suc i) txn else further

abbrev add_ready : Ready → ℕ → Ready
add_ready ready id = set ready id ((ready id + 1) % 2 ^ 32)

abbrev pub sub_ready : Ready → ℕ → Ready
sub_ready ready id = set ready id ((ready id + (2 ^ 32 - 1)) % 2 ^ 32)

abbrev pub enqueue : PartMan → Txn → PartMan
enqueue p txn = record p {
  waiters = shift_in txn p.waiter_cnt p.waiters;
  waiter_cnt = p.waiter_cnt + 1;
}

abbrev pub contend : ℕ → Txn → PartMan → Ready → Txn → Outcome (PartMan × Ready × Rc)
contend thread_cnt txn p ready owner =
    if ltb owner.ts txn.ts
    then (if ltb p.waiter_cnt thread_cnt
        then done (enqueue p txn, add_ready ready txn.id, wait)
        else fault)
    else done (p, ready, abort)

abbrev pub lock_for : ℕ → Txn → PartMan → Ready → Option Txn → Outcome (PartMan × Ready × Rc)
lock_for thread_cnt txn p ready none = done (record p { owner = some txn }, ready, rcok)
lock_for thread_cnt txn p ready (some owner) = contend thread_cnt txn p ready owner

pub lock : ℕ → Txn → PartMan → Ready → Outcome (PartMan × Ready × Rc)
unfolding shift_in
lock thread_cnt txn p ready = lock_for thread_cnt txn p ready p.owner

-- The `for` of `unlock` for the owner: `k` rounds from the place `i` on.
pub shift_out : ℕ → ℕ → (ℕ → Txn) → Outcome (ℕ → Txn)
shift_out i zero w = done w
shift_out i (suc k) w =
    let further = shift_out (suc i) k (set w i (w (suc i))) in
    if ltb (w i).ts (w (suc i)).ts then further else fault

-- The `for` of `unlock` for a waiter: `k` rounds from the place `i` on, with the flag `find`.
pub shift_found : ℕ → ℕ → ℕ → ℕ → Bool → (ℕ → Txn) → Bool × (ℕ → Txn)
shift_found id cnt i zero find w = (find, w)
shift_found id cnt i (suc k) find w =
    let found : Bool = find || (w i).id == id in
    shift_found id cnt (suc i) k found (if found && ltb i (cnt - 1) then set w i (w (suc i)) else w)

-- `unlock` by the owner; the number of waiters is given last.
abbrev pub hand_over : PartMan → Ready → ℕ → Outcome (PartMan × Ready)
hand_over p ready zero = done (record p { owner = none }, ready)
hand_over p ready (suc k) = do
  w ← shift_out 0 k p.waiters
  done (
    record p { owner = some (p.waiters 0); waiters = w; waiter_cnt = k },
    sub_ready ready (p.waiters 0).id,
  )

abbrev pub left : PartMan → Ready → Bool × (ℕ → Txn) → Outcome (PartMan × Ready)
left p ready (false, w) = fault
left p ready (true, w) = done (record p { waiters = w; waiter_cnt = p.waiter_cnt - 1 }, ready)

abbrev pub is_owner : ℕ → Option Txn → Bool
is_owner id none = false
is_owner id (some t) = t.id == id

pub unlock : ℕ → PartMan → Ready → Outcome (PartMan × Ready)
unfolding shift_out shift_found
unlock id p ready =
    if is_owner id p.owner
    then hand_over p ready p.waiter_cnt
    else left p (sub_ready ready id) (shift_found id p.waiter_cnt 0 p.waiter_cnt false p.waiters)

-- `Plock::unlock`: the partitions one after the other.
pub unlock_parts : ℕ → List ℕ → (ℕ → PartMan) → Ready → Outcome ((ℕ → PartMan) × Ready)
unfolding unlock
unlock_parts id [] ps ready = done (ps, ready)
unlock_parts id (part ∷ parts) ps ready = do
  (p, ready) ← unlock id (ps part) ready
  unlock_parts id parts (set ps part p) ready

-- What `Plock::lock` did until the wait: it has the partitions or stands in their queues, or it gave
-- up after the ones listed.
pub data Taken : Type 0 where
  all_taken : Taken
  given_up : List ℕ → Taken

abbrev pub taken_too : ℕ → Taken → Taken
taken_too part all_taken = all_taken
taken_too part (given_up done_parts) = given_up (part ∷ done_parts)

abbrev pub with_part : ℕ → (ℕ → PartMan) × Ready × Taken → (ℕ → PartMan) × Ready × Taken
with_part part (ps, ready, t) = (ps, ready, taken_too part t)

abbrev pub go_on :
    ℕ
    → (ℕ → PartMan) × Ready
    → Outcome ((ℕ → PartMan) × Ready × Taken)
    → Rc
    → Outcome ((ℕ → PartMan) × Ready × Taken)
go_on part (ps, ready) rest abort = done (ps, ready, given_up [])
go_on part (ps, ready) rest _ = (rest >>= λ r. done (with_part part r))

pub lock_loop : ℕ → Txn → List ℕ → (ℕ → PartMan) → Ready → Outcome ((ℕ → PartMan) × Ready × Taken)
unfolding lock
lock_loop thread_cnt txn [] ps ready = done (ps, ready, all_taken)
lock_loop thread_cnt txn (part ∷ parts) ps ready = do
  (p, ready, rc) ← lock thread_cnt txn (ps part) ready
  let rest = lock_loop thread_cnt txn parts (set ps part p) ready
  go_on part (set ps part p, ready) rest rc

-- `Plock::lock` up to the loop that waits for `ready_part` to come down to 0.
abbrev pub settle : ℕ → (ℕ → PartMan) × Ready × Taken → Outcome ((ℕ → PartMan) × Ready × Rc)
settle id (ps, ready, all_taken) =
    if ready id == 0
    then done (ps, ready, rcok)
    else (if ltb (ready id) (2 ^ 31) then done (ps, ready, wait) else fault)
settle id (ps, ready, given_up parts) = do
  (ps, ready) ← unlock_parts id parts ps ready
  if ready id == 0 then done (ps, ready, abort) else fault

pub lock_parts : ℕ → Txn → List ℕ → (ℕ → PartMan) → Ready → Outcome ((ℕ → PartMan) × Ready × Rc)
unfolding lock_loop unlock_parts
lock_parts thread_cnt txn parts ps ready = do
  r ← lock_loop thread_cnt txn parts ps ready
  settle txn.id r
