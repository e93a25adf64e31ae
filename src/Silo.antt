-- ===== src/Silo.antt =====
-- trusted/concurrency_control/silo.cpp and row_silo.cpp with ATOMIC_WORD: validation of a Silo
-- transaction. A row is a number; its word is below 2 ^ 64. A run is that of one thread: `blocked`
-- says that it spins on a lock that another thread holds.
pub mod Words
pub mod Lock
pub mod Install
pub mod Sets
pub mod Checks
pub mod Validate
mod Tests
use veri_txn.Prelude.{
  set, ℕ, zero, suc, ◌+◌, ◌^◌, ◌%◌, Bool, true, false, not, ◌&&◌, Option, none, some, List, [], ◌∷◌,
  ltb, leb, ◌==◌, if◌then◌else◌, Outcome, done, blocked, fault, ◌>>=◌,
}
use veri_txn.BubbleSort.{bubble_sort}

pub data Rc : Type 0 where
  rcok abort : Rc

-- An access: whether it is a write, the row, the version seen, and the local copy.
pub record Access : Type 0 where
  pub is_wr : Bool
  pub row : ℕ
  pub tid : ℕ
  pub data_copy : ℕ

pub record Db : Type 0 where
  pub word : ℕ → ℕ
  pub tuple : ℕ → ℕ

abbrev pub lock_bit : ℕ
lock_bit = 2 ^ 63

-- `v & LOCK_BIT`, `v & (~LOCK_BIT)` and `v | LOCK_BIT` of a word.
abbrev pub is_locked : ℕ → Bool
is_locked v = leb lock_bit v

abbrev pub tid_of : ℕ → ℕ
tid_of v = v % lock_bit

abbrev pub with_lock : ℕ → ℕ
with_lock v = v % lock_bit + lock_bit

-- `Row_silo::access`.
pub access : ℕ → Db → Outcome (ℕ × ℕ)
access row db =
    if is_locked (db.word row) then blocked else done (db.tuple row, tid_of (db.word row))

-- `Row_silo::validate` on the word of the row.
pub validate : ℕ → Bool → ℕ → Bool
validate tid true v = tid == tid_of v
validate tid false v = if is_locked v then false else (if tid == tid_of v then true else false)

-- `Row_silo::write`.
pub write : ℕ → ℕ → ℕ → Db → Outcome Db
write row local tid db =
    if ltb (tid_of (db.word row)) tid && is_locked (db.word row)
    then done (record db { tuple = set db.tuple row local; word = set db.word row (with_lock tid) })
    else fault

-- `Row_silo::release` on the words of the rows.
pub release : ℕ → (ℕ → ℕ) → Outcome (ℕ → ℕ)
release row f = if is_locked (f row) then done (set f row (tid_of (f row))) else fault

-- The write set and the read set, in the order of the accesses.
pub write_set : List Access → List Access
write_set [] = []
write_set (a ∷ l) = let rest = write_set l in if a.is_wr then a ∷ rest else rest

pub read_set : List Access → List Access
read_set [] = []
read_set (a ∷ l) = let rest = read_set l in if a.is_wr then rest else a ∷ rest

abbrev pub after : (ℕ → ℕ) → Access → Access → Bool
after key a b = ltb (key b.row) (key a.row)

-- The loops of the early check: every row still has the version seen.
pub same_tids : (ℕ → ℕ) → List Access → Bool
same_tids f [] = true
same_tids f (a ∷ l) = let rest = same_tids f l in if tid_of (f a.row) == a.tid then rest else false

pub data Locking : Type 0 where
  full busy changed : Locking

abbrev pub one_more : (ℕ → ℕ) × ℕ × Locking → (ℕ → ℕ) × ℕ × Locking
one_more (f, n, k) = (f, n + 1, k)

-- One round of the loop that locks the write set: the words, `num_locks` and how it ended.
pub lock_round : List Access → (ℕ → ℕ) → (ℕ → ℕ) × ℕ × Locking
lock_round [] f = (f, 0, full)
lock_round (a ∷ l) f =
    let locked = set f a.row (with_lock (f a.row)) in
    let rest = one_more (lock_round l locked) in
    if is_locked (f a.row)
    then (f, 0, busy)
    else (if tid_of (locked a.row) == a.tid then rest else (locked, 1, changed))

-- The loop that releases the first `n` locks.
pub release_locks : ℕ → List Access → (ℕ → ℕ) → Outcome (ℕ → ℕ)
unfolding release
release_locks zero l f = done f
release_locks (suc n) [] f = done f
release_locks (suc n) (a ∷ l) f = release a.row f >>= release_locks n l

-- The loop that validates a set and keeps the greatest version seen: `none` is an abort.
pub check : Bool → List Access → (ℕ → ℕ) → ℕ → Option ℕ
unfolding validate
check in_write_set [] f max_tid = some max_tid
check in_write_set (a ∷ l) f max_tid =
    let rest = check in_write_set l f (if ltb max_tid a.tid then a.tid else max_tid) in
    if validate a.tid in_write_set (f a.row) then rest else none

abbrev pub check_writes : List Access → (ℕ → ℕ) → Option ℕ → Option ℕ
check_writes ws f none = none
check_writes ws f (some max_tid) = check true ws f max_tid

-- The loop that writes and releases.
pub install : List Access → ℕ → Db → Outcome Db
unfolding write release
install [] tid db = done db
install (a ∷ l) tid db = do
  db ← write a.row a.data_copy tid db
  f ← release a.row db.word
  install l tid (record db { word = f })

abbrev pub give_up : ℕ → List Access → (ℕ → ℕ) → ℕ → Db → Outcome (Db × ℕ × Rc)
give_up n ws f cur db = do f ← release_locks n ws f; done (record db { word = f }, cur, abort)

abbrev pub next_tid : ℕ → ℕ → ℕ
next_tid max_tid cur = if ltb cur max_tid then max_tid + 1 else cur + 1

abbrev pub conclude : ℕ → List Access → (ℕ → ℕ) → ℕ → Db → Option ℕ → Outcome (Db × ℕ × Rc)
conclude n ws f cur db none = give_up n ws f cur db
conclude n ws f cur db (some max_tid) = do
  db ← install ws (next_tid max_tid cur) (record db { word = f })
  done (db, next_tid max_tid cur, rcok)

abbrev pub same_again : Bool → List Access → List Access → ℕ → Db → Outcome (Db × ℕ × Rc)
same_again pre_abort ws rs cur db =
    if pre_abort && not (same_tids db.word ws && same_tids db.word rs)
    then done (db, cur, abort)
    else blocked

abbrev pub after_locks :
    Bool → Bool → List Access → List Access → ℕ → Db → (ℕ → ℕ) × ℕ × Locking → Outcome (Db × ℕ × Rc)
after_locks pre_abort no_wait ws rs cur db (f, n, full) =
    conclude n ws f cur db (check_writes ws f (check false rs f 0))
after_locks pre_abort no_wait ws rs cur db (f, n, changed) = give_up n ws f cur db
after_locks pre_abort no_wait ws rs cur db (f, n, busy) =
    if no_wait
    then release_locks n ws f >>= (λ f. same_again pre_abort ws rs cur (record db { word = f }))
    else blocked

pub validate_sets : Bool → Bool → List Access → List Access → ℕ → Db → Outcome (Db × ℕ × Rc)
unfolding same_tids lock_round release_locks check install
validate_sets pre_abort no_wait ws rs cur db =
    if pre_abort && not (same_tids db.word ws && same_tids db.word rs)
    then done (db, cur, abort)
    else after_locks pre_abort no_wait ws rs cur db (lock_round ws db.word)

-- `txn_man::validate_silo`, with `_cur_tid`.
pub validate_silo : (ℕ → ℕ) → Bool → Bool → List Access → ℕ → Db → Outcome (Db × ℕ × Rc)
unfolding validate_sets write_set read_set bubble_sort
validate_silo key pre_abort no_wait accesses cur db =
    validate_sets pre_abort no_wait (bubble_sort (after key) (write_set accesses))
      (read_set accesses) cur db
