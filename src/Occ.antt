-- ===== src/Occ.antt =====
-- trusted/concurrency_control/row_occ.cpp and the per-row validation of occ.cpp (PER_ROW_VALID), with
-- what `txn_man::cleanup` and `row_t::return_row` do for OCC, and the timestamps of
-- `ManagerEnc::get_ts`. A row is a number; table names are numbers in the order of `strcmp`.
pub mod Latches
pub mod Writes
pub mod Reorder
pub mod Validate
mod Tests
use veri_txn.Prelude.{
  set, ℕ, zero, suc, ◌+◌, ◌^◌, ◌%◌, Bool, true, false, not, ◌&&◌, ◌||◌, List, [], ◌∷◌, reverse, ltb,
  ◌==◌, if◌then◌else◌, Outcome, done, blocked, fault, ◌>>=◌,
}
use veri_txn.BubbleSort.{bubble_sort}

pub data AccessType : Type 0 where
  rd wr : AccessType

pub data Rc : Type 0 where
  rcok abort : Rc

-- An access of a transaction: the row, and the local copy that a write leaves there.
pub record Access : Type 0 where
  pub type : AccessType
  pub row : ℕ
  pub local : ℕ

-- The rows with their `Row_occ`, and the manager's timestamp.
pub record Db : Type 0 where
  pub wts : ℕ → ℕ
  pub tuple : ℕ → ℕ
  pub latched : ℕ → Bool
  pub timestamp : ℕ

-- `ManagerEnc::get_ts` under TS_CAS without batches.
pub get_ts : Db → Db × ℕ
get_ts db = (record db { timestamp = (db.timestamp + 1) % 2 ^ 64 }, db.timestamp)

-- `Row_occ::validate`.
pub validate : (ℕ → ℕ) → ℕ → ℕ → Bool
validate wts start_ts row = if ltb start_ts (wts row) then false else true

-- `Row_occ::access` for R_REQ: the row is copied if nobody has written it since the start.
pub access : ℕ → ℕ → Db → Outcome (Rc × ℕ)
access start_ts row db =
    if db.latched row
    then blocked
    else (if ltb start_ts (db.wts row) then done (abort, 0) else done (rcok, db.tuple row))

-- `Row_occ::latch`.
pub latch : ℕ → (ℕ → Bool) → Outcome (ℕ → Bool)
latch row latched = if latched row then blocked else done (set latched row true)

-- `Row_occ::write`.
pub write : ℕ → ℕ → ℕ → Db → Outcome Db
write row local ts db =
    if ltb (db.wts row) ts
    then done (record db { tuple = set db.tuple row local; wts = set db.wts row ts })
    else fault

-- The order of the rows: by table, then by primary key.
abbrev pub after : (ℕ → ℕ) → (ℕ → ℕ) → Access → Access → Bool
after table key a b =
    ltb (table b.row) (table a.row) || table a.row == table b.row && ltb (key b.row) (key a.row)

-- The loop that latches and validates: the latches, `ok` and `lock_cnt`.
abbrev pub one_more : (ℕ → Bool) × Bool × ℕ → (ℕ → Bool) × Bool × ℕ
one_more (latched, ok, n) = (latched, ok, n + 1)

pub latch_loop : (ℕ → ℕ) → ℕ → List Access → (ℕ → Bool) → Outcome ((ℕ → Bool) × Bool × ℕ)
unfolding latch validate
latch_loop wts start_ts [] latched = done (latched, true, 0)
latch_loop wts start_ts (a ∷ l) latched =
    let rest = (latch_loop wts start_ts l (set latched a.row true) >>= λ r. done (one_more r)) in
    latch a.row latched >>= λ f. if validate wts start_ts a.row then rest else done (f, false, 1)

abbrev pub is_wr : AccessType → Bool
is_wr rd = false
is_wr wr = true

-- `cleanup`: the accesses from the last to the first, each write with `end_ts`.
pub write_back : ℕ → List Access → Db → Outcome Db
unfolding write
write_back end_ts [] db = done db
write_back end_ts (a ∷ l) db = do
  db ← write_back end_ts l db
  if is_wr a.type then write a.row a.local end_ts db else done db

-- The loop that releases the first `n` latches.
pub release_loop : ℕ → List Access → (ℕ → Bool) → ℕ → Bool
release_loop zero l latched = latched
release_loop (suc n) [] latched = latched
release_loop (suc n) (a ∷ l) latched = release_loop n l (set latched a.row false)

abbrev pub finish : List Access → Db → (ℕ → Bool) × Bool × ℕ → Outcome (Db × Rc)
finish l db (latched, true, n) = do
  let (db, end_ts) = get_ts (record db { latched = latched })
  db ← write_back end_ts l db
  done (record db { latched = release_loop n l db.latched }, rcok)
finish l db (latched, false, n) = done (record db { latched = release_loop n l latched }, abort)

pub validate_sorted : ℕ → List Access → Db → Outcome (Db × Rc)
unfolding latch_loop write_back release_loop get_ts
validate_sorted start_ts l db = latch_loop db.wts start_ts l db.latched >>= λ r. finish l db r

pub per_row_validate : (ℕ → ℕ) → (ℕ → ℕ) → ℕ → List Access → Db → Outcome (Db × Rc)
unfolding validate_sorted bubble_sort
per_row_validate table key start_ts accesses db =
    validate_sorted start_ts (bubble_sort (after table key) accesses) db
