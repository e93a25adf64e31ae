-- ===== src/TicToc.antt =====
-- trusted/concurrency_control/tictoc.cpp and row_tictoc.cpp with ATOMIC_WORD and WR_VALIDATION_SEPARATE, without
-- TICTOC_MV and WRITE_PERMISSION_LOCK, under SERIALIZABLE: validation of a TicToc transaction. The word of a
-- row has the lock bit, 15 bits for the length of the lease, and 48 for the time of the last write.
pub mod Renew
pub mod Lock
pub mod Reads
pub mod Times
pub mod Validate
mod Tests
use Prim.Native.Nat.{bit_or}
use veri_txn.Prelude.{
  set, ℕ, zero, suc, ◌+◌, ◌-◌, ◌*◌, ◌/◌, ◌%◌, ◌^◌, Bool, true, false, not, ◌&&◌, ◌||◌, List, [],
  ◌∷◌, ltb, leb, ◌==◌, if◌then◌else◌, Outcome, done, blocked, fault, ◌>>=◌,
}
use veri_txn.BubbleSort.{bubble_sort}
use veri_txn.Accesses.{AccessType, is_rd, is_wr, chosen}

pub data Rc : Type 0 where
  rcok abort : Rc

-- An access: its type, the row, the two times seen, and the local copy.
pub record Access : Type 0 where
  pub type : AccessType
  pub row : ℕ
  pub wts : ℕ
  pub rts : ℕ
  pub data_copy : ℕ

pub record Db : Type 0 where
  pub word : ℕ → ℕ
  pub tuple : ℕ → ℕ

abbrev pub lock_bit : ℕ
lock_bit = 2 ^ 63

-- `v & LOCK_BIT`, `v & WTS_MASK` and `(v & RTS_MASK) >> WTS_LEN`.
abbrev pub is_locked : ℕ → Bool
is_locked v = leb lock_bit v

abbrev pub wts_of : ℕ → ℕ
wts_of v = v % 2 ^ 48

abbrev pub delta_of : ℕ → ℕ
delta_of v = v / 2 ^ 48 % 2 ^ 15

-- `get_rts`.
abbrev pub rts_of : ℕ → ℕ
rts_of v = delta_of v + wts_of v

abbrev pub with_lock : ℕ → ℕ
with_lock v = v % lock_bit + lock_bit

abbrev pub no_lock : ℕ → ℕ
no_lock v = v % lock_bit

abbrev pub sub_u64 : ℕ → ℕ → ℕ
sub_u64 a b = (a + 2 ^ 64 - b) % 2 ^ 64

-- `Row_tictoc::access`: the tuple with `last_wts` and `last_rts`.
pub access : ℕ → Db → Outcome (ℕ × ℕ × ℕ)
access row db =
    let v : ℕ = db.word row in
    if is_locked v then blocked else done (db.tuple row, wts_of v, rts_of v)

-- `Row_tictoc::write_data`: the word keeps its lock bit alone, and takes the bits of `wts`.
pub write_data : ℕ → ℕ → ℕ → Db → Db
write_data row copy wts db = record db {
  word = set db.word row (if is_locked (db.word row) then with_lock wts else wts);
  tuple = set db.tuple row copy;
}

-- The word that try_renew wants to store.
pub renewed : ℕ → ℕ → ℕ
renewed wts delta_rts =
    if leb (2 ^ 15) delta_rts
    then bit_or ((wts + (delta_rts - delta_rts % 2 ^ 15)) % 2 ^ 64) (delta_rts % 2 ^ 15 * 2 ^ 48)
    else bit_or wts (delta_rts * 2 ^ 48)

-- The compare-and-swap loop: `found` are the words that other threads have put there meanwhile, in order.
-- The result has the word after it.
pub cas_renew : Bool → ℕ → ℕ → ℕ → ℕ → List ℕ → ℕ × Bool
cas_renew rebase wts rts v2 v [] = (v2, true)
cas_renew rebase wts rts v2 v (pre_v ∷ found) =
    let again = cas_renew rebase wts rts v2 pre_v found in
    if pre_v == v
    then (v2, true)
    else (if rebase || (is_locked pre_v || not (wts == wts_of pre_v))
        then (pre_v, false)
        else (if ltb rts (delta_of pre_v) then (pre_v, true) else again))

-- The time to which the word is moved, if the lease is too long for its bits.
abbrev pub rebased : ℕ → ℕ → ℕ
rebased wts delta_rts =
    if leb (2 ^ 15) delta_rts then (wts + (delta_rts - delta_rts % 2 ^ 15)) % 2 ^ 64 else wts

-- `Row_tictoc::try_renew` on the word of the row.
pub try_renew : ℕ → ℕ → List ℕ → ℕ → ℕ × Bool
unfolding renewed cas_renew
try_renew wts rts found v =
    let delta_rts : ℕ = sub_u64 rts wts in
    if (wts_of v == wts) && leb delta_rts (delta_of v)
    then (v, true)
    else (if is_locked v || not (wts == wts_of v)
        then (v, false)
        else (if ltb delta_rts (delta_of v)
            then (v, true)
            else cas_renew (leb (2 ^ 15) delta_rts) (rebased wts delta_rts) rts
                (renewed wts delta_rts) v found))

-- `Row_tictoc::release`.
abbrev pub release : ℕ → (ℕ → ℕ) → ℕ → ℕ
release row f = set f row (no_lock (f row))

-- The write set, and the read set of all the other accesses, in their order.
abbrev pub write_set : List Access → List Access
write_set l = chosen (λ a. is_wr a.type) l

abbrev pub read_set : List Access → List Access
read_set l = chosen (λ a. not (is_wr a.type)) l

abbrev pub after : (ℕ → ℕ) → Access → Access → Bool
after key a b = ltb (key b.row) (key a.row)

abbrev inc_u64 : ℕ → ℕ
inc_u64 n = (n + 1) % 2 ^ 64

-- The loop for `commit_rts` and `commit_wts`.
pub commit_times : List Access → ℕ → ℕ → ℕ × ℕ
commit_times [] commit_rts commit_wts = (commit_rts, commit_wts)
commit_times (a ∷ l) commit_rts commit_wts =
    commit_times l (if is_rd a.type && ltb commit_rts a.wts then a.wts else commit_rts)
      (if is_wr a.type && ltb commit_wts (inc_u64 a.rts) then inc_u64 a.rts else commit_wts)

abbrev pub later_of : ℕ × ℕ → ℕ
later_of (commit_rts, commit_wts) = if ltb commit_wts commit_rts then commit_rts else commit_wts

-- The loops of the early check: a row written still has the version seen, a row read has it or is leased.
pub same_writes : (ℕ → ℕ) → List Access → Bool
same_writes f [] = true
same_writes f (a ∷ l) =
    let rest = same_writes f l in if wts_of (f a.row) == a.wts then rest else false

pub same_reads : (ℕ → ℕ) → ℕ → List Access → Bool
same_reads f commit_wts [] = true
same_reads f commit_wts (a ∷ l) =
    let rest = same_reads f commit_wts l in
    if ltb (rts_of (f a.row)) commit_wts && not (wts_of (f a.row) == a.wts) then false else rest

pub data Locking : Type 0 where
  full busy changed : Locking

abbrev pub one_more : (ℕ → ℕ) × ℕ × Locking → (ℕ → ℕ) × ℕ × Locking
one_more (f, n, k) = (f, n + 1, k)

-- One round of the loop that locks the write set: the words, `num_locks` and how it ended.
pub lock_round : List Access → (ℕ → ℕ) → (ℕ → ℕ) × ℕ × Locking
lock_round [] f = (f, 0, full)
lock_round (a ∷ l) f =
    let locked = set f a.row (with_lock (f a.row)) in
    let rest = one_more (lock_round l locked) in
    if is_locked (f a.row)
    then (f, 0, busy)
    else (if wts_of (locked a.row) == a.wts then rest else (locked, 1, changed))

-- The loop that releases the first `n` locks.
pub release_locks : ℕ → List Access → (ℕ → ℕ) → ℕ → ℕ
release_locks zero l f = f
release_locks (suc n) [] f = f
release_locks (suc n) (a ∷ l) f = release_locks n l (release a.row f)

-- The loop that raises `commit_wts` above the leases of the rows written.
pub raise : List Access → (ℕ → ℕ) → ℕ → ℕ
raise [] f commit_wts = commit_wts
raise (a ∷ l) f commit_wts =
    raise l f (
      if ltb commit_wts (inc_u64 (rts_of (f a.row)))
      then inc_u64 (rts_of (f a.row))
      else commit_wts)

abbrev pub renew_one : Access → ℕ → (ℕ → ℕ) → (ℕ → ℕ) × Bool
renew_one a commit_wts f =
    if ltb a.rts commit_wts
    then (
      set f a.row (try_renew a.wts commit_wts [] (f a.row)).0,
      (try_renew a.wts commit_wts [] (f a.row)).1,
    )
    else (f, true)

-- The loop that validates the read set.
pub renew_reads : List Access → ℕ → (ℕ → ℕ) → (ℕ → ℕ) × Bool
unfolding try_renew
renew_reads [] commit_wts f = (f, true)
renew_reads (a ∷ l) commit_wts f =
    let one = renew_one a commit_wts f in
    let rest = renew_reads l commit_wts one.0 in if one.1 then rest else (one.0, false)

-- The loop that writes and releases.
pub install : List Access → ℕ → Db → Db
unfolding write_data
install [] commit_wts db = db
install (a ∷ l) commit_wts db =
    let db' = write_data a.row a.data_copy commit_wts db in
    install l commit_wts (record db' { word = release a.row db'.word })

-- What validation leaves: the rows, `_max_wts` and the answer.
pub record Validation : Type 0 where
  pub db : Db
  pub max_wts : ℕ
  pub rc : Rc

abbrev pub give_up : ℕ → List Access → (ℕ → ℕ) → ℕ → Db → Validation
give_up n ws f max_wts db = record {
  db = record db { word = release_locks n ws f };
  max_wts = max_wts;
  rc = abort;
}

-- `write_copy_ptr` is `_write_copy_ptr`, under which a commit fails its assertion.
abbrev pub conclude : Bool → ℕ → List Access → ℕ → ℕ → Db → (ℕ → ℕ) × Bool → Outcome Validation
conclude write_copy_ptr n ws commit_wts max_wts db (f, false) = done (give_up n ws f max_wts db)
conclude write_copy_ptr n ws commit_wts max_wts db (f, true) =
    if write_copy_ptr
    then fault
    else done (record {
      db = install ws commit_wts (record db { word = f });
      max_wts = (if ltb max_wts commit_wts then commit_wts else max_wts);
      rc = rcok;
    })

-- What is done before a round of locks, and again after one that found a lock taken.
abbrev pub early : Bool → List Access → List Access → ℕ → (ℕ → ℕ) → Bool
early pre_abort ws rs commit_wts f =
    pre_abort && not (same_writes f ws && same_reads f commit_wts rs)

abbrev pub after_locks :
    Bool
    → Bool
    → Bool
    → List Access
    → List Access
    → ℕ
    → ℕ
    → Db
    → (ℕ → ℕ) × ℕ × Locking
    → Outcome Validation
after_locks pre_abort no_wait write_copy_ptr ws rs commit_wts max_wts db (f, n, full) =
    let commit_wts = raise ws f commit_wts in
    conclude write_copy_ptr n ws commit_wts max_wts db (renew_reads rs commit_wts f)
after_locks pre_abort no_wait write_copy_ptr ws rs commit_wts max_wts db (f, n, changed) =
    done (give_up n ws f max_wts db)
after_locks pre_abort no_wait write_copy_ptr ws rs commit_wts max_wts db (f, n, busy) =
    if no_wait && early pre_abort ws rs commit_wts (release_locks n ws f)
    then done (give_up n ws f max_wts db)
    else blocked

pub validate_sets : Bool → Bool → Bool → List Access → List Access → ℕ → ℕ → Db → Outcome Validation
unfolding same_writes same_reads lock_round release_locks raise renew_reads install
validate_sets pre_abort no_wait write_copy_ptr ws rs commit_wts max_wts db =
    if early pre_abort ws rs commit_wts db.word
    then done (record { db = db; max_wts = max_wts; rc = abort })
    else after_locks pre_abort no_wait write_copy_ptr ws rs commit_wts max_wts db
        (lock_round ws db.word)

-- `txn_man::validate_tictoc`, with `_max_wts`.
pub validate_tictoc : (ℕ → ℕ) → Bool → Bool → Bool → List Access → ℕ → Db → Outcome Validation
unfolding validate_sets commit_times bubble_sort
validate_tictoc key pre_abort no_wait write_copy_ptr accesses max_wts db =
    validate_sets pre_abort no_wait write_copy_ptr (bubble_sort (after key) (write_set accesses))
      (read_set accesses) (later_of (commit_times accesses 0 0)) max_wts db
