-- ===== src/Hekaton.antt =====
-- trusted/concurrency_control/row_hekaton.cpp and hekaton.cpp: the versions of a row in a ring of entries,
-- and the validation of a Hekaton transaction. A row is a number, its address; 0 is the null pointer. Each
-- method is one step under its latch.
pub mod Ring
pub mod Chains
pub mod Settle
pub mod Reserve
pub mod Double
pub mod Choose
pub mod Take
pub mod Mark
pub mod Prewrite
pub mod Prepare
pub mod Validate
mod Tests
pub mod Reads
use veri_txn.Accesses.{AccessType, is_rd, is_wr}
use veri_txn.Prelude.{
  set, ℕ, zero, suc, ◌+◌, ◌-◌, ◌*◌, ◌%◌, ◌^◌, Bool, true, false, not, ◌&&◌, ◌||◌, List, [], ◌∷◌,
  ltb, leb, ◌==◌, if◌then◌else◌, Outcome, done, blocked, fault, ◌>>=◌,
}

pub data Rc : Type 0 where
  rcok abort : Rc

pub data TsType : Type 0 where
  r_req p_req w_req xp_req : TsType

pub record WriteHisEntry : Type 0 where
  pub begin_txn : Bool
  pub end_txn : Bool
  pub begin : ℕ
  pub end : ℕ
  pub row : ℕ

-- `tuple` is the data at each address, and `next_row` the address that the allocator gives next.
pub record RowHekaton : Type 0 where
  pub blatch : Bool
  pub his_latest : ℕ
  pub his_oldest : ℕ
  pub write_history : ℕ → WriteHisEntry
  pub exists_prewrite : Bool
  pub his_len : ℕ
  pub tuple : ℕ → ℕ
  pub next_row : ℕ

abbrev pub inf : ℕ
inf = 2 ^ 64 - 1

-- `(i + 1) % _his_len` and `(i == 0)? _his_len - 1 : i - 1` on 32 bits.
abbrev pub next : ℕ → ℕ → ℕ
next len i = (i + 1) % 2 ^ 32 % len

abbrev pub prev : ℕ → ℕ → ℕ
prev len i = if i == 0 then len - 1 else i - 1

-- `init`; `memory` is what stands in the entries that the allocator gives.
pub init : (ℕ → WriteHisEntry) → ℕ → (ℕ → ℕ) → ℕ → RowHekaton
init memory row tuple next_row = record {
  blatch = false;
  his_latest = 0;
  his_oldest = 0;
  write_history =
      set (λ i. record (memory i) { row = 0 }) 0
        (record { begin_txn = false; end_txn = false; begin = 0; end = inf; row = row });
  exists_prewrite = false;
  his_len = 4;
  tuple = tuple;
  next_row = next_row;
}

-- An entry of the new half.
abbrev pub unused : WriteHisEntry → WriteHisEntry
unused e = record e { row = 0; begin_txn = false; end_txn = false }

-- The rounds of `doubleHistory` from `i` on.
pub double_loop : ℕ → (ℕ → WriteHisEntry) → ℕ → ℕ → ℕ → (ℕ → WriteHisEntry) → ℕ → WriteHisEntry
double_loop len history zero i idx temp = temp
double_loop len history (suc n) i idx temp =
    double_loop len history n (i + 1) (next len idx)
      (set (set temp i (history idx)) (i + len) (unused (temp (i + len))))

pub double_history : (ℕ → WriteHisEntry) → RowHekaton → RowHekaton
unfolding double_loop
double_history memory h = record h {
  his_oldest = 0;
  his_latest = h.his_len - 1;
  write_history = double_loop h.his_len h.write_history h.his_len 0 h.his_oldest memory;
  his_len = h.his_len * 2 % 2 ^ 32;
}

-- The reader's scan back from the entry `i`, at most `fuel` entries; 0 is the row of no version.
pub read_scan : ℕ → ℕ → RowHekaton → ℕ → Outcome ℕ
read_scan zero ts h i = fault
read_scan (suc fuel) ts h i =
    let j : ℕ = prev h.his_len i in
    let e : WriteHisEntry = h.write_history j in
    let rest = read_scan fuel ts h j in
    if ltb e.begin ts
    then (if ltb ts e.end then done e.row else fault)
    else (if j == h.his_oldest then fault else rest)

abbrev pub latest : RowHekaton → WriteHisEntry
latest h = h.write_history h.his_latest

abbrev pub oldest : RowHekaton → WriteHisEntry
oldest h = h.write_history h.his_oldest

-- The row that a call sets `txn->cur_row` to, if it does, and its return code.
pub record Result : Type 0 where
  pub rc : Rc
  pub cur_row : ℕ

pub read_req : Bool → ℕ → RowHekaton → Outcome Result
unfolding read_scan
read_req repeatable ts h =
    if repeatable
    then done (record { rc = rcok; cur_row = (latest h).row })
    else (if ltb ts (oldest h).begin
        then done (record { rc = abort; cur_row = 0 })
        else (if ltb (latest h).begin ts
            then done (record { rc = rcok; cur_row = (latest h).row })
            else read_scan h.his_len ts h h.his_latest >>= λ row.
                done (record { rc = rcok; cur_row = row })))

-- The collection of garbage: the oldest entry after it, found within `fuel` rounds.
pub recycle : ℕ → ℕ → RowHekaton → ℕ → Outcome ℕ
recycle zero min_ts h i = fault
recycle (suc fuel) min_ts h i =
    let rest = recycle fuel min_ts h (next h.his_len i) in
    if ltb (h.write_history i).end min_ts
    then (if i == h.his_latest then fault else rest)
    else done i

-- The next entry is the oldest one.
abbrev pub is_full : RowHekaton → Bool
is_full h = next h.his_len h.his_latest == h.his_oldest

pub collect : ℕ → RowHekaton → Outcome RowHekaton
unfolding recycle
collect min_ts h =
    if is_full h && ltb (oldest h).end min_ts
    then (recycle h.his_len min_ts h h.his_oldest >>= λ i. done (record h { his_oldest = i }))
    else done h

-- The entry that is taken.
pub choose : ℕ → (ℕ → WriteHisEntry) → RowHekaton → RowHekaton × ℕ
unfolding double_history
choose thread_cnt memory h =
    let doubled = double_history memory h in
    if not (is_full h)
    then (h, next h.his_len h.his_latest)
    else (if ltb h.his_len thread_cnt
        then (doubled, next doubled.his_len doubled.his_latest)
        else (record h { his_oldest = next h.his_len h.his_oldest }, h.his_oldest))

-- The row of the entry is allocated if there is none.
pub allocate : RowHekaton × ℕ → RowHekaton × ℕ
allocate (h, idx) =
    if (h.write_history idx).row == 0
    then (
      record h {
        write_history = set h.write_history idx (record (h.write_history idx) { row = h.next_row });
        next_row = h.next_row + 1;
      },
      idx,
    )
    else (h, idx)

-- `ManagerEnc::get_min_ts`, whose code is an assertion that fails.
abbrev pub get_min_ts : Outcome ℕ
get_min_ts = fault

-- What `reserveRow` does with the answer of get_min_ts.
pub take_entry : ℕ → (ℕ → WriteHisEntry) → ℕ → RowHekaton → Outcome (RowHekaton × ℕ)
unfolding collect choose allocate
take_entry thread_cnt memory min_ts h = do
  h ← collect min_ts h
  done (allocate (choose thread_cnt memory h))

-- `reserveRow`.
pub reserve_row : ℕ → (ℕ → WriteHisEntry) → RowHekaton → Outcome (RowHekaton × ℕ)
unfolding take_entry
reserve_row thread_cnt memory h = get_min_ts >>= λ min_ts. take_entry thread_cnt memory min_ts h

-- The reserved entry begins with the transaction, and the one before it ends with it.
pub mark : ℕ → ℕ → RowHekaton → RowHekaton
mark txn_id id h =
    let history =
      set h.write_history id (record (h.write_history id) { begin_txn = true; begin = txn_id }) in
    let pre_id : ℕ = prev h.his_len id in
    record h {
      write_history = set history pre_id (record (history pre_id) { end_txn = true; end = txn_id });
    }

-- `res_row->copy(_write_history[_his_latest].row)`, where `res_row` is not null.
pub copy_latest : ℕ → RowHekaton → Outcome (RowHekaton × Result)
copy_latest id h =
    let res_row : ℕ = (h.write_history id).row in
    if res_row == 0
    then fault
    else done (
      record h { tuple = set h.tuple res_row (h.tuple (latest h).row) },
      record { rc = rcok; cur_row = res_row },
    )

-- What `access` does with the entry that reserveRow returns.
pub fill_entry : ℕ → RowHekaton × ℕ → Outcome (RowHekaton × Result)
unfolding mark copy_latest
fill_entry txn_id (h, id) = copy_latest id (mark txn_id id h)

pub prewrite : ℕ → (ℕ → WriteHisEntry) → ℕ → ℕ → RowHekaton → Outcome (RowHekaton × Result)
unfolding reserve_row fill_entry
prewrite thread_cnt memory txn_id ts h =
    if h.exists_prewrite || ltb ts (latest h).begin
    then done (h, record { rc = abort; cur_row = 0 })
    else reserve_row thread_cnt memory (record h { exists_prewrite = true }) >>= fill_entry txn_id

-- `access` by the transaction `txn_id` at `ts`.
pub access :
    Bool → ℕ → (ℕ → WriteHisEntry) → ℕ → ℕ → TsType → RowHekaton → Outcome (RowHekaton × Result)
unfolding read_req prewrite
access repeatable thread_cnt memory txn_id ts type h =
    if h.blatch
    then blocked
    else (if not ((latest h).end == inf || (latest h).end_txn) then fault else (elim type [
      | r_req ↦ read_req repeatable ts h >>= λ r. done (h, r)
      | p_req ↦ prewrite thread_cnt memory txn_id ts h
      | w_req ↦ fault
      | xp_req ↦ fault
    ]))

-- What `prepare_read` says of the entry that it has found.
abbrev pub verdict : ℕ → ℕ → WriteHisEntry → Rc
verdict ts commit_ts e =
    if ltb ts e.begin
    then abort
    else (if not e.end_txn && ltb commit_ts e.end
        then rcok
        else (if not e.end_txn && ltb e.end commit_ts then abort else rcok))

pub prepare_scan : ℕ → ℕ → ℕ → ℕ → RowHekaton → ℕ → Outcome Rc
prepare_scan zero ts commit_ts row h idx = fault
prepare_scan (suc fuel) ts commit_ts row h idx =
    let rest = prepare_scan fuel ts commit_ts row h (prev h.his_len idx) in
    if (h.write_history idx).row == row
    then done (verdict ts commit_ts (h.write_history idx))
    else (if idx == h.his_oldest then done abort else rest)

pub prepare_read : ℕ → ℕ → ℕ → RowHekaton → Outcome Rc
unfolding prepare_scan
prepare_read ts commit_ts row h =
    if h.blatch then blocked else prepare_scan h.his_len ts commit_ts row h h.his_latest

-- The new version is installed.
pub commit : ℕ → ℕ → RowHekaton → Outcome RowHekaton
commit commit_ts id h =
    let history : ℕ → WriteHisEntry =
      set h.write_history h.his_latest (record (latest h) { end_txn = false; end = commit_ts }) in
    if not (ltb (latest h).begin commit_ts) || (id == h.his_oldest)
    then fault
    else done (record h {
      write_history = set history id (record (history id) { begin = commit_ts; end = inf });
      his_latest = id;
      exists_prewrite = false;
    })

pub withdraw : RowHekaton → RowHekaton
withdraw h = record h {
  write_history =
      set h.write_history h.his_latest (record (latest h) { end_txn = false; end = inf });
  exists_prewrite = false;
}

pub post_process : ℕ → ℕ → Rc → RowHekaton → Outcome RowHekaton
unfolding commit withdraw
post_process txn_id commit_ts rc h =
    let id : ℕ = next h.his_len h.his_latest in
    let entry : WriteHisEntry = h.write_history id in
    if h.blatch
    then blocked
    else (if not (entry.begin_txn && (entry.begin == txn_id))
        then fault
        else elim rc [ rcok ↦ commit commit_ts id h | abort ↦ done (withdraw h) ])

-- An access: its type, the row whose manager is asked, and the version `data` that was taken.
pub record Access : Type 0 where
  pub type : AccessType
  pub orig_row : ℕ
  pub version : ℕ

-- The managers of the rows.
abbrev pub Db : Type 0
Db = ℕ → RowHekaton

-- The validation of all accesses but the writes ends at the first abort.
pub validate_reads : ℕ → ℕ → Db → List Access → Outcome Rc
unfolding prepare_read
validate_reads ts commit_ts db [] = done rcok
validate_reads ts commit_ts db (a ∷ l) =
    let rest = validate_reads ts commit_ts db l in
    if is_wr a.type
    then rest
    else prepare_read ts commit_ts a.version (db a.orig_row) >>= λ rc. elim rc [
      | rcok ↦ rest
      | abort ↦ done abort
    ]

-- All accesses but the reads (RD) are settled.
pub post_all : ℕ → ℕ → Rc → Db → List Access → Outcome Db
unfolding post_process
post_all txn_id commit_ts rc db [] = done db
post_all txn_id commit_ts rc db (a ∷ l) =
    if is_rd a.type then post_all txn_id commit_ts rc db l else (do
      h ← post_process txn_id commit_ts rc (db a.orig_row)
      post_all txn_id commit_ts rc (set db a.orig_row h) l)

-- `validate_hekaton` with the commit time that get_ts gives.
pub validate_hekaton : Bool → ℕ → ℕ → ℕ → Rc → List Access → Db → Outcome (Db × Rc)
unfolding validate_reads post_all
validate_hekaton serializable txn_id ts commit_ts rc l db = do
  rc ← (elim rc [
    | abort ↦ done abort
    | rcok ↦ if serializable then validate_reads ts commit_ts db l else done rcok
  ])
  db ← post_all txn_id commit_ts rc db l
  done (db, rc)
