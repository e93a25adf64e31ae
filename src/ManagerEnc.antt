-- ===== src/ManagerEnc.antt =====
-- trusted/system/manager_enc.cpp: the timestamps of the transactions, the transaction of each thread, and the
-- locks of rows by buckets. A row is its address. get_min_ts and update_epoch do nothing but fail.
pub mod Draws
mod Tests
use veri_txn.Prelude.{
  set, ℕ, ◌+◌, ◌-◌, ◌*◌, ◌/◌, ◌%◌, ◌^◌, Bool, true, false, not, ◌&&◌, ◌||◌, Option, none, some, leb,
  ◌==◌, if◌then◌else◌, Outcome, done, blocked, fault,
}

pub data TsAlloc : Type 0 where
  ts_mutex ts_cas ts_hw ts_clock : TsAlloc

-- `g_ts_alloc_enc`, `g_ts_batch_alloc_enc` and `g_ts_batch_num_enc`.
pub record Config : Type 0 where
  pub alloc : TsAlloc
  pub batch : Bool
  pub batch_num : ℕ

pub record ManagerEnc : Type 0 where
  pub timestamp : ℕ
  pub all_ts : ℕ → ℕ
  pub all_txns : ℕ → Option ℕ
  pub thd_txn_ids : ℕ → ℕ
  pub mutexes : ℕ → Bool

abbrev pub bucket_cnt : ℕ
bucket_cnt = 31

abbrev pub mem_allign : ℕ
mem_allign = 8

abbrev pub max_ts : ℕ
max_ts = 2 ^ 64 - 1

pub init : ManagerEnc
init = record {
  timestamp = 1;
  all_ts = λ i. max_ts;
  all_txns = λ i. none;
  thd_txn_ids = λ i. 0;
  mutexes = λ i. false;
}

abbrev pub is_cas : TsAlloc → Bool
is_cas ts_cas = true
is_cas _ = false

abbrev pub fetch_add : ℕ → ManagerEnc → ManagerEnc × ℕ
fetch_add n m = (record m { timestamp = (m.timestamp + n) % 2 ^ 64 }, m.timestamp)

-- The `switch` of `get_ts`.
pub switch : TsAlloc → Bool → ℕ → ManagerEnc → Outcome (ManagerEnc × ℕ)
switch ts_mutex batch num m =
    let time : ℕ = (m.timestamp + 1) % 2 ^ 64 in done (record m { timestamp = time }, time)
switch ts_cas batch num m = done (if batch then fetch_add num m else fetch_add 1 m)
switch ts_hw batch num m = fault
switch ts_clock batch num m = fault

pub get_ts : Config → ManagerEnc → Outcome (ManagerEnc × ℕ)
unfolding switch
get_ts cfg m =
    if cfg.batch && not (is_cas cfg.alloc)
    then fault
    else switch cfg.alloc cfg.batch cfg.batch_num m

pub add_ts : ℕ → ℕ → ManagerEnc → Outcome ManagerEnc
add_ts thd ts m =
    if leb (m.all_ts thd) ts || (m.all_ts thd == max_ts)
    then done (record m { all_ts = set m.all_ts thd ts })
    else fault

pub set_txn_man : ℕ → ℕ → ManagerEnc → ManagerEnc
set_txn_man thd txn m = record m { all_txns = set m.all_txns thd (some txn) }

pub set_thd_txn_id : ℕ → ManagerEnc → ManagerEnc
set_thd_txn_id thd m = record m {
  thd_txn_ids = set m.thd_txn_ids thd ((m.thd_txn_ids thd + 1) % 2 ^ 64);
}

-- `hash` of the address of a row.
pub hash : ℕ → ℕ
hash row = (row / mem_allign * 1103515247 + 12345) % 2 ^ 64 % bucket_cnt

pub lock_row : ℕ → ManagerEnc → Outcome ManagerEnc
unfolding hash
lock_row row m =
    if m.mutexes (hash row)
    then blocked
    else done (record m { mutexes = set m.mutexes (hash row) true })

pub release_row : ℕ → ManagerEnc → ManagerEnc
unfolding hash
release_row row m = record m { mutexes = set m.mutexes (hash row) false }
