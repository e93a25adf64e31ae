-- ===== src/Deferred.antt =====
-- The deferred verification of pages, VERI_TYPE == DEFERRED_MEMORY: `verify_record` of
-- trusted/system/index_btree_enc.h, and `memory_verifier` with its methods in index_btree_enc.cpp. A page outside
-- is its number, and the calls run one after another.
pub mod Tracks
pub mod Verdict
pub mod Batch
mod Tests
use Prim.Native.Nat.{bit_xor}
use veri_txn.Prelude.{
  set, ℕ, zero, suc, ◌+◌, ◌-◌, ◌%◌, ◌^◌, Bool, true, false, not, ◌&&◌, ◌||◌, Option, none, some,
  List, [], ◌∷◌, ltb, leb, ◌==◌, if◌then◌else◌, Outcome, done, blocked, fault, ◌>>=◌,
}

-- `origin_node` is the page outside, by its number, and `from` the index that it is of.
pub record VerifyRecord : Type 0 where
  pub read_set_hash : ℕ
  pub write_set_hash : ℕ
  pub timestamp : ℕ
  pub old_value_hash : ℕ
  pub origin_node : ℕ
  pub from : ℕ
  pub locked : Bool

-- What stands outside the verifier: the hash of a page, whether it is a leaf, and whether the cache has it.
pub record Pages : Type 0 where
  pub get_hash : ℕ → ℕ
  pub is_leaf : ℕ → Bool
  pub cached : ℕ → Bool

-- `get_latch` and `release_latch` of a record.
abbrev pub get_latch : VerifyRecord → Outcome VerifyRecord
get_latch r = if r.locked then blocked else done (record r { locked = true })

abbrev pub release_latch : VerifyRecord → Outcome VerifyRecord
release_latch r = if r.locked then done (record r { locked = false }) else fault

-- `init` of a record that is allocated with its latch taken.
pub init_record : ℕ → ℕ → ℕ → Outcome VerifyRecord
init_record cur_value origin from =
    if origin == 0
    then fault
    else release_latch (record {
      read_set_hash = 0;
      write_set_hash = cur_value;
      timestamp = 0;
      old_value_hash = cur_value;
      origin_node = origin;
      from = from;
      locked = true;
    })

-- `verify`: the record after it, whose latch is free again; a test that fails stops at its assertion.
pub verify : Pages → VerifyRecord → Outcome VerifyRecord
verify pages r =
    let newh : ℕ =
      (if pages.cached r.origin_node
        then r.old_value_hash
        else bit_xor (pages.get_hash r.origin_node) r.timestamp) in
    if pages.is_leaf r.origin_node
    then (do
      r ← get_latch r
      r ← release_latch r
      (if bit_xor r.read_set_hash newh == r.write_set_hash then done r else fault))
    else fault

pub record_read : ℕ → VerifyRecord → Outcome VerifyRecord
record_read read_value r = get_latch r >>= λ r. release_latch (record r {
  read_set_hash = bit_xor r.read_set_hash (bit_xor read_value r.timestamp);
  write_set_hash = bit_xor r.write_set_hash (bit_xor read_value r.timestamp);
})

pub record_write : ℕ → VerifyRecord → Outcome VerifyRecord
record_write write_value r = get_latch r >>= λ r.
    let now : ℕ = (r.timestamp + 1) % 2 ^ 64 in
    release_latch (record r {
      read_set_hash = bit_xor r.read_set_hash r.old_value_hash;
      timestamp = now;
      write_set_hash = bit_xor r.write_set_hash (bit_xor write_value now);
      old_value_hash = bit_xor write_value now;
    })

pub record MemoryVerifier : Type 0 where
  pub updates : ℕ → Option VerifyRecord
  pub limit : ℕ
  pub last_verification : ℕ
  pub verifying : Bool

-- `init` at the time `now`.
abbrev pub init : ℕ → ℕ → MemoryVerifier
init size now = record {
  updates = λ i. none;
  limit = size;
  last_verification = now;
  verifying = false;
}

-- The record of a page, made with a first value if there is none.
pub find_record : ℕ → ℕ → ℕ → MemoryVerifier → Outcome VerifyRecord
unfolding init_record
find_record page_key value from m = elim (m.updates page_key) [
  | none ↦ init_record value page_key from
  | some r ↦ done r
]

-- What `add_read` and `add_write` do with the record of the page; a page key out of the array stops here.
pub update_record :
    (VerifyRecord → Outcome VerifyRecord) → ℕ → ℕ → ℕ → MemoryVerifier → Outcome MemoryVerifier
unfolding find_record
update_record f page_key value from m =
    if ltb page_key m.limit
    then (find_record page_key value from m >>= λ r.
        if r.from == from
        then (f r >>= λ r. done (record m { updates = set m.updates page_key (some r) }))
        else fault)
    else fault

pub add_read : ℕ → ℕ → ℕ → MemoryVerifier → Outcome MemoryVerifier
unfolding record_read update_record
add_read page_key read_value from m =
    update_record (record_read read_value) page_key read_value from m

pub add_write : Pages → ℕ → ℕ → ℕ → MemoryVerifier → Outcome MemoryVerifier
unfolding record_write update_record
add_write pages page_key write_value from m =
    update_record (record_write write_value) page_key (pages.get_hash page_key) from m

-- A record that passes is deleted.
pub check_record : Pages → ℕ → MemoryVerifier → Outcome MemoryVerifier
unfolding verify
check_record pages i m = elim (m.updates i) [
  | none ↦ done m
  | some r ↦ do
    r ← verify pages r
    r ← get_latch r
    done (record m { updates = set m.updates i none })
]

-- The rounds of `verification` from `i` on.
pub check_records : Pages → ℕ → ℕ → MemoryVerifier → Outcome MemoryVerifier
unfolding check_record
check_records pages zero i m = done m
check_records pages (suc n) i m = check_record pages i m >>= check_records pages n (i + 1)

abbrev pub sub_u64 : ℕ → ℕ → ℕ
sub_u64 a b = (a + 2 ^ 64 - b) % 2 ^ 64

-- `verification` with the batch's length VERI_BATCH, at the time `now`, with `later` at its end.
pub verification : Pages → ℕ → ℕ → ℕ → MemoryVerifier → Outcome MemoryVerifier
unfolding check_records
verification pages batch now later m =
    if ltb (sub_u64 now m.last_verification) batch || m.verifying then done m else (do
      m ← check_records pages m.limit 0 (record m { verifying = true })
      done (record m { last_verification = later; verifying = false }))
