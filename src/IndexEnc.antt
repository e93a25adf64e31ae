-- ===== src/IndexEnc.antt =====
-- `IndexEnc` of trusted/system/index_enc.cpp: the verified hash index. A page is loaded from the store
-- outside the enclave into the page cache, and its hash is checked against the page's chain.
-- A page in the enclave is a number, its address; a call runs by itself, at one time.

pub mod Chain
pub mod Load
pub mod Read
pub mod Reload
pub mod First
pub mod Update
mod Tests
use veri_txn.Prelude.{
  set, ℕ, ◌+◌, ◌*◌, ◌/◌, ◌%◌, ◌^◌, ◌==◌, ltb, Bool, true, false, not, ◌&&◌, ◌||◌, Option, none,
  some, List, [], ◌∷◌, length, if◌then◌else◌, Outcome, done, blocked, fault, ◌>>=◌,
}
use veri_txn.RowEnc.{Row, Catalog}
use veri_txn.HashChain
use veri_txn.HashChain.{HashChain, HashItem}
use veri_txn.LruCache
use veri_txn.LruCache.{LruCache, Loaded, rcok, abort, update}
use veri_txn.Latch
use veri_txn.Latch.{Latch, LatchType, latch_ex, latch_sh}
use veri_txn.Bucket
use veri_txn.Bucket.{Bucket, BucketNode}

-- What is fixed while the index runs. `fast` is FAST_VERI_CHAIN_ACCESS, `use_log` is USE_LOG without
-- LOG_RECOVER, `inside` is inside_data_cache, and `tampered` the test that simulates a tampered page;
-- `disk` is what sync_bucket_from_disk writes into the store, and `part_id` what stands in the part id of a row
-- that load_bucket allocates and does not set.
pub record Config : Type 0 where
  pub catalog : Catalog
  pub lease : Bool
  pub fast : Bool
  pub use_log : Bool
  pub recovery : Bool
  pub tampered : ℕ → ℕ → Bool
  pub inside : ℕ → Bool
  pub disk : ℕ → ℕ → Bucket
  pub init_ts : ℕ
  pub part_id : ℕ

-- `store` is the index outside the enclave, `pages` and `latches` are the pages inside.
pub record IndexEnc : Type 0 where
  pub cache : LruCache
  pub verify_hash : ℕ → ℕ → HashChain
  pub batch_cnt : ℕ → ℕ → ℕ
  pub flush_time : ℕ → ℕ → ℕ
  pub store : ℕ → ℕ → Bucket
  pub pages : ℕ → Bucket
  pub latches : ℕ → Latch
  pub next_page : ℕ
  pub bucket_cnt : ℕ

abbrev pub vaccum_trigger : ℕ
vaccum_trigger = 128

abbrev pub sync_version_batch : ℕ
sync_version_batch = 16

-- `init` of an index, with `init_ts` at the time `now`; `store` is what stands outside.
abbrev pub init : ℕ → ℕ → ℕ → (ℕ → ℕ → Bucket) → IndexEnc
init cache_siz bucket_count part_cnt store = record {
  cache = LruCache.init bucket_count part_cnt cache_siz;
  verify_hash = λ part bkt. HashChain.empty_chain;
  batch_cnt = λ part bkt. 0;
  flush_time = λ part bkt. 0;
  store = store;
  pages = λ page. [];
  latches = λ page. Latch.init;
  next_page = 1;
  bucket_cnt = bucket_count / part_cnt;
}

-- The last node of the list takes a hash and a time.
pub set_last : HashItem → List HashItem → List HashItem
set_last x [] = []
set_last x (i ∷ []) = x ∷ []
set_last x (i ∷ (j ∷ r)) = i ∷ set_last x (j ∷ r)

abbrev pub retail : HashItem → HashChain → HashChain
retail x c = record c { tail = some x; items = set_last x c.items }

-- `tail->value = ...; tail->commit_ts = ...`.
pub set_tail : ℕ → ℕ → HashChain → Outcome HashChain
unfolding set_last
set_tail value ts c = elim c.tail [
  | none ↦ fault
  | some t ↦ done (retail (record { value = value; commit_ts = ts }) c)
]

pub sync_bucket_from_disk : Config → ℕ → ℕ → IndexEnc → IndexEnc
sync_bucket_from_disk cfg part bkt s = record s {
  store = update s.store part bkt (cfg.disk part bkt);
}

-- `while (!latch_node(page, type));`.
pub take_latch : LatchType → ℕ → IndexEnc → Outcome IndexEnc
take_latch t page s = Latch.latch_node t (s.latches page) >>= λ r.
    if r.1 then done (record s { latches = set s.latches page r.0 }) else blocked

abbrev pub same_type : LatchType → LatchType → Bool
same_type latch_ex latch_ex = true
same_type latch_sh latch_sh = true
same_type _ _ = false

-- `assert(release_latch(page) == type)`.
pub give_latch : LatchType → ℕ → IndexEnc → Outcome IndexEnc
give_latch t page s = Latch.release_latch (s.latches page) >>= λ r.
    if same_type r.1 t then done (record s { latches = set s.latches page r.0 }) else fault

-- `flush_out`: the page is copied into the store, and its rows get the page's part. That the copy has the hash of
-- the page, which flush_out asserts, is get_hash-copy_nodes.
pub flush_out : ℕ → ℕ → ℕ → ℕ → IndexEnc → IndexEnc
flush_out now part bkt page s = record s {
  flush_time = update s.flush_time part bkt now;
  store = update s.store part bkt (Bucket.copy_nodes part (s.pages page));
}

-- What load_bucket does with a page that was swapped out of the cache.
pub write_back : Config → ℕ → ℕ → ℕ → ℕ → IndexEnc → Outcome IndexEnc
unfolding take_latch set_tail flush_out
write_back cfg now part bkt page s = do
  s ← take_latch latch_ex page s
  c ← set_tail (Bucket.get_hash cfg.catalog (s.pages page)) now (s.verify_hash part bkt)
  done (flush_out now part bkt page (record s { verify_hash = update s.verify_hash part bkt c }))

pub total_rec : Bucket → ℕ
total_rec [] = 0
total_rec (n ∷ b) = length n.items + total_rec b

-- The assertion on the answer of the chain.
abbrev pub trust : ℕ → ℕ → ℕ → IndexEnc → HashChain × HashChain.Answer → Outcome IndexEnc
trust hash part bkt s (c, a) =
    if a.res == hash
    then done (record s { verify_hash = update s.verify_hash part bkt c })
    else fault

-- The page is checked against its chain, or begins it.
pub check_chain : Bool → ℕ → ℕ → ℕ → ℕ → IndexEnc → HashChain × Bool → Outcome IndexEnc
check_chain fast now hash part bkt s (c, true) = do
  c ← HashChain.insert now hash c
  done (record s { verify_hash = update s.verify_hash part bkt c })
check_chain fast now hash part bkt s (c, false) =
    HashChain.get fast now 0 0 c >>= trust hash part bkt s

pub check_page : Config → ℕ → ℕ → ℕ → ℕ → IndexEnc → Outcome IndexEnc
unfolding check_chain
check_page cfg now part bkt page s =
    HashChain.empty (s.verify_hash part bkt)
    >>= check_chain cfg.fast now (Bucket.get_hash cfg.catalog (s.pages page)) part bkt s

-- The copy of the page in the store, at a fresh address, before the cache is asked. That it has the hash of the
-- page, which load_bucket asserts of rows, nodes and page, is get_hash-copy_nodes.
pub copy_in : Config → ℕ → ℕ → IndexEnc → IndexEnc
copy_in cfg part bkt s = record s {
  pages = set s.pages s.next_page (Bucket.copy_nodes cfg.part_id (s.store part bkt));
  latches = set s.latches s.next_page Latch.init;
  next_page = s.next_page + 1;
}

-- What follows load_and_swap; a cache without room is asked again until another thread makes some.
pub after_swap : Config → ℕ → ℕ → ℕ → ℕ → IndexEnc → Loaded → Outcome (IndexEnc × ℕ)
unfolding write_back check_page
after_swap cfg now part bkt page s out = elim out.rc [
  | abort ↦ blocked
  | rcok ↦ do
    s ←
        (if out.swapped == 0
          then done s
          else write_back cfg now out.swapped_part out.swapped_idx out.swapped s)
    s ← (if out.res == page then check_page cfg now part bkt page s else done s)
    done (s, out.res)
]

pub copy_and_swap : Config → ℕ → ℕ → ℕ → IndexEnc → Outcome (IndexEnc × ℕ)
unfolding copy_in total_rec after_swap
copy_and_swap cfg now part bkt s =
    LruCache.load_and_swap cfg.lease part bkt (total_rec (s.store part bkt) * 1024 % 2 ^ 32)
      s.next_page s.cache
    >>= λ r.
        after_swap cfg now part bkt s.next_page (record (copy_in cfg part bkt s) { cache = r.0 })
          r.1

-- A page that is not in the cache; 0 is the null pointer.
pub load_missing : Config → ℕ → ℕ → ℕ → IndexEnc → Outcome (IndexEnc × ℕ)
unfolding sync_bucket_from_disk copy_and_swap
load_missing cfg now part bkt s =
    let s : IndexEnc = record s {
      flush_time =
          (if s.flush_time part bkt == 0
            then update s.flush_time part bkt cfg.init_ts
            else s.flush_time);
    } in
    let synced = sync_bucket_from_disk cfg part bkt s in
    if cfg.tampered part bkt && not cfg.recovery
    then done (s, 0)
    else copy_and_swap cfg now part bkt
        (if cfg.tampered part bkt || not (cfg.inside bkt) then synced else s)

-- A page in the cache only asks its chain, for statistics.
pub load_cached : Config → ℕ → ℕ → ℕ → ℕ → IndexEnc → Outcome (IndexEnc × ℕ)
load_cached cfg now part bkt page s =
    HashChain.get cfg.fast now 0 0 (s.verify_hash part bkt) >>= λ r.
    done (record s { verify_hash = update s.verify_hash part bkt r.0 }, page)

pub load_bucket : Config → ℕ → ℕ → ℕ → IndexEnc → Outcome (IndexEnc × ℕ)
unfolding load_missing load_cached
load_bucket cfg now part bkt s = LruCache.try_load cfg.lease part bkt s.cache >>= λ r.
    (if r.1 == 0
      then load_missing cfg now part bkt (record s { cache = r.0 })
      else load_cached cfg now part bkt r.1 (record s { cache = r.0 }))

-- `release_up_cache`: the cache must not hand the page back.
pub release_up_cache : ℕ → ℕ → IndexEnc → Outcome IndexEnc
release_up_cache part bkt s = LruCache.release part bkt s.cache >>= λ r.
    if r.1 == 0 then done (record s { cache = r.0 }) else fault

-- `index_read` in a page that is there: the rows of the key, under the shared latch.
pub read_page : ℕ → ℕ → IndexEnc → Outcome (IndexEnc × Option (List Row))
unfolding take_latch give_latch
read_page key page s = do
  s ← take_latch latch_sh page s
  let item = Bucket.read_item key (s.pages page)
  s ← give_latch latch_sh page s
  done (s, item)

-- `index_insert` fails its assertion at once.
abbrev pub index_insert : ℕ → ℕ → Row → IndexEnc → Outcome IndexEnc
index_insert part key item s = fault

-- The result of `index_read`: ERROR, or RCOK with the items, which may be null.
pub data ReadResult : Type 0 where
  error : ReadResult
  rcok_item : Option (List Row) → ReadResult

pub read_loaded : ℕ → IndexEnc × ℕ → Outcome (IndexEnc × ReadResult)
unfolding read_page
read_loaded key (s, page) =
    if page == 0 then done (s, error) else (read_page key page s >>= λ r. done (r.0, rcok_item r.1))

pub index_read : Config → ℕ → ℕ → ℕ → IndexEnc → Outcome (IndexEnc × ReadResult)
unfolding load_bucket read_loaded
index_read cfg now part key s = load_bucket cfg now part (key % s.bucket_cnt) s >>= read_loaded key

-- `sync_version` after an update: the message for the other nodes is the hash with its time.
pub sync_version : Config → ℕ → ℕ → ℕ → ℕ → IndexEnc → Outcome (IndexEnc × Option (ℕ × ℕ))
unfolding set_tail
sync_version cfg commit_t part bkt page s = elim (s.verify_hash part bkt).tail [
  | none ↦ fault
  | some t ↦ do
    c ← set_tail t.value commit_t (s.verify_hash part bkt)
    let cur_cnt = (s.batch_cnt part bkt + 1) % 2 ^ 64
    let s' = record s {
      verify_hash = update s.verify_hash part bkt c;
      batch_cnt = update s.batch_cnt part bkt cur_cnt;
    }
    let sent = record s' { batch_cnt = update s.batch_cnt part bkt 0 }
    done (
        if cur_cnt == sync_version_batch
        then (sent, some (Bucket.get_hash cfg.catalog (s.pages page), commit_t))
        else (s', none))
]

-- The new version of the chain, and the old ones dropped when the chain is long.
pub extend_chain : ℕ → ℕ → ℕ → HashChain → Outcome HashChain
extend_chain ts hash begin_ts c = do
  c ← HashChain.insert ts hash c
  if ltb vaccum_trigger c.size then HashChain.vaccum begin_ts c else done c

-- `update_verify_hash` in a page that is there.
pub update_loaded : Config → ℕ → ℕ → ℕ → ℕ → ℕ → IndexEnc × ℕ → Outcome IndexEnc
unfolding take_latch give_latch extend_chain sync_bucket_from_disk release_up_cache
update_loaded cfg part bkt hash ts begin_ts (s, page) = do
  s ← take_latch latch_ex page s
  c ← extend_chain ts hash begin_ts (s.verify_hash part bkt)
  let s = record s { verify_hash = update s.verify_hash part bkt c }
  let synced = sync_bucket_from_disk cfg part bkt s
  s ← give_latch latch_ex page (if cfg.use_log then synced else s)
  release_up_cache part bkt s

pub update_verify_hash : Config → ℕ → ℕ → ℕ → ℕ → ℕ → ℕ → IndexEnc → Outcome IndexEnc
unfolding load_bucket update_loaded
update_verify_hash cfg now part bkt hash ts begin_ts s = load_bucket cfg now part bkt s >>= λ r.
    if r.1 == 0 then fault else update_loaded cfg part bkt hash ts begin_ts r
