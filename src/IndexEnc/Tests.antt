-- ===== src/IndexEnc/Tests.antt =====
-- An index with one page outside the enclave, whose chain has one version.
use veri_txn.Prelude.{
  ◌*◌, ◌%◌, ◌^◌, ◌≤◌, ◌≡◌, refl, true, false, some, none, [], ◌∷◌, arith, ◌==◌, Ensures, Accepts,
}
use veri_txn.HashChain.{HashChain, HashItem, empty_chain}
use veri_txn.HashChain.Spec
use veri_txn.LruCache.{LruCache, u64}
use veri_txn.Latch
use veri_txn.Bucket
use veri_txn.Bucket.{Bucket}
use veri_txn.Bucket.Tests.{node}
use veri_txn.RowEnc.Tests.{one_table}
use veri_txn.IndexEnc.{
  total_rec, Config, IndexEnc, load_bucket, index_read, update_verify_hash, write_back,
}
use veri_txn.IndexEnc.Chain.{hash_at}
use veri_txn.IndexEnc.Load.{HasRoom}
use veri_txn.IndexEnc.Read.{IsRead, index_read-Accepts}
use veri_txn.IndexEnc.Reload.{meanwhile, write_back-load_bucket}
use veri_txn.IndexEnc.Update.{IsUpdated, update_verify_hash-Accepts}

abbrev config : Config
config = record {
  catalog = one_table;
  lease = false;
  fast = true;
  use_log = false;
  recovery = false;
  tampered = λ p b. false;
  inside = λ b. true;
  disk = λ p b. [];
  init_ts = 1;
  part_id = 0;
}

abbrev page : Bucket
page = node ∷ []

abbrev version_at_5 : HashItem
version_at_5 = record { value = Bucket.get_hash one_table page; commit_ts = 5 }

abbrev chain : HashChain
chain = record { size = 1; items = version_at_5 ∷ []; tail = some version_at_5; latch = false }

chain-IsValid : Spec.IsValid chain
chain-IsValid = record {
  sorted = tt;
  counted = refl;
  small = omega arith;
  tailed = refl;
  free = refl;
}

abbrev cache : LruCache
cache = record {
  n = 1;
  m = 4;
  cache = λ p b. none;
  lease = λ p b. 100;
  free_pool = [];
  cached_bytes = 0;
  timestamp = 7;
  limit = 100000;
  locked = false;
}

-- Page 9 stands inside the enclave, with its latch free.
abbrev index : IndexEnc
index = record {
  cache = cache;
  verify_hash = λ p b. chain;
  batch_cnt = λ p b. 0;
  flush_time = λ p b. 1;
  store = λ p b. page;
  pages = λ i. page;
  latches = λ i. Latch.init;
  next_page = 10;
  bucket_cnt = 4;
}

index-HasRoom : HasRoom 0 0 index
unfolding total_rec
index-HasRoom = record {
  part_here = omega arith;
  bkt_here = omega arith;
  free = refl;
  missing = refl;
  room = omega arith;
}

nothing_fits : u64 (total_rec [] * 1024 % 2 ^ 32) ≤ 100000
unfolding total_rec
nothing_fits = omega arith

index_read-Accepts_example :
    Accepts
      (hash_at 6 chain == Bucket.get_hash one_table page)
      (IsRead config 1024 0 0 index)
      (index_read config 6 0 1024 index)
index_read-Accepts_example =
    index_read-Accepts config 6 0 1024 0 index refl chain-IsValid refl index-HasRoom refl
      (λ e. ground (arith, e))

write_back-load_bucket_example :
    Ensures
      (λ s.
        Accepts
          (Bucket.get_hash one_table page == Bucket.get_hash one_table [])
          (λ r. r.0.pages r.1 ≡ Bucket.copy_nodes 0 [])
          (load_bucket config 20 0 0 (meanwhile 0 0 [] cache s)))
      (write_back config 10 0 0 9 index)
unfolding total_rec
write_back-load_bucket_example =
    write_back-load_bucket config 10 20 0 0 9 version_at_5 [] cache index refl chain-IsValid refl
      (omega arith) (omega arith) (omega arith, omega arith, refl, refl, nothing_fits) refl

update_verify_hash-Accepts_example :
    Accepts
      (hash_at 6 chain == Bucket.get_hash one_table page)
      (IsUpdated 0 0 8 77 5 chain)
      (update_verify_hash config 6 0 0 77 8 5 index)
update_verify_hash-Accepts_example =
    update_verify_hash-Accepts config 6 0 0 77 8 5 index chain-IsValid refl (omega arith)
      (omega arith, tt) index-HasRoom refl (λ e. ground (arith, e))

-- The index as it is set up, with room for the page.
abbrev fresh_index : IndexEnc
fresh_index = record index { verify_hash = λ p b. empty_chain }
