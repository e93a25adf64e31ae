-- ===== src/IndexEnc/Read.antt =====
-- `index_read` of a page that is not in the cache.
use veri_txn.Prelude.{
  set, ℕ, ◌%◌, ◌≡◌, ◌≢◌, refl, ap, ◌∙◌, subst, not, ◌&&◌, false, arith, done, Ensures, Ensures->>=,
  Accepts, Accepts->>=, ◌==◌, ==_refl,
}
use veri_txn.HashChain.Spec
use veri_txn.Latch
use veri_txn.Latch.{latch_sh, latch_ex, give}
use veri_txn.Latch.Free.{shared, shared_back}
use veri_txn.Bucket
use veri_txn.IndexEnc.{
  Config, IndexEnc, take_latch, give_latch, read_page, ReadResult, rcok_item, read_loaded,
  index_read, load_bucket,
}
use veri_txn.IndexEnc.Chain.{hash_at}
use veri_txn.IndexEnc.Load.{HasVersion, HasRoom, IsLoaded, outside, load_bucket-Accepts}

take_free :
    (page : ℕ) (s : IndexEnc)
    → s.latches page ≡ Latch.init
    → take_latch latch_sh page s
      ≡ done (record s { latches = set s.latches page (give latch_sh Latch.init) })
unfolding take_latch
take_free page s free = rw (free, shared) refl

give_back :
    (page : ℕ) (s : IndexEnc)
    → s.latches page ≡ give latch_sh Latch.init
    → give_latch latch_sh page s ≡ done (record s { latches = set s.latches page Latch.init })
unfolding give_latch
give_back page s held = rw (held, shared_back) refl

-- The rows of the key in the page, whose latch is free before and after.
pub read_page-Ensures :
    (key page : ℕ) (s : IndexEnc)
    → s.latches page ≡ Latch.init
    → Ensures
        (λ r. (r.1 ≡ Bucket.read_item key (s.pages page)) × (r.0.latches page ≡ Latch.init))
        (read_page key page s)
unfolding read_page
read_page-Ensures key page s free =
    let taken : IndexEnc = record s { latches = set s.latches page (give latch_sh Latch.init) } in
    rw (take_free page s free, give_back page taken (rw (==_refl page) refl))
      (refl, rw (==_refl page) refl)

-- What a read gives: copies of the rows that the page outside the enclave has under the key, and a page whose
-- latch is free.
abbrev pub IsRead : Config → ℕ → ℕ → ℕ → IndexEnc → IndexEnc × ReadResult → Type 0
IsRead cfg key part bkt s (s', r) =
    (r ≡ rcok_item (Bucket.read_item key (Bucket.copy_nodes cfg.part_id (s.store part bkt))))
    × (s'.latches s.next_page ≡ Latch.init)

read_loaded-IsRead :
    (cfg : Config) (key part bkt : ℕ) (s : IndexEnc) (r : IndexEnc × ℕ)
    → s.next_page ≢ 0
    → IsLoaded cfg part bkt s r
    → Ensures (IsRead cfg key part bkt s) (read_loaded key r)
unfolding read_loaded
read_loaded-IsRead cfg key part bkt s (s', page) nonzero (here, content, free, chain, cache) =
    let there : (page == 0) ≡ false = ground (arith, here) in
    rw there (
      Ensures->>=
        (λ q. (q.1 ≡ Bucket.read_item key (s'.pages page)) × (q.0.latches page ≡ Latch.init))
        (IsRead cfg key part bkt s) (read_page key page s') (λ q. done (q.0, rcok_item q.1))
        (read_page-Ensures key page s' free)
        (λ q (rows, back). (
          ap rcok_item (rows ∙ ap (Bucket.read_item key) content),
          subst (λ n. q.0.latches n ≡ Latch.init) here back,
        )))

-- index_read of a key whose page is not in the cache, with a valid chain that has a version: if the page
-- outside has the hash that the chain has now, the read returns the rows that this page has under the key,
-- copied but for their part id, and leaves the latch of the page free. If it has another hash, an assertion
-- fails, and no row is returned. The page outside is that of the store, or that of the disk where load_bucket
-- syncs the page first, because it is not kept in the store or the test of tampering marks it and recovery is
-- on. The page is not one that the test of tampering marks where recovery is off, the cache is unlatched, with
-- room for it, and it gets an address that is not null.
pub index_read-Accepts :
    (cfg : Config) (now part key bkt : ℕ) (s : IndexEnc)
    → key % s.bucket_cnt ≡ bkt
    → Spec.IsValid (s.verify_hash part bkt)
    → HasVersion (s.verify_hash part bkt)
    → HasRoom part bkt (outside cfg part bkt s)
    → (cfg.tampered part bkt && not cfg.recovery) ≡ false
    → s.next_page ≢ 0
    → Accepts
        (hash_at now (s.verify_hash part bkt)
          == Bucket.get_hash cfg.catalog ((outside cfg part bkt s).store part bkt))
        (IsRead cfg key part bkt (outside cfg part bkt s))
        (index_read cfg now part key s)
unfolding index_read
index_read-Accepts cfg now part key bkt s e v h room t nonzero = rw e (
    Accepts->>=
      (hash_at now (s.verify_hash part bkt)
        == Bucket.get_hash cfg.catalog ((outside cfg part bkt s).store part bkt))
      (IsLoaded cfg part bkt (outside cfg part bkt s))
      (IsRead cfg key part bkt (outside cfg part bkt s)) (load_bucket cfg now part bkt s)
      (read_loaded key) (load_bucket-Accepts cfg now part bkt s v h room t)
      (λ r l. read_loaded-IsRead cfg key part bkt (outside cfg part bkt s) r nonzero l))
