-- ===== src/IndexEnc/Reload.antt =====
-- A page that was written back, and the next load of it.
use veri_txn.Prelude.{
  set, ℕ, ◌+◌, ◌%◌, ◌^◌, not, ◌&&◌, ◌*◌, ◌<◌, ◌≤◌, ◌≡◌, none, Accepts-mono, Ensures-mono, refl, sym,
  ap, ◌∙◌, subst, false, some, List, [], ◌∷◌, length, get_last?, arith, Ensures, Accepts, ◌==◌,
}
use veri_txn.HashChain.{HashChain, HashItem}
use veri_txn.HashChain.Spec
use veri_txn.LruCache.{LruCache, update, u64}
use veri_txn.Latch
use veri_txn.Latch.{latch_ex, give}
use veri_txn.Latch.Free.{exclusive}
use veri_txn.Bucket
use veri_txn.Bucket.{Bucket}
use veri_txn.IndexEnc.{
  total_rec, Config, IndexEnc, take_latch, retail, write_back, flush_out, load_bucket,
}
use veri_txn.IndexEnc.Chain.{hash_at, retail-IsValid, hash_at-retail, set_tail_lem}
use veri_txn.IndexEnc.Load.{
  HasVersion, HasRoom, IsLoaded, outside, found, outside-found, load_bucket-Accepts, update_same,
}

-- What write_back leaves: the copy of the page in the store, and a chain that promises its hash from `now` on.
pub record IsWritten (cfg : Config) (now part bkt : ℕ) (page : Bucket) (s' : IndexEnc)
    : Type 0 where
  pub valid : Spec.IsValid (s'.verify_hash part bkt)
  pub some_version : HasVersion (s'.verify_hash part bkt)
  pub hashed :
      (later : ℕ)
      → now ≤ later
      → hash_at later (s'.verify_hash part bkt) ≡ Bucket.get_hash cfg.catalog page
  pub stored : s'.store part bkt ≡ Bucket.copy_nodes part page

HasVersion-items :
    (c : HashChain) (t : HashItem) (l : List HashItem)
    → get_last? l ≡ some t
    → c.size ≡ length l
    → HasVersion c
HasVersion-items c t [] e n = absurd (ground (arith, e))
HasVersion-items c t (i ∷ r) e n = ground (arith, n)

some-HasVersion : (c : HashChain) (t : HashItem) → Spec.IsValid c → c.tail ≡ some t → HasVersion c
some-HasVersion c t v e = HasVersion-items c t c.items (sym v.tailed ∙ e) v.counted

flushed-IsWritten :
    (cfg : Config) (now part bkt page : ℕ) (t : HashItem) (s : IndexEnc)
    → Spec.IsValid (s.verify_hash part bkt)
    → (s.verify_hash part bkt).tail ≡ some t
    → t.commit_ts ≤ now
    → IsWritten cfg now part bkt (s.pages page) (
        flush_out now part bkt page (record s {
          verify_hash = update s.verify_hash part bkt (
              retail
                (record { value = Bucket.get_hash cfg.catalog (s.pages page); commit_ts = now })
                (s.verify_hash part bkt));
        }))
unfolding flush_out
flushed-IsWritten cfg now part bkt page t s v e le =
    let x : HashItem = record {
      value = Bucket.get_hash cfg.catalog (s.pages page);
      commit_ts = now;
    } in
    let c : HashChain = retail x (s.verify_hash part bkt) in
    let same = update_same s.verify_hash part bkt c in
    let v' = retail-IsValid x t (s.verify_hash part bkt) v e le in
    record {
      valid = subst Spec.IsValid (sym same) v';
      some_version = subst HasVersion (sym same) (some-HasVersion c x v' refl);
      hashed = λ later after.
          ap (hash_at later) same ∙ hash_at-retail later x t (s.verify_hash part bkt) v e le after;
      stored = update_same s.store part bkt (Bucket.copy_nodes part (s.pages page));
    }

pub write_back-IsWritten :
    (cfg : Config) (now part bkt page : ℕ) (t : HashItem) (s : IndexEnc)
    → s.latches page ≡ Latch.init
    → Spec.IsValid (s.verify_hash part bkt)
    → (s.verify_hash part bkt).tail ≡ some t
    → t.commit_ts ≤ now
    → Ensures (IsWritten cfg now part bkt (s.pages page)) (write_back cfg now part bkt page s)
unfolding write_back take_latch
write_back-IsWritten cfg now part bkt page t s free v e le =
    rw
      (
        free,
        exclusive,
        set_tail_lem (Bucket.get_hash cfg.catalog (s.pages page)) now t (s.verify_hash part bkt) e,
      )
      (flushed-IsWritten cfg now part bkt page t
        (record s { latches = set s.latches page (give latch_ex Latch.init) }) v e le)

-- The index after others have worked on it: the store has `b` for the page, and the cache is `c`.
abbrev pub meanwhile : ℕ → ℕ → Bucket → LruCache → IndexEnc → IndexEnc
meanwhile part bkt b c s = record s { store = update s.store part bkt b; cache = c }

-- The page, and room for `b`.
abbrev pub CanTake : ℕ → ℕ → Bucket → LruCache → Type 0
CanTake part bkt b c =
    (part < c.n)
    × (bkt < c.m)
    × (c.locked ≡ false)
    × (c.cache part bkt ≡ none)
    × (u64 (c.cached_bytes + total_rec b * 1024 % 2 ^ 32) ≤ c.limit)

meanwhile-HasRoom :
    (cfg : Config) (part bkt : ℕ) (b : Bucket) (c : LruCache) (s : IndexEnc)
    → CanTake part bkt (found cfg part bkt b) c
    → HasRoom part bkt (outside cfg part bkt (meanwhile part bkt b c s))
meanwhile-HasRoom cfg part bkt b c s (p, q, free, missing, room) = record {
  part_here = p;
  bkt_here = q;
  free = free;
  missing = missing;
  room =
      subst (λ d. u64 (c.cached_bytes + total_rec d * 1024 % 2 ^ 32) ≤ c.limit)
        (sym (
          outside-found cfg part bkt (meanwhile part bkt b c s)
          ∙ ap (found cfg part bkt) (update_same s.store part bkt b)))
        room;
}

reload-Accepts :
    (cfg : Config) (now later part bkt : ℕ) (page b : Bucket) (c : LruCache) (s : IndexEnc)
    → now ≤ later
    → CanTake part bkt (found cfg part bkt b) c
    → (cfg.tampered part bkt && not cfg.recovery) ≡ false
    → IsWritten cfg now part bkt page s
    → Accepts
        (Bucket.get_hash cfg.catalog page == Bucket.get_hash cfg.catalog (found cfg part bkt b))
        (λ r. r.0.pages r.1 ≡ Bucket.copy_nodes cfg.part_id (found cfg part bkt b))
        (load_bucket cfg later part bkt (meanwhile part bkt b c s))
reload-Accepts cfg now later part bkt page b c s after room t w =
    let s' : IndexEnc = meanwhile part bkt b c s in
    let there =
      outside-found cfg part bkt s' ∙ ap (found cfg part bkt) (update_same s.store part bkt b) in
    Accepts-mono
      (Bucket.get_hash cfg.catalog page == Bucket.get_hash cfg.catalog (found cfg part bkt b))
      (IsLoaded cfg part bkt (outside cfg part bkt s'))
      (λ r. r.0.pages r.1 ≡ Bucket.copy_nodes cfg.part_id (found cfg part bkt b))
      (load_bucket cfg later part bkt s')
      (λ r (here, content, latch, chain, cache). content ∙ ap (Bucket.copy_nodes cfg.part_id) there)
      (subst
        (λ h.
          Accepts h (IsLoaded cfg part bkt (outside cfg part bkt s'))
            (load_bucket cfg later part bkt s'))
        (ap (λ h. h == Bucket.get_hash cfg.catalog ((outside cfg part bkt s').store part bkt))
            (w.hashed later after)
          ∙ ap (λ d. Bucket.get_hash cfg.catalog page == Bucket.get_hash cfg.catalog d) there)
        (load_bucket-Accepts cfg later part bkt s' w.valid w.some_version
          (meanwhile-HasRoom cfg part bkt b c s room) t))

-- A page that was swapped out of the cache, with its latch free, and is written back at `now`, not before the
-- last version of its valid chain, can be loaded again at any later time, whatever stands outside then:
-- write_back returns, and a load of the page that finds `b` in the store returns the page outside, copied but
-- for the part id of its rows, if that has the hash of the page that was written, and stops at a failed
-- assertion otherwise. The page outside is `b`, or that of the disk where load_bucket syncs the page first,
-- because it is not kept in the store or the test of tampering marks it and recovery is on. At the load the
-- page is not in the cache, which is unlatched and has room for it; the page is not one that the test of
-- tampering marks where recovery is off.
pub write_back-load_bucket :
    (cfg : Config) (now later part bkt page : ℕ) (t : HashItem) (b : Bucket) (c : LruCache)
    (s : IndexEnc)
    → s.latches page ≡ Latch.init
    → Spec.IsValid (s.verify_hash part bkt)
    → (s.verify_hash part bkt).tail ≡ some t
    → t.commit_ts ≤ now
    → now ≤ later
    → CanTake part bkt (found cfg part bkt b) c
    → (cfg.tampered part bkt && not cfg.recovery) ≡ false
    → Ensures
        (λ s'.
          Accepts
            (Bucket.get_hash cfg.catalog (s.pages page)
              == Bucket.get_hash cfg.catalog (found cfg part bkt b))
            (λ r. r.0.pages r.1 ≡ Bucket.copy_nodes cfg.part_id (found cfg part bkt b))
            (load_bucket cfg later part bkt (meanwhile part bkt b c s')))
        (write_back cfg now part bkt page s)
write_back-load_bucket cfg now later part bkt page t b c s free v e le after room tam =
    Ensures-mono (IsWritten cfg now part bkt (s.pages page)) _ (write_back cfg now part bkt page s)
      (λ s'. reload-Accepts cfg now later part bkt (s.pages page) b c s' after room tam)
      (write_back-IsWritten cfg now part bkt page t s free v e le)
