-- ===== src/IndexEnc/Load.antt =====
-- Loading a page that is not in the cache, where there is room for it.
use veri_txn.Prelude.{
  set, ℕ, ◌+◌, ◌*◌, ◌<◌, ◌≤◌, ◌≡◌, refl, ap, ◌∙◌, subst, ◌%◌, ◌^◌, not, ◌&&◌, ◌||◌, Bool, true,
  false, none, if◌then◌else◌, done, fault, ◌>>=◌, Accepts, Accepts->>=, ◌==◌, ==_refl,
}
use veri_txn.HashChain.{HashChain}
use veri_txn.HashChain.Spec
use veri_txn.HashChain.Read.{get-promised, empty_lem}
use veri_txn.LruCache.{u64, rcok, update}
use veri_txn.LruCache.Load.{taken_in, load_and_swap_room, try_load-none}
use veri_txn.Bucket
use veri_txn.Bucket.{Bucket}
use veri_txn.Bucket.Copy.{get_hash-copy_nodes}
use veri_txn.Latch
use veri_txn.IndexEnc.{
  Config, IndexEnc, total_rec, check_chain, check_page, copy_in, after_swap, copy_and_swap,
  load_missing, load_bucket, sync_bucket_from_disk,
}
use veri_txn.IndexEnc.Chain.{hash_at}

-- The chain has a version.
abbrev pub HasVersion : HashChain → Type 0
HasVersion c = (c.size == 0) ≡ false

-- What a check of a page leaves of the index.
abbrev pub Keeps : IndexEnc → ℕ → ℕ → IndexEnc → Type 0
Keeps s part bkt s' =
    (s'.pages ≡ s.pages)
    × (s'.latches ≡ s.latches)
    × (s'.cache ≡ s.cache)
    × (s'.verify_hash part bkt ≡ s.verify_hash part bkt)

pub update_same {ℓ} :
    {A : Type ℓ} (f : ℕ → ℕ → A) (part bkt : ℕ) (a : A) → update f part bkt a part bkt ≡ a
update_same f part bkt a = rw (==_refl part, ==_refl bkt) refl

-- A page is accepted exactly if its hash is the one that its chain has now.
pub check_page-Accepts :
    (cfg : Config) (now part bkt page : ℕ) (s : IndexEnc)
    → Spec.IsValid (s.verify_hash part bkt)
    → HasVersion (s.verify_hash part bkt)
    → Accepts
        (hash_at now (s.verify_hash part bkt) == Bucket.get_hash cfg.catalog (s.pages page))
        (Keeps s part bkt)
        (check_page cfg now part bkt page s)
unfolding check_page check_chain
check_page-Accepts cfg now part bkt page s v some_version =
    rw
      (
        empty_lem (s.verify_hash part bkt) v,
        some_version,
        get-promised cfg.fast now 0 0 (s.verify_hash part bkt) v,
      )
      (decide (hash_at now (s.verify_hash part bkt) == Bucket.get_hash cfg.catalog (s.pages page)))
  where
    decide :
        (t : Bool)
        → Accepts t (Keeps s part bkt) (
            if t
            then done
                (record s { verify_hash = update s.verify_hash part bkt (s.verify_hash part bkt) })
            else fault)
    decide true = (refl, refl, refl, update_same s.verify_hash part bkt (s.verify_hash part bkt))
    decide false = refl

-- The page is not in the cache, and the bytes that it takes fit.
pub record HasRoom (part bkt : ℕ) (s : IndexEnc) : Type 0 where
  pub part_here : part < s.cache.n
  pub bkt_here : bkt < s.cache.m
  pub free : s.cache.locked ≡ false
  pub missing : s.cache.cache part bkt ≡ none
  pub room :
      u64 (s.cache.cached_bytes + total_rec (s.store part bkt) * 1024 % 2 ^ 32) ≤ s.cache.limit

-- What a load leaves: the copy of the page at its address with its latch free, and the chain as it was.
abbrev pub IsLoaded : Config → ℕ → ℕ → IndexEnc → IndexEnc × ℕ → Type 0
IsLoaded cfg part bkt s (s', page) =
    (page ≡ s.next_page)
    × (s'.pages page ≡ Bucket.copy_nodes cfg.part_id (s.store part bkt))
    × (s'.latches page ≡ Latch.init)
    × (s'.verify_hash part bkt ≡ s.verify_hash part bkt)
    × (s'.cache
        ≡ taken_in part bkt (total_rec (s.store part bkt) * 1024 % 2 ^ 32) s.next_page s.cache)

pub set_same {ℓ} : {A : Type ℓ} (f : ℕ → A) (i : ℕ) (a : A) → set f i a i ≡ a
set_same f i a = rw (==_refl i) refl

-- What a load of a page that is not given up comes to: the check of the page that was copied in.
abbrev pub copied : Config → ℕ → ℕ → IndexEnc → IndexEnc
copied cfg part bkt s = record (copy_in cfg part bkt s) {
  cache = taken_in part bkt (total_rec (s.store part bkt) * 1024 % 2 ^ 32) s.next_page s.cache;
}

checked-Accepts :
    (cfg : Config) (now part bkt : ℕ) (s : IndexEnc)
    → Spec.IsValid (s.verify_hash part bkt)
    → HasVersion (s.verify_hash part bkt)
    → Accepts
        (hash_at now (s.verify_hash part bkt) == Bucket.get_hash cfg.catalog (s.store part bkt))
        (IsLoaded cfg part bkt s)
        (check_page cfg now part bkt s.next_page (copied cfg part bkt s) >>= λ r.
          done (r, s.next_page))
unfolding copy_in
checked-Accepts cfg now part bkt s v h =
    let c : IndexEnc = copied cfg part bkt s in
    let match : Bucket → Bool =
      λ b. hash_at now (s.verify_hash part bkt) == Bucket.get_hash cfg.catalog b in
    let there = set_same s.pages s.next_page (Bucket.copy_nodes cfg.part_id (s.store part bkt)) in
    Accepts->>= (match (s.store part bkt)) (Keeps c part bkt) (IsLoaded cfg part bkt s)
      (check_page cfg now part bkt s.next_page c) (λ r. done (r, s.next_page))
      (subst (λ b. Accepts b (Keeps c part bkt) (check_page cfg now part bkt s.next_page c))
        (ap match there
          ∙ ap (λ h. hash_at now (s.verify_hash part bkt) == h)
              (get_hash-copy_nodes cfg.catalog cfg.part_id (s.store part bkt)))
        (check_page-Accepts cfg now part bkt s.next_page c v h))
      (λ r (pages, latches, cache, chain). (
        refl,
        ap (λ f. f s.next_page) pages ∙ there,
        ap (λ f. f s.next_page) latches ∙ set_same s.latches s.next_page Latch.init,
        chain,
        cache,
      ))

-- Nothing was swapped out.
after_swap_room :
    (cfg : Config) (now part bkt page : ℕ) (s : IndexEnc)
    → after_swap cfg now part bkt page s
        (record { rc = rcok; swapped = 0; swapped_part = 0; swapped_idx = 0; res = page })
      ≡ (check_page cfg now part bkt page s >>= λ r. done (r, page))
unfolding after_swap
after_swap_room cfg now part bkt page s = rw (==_refl page) refl

-- The flush time of a page that was never written back.
abbrev pub flushed : Config → ℕ → ℕ → IndexEnc → IndexEnc
flushed cfg part bkt s = record s {
  flush_time =
      (if s.flush_time part bkt == 0
        then update s.flush_time part bkt cfg.init_ts
        else s.flush_time);
}

-- The index that the check of a page is based on: load_bucket first syncs a page from the disk if it is not kept
-- in the store, or is recovered.
abbrev pub outside : Config → ℕ → ℕ → IndexEnc → IndexEnc
outside cfg part bkt s = record s {
  store =
      (if cfg.tampered part bkt || not (cfg.inside bkt)
        then update s.store part bkt (cfg.disk part bkt)
        else s.store);
}

-- The page that a load finds where the store has `b`.
abbrev pub found : Config → ℕ → ℕ → Bucket → Bucket
found cfg part bkt b =
    if cfg.tampered part bkt || not (cfg.inside bkt) then cfg.disk part bkt else b

pub outside-found :
    (cfg : Config) (part bkt : ℕ) (s : IndexEnc)
    → (outside cfg part bkt s).store part bkt ≡ found cfg part bkt (s.store part bkt)
outside-found cfg part bkt s = go (cfg.tampered part bkt || not (cfg.inside bkt))
  where
    go :
        (b : Bool)
        → (if b then update s.store part bkt (cfg.disk part bkt) else s.store) part bkt
          ≡ (if b then cfg.disk part bkt else s.store part bkt)
    go true = update_same s.store part bkt (cfg.disk part bkt)
    go false = refl

synced_lem :
    (cfg : Config) (part bkt : ℕ) (s : IndexEnc) (b : Bool)
    → (if b
        then sync_bucket_from_disk cfg part bkt (flushed cfg part bkt s)
        else flushed cfg part bkt s)
      ≡ flushed cfg part bkt (record s {
        store = (if b then update s.store part bkt (cfg.disk part bkt) else s.store);
      })
unfolding sync_bucket_from_disk
synced_lem cfg part bkt s true = refl
synced_lem cfg part bkt s false = refl

copy_and_swap_lem :
    (cfg : Config) (now part bkt : ℕ) (s : IndexEnc)
    → HasRoom part bkt s
    → copy_and_swap cfg now part bkt s ≡ (
        check_page cfg now part bkt s.next_page (copied cfg part bkt s) >>= λ r.
        done (r, s.next_page))
unfolding copy_and_swap
copy_and_swap_lem cfg now part bkt s room =
    rw
      (
        load_and_swap_room cfg.lease part bkt (total_rec (s.store part bkt) * 1024 % 2 ^ 32)
            s.next_page s.cache room.part_here room.bkt_here room.free room.missing room.room,
        after_swap_room cfg now part bkt s.next_page (copied cfg part bkt s),
      )
      refl

-- Such a load comes to the check of the page that was copied in.
pub load_bucket_lem :
    (cfg : Config) (now part bkt : ℕ) (s : IndexEnc)
    → HasRoom part bkt (outside cfg part bkt s)
    → (cfg.tampered part bkt && not cfg.recovery) ≡ false
    → load_bucket cfg now part bkt s ≡ (
        check_page cfg now part bkt s.next_page
          (copied cfg part bkt (flushed cfg part bkt (outside cfg part bkt s)))
        >>= λ r. done (r, s.next_page))
unfolding load_bucket load_missing
load_bucket_lem cfg now part bkt s room t =
    rw
      (
        try_load-none cfg.lease part bkt s.cache room.part_here room.bkt_here room.missing,
        t,
        synced_lem cfg part bkt s (cfg.tampered part bkt || not (cfg.inside bkt)),
      )
      (copy_and_swap_lem cfg now part bkt (flushed cfg part bkt (outside cfg part bkt s)) (record {
        part_here = room.part_here;
        bkt_here = room.bkt_here;
        free = room.free;
        missing = room.missing;
        room = room.room;
      }))

-- A load of a page that is not in the cache, with room for it and with a version in its chain. The
-- page outside the enclave is accepted exactly if its hash is the one that the chain has now: then the
-- load returns the copy of the page outside, with its latch free and its chain unchanged; if the hash is
-- another, the assertion of the load fails. The page is not one that is given up as tampered.
pub load_bucket-Accepts :
    (cfg : Config) (now part bkt : ℕ) (s : IndexEnc)
    → Spec.IsValid (s.verify_hash part bkt)
    → HasVersion (s.verify_hash part bkt)
    → HasRoom part bkt (outside cfg part bkt s)
    → (cfg.tampered part bkt && not cfg.recovery) ≡ false
    → Accepts
        (hash_at now (s.verify_hash part bkt)
          == Bucket.get_hash cfg.catalog ((outside cfg part bkt s).store part bkt))
        (IsLoaded cfg part bkt (outside cfg part bkt s))
        (load_bucket cfg now part bkt s)
load_bucket-Accepts cfg now part bkt s v h room t =
    rw (load_bucket_lem cfg now part bkt s room t)
      (checked-Accepts cfg now part bkt (flushed cfg part bkt (outside cfg part bkt s)) v h)
