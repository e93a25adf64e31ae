-- ===== src/IndexEnc/Update.antt =====
-- `update_verify_hash`: the version that a commit adds to the chain of a page.
use veri_txn.Prelude.{
  set, ℕ, ◌+◌, ◌^◌, ◌<◌, ◌≤◌, ◌≡◌, ◌≢◌, refl, sym, ap, ◌∙◌, subst, not, ◌&&◌, false, Option, none,
  some, List, [], ◌∷◌, length, ltb, leb, if◌then◌else◌, arith, done, fault, ◌>>=◌, Ensures,
  Ensures->>=, Accepts, Accepts->>=, ◌==◌, ==_refl, All, Bool-cases, inl, inr,
}
use veri_txn.HashChain.{HashChain, HashItem, not_loaded}
use veri_txn.HashChain
use veri_txn.HashChain.Spec
use veri_txn.HashChain.Spec.{floor, newer, version}
use veri_txn.HashChain.Read.{promised-res, hash_of}
use veri_txn.HashChain.Insert.{insert_new, made}
use veri_txn.HashChain.Vacuum.{vaccum-floor}
use veri_txn.LruCache
use veri_txn.LruCache.Load.{release_null}
use veri_txn.LruCache.{update}
use veri_txn.Latch
use veri_txn.Latch.{latch_ex, give}
use veri_txn.Latch.Free.{exclusive, exclusive_back}
use veri_txn.Bucket
use veri_txn.IndexEnc.{
  Config, IndexEnc, vaccum_trigger, extend_chain, update_loaded, update_verify_hash, load_bucket,
  take_latch, give_latch, sync_bucket_from_disk, release_up_cache,
}
use veri_txn.IndexEnc.Chain.{hash_at}
use veri_txn.IndexEnc.Load.{
  HasVersion, HasRoom, IsLoaded, outside, load_bucket-Accepts, update_same,
}

-- The commit is after all versions.
abbrev pub IsAfter : ℕ → HashChain → Type 0
IsAfter ts c = All (λ i. i.commit_ts < ts) c.items

version_after : (ts : ℕ) (l : List HashItem) → All (λ i. i.commit_ts < ts) l → version ts l ≡ none
version_after ts [] h = refl
version_after ts (i ∷ r) h = ground (arith, h.0, version_after ts r h.1)

newer_before :
    (x i : HashItem) (o : Option HashItem)
    → i.commit_ts < x.commit_ts
    → newer x o ≡ some x
    → newer x (newer i o) ≡ some x
newer_before x i none lt e = ground arith
newer_before x i (some j) lt e = ground (arith, e)

floor_before :
    (t : ℕ) (x : HashItem) (l : List HashItem)
    → All (λ i. i.commit_ts < x.commit_ts) l
    → newer x (floor t l) ≡ some x
floor_before t x [] h = refl
floor_before t x (i ∷ r) h =
    let rest = floor_before t x r h.1 in
    elim (Bool-cases (leb i.commit_ts t)) [
      | inl seen ↦ rw seen (newer_before x i (floor t r) h.0 rest)
      | inr later ↦ rw later rest
    ]

-- What a commit makes of a chain: reads at or after the commit see its hash, those between the oldest
-- active transaction and the commit see what they saw.
abbrev pub Extends : ℕ → ℕ → ℕ → HashChain → HashChain → Type 0
Extends ts hash begin_ts c c' =
    Spec.IsValid c'
    × ((t : ℕ) → begin_ts ≤ t → hash_at t c' ≡ (if leb ts t then hash else hash_at t c))

inserted-hash_at :
    (ts hash t : ℕ) (c c' : HashChain)
    → IsAfter ts c
    → floor t c'.items
      ≡ (if leb ts t then newer (made ts hash) (floor t c.items) else floor t c.items)
    → hash_at t c' ≡ (if leb ts t then hash else hash_at t c)
inserted-hash_at ts hash t c c' after e =
    promised-res t 0 0 c' ∙ ap hash_of e ∙ elim (Bool-cases (leb ts t)) [
      | inl seen ↦ rw seen (ap hash_of (floor_before t (made ts hash) c.items after))
      | inr before ↦ rw before (sym (promised-res t 0 0 c))
    ]

vaccumed-Extends :
    (ts hash begin_ts : ℕ) (c c' : HashChain)
    → Extends ts hash begin_ts c c'
    → Ensures (Extends ts hash begin_ts c) (HashChain.vaccum begin_ts c')
vaccumed-Extends ts hash begin_ts c c' (v, h) =
    let (d, returns, valid, same, gone) = vaccum-floor begin_ts c' v in
    subst (Ensures (Extends ts hash begin_ts c)) (sym returns) (
      valid,
      λ t le. promised-res t 0 0 d ∙ ap hash_of (same t le) ∙ sym (promised-res t 0 0 c') ∙ h t le,
    )

pub extend_chain-Extends :
    (ts hash begin_ts : ℕ) (c : HashChain)
    → Spec.IsValid c
    → length c.items + 1 < 2 ^ 32
    → IsAfter ts c
    → Ensures (Extends ts hash begin_ts c) (extend_chain ts hash begin_ts c)
unfolding extend_chain
extend_chain-Extends ts hash begin_ts c v room after =
    let (c', returns, valid, long, reads) =
      insert_new ts hash c v room (version_after ts c.items after) in
    let extends : Extends ts hash begin_ts c c' =
      (valid, λ t le. inserted-hash_at ts hash t c c' after (reads t)) in
    rw returns (elim (Bool-cases (ltb vaccum_trigger c'.size)) [
      | inl many ↦ rw many (vaccumed-Extends ts hash begin_ts c c' extends)
      | inr few ↦ rw few extends
    ])

take_exclusive :
    (page : ℕ) (s : IndexEnc)
    → s.latches page ≡ Latch.init
    → take_latch latch_ex page s
      ≡ done (record s { latches = set s.latches page (give latch_ex Latch.init) })
unfolding take_latch
take_exclusive page s free = rw (free, exclusive) refl

give_exclusive :
    (page : ℕ) (s : IndexEnc)
    → s.latches page ≡ give latch_ex Latch.init
    → give_latch latch_ex page s ≡ done (record s { latches = set s.latches page Latch.init })
unfolding give_latch
give_exclusive page s held = rw (held, exclusive_back) refl

-- The chain of the page, after it was extended by a commit.
abbrev pub IsUpdated : ℕ → ℕ → ℕ → ℕ → ℕ → HashChain → IndexEnc → Type 0
IsUpdated part bkt ts hash begin_ts c s' = Extends ts hash begin_ts c (s'.verify_hash part bkt)

released-IsUpdated :
    (part bkt ts hash begin_ts : ℕ) (c : HashChain) (s : IndexEnc)
    → s.cache.locked ≡ false
    → IsUpdated part bkt ts hash begin_ts c s
    → Ensures (IsUpdated part bkt ts hash begin_ts c) (release_up_cache part bkt s)
unfolding release_up_cache
released-IsUpdated part bkt ts hash begin_ts c s free u =
    Ensures->>= (λ r. r.1 ≡ 0) (IsUpdated part bkt ts hash begin_ts c)
      (LruCache.release part bkt s.cache) _ (release_null part bkt s.cache free)
      (λ r null. rw (null) u)

-- What is left to do once the chain is extended.
finish-IsUpdated :
    (cfg : Config) (part bkt page ts hash begin_ts : ℕ) (c : HashChain) (s : IndexEnc)
    → s.latches page ≡ give latch_ex Latch.init
    → s.cache.locked ≡ false
    → IsUpdated part bkt ts hash begin_ts c s
    → Ensures (IsUpdated part bkt ts hash begin_ts c) (
        give_latch latch_ex page (if cfg.use_log then sync_bucket_from_disk cfg part bkt s else s)
        >>= release_up_cache part bkt)
unfolding sync_bucket_from_disk
finish-IsUpdated cfg part bkt page ts hash begin_ts c s held free u =
    elim (Bool-cases cfg.use_log) [
      | inl logs ↦
          rw (logs, give_exclusive page (sync_bucket_from_disk cfg part bkt s) held)
            (released-IsUpdated part bkt ts hash begin_ts c _ free u)
      | inr plain ↦
          rw (plain, give_exclusive page s held)
            (released-IsUpdated part bkt ts hash begin_ts c _ free u)
    ]

update_loaded-IsUpdated :
    (cfg : Config) (part bkt page ts hash begin_ts : ℕ) (s : IndexEnc)
    → s.latches page ≡ Latch.init
    → s.cache.locked ≡ false
    → Spec.IsValid (s.verify_hash part bkt)
    → length (s.verify_hash part bkt).items + 1 < 2 ^ 32
    → IsAfter ts (s.verify_hash part bkt)
    → Ensures
        (IsUpdated part bkt ts hash begin_ts (s.verify_hash part bkt))
        (update_loaded cfg part bkt hash ts begin_ts (s, page))
unfolding update_loaded
update_loaded-IsUpdated cfg part bkt page ts hash begin_ts s free unlocked v room after =
    let taken : IndexEnc = record s { latches = set s.latches page (give latch_ex Latch.init) } in
    let c : HashChain = s.verify_hash part bkt in
    rw (take_exclusive page s free) (
      Ensures->>= (Extends ts hash begin_ts c) (IsUpdated part bkt ts hash begin_ts c)
        (extend_chain ts hash begin_ts c) _ (extend_chain-Extends ts hash begin_ts c v room after)
        (λ c' e.
          finish-IsUpdated cfg part bkt page ts hash begin_ts c
            (record taken { verify_hash = update s.verify_hash part bkt c' })
            (rw (==_refl page) refl) unlocked
            (subst (Extends ts hash begin_ts c) (sym (update_same s.verify_hash part bkt c')) e)))

-- update_verify_hash of a page that is not in the cache, at a commit after all versions of its valid chain,
-- which has a version and is shorter than 2 ^ 32 - 1: if the page outside has the hash that the chain has now,
-- the call returns, and the chain of the page is valid; reads at or after the commit then see its hash, and
-- reads from the oldest active transaction up to the commit see the hash they saw before, also when old
-- versions were dropped. If the page outside has another hash, an assertion fails. The page outside is that of
-- the store, or that of the disk where load_bucket syncs the page first, because it is not kept in the store
-- or the test of tampering marks it and recovery is on. The page is not one that the test of tampering marks
-- where recovery is off, the cache is unlatched, with room for it, and it gets an address that is not null.
pub update_verify_hash-Accepts :
    (cfg : Config) (now part bkt hash ts begin_ts : ℕ) (s : IndexEnc)
    → Spec.IsValid (s.verify_hash part bkt)
    → HasVersion (s.verify_hash part bkt)
    → length (s.verify_hash part bkt).items + 1 < 2 ^ 32
    → IsAfter ts (s.verify_hash part bkt)
    → HasRoom part bkt (outside cfg part bkt s)
    → (cfg.tampered part bkt && not cfg.recovery) ≡ false
    → s.next_page ≢ 0
    → Accepts
        (hash_at now (s.verify_hash part bkt)
          == Bucket.get_hash cfg.catalog ((outside cfg part bkt s).store part bkt))
        (IsUpdated part bkt ts hash begin_ts (s.verify_hash part bkt))
        (update_verify_hash cfg now part bkt hash ts begin_ts s)
unfolding update_verify_hash
update_verify_hash-Accepts cfg now part bkt hash ts begin_ts s v h few after room tam nonzero =
    Accepts->>=
      (hash_at now (s.verify_hash part bkt)
        == Bucket.get_hash cfg.catalog ((outside cfg part bkt s).store part bkt))
      (IsLoaded cfg part bkt (outside cfg part bkt s))
      (IsUpdated part bkt ts hash begin_ts (s.verify_hash part bkt))
      (load_bucket cfg now part bkt s) _ (load_bucket-Accepts cfg now part bkt s v h room tam)
      update_it
  where
    update_it :
        (r : IndexEnc × ℕ)
        → IsLoaded cfg part bkt (outside cfg part bkt s) r
        → Ensures
            (IsUpdated part bkt ts hash begin_ts (s.verify_hash part bkt))
            (if r.1 == 0 then fault else update_loaded cfg part bkt hash ts begin_ts r)
    update_it (s', page) (here, content, free, chain, cache) =
        let there : (page == 0) ≡ false = ground (arith, here) in
        rw there (
          subst
            (λ c.
              Ensures (IsUpdated part bkt ts hash begin_ts c)
                (update_loaded cfg part bkt hash ts begin_ts (s', page)))
            chain
            (update_loaded-IsUpdated cfg part bkt page ts hash begin_ts s' free
              (ap (λ c. c.locked) cache) (subst Spec.IsValid (sym chain) v)
              (subst (λ c. length c.items + 1 < 2 ^ 32) (sym chain) few)
              (subst (IsAfter ts) (sym chain) after)))
