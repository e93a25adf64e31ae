-- ===== src/LruCache/Reach.antt =====
-- Histories of the page cache: what holds after any sequence of calls in which a thread releases
-- only the pages that it has pinned.
use veri_txn.Prelude.{ℕ, ◌<◌, ◌≡◌, ◌≢◌, refl, Bool, true, false, some, done, Ensures, Ensures-done}
use veri_txn.LruCache.{
  CacheNode, LruCache, Loaded, sub_u64, load_and_swap, release, try_load, reset_lease, inc_lease,
  init,
}
use veri_txn.LruCache.Spec.{IsValid}
use veri_txn.LruCache.Keeps.{
  HasTime, IsPinned, init-IsValid, load_and_swap-IsValid, try_load-IsValid, release-IsValid,
}

pub data Step (lease : Bool) (c : LruCache) : LruCache → Type 0 where
  loads :
      {c' : LruCache} (part bkt value : ℕ)
      → part < c.n
      → bkt < c.m
      → HasTime c
      → try_load lease part bkt c ≡ done (c', value)
      → Step lease c c'
  swaps :
      {c' : LruCache} (part bkt bytes inserted : ℕ) (out : Loaded)
      → part < c.n
      → bkt < c.m
      → HasTime c
      → load_and_swap lease part bkt bytes inserted c ≡ done (c', out)
      → Step lease c c'
  releases :
      {c' : LruCache} (part bkt value : ℕ)
      → IsPinned c part bkt
      → release part bkt c ≡ done (c', value)
      → Step lease c c'
  resets : {c' : LruCache} (part bkt : ℕ) → reset_lease lease part bkt c ≡ done c' → Step lease c c'
  incs : {c' : LruCache} (part bkt : ℕ) → inc_lease lease part bkt c ≡ done c' → Step lease c c'

pub data Reach (lease : Bool) (bucket_cnt part_cnt siz : ℕ) : LruCache → Type 0 where
  start : Reach lease bucket_cnt part_cnt siz (init bucket_cnt part_cnt siz)
  next :
      {c c' : LruCache}
      → Reach lease bucket_cnt part_cnt siz c
      → Step lease c c'
      → Reach lease bucket_cnt part_cnt siz c'

reset_lease-IsValid :
    (lease : Bool) (part bkt : ℕ) (c : LruCache)
    → IsValid c
    → Ensures IsValid (reset_lease lease part bkt c)
unfolding reset_lease
reset_lease-IsValid true part bkt c v =
    rw v.free (record { stamped = v.stamped; settled = v.settled; free = refl })
reset_lease-IsValid false part bkt c v = v

inc_lease-IsValid :
    (lease : Bool) (part bkt : ℕ) (c : LruCache)
    → IsValid c
    → Ensures IsValid (inc_lease lease part bkt c)
unfolding inc_lease
inc_lease-IsValid true part bkt c v =
    rw v.free (record { stamped = v.stamped; settled = v.settled; free = refl })
inc_lease-IsValid false part bkt c v = v

Step-IsValid : {lease : Bool} {c c' : LruCache} → Step lease c c' → IsValid c → IsValid c'
Step-IsValid {lease} {c} (loads part bkt value p b h e) v =
    Ensures-done (λ r. IsValid r.0) _ e (try_load-IsValid lease part bkt c p b h v)
Step-IsValid {lease} {c} (swaps part bkt bytes inserted out p b h e) v =
    Ensures-done (λ r. IsValid r.0) _ e
      (load_and_swap-IsValid lease part bkt bytes inserted c p b h v)
Step-IsValid {lease} {c} (releases part bkt value p e) v =
    Ensures-done (λ r. IsValid r.0) _ e (release-IsValid part bkt c p v)
Step-IsValid {lease} {c} (resets part bkt e) v =
    Ensures-done IsValid _ e (reset_lease-IsValid lease part bkt c v)
Step-IsValid {lease} {c} (incs part bkt e) v =
    Ensures-done IsValid _ e (inc_lease-IsValid lease part bkt c v)

pub Reach-IsValid :
    {lease : Bool} {bucket_cnt part_cnt siz : ℕ} {c : LruCache}
    → Reach lease bucket_cnt part_cnt siz c
    → IsValid c
Reach-IsValid {bucket_cnt} {part_cnt} {siz} start = init-IsValid bucket_cnt part_cnt siz
Reach-IsValid (next r s) = Step-IsValid s (Reach-IsValid r)

-- What a load into an empty slot takes from the cache `c`, given the state and result of the load.
abbrev pub TakesUnread : LruCache → LruCache × Loaded → Type 0
TakesUnread c (c', out) =
    out.swapped ≢ 0
    → (x : CacheNode) × (c.cache out.swapped_part out.swapped_idx ≡ some x)
      × (x.read_cnt ≡ 0)
      × (out.swapped ≡ x.value)
      × (c'.cached_bytes ≡ sub_u64 c.cached_bytes x.size)
