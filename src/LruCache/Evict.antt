-- ===== src/LruCache/Evict.antt =====
-- `cache_free`: which page it takes, and what it does to the bytes counted.
use veri_txn.Prelude.{
  ℕ, ◌≡◌, ◌≢◌, refl, sym, ap, Option, none, some, List, [], ◌∷◌, All, arith, ◌==◌, inl, inr, ◌⊎◌,
  Bool-cases,
}
use veri_txn.LruCache.{
  CacheNode, CacheVisit, LruCache, rcok, abort, Freed, free_at, update, sub_u64, cache_free_loop,
  cache_free,
}
use veri_txn.LruCache.Spec.{IsSettled, All-map, IsSettled-drop}

-- The entry is about a page that has been read or replaced since.
abbrev pub IsStale : LruCache → CacheVisit → Type 0
IsStale c v = (x : CacheNode) → c.cache v.part v.bkt ≡ some x → x.ts ≢ v.ts

-- A page that nobody reads was taken, and its bytes are no longer counted; or nothing was to be had.
abbrev pub Takes : ℕ → LruCache → List CacheVisit → LruCache × Freed → Type 0
Takes swapped c pool (c', f) =
    ((f.rc ≡ abort)
      × (f.swapped ≡ swapped)
      × (c' ≡ record c { free_pool = [] })
      × All (IsStale c) pool)
    ⊎ ((x : CacheNode) × (f.rc ≡ rcok)
        × (c.cache f.part f.bkt ≡ some x)
        × (x.read_cnt ≡ 0)
        × (f.swapped ≡ x.value)
        × (c'.cache ≡ update c.cache f.part f.bkt none)
        × (c'.cached_bytes ≡ sub_u64 c.cached_bytes x.size)
        × (c'.timestamp ≡ c.timestamp)
        × (c'.locked ≡ c.locked)
        × All (IsSettled c'.cache c'.timestamp) c'.free_pool)

Takes-skip :
    (swapped : ℕ) (c : LruCache) (it : CacheVisit) (pool : List CacheVisit) (r : LruCache × Freed)
    → IsStale c it
    → Takes swapped c pool r
    → Takes swapped c (it ∷ pool) r
Takes-skip swapped c it pool r stale (inl (a, w, e, s)) = inl (a, w, e, (stale, s))
Takes-skip swapped c it pool r stale (inr t) = inr t

free_at-Takes :
    (swapped : ℕ) (c : LruCache) (it : CacheVisit) (rest : List CacheVisit)
    (later : LruCache × Freed) (o : Option CacheNode)
    → c.cache it.part it.bkt ≡ o
    → IsSettled c.cache c.timestamp it
    → All (IsSettled c.cache c.timestamp) rest
    → Takes swapped c rest later
    → Takes swapped c (it ∷ rest) (free_at c it rest later o)
free_at-Takes swapped c it rest later none e s ss t =
    Takes-skip swapped c it rest later (λ x f g. cc) t
free_at-Takes swapped c it rest later (some cur) e s ss t = elim (Bool-cases (cur.ts == it.ts)) [
  | inl fits ↦ rw fits (
      inr (
        cur,
        refl,
        e,
        (s.1 cur e (ground arith)).0,
        refl,
        refl,
        ap (sub_u64 c.cached_bytes) (sym (s.1 cur e (ground arith)).1),
        refl,
        refl,
        All-map rest (λ v h. IsSettled-drop c.cache c.timestamp it.part it.bkt v h) ss,
      ))
  | inr old ↦ rw old (Takes-skip swapped c it rest later (λ x f g. ground (arith, e, f)) t)
]

cache_free_loop-Takes :
    (part bkt swapped : ℕ) (c : LruCache) (pool : List CacheVisit)
    → All (IsSettled c.cache c.timestamp) pool
    → Takes swapped c pool (cache_free_loop part bkt swapped c pool)
unfolding cache_free_loop
cache_free_loop-Takes part bkt swapped c [] s = inl (refl, refl, refl, tt)
cache_free_loop-Takes part bkt swapped c (it ∷ rest) s =
    free_at-Takes swapped c it rest (cache_free_loop part bkt swapped c rest) _ refl s.0 s.1
      (cache_free_loop-Takes part bkt swapped c rest s.1)

-- `cache_free` on a valid cache, under the latch or not, either takes a page that nobody reads,
-- hands its pointer out, empties its slot and counts its bytes off, with the entries that are left in
-- the queue still in order; or answers Abort with an empty queue, every entry being about a page that
-- was read or replaced since, and the pages as they were.
pub cache_free-Takes :
    (part bkt swapped : ℕ) (c : LruCache)
    → All (IsSettled c.cache c.timestamp) c.free_pool
    → Takes swapped c c.free_pool (cache_free part bkt swapped c)
unfolding cache_free
cache_free-Takes part bkt swapped c s = cache_free_loop-Takes part bkt swapped c c.free_pool s
