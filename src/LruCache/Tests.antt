-- ===== src/LruCache/Tests.antt =====
-- A cache with room for ten bytes: a page of six bytes is loaded and released, and another one of six
-- bytes takes its place.
use veri_txn.Prelude.{ℕ, ◌≡◌, refl, false, some, none, Option, [], ◌∷◌, arith, Ensures}
use veri_txn.LruCache.{LruCache, CacheNode, rcok, init, load_and_swap, release, cache_free, update}
use veri_txn.LruCache.Evict.{Takes, cache_free-Takes}
use veri_txn.LruCache.Reach.{swaps, releases, Reach, start, next, Reach-IsValid}

abbrev first_page : CacheNode
first_page = record { ts = 1; read_cnt = 0; value = 77; size = 6 }

abbrev held_page : CacheNode
held_page = record first_page { read_cnt = 1 }

abbrev empty_pages : ℕ → ℕ → Option CacheNode
empty_pages = λ p b. none

-- After the load of page 77 into bucket 0.
abbrev loaded : LruCache
loaded = record {
  n = 1;
  m = 2;
  cache = update empty_pages 0 0 (some held_page);
  lease = λ p b. 100;
  free_pool = [];
  cached_bytes = 6;
  timestamp = 1;
  limit = 10;
  locked = false;
}

loaded-Reach : Reach false 2 1 10 loaded
unfolding init load_and_swap
loaded-Reach = next start (
    swaps 0 0 6 77 (record { rc = rcok; swapped = 0; swapped_part = 0; swapped_idx = 0; res = 77 })
      (omega arith) (omega arith) (omega arith) refl)

-- After its release.
abbrev released : LruCache
released = record loaded {
  cache = update loaded.cache 0 0 (some first_page);
  free_pool = record { bkt = 0; part = 0; ts = 1; size = 6 } ∷ [];
}

released-Reach : Reach false 2 1 10 released
unfolding release
released-Reach = next loaded-Reach (releases 0 0 0 (λ x e. ground arith) refl)

-- The second page takes the place of the first, and only one of them is counted, as none.
second_load :
    Ensures
      (λ r. (r.1.swapped ≡ 77) × (r.0.cached_bytes ≡ 0) × (r.1.rc ≡ rcok))
      (load_and_swap false 0 1 6 88 released)
unfolding load_and_swap
second_load = (refl, refl, refl)

cache_free-Takes_example : Takes 0 released released.free_pool (cache_free 0 0 0 released)
cache_free-Takes_example = cache_free-Takes 0 0 0 released (Reach-IsValid released-Reach).settled
