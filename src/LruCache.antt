-- ===== src/LruCache.antt =====
-- common/lru_cache.h and common/lru_cache.cpp: the cache of verified pages with its pins, leases and
-- lazy eviction, in the build with LAZY_OFFLOADING == 1. A `void *` is a number, and the null pointer
-- is 0.
pub mod Spec
pub mod Evict
pub mod Keeps
pub mod Reach
pub mod Load
mod Tests
use veri_txn.Prelude.{
  ℕ, ◌+◌, ◌-◌, ◌*◌, ◌/◌, ◌%◌, ◌^◌, Bool, true, false, not, ◌&&◌, ◌||◌, Option, none, some, List, [],
  ◌∷◌, ◌++◌, ltb, leb, ◌==◌, if◌then◌else◌, Outcome, done, blocked, fault, ◌>>=◌, max,
}

pub record CacheNode : Type 0 where
  pub ts : ℕ
  pub read_cnt : ℕ
  pub value : ℕ
  pub size : ℕ

pub record CacheVisit : Type 0 where
  pub bkt : ℕ
  pub part : ℕ
  pub ts : ℕ
  pub size : ℕ

pub record LruCache : Type 0 where
  pub n : ℕ
  pub m : ℕ
  pub cache : ℕ → ℕ → Option CacheNode
  pub lease : ℕ → ℕ → ℕ
  pub free_pool : List CacheVisit
  pub cached_bytes : ℕ
  pub timestamp : ℕ
  pub limit : ℕ
  pub locked : Bool

pub data Rc : Type 0 where
  rcok abort : Rc

abbrev pub base_lease : ℕ
base_lease = 100

abbrev pub u64 : ℕ → ℕ
u64 n = n % 2 ^ 64

-- `a - b` on `uint64_t`.
abbrev pub sub_u64 : ℕ → ℕ → ℕ
sub_u64 a b = (a + 2 ^ 64 - b) % 2 ^ 64

abbrev pub update {ℓ} : {A : Type ℓ} → (ℕ → ℕ → A) → ℕ → ℕ → A → ℕ → ℕ → A
update f part bkt a p b = if part == p && bkt == b then a else f p b

pub init : ℕ → ℕ → ℕ → LruCache
init bucket_cnt part_cnt siz = record {
  n = part_cnt;
  m = bucket_cnt / part_cnt;
  cache = λ p b. none;
  lease = λ p b. base_lease;
  free_pool = [];
  cached_bytes = 0;
  timestamp = 0;
  limit = siz;
  locked = false;
}

abbrev pub get_latch : LruCache → Outcome LruCache
get_latch c = if c.locked then blocked else done (record c { locked = true })

abbrev pub release_latch : LruCache → Outcome LruCache
release_latch c = if c.locked then done (record c { locked = false }) else fault

-- One reader less; the last one leaves an entry in `free_pool`.
abbrev pub unpin : LruCache → ℕ → ℕ → CacheNode → LruCache
unpin c part bkt x =
    let x' : CacheNode = record x { read_cnt = sub_u64 x.read_cnt 1 } in
    let visit : CacheVisit = record { bkt = bkt; part = part; ts = x.ts; size = x.size } in
    record c {
      cache = update c.cache part bkt (some x');
      free_pool = (if x'.read_cnt == 0 then c.free_pool ++ (visit ∷ []) else c.free_pool);
    }

abbrev pub released : LruCache → ℕ → ℕ → Option CacheNode → LruCache
released c part bkt none = c
released c part bkt (some x) = unpin c part bkt x

-- The page is never handed back at once in this build: the result is the null pointer.
pub release : ℕ → ℕ → LruCache → Outcome (LruCache × ℕ)
release part bkt c = do
  c ← get_latch c
  c ← release_latch (released c part bkt (c.cache part bkt))
  done (c, 0)

-- One more reader, at a new time.
abbrev pub pin_max : LruCache → ℕ → ℕ → CacheNode → LruCache
pin_max c part bkt x =
    let now : ℕ = u64 (c.timestamp + 1) in
    record c {
      cache =
          update c.cache part bkt
            (some (record x { ts = max x.ts now; read_cnt = u64 (x.read_cnt + 1) }));
      timestamp = now;
    }

abbrev pub try_slot : Bool → ℕ → ℕ → LruCache → Option CacheNode → Outcome (LruCache × ℕ)
try_slot enable_lease part bkt c none = done (c, 0)
try_slot enable_lease part bkt c (some x) =
    if ltb c.timestamp (u64 (x.ts + c.lease part bkt)) && enable_lease
    then done (c, 0)
    else done (pin_max c part bkt x, x.value)

-- No latch is taken here.
pub try_load : Bool → ℕ → ℕ → LruCache → Outcome (LruCache × ℕ)
try_load enable_lease part bkt c =
    if ltb part c.n && ltb bkt c.m
    then try_slot enable_lease part bkt c (c.cache part bkt)
    else fault

-- The three reference parameters of `cache_free` and its result.
pub record Freed : Type 0 where
  pub rc : Rc
  pub part : ℕ
  pub bkt : ℕ
  pub swapped : ℕ

abbrev pub evict : LruCache → CacheVisit → CacheNode → List CacheVisit → LruCache × Freed
evict c it cur rest = (
  record c {
    cache = update c.cache it.part it.bkt none;
    cached_bytes = sub_u64 c.cached_bytes it.size;
    free_pool = rest;
  },
  record { rc = rcok; part = it.part; bkt = it.bkt; swapped = cur.value },
)

-- One round of the `while` of `cache_free` at the entry `it`, whose slot is given last.
abbrev pub free_at :
    LruCache → CacheVisit → List CacheVisit → LruCache × Freed → Option CacheNode → LruCache × Freed
free_at c it rest later none = later
free_at c it rest later (some cur) = if cur.ts == it.ts then evict c it cur rest else later

-- The `while` of `cache_free`: entries that are out of date are dropped from the front of the queue.
pub cache_free_loop : ℕ → ℕ → ℕ → LruCache → List CacheVisit → LruCache × Freed
cache_free_loop part bkt swapped c [] =
    (record c { free_pool = [] }, record { rc = abort; part = part; bkt = bkt; swapped = swapped })
cache_free_loop part bkt swapped c (it ∷ rest) =
    let later = cache_free_loop part bkt swapped c rest in
    free_at c it rest later (c.cache it.part it.bkt)

pub cache_free : ℕ → ℕ → ℕ → LruCache → LruCache × Freed
unfolding cache_free_loop
cache_free part bkt swapped c = cache_free_loop part bkt swapped c c.free_pool

pub reset_lease : Bool → ℕ → ℕ → LruCache → Outcome LruCache
reset_lease enable_lease part bkt c =
    if enable_lease
    then (get_latch c >>= λ c.
        release_latch (record c { lease = update c.lease part bkt base_lease }))
    else done c

pub inc_lease : Bool → ℕ → ℕ → LruCache → Outcome LruCache
inc_lease enable_lease part bkt c =
    if enable_lease
    then (get_latch c >>= λ c.
        release_latch (record c { lease = update c.lease part bkt (u64 (c.lease part bkt * 2)) }))
    else done c

-- The four reference parameters of `load_and_swap` and its result; `res` is set on every path.
pub record Loaded : Type 0 where
  pub rc : Rc
  pub swapped : ℕ
  pub swapped_part : ℕ
  pub swapped_idx : ℕ
  pub res : ℕ

abbrev pub fresh_node : ℕ → ℕ → ℕ → CacheNode
fresh_node ts value size = record { ts = ts; read_cnt = 1; value = value; size = size }

-- `_cache[part_id][bkt_idx] = new cache_node(++_timestamp, inserted, bytes_size)`.
abbrev pub place_node : LruCache → ℕ → ℕ → ℕ → ℕ → LruCache
place_node c part bkt bytes inserted =
    let now : ℕ = u64 (c.timestamp + 1) in
    record c {
      cache = update c.cache part bkt (some (fresh_node now inserted bytes));
      timestamp = now;
    }

-- Another thread has loaded the page: its node gets one more reader.
abbrev pub pin_loaded : LruCache → ℕ → ℕ → CacheNode → LruCache × Loaded
pin_loaded c part bkt x =
    let now : ℕ = u64 (c.timestamp + 1) in
    let x' : CacheNode = record x { ts = now; read_cnt = u64 (x.read_cnt + 1) } in
    (
      record c { cache = update c.cache part bkt (some x'); timestamp = now },
      record { rc = rcok; swapped = 0; swapped_part = 0; swapped_idx = 0; res = x.value },
    )

-- The old copy of the page is swapped for the new one.
abbrev pub swap_page : LruCache → ℕ → ℕ → ℕ → ℕ → CacheNode → LruCache × Loaded
swap_page c part bkt bytes inserted x = (
  place_node c part bkt bytes inserted,
  record { rc = rcok; swapped = x.value; swapped_part = part; swapped_idx = bkt; res = inserted },
)

abbrev pub after_free : LruCache × Freed → ℕ → ℕ → ℕ → ℕ → LruCache × Loaded
after_free (c, f) part bkt bytes inserted = (
  elim f.rc [
    | abort ↦ c
    | rcok ↦ if f.swapped == 0 then c else place_node c part bkt bytes inserted
  ],
  record {
    rc = f.rc;
    swapped = f.swapped;
    swapped_part = f.part;
    swapped_idx = f.bkt;
    res = inserted;
  },
)

-- The slot is empty: take the room that is left, or free another page.
pub load_new : ℕ → ℕ → ℕ → ℕ → LruCache → LruCache × Loaded
unfolding cache_free
load_new part bkt bytes inserted c =
    if ltb c.limit (u64 (c.cached_bytes + bytes))
    then after_free (cache_free 0 0 0 c) part bkt bytes inserted
    else (
      place_node (record c { cached_bytes = u64 (c.cached_bytes + bytes) }) part bkt bytes inserted,
      record { rc = rcok; swapped = 0; swapped_part = 0; swapped_idx = 0; res = inserted },
    )

-- `!_cache->_ts + _lease > _timestamp`, where `!` binds to `_ts` alone.
abbrev pub lease_test : LruCache → ℕ → ℕ → CacheNode → Bool
lease_test c part bkt x = ltb c.timestamp (u64 ((if x.ts == 0 then 1 else 0) + c.lease part bkt))

abbrev pub unlatch : LruCache × Loaded → Outcome (LruCache × Loaded)
unlatch (c, out) = release_latch c >>= λ c. done (c, out)

-- What is done under the latch; the slot of the page is given last.
pub load_slot : Bool → ℕ → ℕ → ℕ → ℕ → LruCache → Option CacheNode → LruCache × Loaded
unfolding load_new
load_slot enable_lease part bkt bytes inserted c none = load_new part bkt bytes inserted c
load_slot enable_lease part bkt bytes inserted c (some x) =
    if lease_test c part bkt x || not enable_lease
    then pin_loaded c part bkt x
    else swap_page c part bkt bytes inserted x

pub load_and_swap : Bool → ℕ → ℕ → ℕ → ℕ → LruCache → Outcome (LruCache × Loaded)
unfolding load_slot
load_and_swap enable_lease part bkt bytes inserted c =
    let out : Outcome (LruCache × Loaded) =
      (get_latch c >>= λ c.
      unlatch (load_slot enable_lease part bkt bytes inserted c (c.cache part bkt))) in
    if ltb part c.n && ltb bkt c.m then out else fault

pub can_force_load : LruCache → Bool
can_force_load c = leb (u64 (c.cached_bytes * 2)) c.limit
