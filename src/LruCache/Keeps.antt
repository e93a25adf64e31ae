-- ===== src/LruCache/Keeps.antt =====
-- Every operation of the page cache returns and keeps its invariant.
use veri_txn.Prelude.{
  ℕ, ◌^◌, ◌<◌, ◌+◌, ◌≡◌, refl, sym, ◌∙◌, Bool, true, Option, none, some, List, All, arith, ◌==◌,
  inl, inr, Bool-cases, ◌&&◌, ltb, Ensures, lt→ltb, ◌||◌, not, subst,
}
use veri_txn.LruCache.{
  CacheNode, CacheVisit, LruCache, Freed, update, sub_u64, cache_free, load_new, u64, load_and_swap,
  place_node, Loaded, unpin, pin_max, pin_loaded, release, try_load, load_slot, released, try_slot,
  after_free, init, lease_test, unlatch,
}
use veri_txn.LruCache.Spec.{
  IsSettled, IsValid, IsStamped, All-map, All-append, IsStamped-place, IsSettled-place,
  IsStamped-drop, IsStamped-unpin, IsSettled-unpin,
}
use veri_txn.LruCache.Evict.{Takes, cache_free-Takes}

-- Time goes on: no wrap at 2 ^ 64.
abbrev pub HasTime : LruCache → Type 0
HasTime c = c.timestamp + 1 < 2 ^ 64

-- The caller has pinned the page if it is there.
abbrev pub IsPinned : LruCache → ℕ → ℕ → Type 0
IsPinned c part bkt = (x : CacheNode) → c.cache part bkt ≡ some x → 0 < x.read_cnt

pub init-IsValid : (bucket_cnt part_cnt siz : ℕ) → IsValid (init bucket_cnt part_cnt siz)
unfolding init
init-IsValid bucket_cnt part_cnt siz = record { stamped = λ p b x e. cc; settled = tt; free = refl }

-- What the latch protects: the invariant but for the latch itself.
abbrev pub IsKept : LruCache → Type 0
IsKept c = IsStamped c.cache c.timestamp × All (IsSettled c.cache c.timestamp) c.free_pool

-- A page is written at the next time.
written-IsKept :
    (c : LruCache) (part bkt : ℕ) (x : CacheNode)
    → IsKept c
    → x.ts ≡ c.timestamp + 1
    → x.read_cnt < 2 ^ 64
    → (IsStamped (update c.cache part bkt (some x)) (c.timestamp + 1))
      × All (IsSettled (update c.cache part bkt (some x)) (c.timestamp + 1)) c.free_pool
written-IsKept c part bkt x (st, se) e small = (
  IsStamped-place c.cache c.timestamp (c.timestamp + 1) part bkt x (omega arith) e small st,
  All-map c.free_pool
      (λ v h. IsSettled-place c.cache c.timestamp (c.timestamp + 1) part bkt x v (omega arith) e h)
      se,
)

next_time : (c : LruCache) → HasTime c → u64 (c.timestamp + 1) ≡ c.timestamp + 1
next_time c h = omega arith

place-IsKept :
    (c : LruCache) (part bkt bytes inserted : ℕ)
    → IsKept c
    → HasTime c
    → IsKept (place_node c part bkt bytes inserted)
place-IsKept c part bkt bytes inserted k h =
    rw (next_time c h) (written-IsKept c part bkt _ k refl (omega arith))

pin_loaded-IsKept :
    (c : LruCache) (part bkt : ℕ) (x : CacheNode)
    → IsKept c
    → HasTime c
    → IsKept (pin_loaded c part bkt x).0
pin_loaded-IsKept c part bkt x k h =
    rw (next_time c h) (written-IsKept c part bkt _ k refl (omega arith))

pin_max-IsKept :
    (c : LruCache) (part bkt : ℕ) (x : CacheNode)
    → c.cache part bkt ≡ some x
    → IsKept c
    → HasTime c
    → IsKept (pin_max c part bkt x)
pin_max-IsKept c part bkt x e k h =
    rw (next_time c h)
      (written-IsKept c part bkt _ k (omega (arith, (k.0 part bkt x e).0)) (omega arith))

unpin-IsKept :
    (c : LruCache) (part bkt : ℕ) (x : CacheNode)
    → c.cache part bkt ≡ some x
    → 0 < x.read_cnt
    → IsKept c
    → IsKept (unpin c part bkt x)
unpin-IsKept c part bkt x e pos (st, se) = (
  IsStamped-unpin c.cache c.timestamp part bkt (sub_u64 x.read_cnt 1) x e (omega arith) st,
  elim (Bool-cases (sub_u64 x.read_cnt 1 == 0)) [
    | inl last ↦
        rw last (All-append _ c.free_pool _ old ((st part bkt x e).0, λ y f g. ground arith))
    | inr more ↦ rw more old
  ],
)
  where
    old :
        All
          (IsSettled
            (update c.cache part bkt (some (record x { read_cnt = sub_u64 x.read_cnt 1 })))
            c.timestamp)
          c.free_pool
    old =
        All-map c.free_pool
          (λ v h. IsSettled-unpin c.cache c.timestamp part bkt (sub_u64 x.read_cnt 1) x v e pos h)
          se

-- Under the latch.
abbrev pub IsHeld : LruCache → Type 0
IsHeld c = IsKept c × (c.locked ≡ true)

after_free-IsHeld :
    (c : LruCache) (pool : List CacheVisit) (r : LruCache × Freed) (part bkt bytes inserted : ℕ)
    → IsHeld c
    → HasTime c
    → Takes 0 c pool r
    → IsHeld (after_free r part bkt bytes inserted).0
after_free-IsHeld c pool (c', f) part bkt bytes inserted (k, l) h (inl (a, _, e, stale)) =
    rw (a, e) ((k.0, tt), l)
after_free-IsHeld c pool (c', f) part bkt bytes inserted (k, l) h
      (inr (x, a, _, _, _, e, _, t, l', s)) =
    elim (Bool-cases (f.swapped == 0)) [
      | inl null ↦ rw (a, null) (kept, l' ∙ l)
      | inr page ↦
          rw (a, page) (place-IsKept c' part bkt bytes inserted kept (omega (arith, t)), l' ∙ l)
    ]
  where
    kept : IsKept c'
    kept = (
      subst (IsStamped c'.cache) (sym t) (
          subst (λ g. IsStamped g c.timestamp) (sym e)
            (IsStamped-drop c.cache c.timestamp f.part f.bkt k.0)),
      s,
    )

pub load_new-IsHeld :
    (part bkt bytes inserted : ℕ) (c : LruCache)
    → IsHeld c
    → HasTime c
    → IsHeld (load_new part bkt bytes inserted c).0
unfolding load_new
load_new-IsHeld part bkt bytes inserted c (k, l) h =
    elim (Bool-cases (ltb c.limit (u64 (c.cached_bytes + bytes)))) [
      | inl full ↦ rw full (
          after_free-IsHeld c c.free_pool (cache_free 0 0 0 c) part bkt bytes inserted (k, l) h
            (cache_free-Takes 0 0 0 c k.1))
      | inr room ↦ rw room (
        place-IsKept (record c { cached_bytes = u64 (c.cached_bytes + bytes) }) part bkt bytes
            inserted k h,
        l,
      )
    ]

unlatch-IsValid : (r : LruCache × Loaded) → IsHeld r.0 → Ensures (λ r. IsValid r.0) (unlatch r)
unlatch-IsValid (c, out) (k, l) = rw l (record { stamped = k.0; settled = k.1; free = refl })

load_slot-IsHeld :
    (lease : Bool) (part bkt bytes inserted : ℕ) (c : LruCache) (o : Option CacheNode)
    → IsHeld c
    → HasTime c
    → IsHeld (load_slot lease part bkt bytes inserted c o).0
unfolding load_slot
load_slot-IsHeld lease part bkt bytes inserted c none k h =
    load_new-IsHeld part bkt bytes inserted c k h
load_slot-IsHeld lease part bkt bytes inserted c (some x) (k, l) h =
    elim (Bool-cases (lease_test c part bkt x || not lease)) [
      | inl fits ↦ rw fits (pin_loaded-IsKept c part bkt x k h, l)
      | inr old ↦ rw old (place-IsKept c part bkt bytes inserted k h, l)
    ]

-- On a valid cache whose clock does not wrap, `load_and_swap` of a page in range returns on every
-- branch, with the latch free, and leaves a valid cache.
pub load_and_swap-IsValid :
    (lease : Bool) (part bkt bytes inserted : ℕ) (c : LruCache)
    → part < c.n
    → bkt < c.m
    → HasTime c
    → IsValid c
    → Ensures (λ r. IsValid r.0) (load_and_swap lease part bkt bytes inserted c)
unfolding load_and_swap
load_and_swap-IsValid lease part bkt bytes inserted c p b h v =
    rw (lt→ltb part c.n p, lt→ltb bkt c.m b, v.free)
      (unlatch-IsValid _ (
        load_slot-IsHeld lease part bkt bytes inserted (record c { locked = true })
          (c.cache part bkt) ((v.stamped, v.settled), refl) h))

try_slot-IsValid :
    (lease : Bool) (part bkt : ℕ) (c : LruCache) (o : Option CacheNode)
    → c.cache part bkt ≡ o
    → HasTime c
    → IsValid c
    → Ensures (λ r. IsValid r.0) (try_slot lease part bkt c o)
try_slot-IsValid lease part bkt c none e h v = v
try_slot-IsValid lease part bkt c (some x) e h v =
    elim (Bool-cases (ltb c.timestamp (u64 (x.ts + c.lease part bkt)) && lease)) [
      | inl leased ↦ rw leased v
      | inr free ↦
          let k = pin_max-IsKept c part bkt x e (v.stamped, v.settled) h in
          rw free (record { stamped = k.0; settled = k.1; free = v.free })
    ]

-- So does `try_load`, which takes no latch.
pub try_load-IsValid :
    (lease : Bool) (part bkt : ℕ) (c : LruCache)
    → part < c.n
    → bkt < c.m
    → HasTime c
    → IsValid c
    → Ensures (λ r. IsValid r.0) (try_load lease part bkt c)
unfolding try_load
try_load-IsValid lease part bkt c p b h v =
    rw (lt→ltb part c.n p, lt→ltb bkt c.m b)
      (try_slot-IsValid lease part bkt c (c.cache part bkt) refl h v)

released-IsKept :
    (part bkt : ℕ) (c : LruCache) (o : Option CacheNode)
    → c.cache part bkt ≡ o
    → IsPinned c part bkt
    → IsKept c
    → IsHeld (released (record c { locked = true }) part bkt o)
released-IsKept part bkt c none e p k = (k, refl)
released-IsKept part bkt c (some x) e p k = (unpin-IsKept c part bkt x e (p x e) k, refl)

-- `release` of a page that the caller has pinned, or that is gone, returns and leaves a valid cache.
pub release-IsValid :
    (part bkt : ℕ) (c : LruCache)
    → IsPinned c part bkt
    → IsValid c
    → Ensures (λ r. IsValid r.0) (release part bkt c)
unfolding release
release-IsValid part bkt c p v =
    let k = released-IsKept part bkt c (c.cache part bkt) refl p (v.stamped, v.settled) in
    rw (v.free) (rw k.1 (record { stamped = k.0.0; settled = k.0.1; free = refl }))
