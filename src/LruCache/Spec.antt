-- ===== src/LruCache/Spec.antt =====
-- The invariant of the page cache: an entry of `free_pool` that still fits its page is about a page
-- that nobody reads.
use veri_txn.Prelude.{
  ℕ, ◌^◌, ◌≤◌, ◌<◌, ◌≡◌, false, Option, none, some, List, [], ◌∷◌, ◌++◌, All, arith,
}
use veri_txn.LruCache.{CacheNode, CacheVisit, LruCache, update}

abbrev pub Pages : Type 0
Pages = ℕ → ℕ → Option CacheNode

abbrev pub IsSettled : Pages → ℕ → CacheVisit → Type 0
IsSettled pages now v =
    (v.ts ≤ now)
    × ((x : CacheNode)
        → pages v.part v.bkt ≡ some x
        → x.ts ≡ v.ts
        → (x.read_cnt ≡ 0) × (x.size ≡ v.size))

-- No page carries a time that has not come.
abbrev pub IsStamped : Pages → ℕ → Type 0
IsStamped pages now =
    (p b : ℕ) (x : CacheNode) → pages p b ≡ some x → (x.ts ≤ now) × (x.read_cnt < 2 ^ 64)

pub record IsValid (c : LruCache) : Type 0 where
  pub stamped : IsStamped c.cache c.timestamp
  pub settled : All (IsSettled c.cache c.timestamp) c.free_pool
  pub free : c.locked ≡ false

pub All-map {ℓ κ λ'} :
    {A : Type ℓ} {P : A → Type κ} {Q : A → Type λ'} (xs : List A)
    → ((a : A) → P a → Q a)
    → All P xs
    → All Q xs
All-map [] f h = tt
All-map (x ∷ xs) f h = (f x h.0, All-map xs f h.1)

pub All-append {ℓ κ} :
    {A : Type ℓ} (P : A → Type κ) (xs : List A) (a : A) → All P xs → P a → All P (xs ++ (a ∷ []))
All-append P [] a h p = (p, tt)
All-append P (x ∷ xs) a h p = (h.0, All-append P xs a h.1 p)

-- A page that is written at a new time.
pub IsStamped-place :
    (pages : Pages) (t now p b : ℕ) (x : CacheNode)
    → t < now
    → x.ts ≡ now
    → x.read_cnt < 2 ^ 64
    → IsStamped pages t
    → IsStamped (update pages p b (some x)) now
IsStamped-place pages t now p b x lt e small h q d y g = ground (arith, h q d y)

pub IsSettled-place :
    (pages : Pages) (t now p b : ℕ) (x : CacheNode) (v : CacheVisit)
    → t < now
    → x.ts ≡ now
    → IsSettled pages t v
    → IsSettled (update pages p b (some x)) now v
IsSettled-place pages t now p b x v lt e (le, h) = (omega arith, λ y g f. ground (arith, h y))

-- A page that is taken out.
pub IsStamped-drop :
    (pages : Pages) (t p b : ℕ) → IsStamped pages t → IsStamped (update pages p b none) t
IsStamped-drop pages t p b h q d y g = ground (arith, h q d y)

pub IsSettled-drop :
    (pages : Pages) (t p b : ℕ) (v : CacheVisit)
    → IsSettled pages t v
    → IsSettled (update pages p b none) t v
IsSettled-drop pages t p b v (le, h) = (le, λ y g f. ground (arith, h y))

-- A page that is read changes its count only.
pub IsStamped-unpin :
    (pages : Pages) (t p b k : ℕ) (x : CacheNode)
    → pages p b ≡ some x
    → k < 2 ^ 64
    → IsStamped pages t
    → IsStamped (update pages p b (some (record x { read_cnt = k }))) t
IsStamped-unpin pages t p b k x e small h q d y g = ground (arith, h q d y, h p b x e)

pub IsSettled-unpin :
    (pages : Pages) (t p b k : ℕ) (x : CacheNode) (v : CacheVisit)
    → pages p b ≡ some x
    → 0 < x.read_cnt
    → IsSettled pages t v
    → IsSettled (update pages p b (some (record x { read_cnt = k }))) t v
IsSettled-unpin pages t p b k x v e pos (le, h) = (le, λ y g f. ground (arith, h y, h x, e))
