-- ===== src/LruCache/Load.antt =====
-- Loads of a page that is not there, while there is room.
use veri_txn.Prelude.{
  ℕ, ◌+◌, ◌<◌, ◌≤◌, ◌≡◌, refl, Bool, false, none, done, le→ltb, lt→ltb, Ensures, Option-cases, inl,
  inr,
}
use veri_txn.LruCache.{
  LruCache, u64, place_node, load_and_swap, load_slot, load_new, try_load, release, rcok,
}

-- The cache takes the page in, with one reader.
abbrev pub taken_in : ℕ → ℕ → ℕ → ℕ → LruCache → LruCache
taken_in part bkt bytes page c =
    place_node (record c { cached_bytes = u64 (c.cached_bytes + bytes); locked = false }) part bkt
      bytes page

pub load_and_swap_room :
    (lease : Bool) (part bkt bytes page : ℕ) (c : LruCache)
    → part < c.n
    → bkt < c.m
    → c.locked ≡ false
    → c.cache part bkt ≡ none
    → u64 (c.cached_bytes + bytes) ≤ c.limit
    → load_and_swap lease part bkt bytes page c
      ≡ done (
        taken_in part bkt bytes page c,
        record { rc = rcok; swapped = 0; swapped_part = 0; swapped_idx = 0; res = page },
      )
unfolding load_and_swap load_slot load_new
load_and_swap_room lease part bkt bytes page c p b free missing room =
    rw
      (
        lt→ltb part c.n p,
        lt→ltb bkt c.m b,
        free,
        missing,
        le→ltb c.limit (u64 (c.cached_bytes + bytes)) room,
      )
      refl

pub try_load-none :
    (lease : Bool) (part bkt : ℕ) (c : LruCache)
    → part < c.n
    → bkt < c.m
    → c.cache part bkt ≡ none
    → try_load lease part bkt c ≡ done (c, 0)
unfolding try_load
try_load-none lease part bkt c p b missing = rw (lt→ltb part c.n p, lt→ltb bkt c.m b, missing) refl

-- A release that waits for nobody never hands the page back.
pub release_null :
    (part bkt : ℕ) (c : LruCache) → c.locked ≡ false → Ensures (λ r. r.1 ≡ 0) (release part bkt c)
unfolding release
release_null part bkt c free = rw free (elim (Option-cases (c.cache part bkt)) [
  | inl none_here ↦ rw none_here refl
  | inr (x, here) ↦ rw here refl
])
