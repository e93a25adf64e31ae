-- ===== src/HashChain/Vacuum.antt =====
-- `vaccum`: which versions it drops, and what readers still see.
use veri_txn.Prelude.{
  ℕ, ◌≤◌, ◌<◌, ◌≡◌, refl, sym, ◌∙◌, All, List, [], ◌∷◌, leb, if◌then◌else◌, get_last?, arith, done,
  inl, inr, Bool-cases, length,
}
use veri_txn.HashChain.{HashItem, HashChain, vaccum, vaccum_loop}
use veri_txn.HashChain.Spec.{IsSorted, IsValid, Above, floor, Above-mono}

-- The versions that stay: from the newest one at or before `valid_ts` on.
abbrev pub since : ℕ → List HashItem → List HashItem
since valid_ts [] = []
since valid_ts (x ∷ []) = x ∷ []
since valid_ts (x ∷ (y ∷ r)) =
    let rest = since valid_ts (y ∷ r) in if leb y.commit_ts valid_ts then rest else x ∷ (y ∷ r)

loop-since :
    (valid_ts : ℕ) (l : List HashItem)
    → vaccum_loop valid_ts (length l) l ≡ done (length (since valid_ts l), since valid_ts l)
unfolding vaccum_loop
loop-since valid_ts [] = ground arith
loop-since valid_ts (x ∷ []) = ground arith
loop-since valid_ts (x ∷ (y ∷ r)) = ground (arith, loop-since valid_ts (y ∷ r))

-- A reader at or after `valid_ts` sees what it saw before.
floor-since :
    (valid_ts ts : ℕ) (l : List HashItem)
    → IsSorted l
    → valid_ts ≤ ts
    → floor ts (since valid_ts l) ≡ floor ts l
floor-since valid_ts ts [] s h = refl
floor-since valid_ts ts (x ∷ []) s h = refl
floor-since valid_ts ts (x ∷ (y ∷ r)) s h = ground (arith, floor-since valid_ts ts (y ∷ r))

since-IsSorted : (valid_ts : ℕ) (l : List HashItem) → IsSorted l → IsSorted (since valid_ts l)
since-IsSorted valid_ts [] s = tt
since-IsSorted valid_ts (x ∷ []) s = s
since-IsSorted valid_ts (x ∷ (y ∷ r)) s = ground (arith, since-IsSorted valid_ts (y ∷ r))

get_last-since : (valid_ts : ℕ) (l : List HashItem) → get_last? (since valid_ts l) ≡ get_last? l
get_last-since valid_ts [] = refl
get_last-since valid_ts (x ∷ []) = refl
get_last-since valid_ts (x ∷ (y ∷ r)) = ground (arith, get_last-since valid_ts (y ∷ r))

length-since : (valid_ts : ℕ) (l : List HashItem) → length (since valid_ts l) ≤ length l
length-since valid_ts [] = omega arith
length-since valid_ts (x ∷ []) = omega arith
length-since valid_ts (x ∷ (y ∷ r)) = ground (arith, length-since valid_ts (y ∷ r))

abbrev pub rest_of : List HashItem → List HashItem
rest_of [] = []
rest_of (x ∷ r) = r

Above-All : (t : ℕ) (l : List HashItem) → Above t l → All (λ i. t < i.commit_ts) l
Above-All t [] a = tt
Above-All t (i ∷ r) a = (a.0, Above-All t r (Above-mono t i.commit_ts r (omega arith) a.1))

rest-since :
    (valid_ts : ℕ) (l : List HashItem)
    → IsSorted l
    → All (λ i. valid_ts < i.commit_ts) (rest_of (since valid_ts l))
rest-since valid_ts [] s = tt
rest-since valid_ts (x ∷ []) s = tt
rest-since valid_ts (x ∷ (y ∷ r)) s = elim (Bool-cases (leb y.commit_ts valid_ts)) [
  | inl old ↦ rw old (rest-since valid_ts (y ∷ r) s.1)
  | inr young ↦ rw young (Above-All valid_ts (y ∷ r) (ground arith, s.1))
]

vaccum_lem :
    (valid_ts : ℕ) (c : HashChain)
    → IsValid c
    → vaccum valid_ts c
      ≡ done (record c { size = length (since valid_ts c.items); items = since valid_ts c.items })
unfolding vaccum
vaccum_lem valid_ts c v = ground (arith, loop-since valid_ts c.items)

-- `vaccum` on a valid chain returns a valid chain with its latch free. Every read at or after
-- `valid_ts` sees the version it saw before, and of the versions at or before `valid_ts` at most the
-- first of the chain is left.
pub vaccum-floor :
    (valid_ts : ℕ) (c : HashChain)
    → IsValid c
    → (c' : HashChain) × (vaccum valid_ts c ≡ done c')
      × IsValid c'
      × ((ts : ℕ) → valid_ts ≤ ts → floor ts c'.items ≡ floor ts c.items)
      × All (λ i. valid_ts < i.commit_ts) (rest_of c'.items)
vaccum-floor valid_ts c v = (
  _,
  vaccum_lem valid_ts c v,
  record {
    sorted = since-IsSorted valid_ts c.items v.sorted;
    counted = refl;
    small = omega (arith, length-since valid_ts c.items, v.small);
    tailed = v.tailed ∙ sym (get_last-since valid_ts c.items);
    free = v.free;
  },
  λ ts h. floor-since valid_ts ts c.items v.sorted h,
  rest-since valid_ts c.items v.sorted,
)
