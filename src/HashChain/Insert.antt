-- ===== src/HashChain/Insert.antt =====
-- `insert`: a new version goes to its place in the order, a version that is there is checked.
use veri_txn.Prelude.{
  ℕ, ◌+◌, ◌^◌, ◌≤◌, ◌<◌, ◌≡◌, refl, subst, false, none, some, List, [], ◌∷◌, ◌++◌, ltb, leb,
  if◌then◌else◌, get_last?, arith, done, fault, inl, inr, Bool-cases, ◌==◌, length,
}
use veri_txn.HashChain.{HashItem, HashChain, insert, place_after}
use veri_txn.HashChain.Spec.{
  IsSorted, IsValid, Above, floor, newer, version, put, put-IsSorted, length-put, floor-put,
}
use veri_txn.HashChain.Read.{last-Above, get_last-some}

abbrev pub made : ℕ → ℕ → HashItem
made ts value = record { value = value; commit_ts = ts }

-- Past the last version the new one is appended.
put_end :
    (x t i : HashItem) (r : List HashItem)
    → Above i.commit_ts r
    → get_last? (i ∷ r) ≡ some t
    → t.commit_ts < x.commit_ts
    → put x (i ∷ r) ≡ (i ∷ r) ++ (x ∷ [])
put_end x t i [] a e lt = ground arith
put_end x t i (j ∷ r) a e lt =
    ground (arith, put_end x t j r a.1 e lt, last-Above i.commit_ts t j r a e)

get_last-cons_put :
    (x i : HashItem) (l : List HashItem) → get_last? (i ∷ put x l) ≡ get_last? (put x l)
get_last-cons_put x i [] = refl
get_last-cons_put x i (j ∷ r) = ground arith

get_last-put :
    (x t i : HashItem) (r : List HashItem)
    → Above i.commit_ts r
    → get_last? (i ∷ r) ≡ some t
    → version x.commit_ts (i ∷ r) ≡ none
    → get_last? (put x (i ∷ r)) ≡ (if ltb t.commit_ts x.commit_ts then some x else some t)
get_last-put x t i [] a e v = ground arith
get_last-put x t i (j ∷ r) a e v = elim (Bool-cases (ltb x.commit_ts i.commit_ts)) [
  | inl front ↦ rw front (ground (arith, e, last-Above i.commit_ts t j r a e))
  | inr behind ↦
      rw (behind, get_last-cons_put x i (j ∷ r)) (get_last-put x t j r a.1 e (ground arith))
]

version-Above : (ts t : ℕ) (l : List HashItem) → Above t l → ts ≤ t → version ts l ≡ none
version-Above ts t [] a h = refl
version-Above ts t (i ∷ r) a h = ground (arith, version-Above ts i.commit_ts r a.1)

-- The rounds behind the head, where some version is newer than the new one.
place_after_new :
    (ts value : ℕ) (t i : HashItem) (r : List HashItem)
    → get_last? (i ∷ r) ≡ some t
    → ts ≤ t.commit_ts
    → version ts (i ∷ r) ≡ none
    → place_after ts value (i ∷ r) ≡ done (some (put (made ts value) (i ∷ r)))
unfolding place_after
place_after_new ts value t i [] e le v = ground arith
place_after_new ts value t i (j ∷ r) e le v = ground (arith, place_after_new ts value t j r e le)

Above-IsSorted : (t : ℕ) (l : List HashItem) → Above t l → IsSorted l
Above-IsSorted t [] a = tt
Above-IsSorted t (i ∷ r) a = a.1

place_after_present :
    (ts value : ℕ) (l : List HashItem)
    → (w : ℕ) → version ts l ≡ some w
    → IsSorted l
    → place_after ts value l ≡ (if value == w then done none else fault)
unfolding place_after
place_after_present ts value [] w e s = ground arith
place_after_present ts value (i ∷ []) w e s = ground arith
place_after_present ts value (i ∷ (j ∷ r)) w e s =
    ground (arith, place_after_present ts value (j ∷ r) w, version-Above ts i.commit_ts (j ∷ r))

insert_items_new :
    (ts value : ℕ) (c : HashChain) (l : List HashItem)
    → c.items ≡ l
    → IsValid c
    → length c.items + 1 < 2 ^ 32
    → version ts c.items ≡ none
    → insert ts value c
      ≡ done (record {
        size = length c.items + 1;
        items = put (made ts value) c.items;
        tail = get_last? (put (made ts value) c.items);
        latch = false;
      })
unfolding insert
insert_items_new ts value c [] e v room fresh = ground arith
insert_items_new ts value c (i ∷ []) e v room fresh = ground (arith, e)
insert_items_new ts value c (i ∷ (j ∷ r)) e v room fresh =
    let (t, last) = get_last-some j r in
    let sorted : Above i.commit_ts (j ∷ r) = subst IsSorted e v.sorted in
    let fresh' : version ts (i ∷ (j ∷ r)) ≡ none = subst (λ l. version ts l ≡ none) e fresh in
    ground (
      arith,
      e,
      last,
      put_end (made ts value) t i (j ∷ r) sorted last,
      get_last-put (made ts value) t i (j ∷ r) sorted last fresh',
      place_after_new ts value t j r last,
    )

-- A version for a timestamp that the chain does not have yet: `insert` returns a valid chain with its
-- latch free, one version longer, in which every read sees the new version from its timestamp on,
-- unless a version between that and the read is newer, and sees what it saw before otherwise. The
-- chain must be valid and shorter than 2 ^ 32 - 1.
pub insert_new :
    (ts value : ℕ) (c : HashChain)
    → IsValid c
    → length c.items + 1 < 2 ^ 32
    → version ts c.items ≡ none
    → (c' : HashChain) × (insert ts value c ≡ done c')
      × IsValid c'
      × (length c'.items ≡ length c.items + 1)
      × ((t : ℕ)
          → floor t c'.items
            ≡ (if leb ts t then newer (made ts value) (floor t c.items) else floor t c.items))
insert_new ts value c v room fresh = (
  _,
  insert_items_new ts value c c.items refl v room fresh,
  record {
    sorted = put-IsSorted (made ts value) c.items fresh v.sorted;
    counted = omega (arith, length-put (made ts value) c.items);
    small = omega (arith, length-put (made ts value) c.items);
    tailed = refl;
    free = refl;
  },
  omega (arith, length-put (made ts value) c.items),
  λ t. floor-put t (made ts value) c.items fresh,
)

present-le :
    (ts w : ℕ) (t i : HashItem) (r : List HashItem)
    → Above i.commit_ts r
    → get_last? (i ∷ r) ≡ some t
    → version ts (i ∷ r) ≡ some w
    → (i.commit_ts ≤ ts) × (ts ≤ t.commit_ts)
present-le ts w t i [] a e v = ground arith
present-le ts w t i (j ∷ r) a e v =
    ground (arith, present-le ts w t j r a.1 e, last-Above i.commit_ts t j r a e)

insert_items_present :
    (ts value w : ℕ) (c : HashChain) (l : List HashItem)
    → c.items ≡ l
    → IsValid c
    → version ts c.items ≡ some w
    → insert ts value c ≡ (if value == w then done c else fault)
unfolding insert
insert_items_present ts value w c [] e v there = ground (arith, e)
insert_items_present ts value w c (i ∷ r) e v there =
    let (t, last) = get_last-some i r in
    let sorted : Above i.commit_ts r = subst IsSorted e v.sorted in
    let there' : version ts (i ∷ r) ≡ some w = subst (λ l. version ts l ≡ some w) e there in
    let sorted' : IsSorted r = Above-IsSorted i.commit_ts r sorted in
    ground (
      arith,
      e,
      last,
      there',
      present-le ts w t i r sorted last there',
      place_after_present ts value r w,
    )

-- A version for a timestamp that the chain has: `insert` leaves the chain as it was if the value is
-- the one that is there, and its assertion fails if it is another. The chain must be valid.
pub insert_present :
    (ts value w : ℕ) (c : HashChain)
    → IsValid c
    → version ts c.items ≡ some w
    → insert ts value c ≡ (if value == w then done c else fault)
insert_present ts value w c v there = insert_items_present ts value w c c.items refl v there
