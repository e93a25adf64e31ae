-- ===== src/HashChain/Spec.antt =====
-- What a hash chain stands for: versions in the order of their timestamps, and the newest version
-- at or before a timestamp, told without regard to the order of the list.
use veri_txn.Prelude.{
  ℕ, suc, ◌^◌, ◌≤◌, ◌<◌, ◌≡◌, refl, ◌≢◌, false, Option, none, some, List, [], ◌∷◌, ltb, leb, ◌==◌,
  if◌then◌else◌, length, get_last?, arith, Bool-cases, inl, inr,
}
use veri_txn.HashChain.{HashItem, HashChain}

-- The timestamps rise along the list, and all lie above the bound.
abbrev pub Above : ℕ → List HashItem → Type 0
Above t [] = Unit {0}
Above t (i ∷ r) = (t < i.commit_ts) × Above i.commit_ts r

abbrev pub IsSorted : List HashItem → Type 0
IsSorted [] = Unit {0}
IsSorted (i ∷ r) = Above i.commit_ts r

pub record IsValid (c : HashChain) : Type 0 where
  pub sorted : IsSorted c.items
  pub counted : c.size ≡ length c.items
  pub small : length c.items < 2 ^ 32
  pub tailed : c.tail ≡ get_last? c.items
  pub free : c.latch ≡ false

abbrev pub newer : HashItem → Option HashItem → Option HashItem
newer i none = some i
newer i (some j) = if ltb j.commit_ts i.commit_ts then some i else some j

-- The newest version at or before `ts`.
abbrev pub floor : ℕ → List HashItem → Option HashItem
floor ts [] = none
floor ts (i ∷ r) = let rest = floor ts r in if leb i.commit_ts ts then newer i rest else rest

-- The value stored at exactly `ts`.
abbrev pub version : ℕ → List HashItem → Option ℕ
version ts [] = none
version ts (i ∷ r) = let rest = version ts r in if i.commit_ts == ts then some i.value else rest

-- The new version at its place in the order.
abbrev pub put : HashItem → List HashItem → List HashItem
put x [] = x ∷ []
put x (i ∷ r) = let rest = put x r in if ltb x.commit_ts i.commit_ts then x ∷ (i ∷ r) else i ∷ rest

pub floor-Above : (ts t : ℕ) (l : List HashItem) → Above t l → ts ≤ t → floor ts l ≡ none
floor-Above ts t [] a h = refl
floor-Above ts t (i ∷ r) a h = ground (arith, floor-Above ts i.commit_ts r a.1)

pub Above-mono : (s t : ℕ) (l : List HashItem) → s ≤ t → Above t l → Above s l
Above-mono s t [] h a = tt
Above-mono s t (i ∷ r) h a = (omega arith, a.1)

pub put-Above :
    (t : ℕ) (x : HashItem) (l : List HashItem)
    → t < x.commit_ts
    → version x.commit_ts l ≡ none
    → Above t l
    → Above t (put x l)
put-Above t x [] lt v a = (lt, tt)
put-Above t x (i ∷ r) lt v a = ground (arith, put-Above i.commit_ts x r)

pub put-IsSorted :
    (x : HashItem) (l : List HashItem)
    → version x.commit_ts l ≡ none
    → IsSorted l
    → IsSorted (put x l)
put-IsSorted x [] v s = tt
put-IsSorted x (i ∷ r) v s = ground (arith, put-Above i.commit_ts x r)

pub length-put : (x : HashItem) (l : List HashItem) → length (put x l) ≡ suc (length l)
length-put x [] = refl
length-put x (i ∷ r) = ground (arith, length-put x r)

newer_comm :
    (x i : HashItem) (o : Option HashItem)
    → x.commit_ts ≢ i.commit_ts
    → newer i (newer x o) ≡ newer x (newer i o)
newer_comm x i none h = ground arith
newer_comm x i (some j) h = ground arith

-- A version that is not there yet counts from its own timestamp on.
pub floor-put :
    (ts : ℕ) (x : HashItem) (l : List HashItem)
    → version x.commit_ts l ≡ none
    → floor ts (put x l) ≡ (if leb x.commit_ts ts then newer x (floor ts l) else floor ts l)
floor-put ts x [] v = ground arith
floor-put ts x (i ∷ r) v = elim (Bool-cases (ltb x.commit_ts i.commit_ts)) [
  | inl front ↦ rw front refl
  | inr behind ↦ rw behind (ground (arith, floor-put ts x r, newer_comm x i (floor ts r)))
]
