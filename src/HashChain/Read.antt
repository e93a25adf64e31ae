-- ===== src/HashChain/Read.antt =====
-- `get` and `get_max_ts` against the newest version at or before a timestamp.
use veri_txn.Prelude.{
  All, ℕ, ◌≤◌, ◌<◌, ◌≡◌, refl, subst, Bool, Option, Option-cases, none, some, List, [], ◌∷◌, ltb,
  if◌then◌else◌, get_last?, arith, done, inl, inr, Bool-cases, ◌==◌,
}
use veri_txn.HashChain.{
  HashItem, HashChain, Answer, answer, not_loaded, get_scan, get, get_max_ts, empty,
}
use veri_txn.HashChain.Spec.{IsSorted, IsValid, Above, floor, floor-Above}

-- A list that starts with `last`, ends with `t`, and whose head is not after `ts`.
get_scan-floor :
    (ts : ℕ) (t last : HashItem) (r : List HashItem)
    → Above last.commit_ts r
    → last.commit_ts ≤ ts
    → get_last? (last ∷ r) ≡ some t
    → floor ts (last ∷ r) ≡ some (get_scan ts t last r)
unfolding get_scan
get_scan-floor ts t last [] a h e = ground arith
get_scan-floor ts t last (i ∷ r) a h e = elim (Bool-cases (ltb ts i.commit_ts)) [
  | inl later ↦ ground (arith, floor-Above ts i.commit_ts r a.1)
  | inr older ↦ ground (arith, get_scan-floor ts t i r a.1)
]

pub last-Above :
    (s : ℕ) (t i : HashItem) (r : List HashItem)
    → Above s (i ∷ r)
    → get_last? (i ∷ r) ≡ some t
    → s < t.commit_ts
last-Above s t i [] a e = ground arith
last-Above s t i (j ∷ r) a e = ground (arith, last-Above i.commit_ts t j r a.1 e)

-- The tail is the newest version of all.
pub floor_tail :
    (ts : ℕ) (t h : HashItem) (r : List HashItem)
    → Above h.commit_ts r
    → t.commit_ts ≤ ts
    → get_last? (h ∷ r) ≡ some t
    → floor ts (h ∷ r) ≡ some t
floor_tail ts t h [] a le e = ground arith
floor_tail ts t h (i ∷ r) a le e =
    ground (arith, floor_tail ts t i r a.1 le e, last-Above h.commit_ts t i r a e)

pub get_last-some :
    (h : HashItem) (r : List HashItem) → (t : HashItem) × (get_last? (h ∷ r) ≡ some t)
get_last-some h [] = (h, refl)
get_last-some h (i ∷ r) = get_last-some i r

pub empty_lem : (c : HashChain) → IsValid c → empty c ≡ done (c, c.size == 0)
unfolding empty
empty_lem c v = ground (arith, v.free)

-- What `get` promises: the newest version at or before `ts`, else "not loaded".
pub promised : ℕ → ℕ → ℕ → HashChain → Answer
promised ts length rts c = elim (floor ts c.items) [
  | none ↦ record { res = not_loaded; length = (if c.size == 0 then length else c.size); rts = rts }
  | some i ↦ answer c i
]

-- The hash of the version that a read sees.
abbrev pub hash_of : Option HashItem → ℕ
hash_of none = not_loaded
hash_of (some i) = i.value

pub promised-res :
    (ts length rts : ℕ) (c : HashChain)
    → (promised ts length rts c).res ≡ hash_of (floor ts c.items)
unfolding promised
promised-res ts length rts c = elim (Option-cases (floor ts c.items)) [
  | inl e ↦ rw (promised, e) refl
  | inr (i, e) ↦ rw (promised, e) refl
]

pub promised-floor :
    (ts length rts : ℕ) (c : HashChain) (i : HashItem)
    → floor ts c.items ≡ some i
    → promised ts length rts c ≡ answer c i
unfolding promised
promised-floor ts length rts c i e = rw (promised, e) refl

get_items :
    (fast : Bool) (ts len rts : ℕ) (c : HashChain) (l : List HashItem)
    → c.items ≡ l
    → IsValid c
    → get fast ts len rts c ≡ done (c, promised ts len rts c)
unfolding get promised get_scan
get_items fast ts len rts c [] e v = ground arith
get_items fast ts len rts c (h ∷ r) e v =
    let (t, last) = get_last-some h r in
    let sorted : Above h.commit_ts r = subst IsSorted e v.sorted in
    ground (
      arith,
      e,
      last,
      floor_tail ts t h r sorted,
      get_scan-floor ts t h r sorted,
      floor-Above ts h.commit_ts r sorted,
    )

-- On a valid chain `get` returns, leaves the chain as it was with its latch free, and answers with
-- the newest version at or before `ts`; where there is none it answers `uint64_t(-1)`, leaves
-- `rts`, and leaves `length` if the chain is empty. This holds with and without the fast access.
pub get-promised :
    (fast : Bool) (ts len rts : ℕ) (c : HashChain)
    → IsValid c
    → get fast ts len rts c ≡ done (c, promised ts len rts c)
get-promised fast ts len rts c v = get_items fast ts len rts c c.items refl v

last-All :
    (t h : HashItem) (r : List HashItem)
    → Above h.commit_ts r
    → get_last? (h ∷ r) ≡ some t
    → All (λ i. i.commit_ts ≤ t.commit_ts) (h ∷ r)
last-All t h [] a e = (ground arith, tt)
last-All t h (i ∷ r) a e =
    let le = last-Above h.commit_ts t i r a e in (omega arith, last-All t i r a.1 e)

-- The answer for an empty chain, else the timestamp of a version.
abbrev pub IsNewest : ℕ → List HashItem → Type 0
IsNewest m [] = m ≡ 0
IsNewest m (h ∷ r) = (i : HashItem) × (floor m (h ∷ r) ≡ some i) × (i.commit_ts ≡ m)

max_items :
    (c : HashChain) (l : List HashItem)
    → c.items ≡ l
    → IsValid c
    → (m : ℕ) × (get_max_ts c ≡ done (c, m)) × IsNewest m l × All (λ i. i.commit_ts ≤ m) l
unfolding get_max_ts
max_items c [] e v = (0, ground arith, refl, tt)
max_items c (h ∷ r) e v =
    let (t, last) = get_last-some h r in
    let sorted : Above h.commit_ts r = subst IsSorted e v.sorted in
    (
      t.commit_ts,
      ground (arith, e, last),
      (t, floor_tail t.commit_ts t h r sorted (omega arith) last, refl),
      last-All t h r sorted last,
    )

-- On a valid chain `get_max_ts` returns, leaves the chain as it was with its latch free, and answers
-- with the timestamp of a version that no other exceeds, or with 0 if the chain is empty.
pub get_max_ts-bound :
    (c : HashChain)
    → IsValid c
    → (m : ℕ) × (get_max_ts c ≡ done (c, m))
      × IsNewest m c.items
      × All (λ i. i.commit_ts ≤ m) c.items
get_max_ts-bound c v = max_items c c.items refl v
