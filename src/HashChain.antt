-- ===== src/HashChain.antt =====
-- trusted/system/hash_chain.h: the chain of page hashes, one version for each commit timestamp.
pub mod Spec
pub mod Read
pub mod Insert
pub mod Vacuum
mod Tests
use veri_txn.Prelude.{
  ℕ, ◌+◌, ◌-◌, ◌%◌, ◌^◌, Bool, true, false, ◌&&◌, Option, none, some, List, [], ◌∷◌, ◌++◌, ltb, leb,
  ◌==◌, if◌then◌else◌, length, Outcome, done, blocked, fault, ◌>>=◌, map_done,
}

pub record HashItem : Type 0 where
  pub value : ℕ
  pub commit_ts : ℕ

-- `head` is the first of `items`; `tail` is kept beside the list, as the class keeps it.
pub record HashChain : Type 0 where
  pub size : ℕ
  pub items : List HashItem
  pub tail : Option HashItem
  pub latch : Bool

abbrev pub empty_chain : HashChain
empty_chain = record { size = 0; items = []; tail = none; latch = false }

-- `uint64_t(-1)`, what `get` answers where the chain has no version.
abbrev pub not_loaded : ℕ
not_loaded = 2 ^ 64 - 1

abbrev inc_u32 : ℕ → ℕ
inc_u32 n = (n + 1) % 2 ^ 32

abbrev dec_u32 : ℕ → ℕ
dec_u32 n = (n + 2 ^ 32 - 1) % 2 ^ 32

pub lock : HashChain → Outcome HashChain
lock c = if c.latch then blocked else done (record c { latch = true })

pub unlock : HashChain → Outcome HashChain
unlock c = if c.latch then done (record c { latch = false }) else fault

pub empty : HashChain → Outcome (HashChain × Bool)
unfolding lock unlock
empty c = do c ← lock c; let res = c.size == 0; c ← unlock c; done (c, res)

-- The `while` of `vaccum`, over `size` and the list.
pub vaccum_loop : ℕ → ℕ → List HashItem → Outcome (ℕ × List HashItem)
vaccum_loop valid_ts size [] = if ltb 1 size then fault else done (size, [])
vaccum_loop valid_ts size (x ∷ []) = done (size, x ∷ [])
vaccum_loop valid_ts size (x ∷ (y ∷ r)) =
    let rest = vaccum_loop valid_ts (size - 1) (y ∷ r) in
    if ltb 1 size && leb y.commit_ts valid_ts then rest else done (size, x ∷ (y ∷ r))

pub vaccum : ℕ → HashChain → Outcome HashChain
unfolding lock unlock
vaccum valid_ts c = do
  c ← lock c
  (size, items) ← vaccum_loop valid_ts c.size c.items
  unlock (record c { size = size; items = items })

-- One round of the `for` of `insert` at node `i`: `none` says that the version is there already.
-- `fresh` is the list with the new node linked in behind `last`, `rest` the later rounds.
abbrev place :
    ℕ
    → ℕ
    → HashItem
    → List HashItem
    → Outcome (Option (List HashItem))
    → Outcome (Option (List HashItem))
place ts value i fresh rest =
    if ts == i.commit_ts
    then (if value == i.value then done none else fault)
    else (if ltb ts i.commit_ts then done (some fresh) else rest)

abbrev keep_head : HashItem → Option (List HashItem) → Option (List HashItem)
keep_head i none = none
keep_head i (some l) = some (i ∷ l)

-- The rounds behind the first node; at the end of the list stands `assert(false)`.
pub place_after : ℕ → ℕ → List HashItem → Outcome (Option (List HashItem))
place_after ts value [] = fault
place_after ts value (i ∷ r) =
    let rest = map_done (keep_head i) (place_after ts value r) in
    place ts value i (record { value = value; commit_ts = ts } ∷ (i ∷ r)) rest

-- In the first round `last` is the head itself.
pub place_scan : ℕ → ℕ → HashItem → List HashItem → Outcome (Option (List HashItem))
unfolding place_after
place_scan ts value h r =
    place ts value h (h ∷ (record { value = value; commit_ts = ts } ∷ r))
      (map_done (keep_head h) (place_after ts value r))

-- `none`: the version was there, and `size` is taken back.
abbrev settle : HashChain → Option (List HashItem) → HashChain
settle c none = record c { size = dec_u32 c.size }
settle c (some items) = record c { items = items }

pub insert_nonempty : ℕ → ℕ → HashItem → List HashItem → HashChain → Outcome HashChain
unfolding unlock place_scan
insert_nonempty ts value h r c = elim c.tail [
  | none ↦ fault
  | some t ↦
      let fresh : HashItem = record { value = value; commit_ts = ts } in
      if ltb t.commit_ts ts
      then unlock (record c { items = c.items ++ (fresh ∷ []); tail = some fresh })
      else (if ltb ts h.commit_ts
          then unlock (record c { items = fresh ∷ c.items })
          else (place_scan ts value h r >>= λ p. unlock (settle c p)))
]

pub insert_locked : ℕ → ℕ → List HashItem → HashChain → Outcome HashChain
unfolding insert_nonempty unlock
insert_locked ts value [] c =
    let fresh : HashItem = record { value = value; commit_ts = ts } in
    unlock (record c { items = fresh ∷ []; tail = some fresh })
insert_locked ts value (h ∷ r) c = insert_nonempty ts value h r c

pub insert : ℕ → ℕ → HashChain → Outcome HashChain
unfolding lock insert_locked
insert ts value c = do
  c ← lock c
  insert_locked ts value c.items (record c { size = inc_u32 c.size })

abbrev tail_of : HashChain → Outcome HashItem
tail_of c = elim c.tail [ none ↦ fault | some t ↦ done t ]

pub get_max_ts : HashChain → Outcome (HashChain × ℕ)
unfolding lock unlock
get_max_ts c = do
  c ← lock c
  res ← (if c.size == 0 then done 0 else map_done (λ t. t.commit_ts) (tail_of c))
  c ← unlock c
  done (c, res)

-- The result of `get` with its two reference parameters, `length` and `rts`.
pub record Answer : Type 0 where
  pub res : ℕ
  pub length : ℕ
  pub rts : ℕ

-- The `for` of `get`; `last` is the node before the one looked at. Behind the loop stands the tail.
pub get_scan : ℕ → HashItem → HashItem → List HashItem → HashItem
get_scan ts t last [] = t
get_scan ts t last (i ∷ r) =
    let later = get_scan ts t i r in if ltb ts i.commit_ts then last else later

abbrev answer : HashChain → HashItem → Answer
answer c i = record { res = i.value; length = c.size; rts = i.commit_ts }

-- The part of `get` behind the test for an empty chain, with `FAST_VERI_CHAIN_ACCESS` as `fast`.
pub get_nonempty : Bool → ℕ → ℕ → HashChain → Outcome Answer
unfolding get_scan
get_nonempty fast ts rts c = do
  t ← tail_of c
  if fast && leb t.commit_ts ts then done (answer c t) else elim c.items [
    | [] ↦ fault
    | h ∷ r ↦
        if ltb ts h.commit_ts
        then done (record { res = not_loaded; length = c.size; rts = rts })
        else done (answer c (get_scan ts t h (h ∷ r)))
  ]

pub get : Bool → ℕ → ℕ → ℕ → HashChain → Outcome (HashChain × Answer)
unfolding lock unlock get_nonempty
get fast ts length rts c = do
  c ← lock c
  res ←
      (if c.size == 0
        then done (record { res = not_loaded; length = length; rts = rts })
        else get_nonempty fast ts rts c)
  c ← unlock c
  done (c, res)
