-- ===== src/Hekaton/Ring.antt =====
-- The ring of versions in Row_hekaton: the entries from the oldest to the latest, and when they are in order.
use native.Mathlib.Nat.{mod-eq_of_lt, mod_self}
use veri_txn.Prelude.{
  ℕ, suc, ◌+◌, ◌-◌, ◌%◌, ◌^◌, ◌≤◌, ◌<◌, ◌≡◌, sym, ap, subst, ◌∙◌, ◌≢◌, true, false, ◌||◌, ltb, ◌==◌,
  if◌then◌else◌, arith,
}
use veri_txn.Hekaton.{RowHekaton, WriteHisEntry, next, prev, inf, latest, oldest}

-- The index of the version `k` after the oldest one, in a ring of `len` entries.
abbrev pub slot : ℕ → ℕ → ℕ → ℕ
slot len o k = if ltb (o + k) len then o + k else o + k - len

abbrev pub entry : RowHekaton → ℕ → WriteHisEntry
entry h k = h.write_history (slot h.his_len h.his_oldest k)

pub slot_lt : (len o k : ℕ) → o < len → k ≤ len → slot len o k < len
slot_lt len o k h l = ground arith

pub slot_zero : (len o : ℕ) → o < len → slot len o 0 ≡ o
slot_zero len o h = ground arith

pub slot_full : (len o : ℕ) → o < len → slot len o len ≡ o
slot_full len o h = ground arith

pub slot_inj : (len o j k : ℕ) → o < len → j < len → k < len → slot len o j ≡ slot len o k → j ≡ k
slot_inj len o j k h a b e = ground arith

pub slot_ne : (len o j k : ℕ) → o < len → j < len → k < len → j ≢ k → slot len o j ≢ slot len o k
slot_ne len o j k h a b n e = n (slot_inj len o j k h a b e)

pub slot_further :
    (len o d k : ℕ)
    → o < len
    → d + k ≤ len
    → d < len
    → slot len (slot len o d) k ≡ slot len o (d + k)
slot_further len o d k h a b = ground arith

pub slot_from_zero : (len k : ℕ) → k < len → slot len 0 k ≡ k
slot_from_zero len k h = ground arith

pub next_lt : (len i : ℕ) → i + 1 < len → len < 2 ^ 32 → next len i ≡ i + 1
next_lt len i h w = ap (λ j. j % len) (omega (arith, h, w)) ∙ mod-eq_of_lt h

pub next_last : (len i : ℕ) → i + 1 ≡ len → len < 2 ^ 32 → next len i ≡ 0
next_last len i h w = ap (λ j. j % len) {y = len} (omega (arith, h, w)) ∙ mod_self len

pub next-slot :
    (len o k : ℕ) → o < len → k < len → len < 2 ^ 32 → next len (slot len o k) ≡ slot len o (suc k)
next-slot len o k h a w = ground (arith, next_lt len (slot len o k), next_last len (slot len o k))

pub prev-slot : (len o k : ℕ) → o < len → k < len → prev len (slot len o (suc k)) ≡ slot len o k
prev-slot len o k h a = ground arith

pub slot_later : (len o k : ℕ) → o < len → suc k < len → (slot len o (suc k) == o) ≡ false
slot_later len o k h a = ground arith

-- Each version ends where the next begins, and only the last one can have a transaction at its end.
pub record IsChain (e : ℕ → WriteHisEntry) (m : ℕ) : Type 0 where
  pub grows : (k : ℕ) → k < m → (e k).begin < (e (suc k)).begin
  pub meets : (k : ℕ) → k < m → (e k).end ≡ (e (suc k)).begin
  pub ended : (k : ℕ) → k < m → (e k).end_txn ≡ false
  pub has_row : (k : ℕ) → k ≤ m → (e k).row ≢ 0
  pub last_end : ((e m).end == inf || (e m).end_txn) ≡ true

-- The rows of the entries are of the allocator, and no two entries have one in common.
pub record HasRows (len next_row : ℕ) (row : ℕ → ℕ) : Type 0 where
  pub not_null : 0 < next_row
  pub given : (i : ℕ) → i < len → row i < next_row
  pub apart : (i j : ℕ) → i < len → j < len → row i ≢ 0 → row i ≡ row j → i ≡ j

abbrev pub rows_of : (ℕ → WriteHisEntry) → ℕ → ℕ
rows_of history i = (history i).row

-- The versions are those from the oldest entry to the latest, which is the version `m`.
pub record IsRing (h : RowHekaton) (m : ℕ) : Type 0 where
  pub large : 2 ≤ h.his_len
  pub word : h.his_len < 2 ^ 32
  pub room : m < h.his_len
  pub oldest_in : h.his_oldest < h.his_len
  pub latest_at : h.his_latest ≡ slot h.his_len h.his_oldest m
  pub chain : IsChain (entry h) m
  pub rows : HasRows h.his_len h.next_row (rows_of h.write_history)

pub first_version : {h : RowHekaton} {m : ℕ} → IsRing h m → oldest h ≡ entry h 0
first_version {h} v = ap h.write_history (sym (slot_zero h.his_len h.his_oldest v.oldest_in))

pub last_version : {h : RowHekaton} {m : ℕ} → IsRing h m → latest h ≡ entry h m
last_version {h} v = ap h.write_history v.latest_at

pub latest_ne :
    {h : RowHekaton} {m : ℕ}
    → IsRing h m
    → (k : ℕ) → k < h.his_len
    → k ≢ m
    → h.his_latest ≢ slot h.his_len h.his_oldest k
latest_ne {h} {m} v k l n =
    subst (λ i. i ≢ slot h.his_len h.his_oldest k) (sym v.latest_at)
      (slot_ne h.his_len h.his_oldest m k v.oldest_in v.room l (λ e. n (sym e)))

pub next_latest :
    {h : RowHekaton} {m : ℕ}
    → IsRing h m
    → next h.his_len h.his_latest ≡ slot h.his_len h.his_oldest (suc m)
next_latest {h} {m} v =
    ap (next h.his_len) v.latest_at ∙ next-slot h.his_len h.his_oldest m v.oldest_in v.room v.word

-- No transaction has a version of its own.
pub record IsOpen (h : RowHekaton) (m : ℕ) : Type 0 where
  pub none_writes : h.exists_prewrite ≡ false
  pub no_end : (entry h m).end ≡ inf

-- The transaction `txn_id` has the entry after the last version.
pub record IsPending (h : RowHekaton) (m txn_id : ℕ) : Type 0 where
  pub one_writes : h.exists_prewrite ≡ true
  pub ends : (entry h m).end_txn ≡ true
  pub free : suc m < h.his_len
  pub begins : (entry h (suc m)).begin_txn ≡ true
  pub owner : (entry h (suc m)).begin ≡ txn_id
  pub new_row : (entry h (suc m)).row ≢ 0
