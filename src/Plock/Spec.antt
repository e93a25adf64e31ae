-- ===== src/Plock/Spec.antt =====
-- What is true of the lock of a partition between two calls.
use veri_txn.Prelude.{ℕ, suc, ◌≤◌, ◌<◌, ◌≡◌, Option, none, some}
use veri_txn.Plock.{Txn, PartMan}

-- The waiters stand in the order of their timestamps.
abbrev pub IsRising : ℕ → (ℕ → Txn) → Type 0
IsRising cnt w = (i j : ℕ) → i < j → j < cnt → (w i).ts < (w j).ts

-- Everybody who waits is younger than the owner, and nobody waits for a free partition.
abbrev pub IsYounger : ℕ → (ℕ → Txn) → Option Txn → Type 0
IsYounger cnt w none = cnt ≡ 0
IsYounger cnt w (some owner) = (i : ℕ) → i < cnt → owner.ts < (w i).ts

pub record IsValid (p : PartMan) : Type 0 where
  pub rising : IsRising p.waiter_cnt p.waiters
  pub younger : IsYounger p.waiter_cnt p.waiters p.owner

-- `w'` is `w` with the transaction put in at the place `k`.
pub record IsInserted (txn : Txn) (n k : ℕ) (w w' : ℕ → Txn) : Type 0 where
  pub within : k ≤ n
  pub before : (i : ℕ) → i < k → (w' i ≡ w i) × ((w i).ts < txn.ts)
  pub here : w' k ≡ txn
  pub after : (i : ℕ) → k ≤ i → i < n → (w' (suc i) ≡ w i) × (txn.ts ≤ (w i).ts)
