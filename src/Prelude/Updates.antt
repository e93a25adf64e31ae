-- ===== src/Prelude/Updates.antt =====
-- A map that is a function, with one value replaced.
use Prim.Native.Nat.{ℕ}
use mathlib.Core.Path.{◌≡◌, refl}
use mathlib.Core.Logic.{◌≢◌, inl, inr}
use native.Mathlib.Omega.{arith}
use veri_txn.Prelude.Tests.{◌==◌, if◌then◌else◌, Bool-cases, ==→eq}

module _ {ℓ} {A : Type ℓ} where
  abbrev pub set : (ℕ → A) → ℕ → A → ℕ → A
  set f i a j = if i == j then a else f j

  pub set_at : (f : ℕ → A) {i j : ℕ} (a : A) → i ≡ j → set f i a j ≡ a
  set_at f a e = ground arith

  pub set_other : (f : ℕ → A) {i j : ℕ} (a : A) → i ≢ j → set f i a j ≡ f j
  set_other f {i = i} {j = j} a n = elim (Bool-cases (i == j)) [
    | inl e ↦ absurd (n (==→eq i j e))
    | inr e ↦ rw e refl
  ]
