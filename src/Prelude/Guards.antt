-- ===== src/Prelude/Guards.antt =====
-- A call behind a test: which branch is taken when the test is known.
use mathlib.Core.Path.{◌≡◌, refl, sym, subst}
use mathlib.Core.Bool.{Bool, true, false}
use veri_txn.Prelude.Tests.{if◌then◌else◌}
use veri_txn.Prelude.Outcomes.{Outcome, Ensures}

module _ {ℓ} {A : Type ℓ} where
  pub Ensures-else :
      (P : A → Type 0) {t : Bool} (other o : Outcome A)
      → t ≡ false
      → Ensures P o
      → Ensures P (if t then other else o)
  Ensures-else P other o e p = subst (λ b. Ensures P (if b then other else o)) (sym e) p

  pub Ensures-then :
      (P : A → Type 0) {t : Bool} (o other : Outcome A)
      → t ≡ true
      → Ensures P o
      → Ensures P (if t then o else other)
  Ensures-then P o other e p = subst (λ b. Ensures P (if b then o else other)) (sym e) p

  -- A call that comes after the test, whichever way it goes.
  pub Ensures-if :
      (P : A → Type 0) (t : Bool) (o other : Outcome A)
      → (t ≡ true → Ensures P o)
      → (t ≡ false → Ensures P other)
      → Ensures P (if t then o else other)
  Ensures-if P true o other a b = a refl
  Ensures-if P false o other a b = b refl
