-- ===== src/Occ/Tests.antt =====
-- A transaction writes row 1 and reads row 0; both are older than its start.
use veri_txn.Prelude.{
  ℕ, ◌≡◌, refl, false, [], ◌∷◌, List, Ensures, done, blocked, fault, arith, Outcome,
}
use veri_txn.Occ.{Access, rd, wr, Db, rcok, abort, per_row_validate, Rc}
use veri_txn.Occ.Latches.{unchanged}
use veri_txn.Occ.Validate.{Validated, per_row_validate-Validated}

abbrev one_table : ℕ → ℕ
one_table i = 0

abbrev key : ℕ → ℕ
key i = i

abbrev accesses : List Access
accesses =
    record { type = wr; row = 1; local = 77 } ∷ (record { type = rd; row = 0; local = 0 } ∷ [])

abbrev rows : Db
rows = record { wts = λ i. 3; tuple = λ i. i; latched = λ i. false; timestamp = 10 }

per_row_validate-Validated_example :
    Ensures
      (Validated (unchanged rows.wts 5 accesses) accesses rows)
      (per_row_validate one_table key 5 accesses rows)
per_row_validate-Validated_example =
    per_row_validate-Validated one_table key 5 accesses rows (omega arith, (tt, tt))
      (refl, (refl, tt)) (λ j. omega arith) (omega arith)

abbrev answer : Outcome (Db × Rc) → Rc
answer (done r) = r.1
answer blocked = abort
answer fault = abort

commits : answer (per_row_validate one_table key 5 accesses rows) ≡ rcok
unfolding per_row_validate
commits = refl

too_old : answer (per_row_validate one_table key 2 accesses rows) ≡ abort
unfolding per_row_validate
too_old = refl
