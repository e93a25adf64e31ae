-- ===== src/Silo/Tests.antt =====
-- A transaction writes rows 2 and 1 and reads row 0.
use veri_txn.Prelude.{
  set, ℕ, ◌+◌, ◌≡◌, refl, true, false, ◌&&◌, [], ◌∷◌, List, Ensures, Outcome, done, blocked, fault,
  ltb, if◌then◌else◌, arith,
}
use veri_txn.BubbleSort.{bubble_sort}
use veri_txn.Silo.{
  Access, Db, Rc, rcok, abort, after, write_set, read_set, same_tids, validate_silo,
}
use veri_txn.Silo.Checks.{Validated}
use veri_txn.Silo.Validate.{validate_silo-Validated}

abbrev key : ℕ → ℕ
key i = i

abbrev accesses : List Access
accesses =
    record { is_wr = true; row = 2; tid = 12; data_copy = 70 }
    ∷ (record { is_wr = false; row = 0; tid = 10; data_copy = 0 }
        ∷ (record { is_wr = true; row = 1; tid = 11; data_copy = 80 } ∷ []))

abbrev rows : Db
rows = record { word = λ i. if ltb i 3 then i + 10 else 0; tuple = λ i. i }

abbrev writes : List Access
writes = bubble_sort (after key) (write_set accesses)

validate_silo-Validated_example :
    Ensures
      (Validated
        (same_tids rows.word writes && same_tids rows.word (read_set accesses))
        writes
        (read_set accesses)
        5
        rows)
      (validate_silo key true false accesses 5 rows)
validate_silo-Validated_example =
    validate_silo-Validated key true false accesses 5 rows
      ((omega arith, (omega arith, tt)), ((omega arith, tt), (tt, tt))) (λ j. ground arith)
      (omega arith)

abbrev answer : Outcome (Db × ℕ × Rc) → ℕ × ℕ × Rc
answer (done r) = (r.0.word 2, r.0.tuple 1, r.2)
answer blocked = (0, 0, abort)
answer fault = (0, 0, abort)

commits : answer (validate_silo key true false accesses 5 rows) ≡ (13, 80, rcok)
unfolding validate_silo
commits = refl

abbrev changed_row : Db
changed_row = record rows { word = set rows.word 0 11 }

aborts : answer (validate_silo key false true accesses 5 changed_row) ≡ (12, 1, abort)
unfolding validate_silo
aborts = refl
