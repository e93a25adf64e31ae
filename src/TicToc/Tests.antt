-- ===== src/TicToc/Tests.antt =====
-- A transaction that reads row 1 and writes row 2.
use veri_txn.Prelude.{
  ℕ, ◌+◌, ◌*◌, ◌<◌, ◌≡◌, ◌^◌, refl, true, false, List, [], ◌∷◌, arith, ◌==◌, if◌then◌else◌, Ensures,
}
use veri_txn.BubbleSort.{bubble_sort}
use veri_txn.Accesses.{rd, wr}
use veri_txn.TicToc.{
  Access, Db, rts_of, lock_bit, cas_renew, renewed, validate_tictoc, write_set, read_set, after,
}
use veri_txn.TicToc.Validate.{Validated, validate_tictoc-Validated}

abbrev two_accesses : List Access
two_accesses =
    record { type = rd; row = 1; wts = 10; rts = 12; data_copy = 0 }
    ∷ (record { type = wr; row = 2; wts = 20; rts = 25; data_copy = 7 } ∷ [])

-- Both rows have the versions seen, row 2 with a lease up to 25.
abbrev word_of : ℕ → ℕ
word_of j = if j == 2 then 5 * 2 ^ 48 + 20 else 10

abbrev rows : Db
rows = record { word = word_of; tuple = λ j. 0 }

word_of-small : (j : ℕ) → rts_of (word_of j) + 1 < 2 ^ 48
word_of-small j = ground arith

word_of-free : (j : ℕ) → word_of j < lock_bit
word_of-free j = ground arith

validate_tictoc-Validated_example :
    Ensures
      (Validated
        (bubble_sort (after (λ j. j)) (write_set two_accesses))
        (read_set two_accesses)
        3
        rows)
      (validate_tictoc (λ j. j) true true false two_accesses 3 rows)
validate_tictoc-Validated_example =
    validate_tictoc-Validated (λ j. j) true true two_accesses 3 rows
      (((λ e. ground (arith, e)), tt), (tt, tt))
      ((omega arith, omega arith, omega arith), ((omega arith, omega arith, omega arith), tt))
      word_of-free word_of-small

-- Another thread has extended the lease to 25 meanwhile: the swap that follows brings it back to 20.
lease_ends_earlier :
    cas_renew false 10 20 (renewed 10 10) 10 ((15 * 2 ^ 48 + 10) ∷ []) ≡ (renewed 10 10, true)
unfolding cas_renew
lease_ends_earlier = refl
