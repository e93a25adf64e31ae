-- ===== src/Deferred/Tests.antt =====
-- Runs of the deferred verification, and its theorem at a concrete batch.
use veri_txn.Prelude.{
  ◌+◌, ◌≡◌, refl, Bool, true, false, List, [], ◌∷◌, Outcome, done, fault, ◌>>=◌, map_done, Ensures,
  Accepts, arith,
}
use veri_txn.Deferred.{
  Pages, init, add_read, add_write, verification, update_record, find_record, init_record,
  record_read, record_write, check_records, check_record, verify,
}
use veri_txn.Deferred.Batch.{
  Call, read, write, run, expected, nothing, all_agree, IsCleared, run-Accepts,
}

-- Pages whose hash is their number and 10, none of them in the cache.
abbrev pages : Pages
pages = record { get_hash = λ p. p + 10; is_leaf = λ p. true; cached = λ p. false }

abbrev honest : List Call
honest = read 1 11 ∷ (write 2 12 ∷ (read 1 11 ∷ (write 1 30 ∷ (write 1 11 ∷ []))))

-- The second read of the page 1 gives another hash than the first.
abbrev lying : List Call
lying = read 1 11 ∷ (read 1 99 ∷ [])

abbrev verified : List Call → Outcome Bool
verified l = map_done (λ m. m.verifying) (run pages 5 l (init 4 0) >>= verification pages 3 7 8)

honest_run : verified honest ≡ done false
unfolding add_read add_write verification update_record find_record init_record record_read
    record_write check_records check_record verify
honest_run = refl

-- The verification does not notice a wrong read.
lying_run : verified lying ≡ done false
unfolding add_read add_write verification update_record find_record init_record record_read
    record_write check_records check_record verify
lying_run = refl

-- It notices a page that is not what was written.
stale_run : verified (write 1 30 ∷ []) ≡ fault
unfolding add_read add_write verification update_record find_record init_record record_read
    record_write check_records check_record verify
stale_run = refl

run-Accepts_example :
    Ensures
      (λ m.
        Accepts
          (all_agree pages (expected lying nothing) 4 0)
          (IsCleared 4 8)
          (verification pages 3 7 8 m))
      (run pages 5 lying (init 4 0))
run-Accepts_example =
    run-Accepts pages 5 4 0 3 7 8 lying
      ((omega arith, omega arith), ((omega arith, omega arith), tt)) (refl, (refl, tt)) refl
