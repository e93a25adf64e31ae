-- ===== src/ManagerEnc/Tests.antt =====
-- Timestamps in batches of ten, and two rows of one bucket.
use veri_txn.Prelude.{◌≡◌, refl, true, false, none, length, arith, blocked, fault, ◌>>=◌, Ensures}
use veri_txn.ManagerEnc.{Config, ManagerEnc, ts_cas, hash, lock_row, add_ts}
use veri_txn.ManagerEnc.Draws.{draws, IsSpaced, draws-IsSpaced}

abbrev batches : Config
batches = record { alloc = ts_cas; batch = true; batch_num = 10 }

abbrev manager : ManagerEnc
manager = record {
  timestamp = 1;
  all_ts = λ i. 5;
  all_txns = λ i. none;
  thd_txn_ids = λ i. 0;
  mutexes = λ i. false;
}

draws-IsSpaced_example : Ensures (λ l. (length l ≡ 3) × IsSpaced 10 1 l) (draws batches 3 manager)
draws-IsSpaced_example = draws-IsSpaced batches 3 manager tt (omega arith)

one_bucket : hash 8 ≡ hash 256
unfolding hash
one_bucket = refl

-- Rows of one bucket share their lock.
shared_bucket : (lock_row 256 manager >>= lock_row 8) ≡ blocked
unfolding lock_row hash
shared_bucket = refl

too_early : add_ts 0 4 manager ≡ fault
unfolding add_ts
too_early = refl
