-- ===== src/Hekaton/Tests.antt =====
-- Runs of the definitions of Hekaton, and its theorems at concrete states.
use veri_txn.Prelude.{
  true_ne_false, ℕ, ◌+◌, ◌≡◌, ◌≤◌, refl, ap, true, false, List, [], ◌∷◌, Outcome, done, ◌>>=◌, ◌*◌,
  ◌==◌, if◌then◌else◌, map_done, arith, Ensures,
}
use veri_txn.Accesses.{rd, wr}
use veri_txn.Hekaton.{
  RowHekaton, WriteHisEntry, rcok, abort, r_req, p_req, init, access, prepare_read, post_process,
  validate_hekaton, Access, inf, read_req, commit, read_scan, take_entry, fill_entry, collect,
  choose, allocate, mark, copy_latest, prepare_scan, double_history,
}
use veri_txn.Hekaton.Ring.{entry, IsRing, IsPending}
use veri_txn.Hekaton.Chains.{init-IsRing, init_lem}
use veri_txn.Hekaton.Reads.{ReadsAt, access-ReadsAt}
use veri_txn.Hekaton.Settle.{Settles, post_process-Settles}
use veri_txn.Hekaton.Prewrite.{PrewriteResult, access-PrewriteResult}
use veri_txn.Hekaton.Prepare.{Prepared, prepare_read-Prepared}
use veri_txn.Hekaton.Validate.{IsValidated, IsReady, validate_hekaton-IsValidated}

-- Entries that nobody has written.
abbrev blank : ℕ → WriteHisEntry
blank i = record { begin_txn = false; end_txn = false; begin = 0; end = 0; row = 0 }

-- A row at the address 1 and, behind it, the copy at the address 2 that the transaction 9 is writing.
abbrev first_entry : WriteHisEntry
first_entry = record { begin_txn = false; end_txn = true; begin = 0; end = 9; row = 1 }

abbrev new_entry : WriteHisEntry
new_entry = record { begin_txn = true; end_txn = false; begin = 9; end = 0; row = 2 }

abbrev pending : RowHekaton
pending = record {
  blatch = false;
  his_latest = 0;
  his_oldest = 0;
  write_history = λ i. if i == 0 then first_entry else (if i == 1 then new_entry else blank i);
  exists_prewrite = true;
  his_len = 4;
  tuple = λ i. i * 70;
  next_row = 3;
}

pending-IsRing : IsRing pending 0
pending-IsRing = record {
  large = omega arith;
  word = omega arith;
  room = omega arith;
  oldest_in = omega arith;
  latest_at = refl;
  chain = record {
    grows = λ k l. absurd (omega (arith, l));
    meets = λ k l. absurd (omega (arith, l));
    ended = λ k l. absurd (omega (arith, l));
    has_row = λ k l. ground arith;
    last_end = refl;
  };
  rows = record {
    not_null = omega arith;
    given = λ i l. ground arith;
    apart = λ i j a b z e. ground arith;
  };
}

pending-IsPending : IsPending pending 0 9
pending-IsPending = record {
  one_writes = refl;
  ends = refl;
  free = omega arith;
  begins = refl;
  owner = refl;
  new_row = λ z. omega (arith, z);
}

-- A row at the address 1, before any write.
abbrev fresh : RowHekaton
fresh = init blank 1 (λ i. i * 70) 2

fresh-IsRing : IsRing fresh 0
fresh-IsRing = init-IsRing blank 1 2 (λ i. i * 70) (omega arith) (omega arith)

fresh_lem : (fresh.blatch ≡ false) × ((entry fresh 0).begin ≡ 0) × ((entry fresh 0).end ≡ inf)
fresh_lem = init_lem blank 1 2 (λ i. i * 70)

-- The entry of the transaction 9, from what follows get_min_ts on, and its commit at 8.
abbrev after_commit : Outcome RowHekaton
after_commit = do
  r ← take_entry 4 blank 0 (record fresh { exists_prewrite = true })
  r ← fill_entry 9 r
  post_process 9 8 rcok r.0

read_at : ℕ → Outcome ℕ
read_at ts = after_commit >>= λ h. map_done (λ r. r.1.cur_row) (access false 4 blank 3 ts r_req h)

read_old : read_at 7 ≡ done 1
unfolding read_at init access read_req read_scan post_process commit take_entry fill_entry collect
    choose allocate mark copy_latest
read_old = refl

read_new : read_at 9 ≡ done 2
unfolding read_at init access read_req read_scan post_process commit take_entry fill_entry collect
    choose allocate mark copy_latest
read_new = refl

refused : (after_commit >>= prepare_read 7 9 1) ≡ done abort
unfolding init take_entry fill_entry post_process commit collect choose allocate mark copy_latest
    prepare_read prepare_scan
refused = refl

-- The ring doubles when it is full.
doubled :
    (let h = record fresh {
      his_latest = 3;
      write_history = λ i. record first_entry { row = i + 1; begin = i };
    } in
      (double_history blank h).his_len ≡ 8)
unfolding init double_history
doubled = refl

access-ReadsAt_example :
    Ensures (λ r. (r.0 ≡ fresh) × ReadsAt fresh 0 5 r.1) (access false 4 blank 3 5 r_req fresh)
access-ReadsAt_example =
    access-ReadsAt 4 blank 3 5 fresh-IsRing fresh_lem.0
      (λ k l e. absurd (omega (arith, e, fresh_lem.1, ap (λ k. (entry fresh k).begin) (null k l))))
  where
    null : (k : ℕ) → k ≤ 0 → k ≡ 0
    null k l = omega arith

post_process-Settles_example : Ensures (Settles pending 0 12 rcok) (post_process 9 12 rcok pending)
post_process-Settles_example =
    post_process-Settles 12 rcok pending-IsRing pending-IsPending refl (λ e. omega arith)

access-PrewriteResult_example :
    PrewriteResult fresh 4 3 0 9 5 blank (access false 4 blank 9 5 p_req fresh)
access-PrewriteResult_example =
    access-PrewriteResult false 4 3 9 5 blank fresh-IsRing fresh_lem.0 (λ e. fresh_lem.2)
      (omega arith) (omega arith)

prepare_read-Prepared_example : Ensures (Prepared pending 0 5 8 1) (prepare_read 5 8 1 pending)
prepare_read-Prepared_example = prepare_read-Prepared 5 8 1 pending-IsRing refl

abbrev accesses : List Access
accesses =
    record { type = wr; orig_row = 0; version = 2 }
    ∷ (record { type = rd; orig_row = 1; version = 1 } ∷ [])

validate_hekaton-IsValidated_example :
    Ensures
      (IsValidated (λ r. pending) (λ r. 0) 5 12 rcok accesses)
      (validate_hekaton true 9 5 12 rcok accesses (λ r. pending))
validate_hekaton-IsValidated_example =
    validate_hekaton-IsValidated (λ r. 0) 9 5 12 rcok accesses (λ r. pending)
      (((λ a b. absurd (true_ne_false b)), tt), (tt, tt))
      (
        ready (record { type = wr; orig_row = 0; version = 2 }),
        (ready (record { type = rd; orig_row = 1; version = 1 }), tt),
      )
  where
    ready : (a : Access) → IsReady (λ r. pending) (λ r. 0) 9 12 a
    ready a = record {
      ring = pending-IsRing;
      free = refl;
      pending = λ w. pending-IsPending;
      later = λ w. omega arith;
    }
