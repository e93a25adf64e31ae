-- ===== src/Occ/Validate.antt =====
-- Per-row validation as a whole.
use mathlib.Core.List.{Permᴰ}
use mathlib.Core.List.Permᴰ
use veri_txn.Prelude.{
  ℕ, ◌+◌, ◌^◌, ◌<◌, ◌≡◌, refl, sym, ap, ◌∙◌, Bool, true, false, List, [], ◌∷◌, All, if◌then◌else◌,
  arith, Ensures, Ensures->>=, Ensures-mono,
}
use veri_txn.BubbleSort.{bubble_sort}
use veri_txn.BubbleSort.Order.{bubble_sort-perm}
use veri_txn.Occ.{
  Access, Db, Rc, rcok, abort, write_back, after, latch_loop, release_loop, finish, get_ts,
  validate_sorted, per_row_validate,
}
use veri_txn.Occ.Latches.{IsDistinct, unchanged, Latched, latch_loop-Latched}
use veri_txn.Occ.Writes.{written, Wrote, write_back-Wrote}
use veri_txn.Occ.Reorder.{All-perm, IsDistinct-perm, unchanged-perm, written-perm}

-- The outcome of a validation by `ok`: a commit puts the copies of the writes in their rows under the
-- timestamp it has drawn, an abort changes no row, and every latch is as it was.
pub record Validated (ok : Bool) (l : List Access) (db : Db) (r : Db × Rc) : Type 0 where
  pub answer : r.1 ≡ (if ok then rcok else abort)
  pub tuples :
      (j : ℕ) → r.0.tuple j ≡ (if ok then written (λ a. a.local) l db.tuple j else db.tuple j)
  pub stamps :
      (j : ℕ) → r.0.wts j ≡ (if ok then written (λ a. db.timestamp) l db.wts j else db.wts j)
  pub latches : (j : ℕ) → r.0.latched j ≡ db.latched j
  pub clock : r.0.timestamp ≡ (if ok then db.timestamp + 1 else db.timestamp)

finish-Validated :
    (start_ts : ℕ) (l : List Access) (db : Db) (r : (ℕ → Bool) × Bool × ℕ)
    → IsDistinct l
    → ((j : ℕ) → db.wts j < db.timestamp)
    → db.timestamp + 1 < 2 ^ 64
    → Latched db.wts start_ts l db.latched r
    → Ensures (Validated (unchanged db.wts start_ts l) l db) (finish l db r)
unfolding get_ts
finish-Validated start_ts l db (latched, true, n) d old room k =
    Ensures->>= (Wrote db.timestamp l mid) _ (write_back db.timestamp l mid) _
      (write_back-Wrote db.timestamp l mid d (everywhere l))
      (λ db' w. rw (sym k.0) (record {
        answer = refl;
        tuples = w.tuples;
        stamps = w.stamps;
        latches = λ j. ap (λ f. release_loop n l f j) w.latches ∙ k.1 j;
        clock = w.clock ∙ omega (arith, room);
      }))
  where
    mid : Db
    mid = (get_ts (record db { latched = latched })).0

    everywhere : (l : List Access) → All (λ a. mid.wts a.row < db.timestamp) l
    everywhere [] = tt
    everywhere (a ∷ l) = (old a.row, everywhere l)
finish-Validated start_ts l db (latched, false, n) d old room k =
    rw (sym k.0) (record {
      answer = refl;
      tuples = λ j. refl;
      stamps = λ j. refl;
      latches = k.1;
      clock = refl;
    })

validate_sorted-Validated :
    (start_ts : ℕ) (l : List Access) (db : Db)
    → IsDistinct l
    → All (λ a. db.latched a.row ≡ false) l
    → ((j : ℕ) → db.wts j < db.timestamp)
    → db.timestamp + 1 < 2 ^ 64
    → Ensures (Validated (unchanged db.wts start_ts l) l db) (validate_sorted start_ts l db)
unfolding validate_sorted
validate_sorted-Validated start_ts l db d free old room =
    Ensures->>= (Latched db.wts start_ts l db.latched)
      (Validated (unchanged db.wts start_ts l) l db) (latch_loop db.wts start_ts l db.latched)
      (λ r. finish l db r) (latch_loop-Latched db.wts start_ts l db.latched d free)
      (λ r k. finish-Validated start_ts l db r d old room k)

-- For accesses of different rows that nobody has latched, with every write timestamp below the manager's
-- clock, which has not come to the end of its 64 bits, per_row_validate returns with no failed assertion. It
-- answers RCOK exactly if every row accessed is no newer than the transaction's start; it then leaves in the
-- rows what the writes of the transaction put there, under the timestamp drawn, and otherwise changes no
-- row. Either way every latch is as it was.
pub per_row_validate-Validated :
    (table key : ℕ → ℕ) (start_ts : ℕ) (l : List Access) (db : Db)
    → IsDistinct l
    → All (λ a. db.latched a.row ≡ false) l
    → ((j : ℕ) → db.wts j < db.timestamp)
    → db.timestamp + 1 < 2 ^ 64
    → Ensures
        (Validated (unchanged db.wts start_ts l) l db)
        (per_row_validate table key start_ts l db)
unfolding per_row_validate
per_row_validate-Validated table key start_ts l db d free old room =
    Ensures-mono (Validated (unchanged db.wts start_ts sorted) sorted db)
      (Validated (unchanged db.wts start_ts l) l db) (validate_sorted start_ts sorted db) as_sorted
      (validate_sorted-Validated start_ts sorted db distinct
        (All-perm (λ a. db.latched a.row ≡ false) back free) old room)
  where
    sorted : List Access
    sorted = bubble_sort (after table key) l

    back : Permᴰ l sorted
    back = Permᴰ.symm (bubble_sort-perm (after table key) l)

    distinct : IsDistinct sorted
    distinct = IsDistinct-perm back d

    as_sorted :
        (r : Db × Rc)
        → Validated (unchanged db.wts start_ts sorted) sorted db r
        → Validated (unchanged db.wts start_ts l) l db r
    as_sorted r v = rw (unchanged-perm db.wts start_ts back) (record {
      answer = v.answer;
      tuples = λ j. rw (written-perm (λ a. a.local) db.tuple j back d) (v.tuples j);
      stamps = λ j. rw (written-perm (λ a. db.timestamp) db.wts j back d) (v.stamps j);
      latches = v.latches;
      clock = v.clock;
    })
