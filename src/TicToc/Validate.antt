-- ===== src/TicToc/Validate.antt =====
-- Validation of a TicToc transaction as a whole.
use mathlib.Core.List.{Permᴰ}
use mathlib.Core.List.Permᴰ
use veri_txn.Prelude.{
  ℕ, ◌+◌, ◌^◌, ◌<◌, ◌≤◌, ◌≡◌, ◌≢◌, refl, sym, ◌∙◌, Bool, true, false, not, List, [], ◌∷◌, All,
  if◌then◌else◌, arith, Ensures, Bool-cases, inl, inr,
}
use veri_txn.BubbleSort.{bubble_sort}
use veri_txn.BubbleSort.Order.{bubble_sort-perm}
use veri_txn.Accesses.{
  IsDistinct, among, among-absent, among_self, first_n-absent, Apart, Apart-flip, Apart-perm,
  IsDistinct-perm, is_rd, is_wr, map_all, All-chosen, chosen-IsDistinct, chosen-Apart, All-both,
}
use veri_txn.TicToc.{
  Access, Db, rcok, abort, Validation, Locking, full, busy, changed, lock_bit, is_locked, rts_of,
  with_lock, same_writes, same_reads, lock_round, release_locks, raise, renew_reads, install,
  conclude, give_up, early, after_locks, validate_sets, validate_tictoc, write_set, read_set, after,
  later_of, commit_times,
}
use veri_txn.TicToc.Lock.{
  row, Free, FreeOn, Free-on, Held, Locks, lock_round-Locks, release_locks_lem,
  release_locks-Restores, install-Installed,
}
use veri_txn.TicToc.Reads.{Reads, IsCovered, reads_hold, renew_reads-Reads, reads_hold-Agree}
use veri_txn.TicToc.Times.{
  Start, Raised, IsSmall, later_of-Start, raise-Raised, Start-Raised, Start-perm,
}

-- The transaction is committed at `time`: no row read (RD) was seen in a version behind it, every row accessed but
-- not written was not written behind what the transaction saw, and
-- cannot be written up to `time`; every row written has the version seen, and no lease that
-- reaches `time`, and then holds the copy, unlocked, from `time` on.
pub record Committed (ws rs : List Access) (time max_wts : ℕ) (db : Db) (r : Validation)
    : Type 0 where
  pub reads_before : All (λ a. is_rd a.type ≡ true → a.wts ≤ time) rs
  pub covered : All (λ a. IsCovered time a (db.word a.row) (r.db.word a.row)) rs
  pub written : All (λ a. (a.rts < time) × (rts_of (db.word a.row) < time)) ws
  pub versions : same_writes db.word ws ≡ true
  pub new : All (λ a. (r.db.tuple a.row ≡ a.data_copy) × (r.db.word a.row ≡ time)) ws
  pub tuples : (j : ℕ) → All (λ a. a.row ≢ j) ws → r.db.tuple j ≡ db.tuple j
  pub words : (j : ℕ) → All (λ a. a.row ≢ j) ws → All (λ a. a.row ≢ j) rs → r.db.word j ≡ db.word j
  pub newest : (time ≤ r.max_wts) × (max_wts ≤ r.max_wts)

-- The transaction is refused: no tuple has changed, and the words only of rows read, whose leases do not end
-- earlier.
pub record Refused (rs : List Access) (max_wts : ℕ) (db : Db) (r : Validation) : Type 0 where
  pub same_tuples : (j : ℕ) → r.db.tuple j ≡ db.tuple j
  pub same_words : (j : ℕ) → All (λ a. a.row ≢ j) rs → r.db.word j ≡ db.word j
  pub leases :
      All
        (λ a. (r.db.word a.row < lock_bit) × (rts_of (db.word a.row) ≤ rts_of (r.db.word a.row)))
        rs
  pub same_max : r.max_wts ≡ max_wts

pub record Validated (ws rs : List Access) (max_wts : ℕ) (db : Db) (r : Validation) : Type 0 where
  pub committed : r.rc ≡ rcok → (time : ℕ) × Committed ws rs time max_wts db r
  pub refused : r.rc ≡ abort → Refused rs max_wts db r
  pub fresh : same_writes db.word ws ≡ true → same_writes db.word rs ≡ true → r.rc ≡ rcok
  pub stale : same_writes db.word ws ≡ false → r.rc ≡ abort

fresh-reads_hold :
    (f : ℕ → ℕ) (time : ℕ) (l : List Access) → same_writes f l ≡ true → reads_hold f time l ≡ true
unfolding same_writes
fresh-reads_hold f time [] h = refl
fresh-reads_hold f time (a ∷ l) h = ground (arith, h, fresh-reads_hold f time l (ground (arith, h)))

fresh-same_reads :
    (f : ℕ → ℕ) (time : ℕ) (l : List Access) → same_writes f l ≡ true → same_reads f time l ≡ true
unfolding same_writes same_reads
fresh-same_reads f time [] h = refl
fresh-same_reads f time (a ∷ l) h = ground (arith, h, fresh-same_reads f time l (ground (arith, h)))

module _ (ws rs : List Access) (max_wts c : ℕ) (db : Db) (d : IsDistinct row ws)
    (e : IsDistinct row rs) (apart : Apart row ws rs) (free : Free db.word)
    (small : (j : ℕ) → rts_of (db.word j) + 1 < 2 ^ 48) (start : Start ws rs c)
    (ordered : All (λ a. a.wts ≤ a.rts) rs) where
  unchanged-Refused : Refused rs max_wts db (record { db = db; max_wts = max_wts; rc = abort })
  unchanged-Refused = record {
    same_tuples = λ j. refl;
    same_words = λ j h. refl;
    leases = go rs;
    same_max = refl;
  }
    where
      go :
          (l : List Access)
          → All
              (λ a. (db.word a.row < lock_bit) × (rts_of (db.word a.row) ≤ rts_of (db.word a.row)))
              l
      go [] = tt
      go (a ∷ l) = ((free a.row, omega arith), go l)

  -- Giving up before a lease was renewed.
  give_up-Refused :
      (n : ℕ) (g : ℕ → ℕ) → Held n ws db.word g → Refused rs max_wts db (give_up n ws g max_wts db)
  give_up-Refused n g held =
      let back = release_locks-Restores n ws db.word g free held in
      record {
        same_tuples = λ j. refl;
        same_words = λ j h. back j;
        leases = go rs back;
        same_max = refl;
      }
    where
      go :
          (l : List Access)
          → ((j : ℕ) → release_locks n ws g j ≡ db.word j)
          → All
              (λ a.
                (release_locks n ws g a.row < lock_bit)
                × (rts_of (db.word a.row) ≤ rts_of (release_locks n ws g a.row)))
              l
      go [] k = tt
      go (a ∷ l) k = (rw (k a.row) (free a.row, omega arith), go l k)

  -- All the locks are taken, and the words are `g`.
  module _ (n : ℕ) (g : ℕ → ℕ) (held : Held n ws db.word g)
      (all_held : (j : ℕ) → g j ≡ (if among row ws j then with_lock (db.word j) else db.word j))
      (same : same_writes db.word ws ≡ true) where
    locked_in :
        (l : List Access)
        → All (λ a. among row ws a.row ≡ true) l
        → All
            (λ a.
              (g a.row ≡ with_lock (db.word a.row)) × (rts_of (g a.row) ≡ rts_of (db.word a.row)))
            l
    locked_in [] m = tt
    locked_in (a ∷ l) m = (
      (ground (arith, all_held a.row, m.0), ground (arith, all_held a.row, m.0)),
      locked_in l m.1,
    )

    plain : (l : List Access) → Apart row ws l → All (λ a. g a.row ≡ db.word a.row) l
    plain [] h = tt
    plain (a ∷ l) h = (ground (arith, all_held a.row, among-absent row ws a.row h.0), plain l h.1)

    leases_small : (j : ℕ) → rts_of (g j) + 1 < 2 ^ 48
    leases_small j = ground (arith, all_held j, small j)

    module _ (time : ℕ) (raised : Raised ws g c time) (h : ℕ → ℕ) where
      locked_after :
          (l : List Access)
          → Apart row rs l
          → All
              (λ a.
                (g a.row ≡ with_lock (db.word a.row)) × (rts_of (g a.row) ≡ rts_of (db.word a.row)))
              l
          → ((j : ℕ) → All (λ a. a.row ≢ j) rs → h j ≡ g j)
          → All (λ a. is_locked (h a.row) ≡ true) l
      locked_after [] m k o = tt
      locked_after (a ∷ l) m k o = (ground (arith, o a.row m.0, k.0.0), locked_after l m.1 k.1 o)

      still_IsCovered :
          (after : Db) (l : List Access)
          → Apart row ws l
          → All (λ a. g a.row ≡ db.word a.row) l
          → ((j : ℕ) → All (λ a. a.row ≢ j) ws → after.word j ≡ h j)
          → All (λ a. IsCovered time a (g a.row) (h a.row)) l
          → All (λ a. IsCovered time a (db.word a.row) (after.word a.row)) l
      still_IsCovered after [] m p o k = tt
      still_IsCovered after (a ∷ l) m p o k =
          (rw (o a.row m.0, sym p.0) k.0, still_IsCovered after l m.1 p.1 o k.1)

      kept_in :
          (l : List Access)
          → Apart row ws l
          → All (λ a. g a.row ≡ db.word a.row) l
          → All (λ a. (h a.row < lock_bit) × (rts_of (g a.row) ≤ rts_of (h a.row))) l
          → All
              (λ a.
                (release_locks n ws h a.row < lock_bit)
                × (rts_of (db.word a.row) ≤ rts_of (release_locks n ws h a.row)))
              l
      kept_in [] m p k = tt
      kept_in (a ∷ l) m p k =
          let aside : release_locks n ws h a.row ≡ h a.row =
            release_locks_lem n ws h a.row ∙ ground (arith, first_n-absent row n ws a.row m.0) in
          (rw (aside, sym p.0) k.0, kept_in l m.1 p.1 k.1)

      rcok-Validated :
          Reads rs time g (h, true)
          → Ensures (Validated ws rs max_wts db) (conclude false n ws time max_wts db (h, true))
      rcok-Validated k =
          let flip = Apart-flip row ws rs apart in
          let mine = locked_in ws (among_self row ws) in
          let s = Start-Raised ws rs g c time start raised in
          let i =
            install-Installed ws time (record db { word = h }) d
              (omega (arith, raised.raised_small)) (locked_after ws flip mine k.others) in
          record {
            committed = λ t. (
              time,
              record {
                reads_before = s.after_reads;
                covered =
                    still_IsCovered (install ws time (record db { word = h })) rs apart
                      (plain rs apart) (λ j m. (i.others j m).1) (k.covered refl);
                written =
                    All-both (λ a. a.rts < time) (λ a. rts_of (db.word a.row) < time) _ ws
                      (λ a x y. (x, y)) s.after_writes
                      (All-both (λ a. rts_of (g a.row) < time)
                        (λ a.
                          (g a.row ≡ with_lock (db.word a.row))
                          × (rts_of (g a.row) ≡ rts_of (db.word a.row)))
                        _ ws (λ a x y. omega (arith, x, y.1)) raised.after_leases mine);
                versions = same;
                new = i.new;
                tuples = λ j m. (i.others j m).0;
                words = λ j m o.
                    (i.others j m).1
                    ∙ k.others j o
                    ∙ ground (arith, all_held j, among-absent row ws j m);
                newest = ground arith;
              },
            );
            refused = λ t. absurd (ground (arith, t));
            fresh = λ t u. refl;
            stale = λ t. absurd (ground (arith, t, same));
          }

      abort-Validated :
          Reads rs time g (h, false)
          → Ensures (Validated ws rs max_wts db) (conclude false n ws time max_wts db (h, false))
      abort-Validated k = record {
        committed = λ t. absurd (ground (arith, t));
        refused = λ t. record {
          same_tuples = λ j. refl;
          same_words =
              λ j m. release_locks_lem n ws h j ∙ ground (arith, k.others j m, held j, free j);
          leases = kept_in rs apart (plain rs apart) k.mine;
          same_max = refl;
        };
        fresh = λ t u. absurd (
            ground (
              arith,
              k.answer,
              fresh-reads_hold db.word time rs u,
              reads_hold-Agree db.word g time rs (plain rs apart),
            ));
        stale = λ t. refl;
      }

      full-Validated :
          (b : Bool)
          → Reads rs time g (h, b)
          → Ensures (Validated ws rs max_wts db) (conclude false n ws time max_wts db (h, b))
      full-Validated true k = rcok-Validated k
      full-Validated false k = abort-Validated k

    FreeOn-plain : (l : List Access) → All (λ a. g a.row ≡ db.word a.row) l → FreeOn l g
    FreeOn-plain [] h = tt
    FreeOn-plain (a ∷ l) h = (rw h.0 (free a.row), FreeOn-plain l h.1)

    pub all_locked-Validated :
        Ensures
          (Validated ws rs max_wts db)
          (conclude false n ws (raise ws g c) max_wts db (renew_reads rs (raise ws g c) g))
    all_locked-Validated =
        let raised = raise-Raised ws g c leases_small start.time_small in
        let r = renew_reads rs (raise ws g c) g in
        full-Validated (raise ws g c) raised r.0 r.1 (
          renew_reads-Reads rs (raise ws g c) g e ordered raised.raised_small
            (FreeOn-plain rs (plain rs apart)))

  after_locks-Validated :
      (pre_abort no_wait : Bool) (r : (ℕ → ℕ) × ℕ × Locking)
      → Locks ws db.word r
      → Ensures
          (Validated ws rs max_wts db)
          (after_locks pre_abort no_wait false ws rs c max_wts db r)
  after_locks-Validated pre_abort no_wait (g, n, full) k =
      let same : same_writes db.word ws ≡ true = ground (arith, k.kind) in
      all_locked-Validated n g k.held (λ j. ground (arith, k.held j, k.all_held same j)) same
  after_locks-Validated pre_abort no_wait (g, n, changed) k =
      let other : same_writes db.word ws ≡ false = ground (arith, k.kind) in
      record {
        committed = λ t. absurd (ground (arith, t));
        refused = λ t. give_up-Refused n g k.held;
        fresh = λ t u. absurd (ground (arith, t, other));
        stale = λ t. refl;
      }
  after_locks-Validated pre_abort no_wait (g, n, busy) k = absurd (ground (arith, k.kind))

  validate_sets-Validated :
      (pre_abort no_wait : Bool)
      → Ensures
          (Validated ws rs max_wts db)
          (validate_sets pre_abort no_wait false ws rs c max_wts db)
  unfolding validate_sets
  validate_sets-Validated pre_abort no_wait = elim (Bool-cases (early pre_abort ws rs c db.word)) [
    | inl old ↦ rw old (record {
      committed = λ t. absurd (ground (arith, t));
      refused = λ t. unchanged-Refused;
      fresh = λ t u. absurd (ground (arith, old, t, fresh-same_reads db.word c rs u));
      stale = λ t. refl;
    })
    | inr current ↦ rw current (
        after_locks-Validated pre_abort no_wait (lock_round ws db.word)
          (lock_round-Locks ws db.word d (Free-on ws db.word free)))
  ]

-- For accesses of different rows with times below 2 ^ 48, in which no lease seen ends before its version,
-- where no row is locked and no lease comes to 2 ^ 48, and with _write_copy_ptr off, validate_tictoc returns,
-- with and without the early check and whether it spins or retries. It answers RCOK if every row accessed has
-- the version seen, and Abort if a row written has another. On RCOK there is a time that is not before the
-- versions seen by the accesses of type RD; up to it every row that is accessed but not written is leased in
-- the version seen, or by the lease seen; it is behind the leases of the rows written, which had the versions
-- seen, and these hold the copies, unlocked, from that time on; no other tuple has changed, nor the word of a
-- row that was not accessed; and _max_wts has come up to it. On Abort no tuple has changed, and no word but
-- those of rows accessed and not written, which are unlocked, with leases that do not end earlier.
pub validate_tictoc-Validated :
    (key : ℕ → ℕ) (pre_abort no_wait : Bool) (l : List Access) (max_wts : ℕ) (db : Db)
    → IsDistinct row l
    → All IsSmall l
    → Free db.word
    → ((j : ℕ) → rts_of (db.word j) + 1 < 2 ^ 48)
    → Ensures
        (Validated (bubble_sort (after key) (write_set l)) (read_set l) max_wts db)
        (validate_tictoc key pre_abort no_wait false l max_wts db)
unfolding validate_tictoc
validate_tictoc-Validated key pre_abort no_wait l max_wts db d s free small =
    validate_sets-Validated (bubble_sort (after key) (write_set l)) (read_set l) max_wts
      (later_of (commit_times l 0 0)) db
      (IsDistinct-perm row back (chosen-IsDistinct row (λ a. is_wr a.type) l d))
      (chosen-IsDistinct row (λ a. not (is_wr a.type)) l d)
      (Apart-perm row (write_set l) (read_set l) back (chosen-Apart row (λ a. is_wr a.type) l d))
      free small (Start-perm (read_set l) (later_of (commit_times l 0 0)) back (later_of-Start l s))
      (All-chosen (λ a. a.wts ≤ a.rts) (λ a. not (is_wr a.type)) l (map_all l (λ a k. k.2) s))
      pre_abort no_wait
  where
    back : Permᴰ (write_set l) (bubble_sort (after key) (write_set l))
    back = Permᴰ.symm (bubble_sort-perm (after key) (write_set l))
