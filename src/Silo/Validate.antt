-- ===== src/Silo/Validate.antt =====
-- Validation of a Silo transaction as a whole.
use mathlib.Core.List.{Permᴰ}
use mathlib.Core.List.Permᴰ
use veri_txn.Prelude.{
  ℕ, ◌+◌, ◌<◌, ◌≡◌, refl, ap, ◌∙◌, Bool, true, false, not, none, some, List, [], ◌∷◌, All, leb,
  if◌then◌else◌, arith, Ensures, Ensures->>=, Bool-cases, inl, inr, done, ◌&&◌,
}
use veri_txn.BubbleSort.{bubble_sort}
use veri_txn.BubbleSort.Order.{bubble_sort-perm}
use veri_txn.Silo.{
  Access, Db, rcok, abort, Locking, full, busy, changed, lock_bit, tid_of, with_lock, same_tids,
  lock_round, check, check_writes, install, next_tid, conclude, after_locks, validate_sets,
  validate_silo, write_set, read_set, after,
}
use veri_txn.Silo.Words.{
  IsDistinct, among, among-absent, same_tids-cong, tid_of-with_lock, with_lock-Held,
}
use veri_txn.Silo.Lock.{Held, Free, Locks, lock_round-Locks}
use veri_txn.Silo.Install.{
  max_seen, max_seen-Above, max_seen-bound, check-writes, check-reads, Installed, install-Installed,
}
use veri_txn.Silo.Sets.{Apart, sets-Apart, Apart-perm, IsDistinct-perm, write_set-IsDistinct}
use veri_txn.Silo.Checks.{
  Validated, give_up-Validated, max_seen-below, below, locked_ws, plain_rs, among_self,
}

module _ (ws rs : List Access) (cur : ℕ) (db : Db) (d : IsDistinct ws) (apart : Apart ws rs)
    (small : (j : ℕ) → db.word j + 1 < lock_bit) (room : cur + 1 < lock_bit) where
  free : (l : List Access) → Free l db.word
  free [] = tt
  free (a ∷ l) = (omega (arith, small a.row), free l)

  top : ℕ
  top = max_seen ws (max_seen rs 0)

  module _ (g : ℕ → ℕ)
      (held : (j : ℕ) → g j ≡ (if among ws j then with_lock (db.word j) else db.word j)) where
    same_ws :
        (l : List Access)
        → All (λ a. g a.row ≡ with_lock (db.word a.row)) l
        → same_tids g l ≡ same_tids db.word l
    same_ws l h = same_tids-cong db.word g l (go l h)
      where
        go :
            (l : List Access)
            → All (λ a. g a.row ≡ with_lock (db.word a.row)) l
            → All (λ a. tid_of (g a.row) ≡ tid_of (db.word a.row)) l
        go [] h = tt
        go (a ∷ l) h = (ap tid_of h.0 ∙ tid_of-with_lock (db.word a.row), go l h.1)

    same_rs :
        (l : List Access)
        → All (λ a. g a.row ≡ db.word a.row) l
        → Free l g × (same_tids g l ≡ same_tids db.word l)
    same_rs l h = (go l h, same_tids-cong db.word g l (tids l h))
      where
        go : (l : List Access) → All (λ a. g a.row ≡ db.word a.row) l → Free l g
        go [] h = tt
        go (a ∷ l) h = (omega (arith, h.0, small a.row), go l h.1)

        tids :
            (l : List Access)
            → All (λ a. g a.row ≡ db.word a.row) l
            → All (λ a. tid_of (g a.row) ≡ tid_of (db.word a.row)) l
        tids [] h = tt
        tids (a ∷ l) h = (ap tid_of h.0, tids l h.1)

    checks :
        same_tids db.word ws ≡ true
        → check_writes ws g (check false rs g 0) ≡ (if same_tids db.word rs then some top else none)
    unfolding top
    checks e =
        let r = same_rs rs (plain_rs ws rs db.word g apart held) in
        ap (check_writes ws g)
          (check-reads rs g 0 r.0 ∙ ap (λ b. if b then some (max_seen rs 0) else none) r.1)
        ∙ go (same_tids db.word rs)
      where
        go :
            (b : Bool)
            → check_writes ws g (if b then some (max_seen rs 0) else none)
              ≡ (if b then some top else none)
        go true =
            check-writes ws g (max_seen rs 0)
            ∙ ap (λ b. if b then some top else none)
                (same_ws ws (locked_ws ws ws db.word g (among_self ws) held) ∙ e)
        go false = refl

    ready :
        (tid : ℕ) (l : List Access)
        → All (λ a. among ws a.row ≡ true) l
        → same_tids db.word l ≡ true
        → All (λ a. a.tid < tid) l
        → All (λ a. (leb lock_bit (g a.row) ≡ true) × (tid_of (g a.row) < tid)) l
    unfolding same_tids
    ready tid [] m e h = tt
    ready tid (a ∷ l) m e h =
        let k : g a.row ≡ with_lock (db.word a.row) = ground (arith, held a.row, m.0) in
        (
          (
            ap (leb lock_bit) k ∙ with_lock-Held (db.word a.row),
            ground (arith, ap tid_of k ∙ tid_of-with_lock (db.word a.row), e, h.0),
          ),
          ready tid l m.1 (ground (arith, e)) h.1,
        )

    tid : ℕ
    tid = next_tid top cur

    after_cur : cur < tid
    unfolding tid
    after_cur = ground arith

    after_top : top < tid
    unfolding tid
    after_top = ground arith

    tid-small : same_tids db.word ws ≡ true → same_tids db.word rs ≡ true → tid < lock_bit
    unfolding tid top
    tid-small e s =
        let low = max_seen-below rs db.word 0 lock_bit s small (omega arith) (omega arith) in
        let high = max_seen-below ws db.word (max_seen rs 0) lock_bit e small (omega arith) low in
        ground (arith, high, room)

    writes-below : All (λ a. a.tid < tid) ws
    unfolding top
    writes-below = below ws top tid (max_seen-Above ws (max_seen rs 0)) after_top

    reads-below : All (λ a. a.tid < tid) rs
    unfolding top
    reads-below =
        below rs (max_seen rs 0) tid (max_seen-Above rs 0)
          (omega (arith, max_seen-bound ws (max_seen rs 0), after_top))

    full-Validated :
        (n : ℕ)
        → Held n ws db.word g
        → same_tids db.word ws ≡ true
        → Ensures
            (Validated (same_tids db.word rs) ws rs cur db)
            (conclude n ws g cur db (check_writes ws g (check false rs g 0)))
    unfolding top tid
    full-Validated n locks e = elim (Bool-cases (same_tids db.word rs)) [
      | inl s ↦
          rw (checks e, s)
            (Ensures->>= (Installed ws tid mid) (Validated true ws rs cur db) (install ws tid mid)
              (λ db'. done (db', tid, rcok))
              (install-Installed ws tid mid d (tid-small e s)
                (ready tid ws (among_self ws) e writes-below))
              (λ db' k. record {
                answer = refl;
                committed = λ h. (
                  after_cur,
                  writes-below,
                  reads-below,
                  record {
                    new = k.new;
                    others = λ j h. (
                      (k.others j h).0,
                      ground (arith, (k.others j h).1, held j, among-absent ws j h),
                    );
                  },
                );
                aborted = λ h. absurd (ground (arith, h));
              }))
      | inr s ↦ rw (checks e, s) (give_up-Validated n ws rs g cur db d (free ws) locks)
    ]
      where
        mid : Db
        mid = record db { word = g }

  ok : Bool
  ok = same_tids db.word ws && same_tids db.word rs

  after_locks-Validated :
      (pre_abort no_wait : Bool) (r : (ℕ → ℕ) × ℕ × Locking)
      → Locks ws db.word r
      → Ensures (Validated ok ws rs cur db) (after_locks pre_abort no_wait ws rs cur db r)
  unfolding ok
  after_locks-Validated pre_abort no_wait (g, n, full) k =
      rw same (full-Validated g (λ j. ground (arith, k.held j, k.all_held same j)) n k.held same)
    where
      same : same_tids db.word ws ≡ true
      same = ground (arith, k.kind)
  after_locks-Validated pre_abort no_wait (g, n, changed) k =
      rw other (give_up-Validated n ws rs g cur db d (free ws) k.held)
    where
      other : same_tids db.word ws ≡ false
      other = ground (arith, k.kind)
  after_locks-Validated pre_abort no_wait (g, n, busy) k = absurd (ground (arith, k.kind))

  validate_sets-Validated :
      (pre_abort no_wait : Bool)
      → Ensures (Validated ok ws rs cur db) (validate_sets pre_abort no_wait ws rs cur db)
  unfolding validate_sets ok
  validate_sets-Validated pre_abort no_wait = go (pre_abort && not ok) refl
    where
      go :
          (b : Bool)
          → pre_abort && not ok ≡ b
          → Ensures (Validated ok ws rs cur db) (
              if b
              then done (db, cur, abort)
              else after_locks pre_abort no_wait ws rs cur db (lock_round ws db.word))
      go false e =
          after_locks-Validated pre_abort no_wait (lock_round ws db.word)
            (lock_round-Locks ws db.word d (free ws))
      go true e = record {
        answer = ground (arith, e);
        committed = λ h. absurd (ground (arith, e, h));
        aborted = λ h. (refl, λ j. (refl, refl));
      }

-- For accesses of different rows, where no row is locked and neither the versions of the rows nor the
-- thread's last one have come to the end of the 63 bits, validate_silo returns with no failed
-- assertion, with and without the early check and whether it spins or retries. It answers RCOK
-- exactly if every row still has the version that the transaction saw. The thread's version is then
-- greater than before and than every version seen; the rows written hold the copies under it,
-- unlocked, and no other row has changed. On Abort no tuple and no word has changed.
pub validate_silo-Validated :
    (key : ℕ → ℕ) (pre_abort no_wait : Bool) (l : List Access) (cur : ℕ) (db : Db)
    → IsDistinct l
    → ((j : ℕ) → db.word j + 1 < lock_bit)
    → cur + 1 < lock_bit
    → let ws = bubble_sort (after key) (write_set l) in
      Ensures
        (Validated (same_tids db.word ws && same_tids db.word (read_set l)) ws (read_set l) cur db)
        (validate_silo key pre_abort no_wait l cur db)
unfolding validate_silo ok
validate_silo-Validated key pre_abort no_wait l cur db d small room =
    validate_sets-Validated (bubble_sort (after key) (write_set l)) (read_set l) cur db
      (IsDistinct-perm back (write_set-IsDistinct l d))
      (Apart-perm (write_set l) (read_set l) back (sets-Apart l d)) small room pre_abort no_wait
  where
    back : Permᴰ (write_set l) (bubble_sort (after key) (write_set l))
    back = Permᴰ.symm (bubble_sort-perm (after key) (write_set l))
