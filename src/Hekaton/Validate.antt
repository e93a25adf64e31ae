-- ===== src/Hekaton/Validate.antt =====
-- The validation of a Hekaton transaction: `txn_man::validate_hekaton`.
use veri_txn.Prelude.{
  set, set_at, set_other, true_ne_false, ℕ, ◌≤◌, ◌<◌, ◌≡◌, refl, sym, subst, ◌∙◌, ◌≢◌, ◌⊎◌, inl,
  inr, true, false, List, [], ◌∷◌, All, Outcome, done, Ensures, Ensures->>=, Ensures-mono,
  Ensures-if,
}
use veri_txn.Accesses.{is_rd, is_wr, map_all}
use veri_txn.Hekaton.{
  RowHekaton, Rc, rcok, abort, Access, Db, prepare_read, post_process, validate_reads, post_all,
  validate_hekaton,
}
use veri_txn.Hekaton.Ring.{entry, IsRing, IsPending}
use veri_txn.Hekaton.Settle.{Settles, post_process-Settles}
use veri_txn.Hekaton.Prepare.{Prepared, IsValidAt, IsStale, rcok_not_abort, prepare_read-Prepared}

-- What a transaction finds: its own version behind the last one of each row that it does not only read (RD), and
-- free latches.
pub record IsReady (db : Db) (m : ℕ → ℕ) (txn_id commit_ts : ℕ) (a : Access) : Type 0 where
  pub ring : IsRing (db a.orig_row) (m a.orig_row)
  pub free : (db a.orig_row).blatch ≡ false
  pub pending : is_rd a.type ≡ false → IsPending (db a.orig_row) (m a.orig_row) txn_id
  pub later : is_rd a.type ≡ false → (entry (db a.orig_row) (m a.orig_row)).begin < commit_ts

-- No two accesses but reads (RD) are of one row.
abbrev pub WritesApart : List Access → Type 0
WritesApart [] = Unit {0}
WritesApart (a ∷ l) =
    All (λ b. is_rd a.type ≡ false → is_rd b.type ≡ false → b.orig_row ≢ a.orig_row) l
    × WritesApart l

-- The row of each access but the reads (RD) is settled, and the other rows are as they were.
pub record AreSettled (db : Db) (m : ℕ → ℕ) (commit_ts : ℕ) (rc : Rc) (l : List Access) (db' : Db)
    : Type 0 where
  pub written :
      All
        (λ a.
          is_rd a.type ≡ false
          → Settles (db a.orig_row) (m a.orig_row) commit_ts rc (db' a.orig_row))
        l
  pub others : (j : ℕ) → All (λ a. is_rd a.type ≡ false → a.orig_row ≢ j) l → db' j ≡ db j

zip_all :
    {P Q R : Access → Type 0} (l : List Access)
    → ((a : Access) → P a → Q a → R a)
    → All P l
    → All Q l
    → All R l
zip_all [] f h k = tt
zip_all (a ∷ l) f h k = (f a h.0 k.0, zip_all l f h.1 k.1)

-- What `post_all` needs of an access that it settles.
abbrev Pends : Db → (ℕ → ℕ) → ℕ → ℕ → Rc → Access → Type 0
Pends db m txn_id commit_ts rc a =
    is_rd a.type ≡ false
    → IsRing (db a.orig_row) (m a.orig_row)
      × IsPending (db a.orig_row) (m a.orig_row) txn_id
      × ((db a.orig_row).blatch ≡ false)
      × ((entry (db a.orig_row) (m a.orig_row)).begin < commit_ts)

settled_more :
    {db db' : Db} {m : ℕ → ℕ} {commit_ts : ℕ} {rc : Rc} (a : Access) (l : List Access)
    (h : RowHekaton)
    → is_rd a.type ≡ false
    → All (λ b. is_rd a.type ≡ false → is_rd b.type ≡ false → b.orig_row ≢ a.orig_row) l
    → Settles (db a.orig_row) (m a.orig_row) commit_ts rc h
    → AreSettled (set db a.orig_row h) m commit_ts rc l db'
    → AreSettled db m commit_ts rc (a ∷ l) db'
settled_more {db} {db'} {m} {commit_ts} {rc} a l h w d s r = record {
  written = (
    (λ _.
        subst (Settles (db a.orig_row) (m a.orig_row) commit_ts rc)
          (sym (r.others a.orig_row (map_all l (λ b n. n w) d) ∙ set_at db h (refl_of a.orig_row)))
          s),
    zip_all l
        (λ b n t c.
          subst (λ g. Settles g (m b.orig_row) commit_ts rc (db' b.orig_row))
            (set_other db h (λ e. n w c (sym e))) (t c))
        d r.written,
  );
  others = λ j n. r.others j n.1 ∙ set_other db h (n.0 w);
}
  where
    refl_of : (i : ℕ) → i ≡ i
    refl_of i = refl

post_all-AreSettled :
    (m : ℕ → ℕ) (txn_id commit_ts : ℕ) (rc : Rc) (l : List Access) (db : Db)
    → WritesApart l
    → All (Pends db m txn_id commit_ts rc) l
    → Ensures (AreSettled db m commit_ts rc l) (post_all txn_id commit_ts rc db l)
unfolding post_all
post_all-AreSettled m txn_id commit_ts rc [] db d p = record { written = tt; others = λ j n. refl }
post_all-AreSettled m txn_id commit_ts rc (a ∷ l) db d p =
    Ensures-if (AreSettled db m commit_ts rc (a ∷ l)) (is_rd a.type) _ _
      (λ w.
        Ensures-mono (AreSettled db m commit_ts rc l) (AreSettled db m commit_ts rc (a ∷ l))
          (post_all txn_id commit_ts rc db l)
          (λ db' r. record {
            written = ((λ t. absurd (true_ne_false (sym w ∙ t))), r.written);
            others = λ j n. r.others j n.1;
          })
          (post_all-AreSettled m txn_id commit_ts rc l db d.1 p.1))
      (λ w.
        let (ring, pending, free, later) = p.0 w in
        Ensures->>= (Settles (db a.orig_row) (m a.orig_row) commit_ts rc)
          (AreSettled db m commit_ts rc (a ∷ l)) (post_process txn_id commit_ts rc (db a.orig_row))
          _ (post_process-Settles commit_ts rc ring pending free (λ _. later))
          (λ h s.
            Ensures-mono (AreSettled (set db a.orig_row h) m commit_ts rc l)
              (AreSettled db m commit_ts rc (a ∷ l))
              (post_all txn_id commit_ts rc (set db a.orig_row h) l)
              (λ db' r. settled_more a l h w d.0 s r)
              (post_all-AreSettled m txn_id commit_ts rc l (set db a.orig_row h) d.1 (
                zip_all l
                  (λ b n q c. subst (Holds b) (sym (set_other db h (λ e. n w c (sym e)))) (q c)) d.0
                  p.1))))
  where
    Holds : Access → RowHekaton → Type 0
    Holds b g =
        IsRing g (m b.orig_row)
        × IsPending g (m b.orig_row) txn_id
        × (g.blatch ≡ false)
        × ((entry g (m b.orig_row)).begin < commit_ts)

-- The read is of a version that is valid from the transaction's time to its commit.
abbrev pub ReadsValid : Db → (ℕ → ℕ) → ℕ → ℕ → Access → Type 0
ReadsValid db m ts commit_ts a =
    is_wr a.type ≡ false
    → (k : ℕ) × (k ≤ m a.orig_row)
      × ((entry (db a.orig_row) k).row ≡ a.version)
      × IsValidAt (entry (db a.orig_row) k) ts commit_ts

-- The read is of no version, or of one that begins after the transaction or ends before its commit.
abbrev pub IsRefused : Db → (ℕ → ℕ) → ℕ → ℕ → Access → Type 0
IsRefused db m ts commit_ts a =
    (is_wr a.type ≡ false)
    × (((k : ℕ) → k ≤ m a.orig_row → (entry (db a.orig_row) k).row ≢ a.version)
        ⊎ ((k : ℕ) × (k ≤ m a.orig_row)
            × ((entry (db a.orig_row) k).row ≡ a.version)
            × IsStale (entry (db a.orig_row) k) ts commit_ts))

-- One of the accesses has the property.
abbrev pub Some : (Access → Type 0) → List Access → Type 0
Some P [] = ⊥
Some P (a ∷ l) = P a ⊎ Some P l

record ReadsVerdict (db : Db) (m : ℕ → ℕ) (ts commit_ts : ℕ) (l : List Access) (rc : Rc)
    : Type 0 where
  all_valid : rc ≡ rcok → All (ReadsValid db m ts commit_ts) l
  one_refused : rc ≡ abort → Some (IsRefused db m ts commit_ts) l

validate_reads-ReadsVerdict :
    (db : Db) (m : ℕ → ℕ) (ts commit_ts : ℕ) (l : List Access)
    → All (λ a. IsRing (db a.orig_row) (m a.orig_row) × ((db a.orig_row).blatch ≡ false)) l
    → Ensures (ReadsVerdict db m ts commit_ts l) (validate_reads ts commit_ts db l)
unfolding validate_reads
validate_reads-ReadsVerdict db m ts commit_ts [] r = record {
  all_valid = λ e. tt;
  one_refused = λ e. absurd (rcok_not_abort e);
}
validate_reads-ReadsVerdict db m ts commit_ts (a ∷ l) r =
    let ih : Ensures (ReadsVerdict db m ts commit_ts l) (validate_reads ts commit_ts db l) =
      validate_reads-ReadsVerdict db m ts commit_ts l r.1 in
    Ensures-if (ReadsVerdict db m ts commit_ts (a ∷ l)) (is_wr a.type) _ _
      (λ w. after ih (λ t. absurd (true_ne_false (sym w ∙ t))))
      (λ w.
        Ensures->>= (Prepared (db a.orig_row) (m a.orig_row) ts commit_ts a.version)
          (ReadsVerdict db m ts commit_ts (a ∷ l))
          (prepare_read ts commit_ts a.version (db a.orig_row)) _
          (prepare_read-Prepared ts commit_ts a.version r.0.0 r.0.1) (λ rc p. next ih rc w p))
  where
    after :
        Ensures (ReadsVerdict db m ts commit_ts l) (validate_reads ts commit_ts db l)
        → ReadsValid db m ts commit_ts a
        → Ensures (ReadsVerdict db m ts commit_ts (a ∷ l)) (validate_reads ts commit_ts db l)
    after ih valid =
        Ensures-mono (ReadsVerdict db m ts commit_ts l) (ReadsVerdict db m ts commit_ts (a ∷ l))
          (validate_reads ts commit_ts db l)
          (λ rc v. record {
            all_valid = λ e. (valid, v.all_valid e);
            one_refused = λ e. inr (v.one_refused e);
          })
          ih

    next :
        Ensures (ReadsVerdict db m ts commit_ts l) (validate_reads ts commit_ts db l)
        → (rc : Rc) → is_wr a.type ≡ false
        → Prepared (db a.orig_row) (m a.orig_row) ts commit_ts a.version rc
        → Ensures
            (ReadsVerdict db m ts commit_ts (a ∷ l))
            (elim rc [ rcok ↦ validate_reads ts commit_ts db l | abort ↦ done abort ])
    next ih rcok w p = after ih (λ _. p.accepted refl)
    next ih abort w p = record {
      all_valid = λ e. absurd (rcok_not_abort (sym e));
      one_refused = λ e. inl (w, p.refused refl);
    }

-- What the validation of a transaction that comes with `rc` leaves and returns.
pub record IsValidated (db : Db) (m : ℕ → ℕ) (ts commit_ts : ℕ) (rc : Rc) (l : List Access)
    (r : Db × Rc) : Type 0 where
  pub reads_valid : r.1 ≡ rcok → All (ReadsValid db m ts commit_ts) l
  pub aborted : r.1 ≡ abort → (rc ≡ abort) ⊎ Some (IsRefused db m ts commit_ts) l
  pub settled : AreSettled db m commit_ts r.1 l r.0

-- For accesses whose rows have versions in order and free latches, where every row with an access of another
-- type than RD has one such access and, behind its last version, which begins before the commit time, the
-- transaction's own version, validate_hekaton under SERIALIZABLE returns with no failed assertion. If it
-- returns RCOK, every version that was taken by an access of another type than WR is valid from the
-- transaction's time to its commit time, or another transaction is about to end it; if it returns Abort, the
-- transaction came aborted or such an access is refused. In both cases it settles every row with an access of
-- another type than RD, as post_process does for the code that it returns, and leaves the other rows as they
-- were.
pub validate_hekaton-IsValidated :
    (m : ℕ → ℕ) (txn_id ts commit_ts : ℕ) (rc : Rc) (l : List Access) (db : Db)
    → WritesApart l
    → All (IsReady db m txn_id commit_ts) l
    → Ensures
        (IsValidated db m ts commit_ts rc l)
        (validate_hekaton true txn_id ts commit_ts rc l db)
unfolding validate_hekaton
validate_hekaton-IsValidated m txn_id ts commit_ts rc l db d h =
    Ensures->>= Reads (IsValidated db m ts commit_ts rc l) (decided rc) _ (reads rc refl) (λ rc' v.
      Ensures->>= (AreSettled db m commit_ts rc' l) (IsValidated db m ts commit_ts rc l)
        (post_all txn_id commit_ts rc' db l) (λ db'. done (db', rc'))
        (post_all-AreSettled m txn_id commit_ts rc' l db d
          (map_all l (λ a r w. (r.ring, r.pending w, r.free, r.later w)) h))
        (λ db' s. record { reads_valid = v.0; aborted = v.1; settled = s }))
  where
    Reads : Rc → Type 0
    Reads rc' =
        (rc' ≡ rcok → All (ReadsValid db m ts commit_ts) l)
        × (rc' ≡ abort → (rc ≡ abort) ⊎ Some (IsRefused db m ts commit_ts) l)

    decided : Rc → Outcome Rc
    decided rc = elim rc [ abort ↦ done abort | rcok ↦ validate_reads ts commit_ts db l ]

    reads : (c : Rc) → rc ≡ c → Ensures Reads (decided c)
    reads abort e = ((λ z. absurd (rcok_not_abort (sym z))), (λ _. inl e))
    reads rcok e =
        Ensures-mono (ReadsVerdict db m ts commit_ts l) Reads (validate_reads ts commit_ts db l)
          (λ rc' v. (v.all_valid, (λ z. inr (v.one_refused z))))
          (validate_reads-ReadsVerdict db m ts commit_ts l (map_all l (λ a r. (r.ring, r.free)) h))
