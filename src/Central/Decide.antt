-- ===== src/Central/Decide.antt =====
-- What a transaction that passes the central validation has not met.
use veri_txn.Prelude.{
  ℕ, ◌+◌, ◌-◌, ◌^◌, ◌%◌, ◌<◌, ◌≤◌, ◌≡◌, ◌≢◌, refl, sym, subst, ap, ◌∙◌, Bool, true, false, List, [],
  ◌∷◌, All, ltb, ==_refl, le→ltb, if◌then◌else◌, arith, done, Ensures, Ensures->>=, Bool-cases, inl,
  inr,
}
use veri_txn.Occ.{Access, Rc, rcok, abort}
use veri_txn.Central.{
  SetEnt, OptCc, written_rows, read_rows, meets, test_valid, skip_new, check_history, check_active,
  readonly, enter, is_valid, remove_active, head_fits, commit, leave, central_validate,
}

-- No row of one is a row of the other.
abbrev pub Disjoint : List ℕ → List ℕ → Type 0
Disjoint k l = All (λ r. All (λ x. r ≢ x) l) k

meets-Apart : (r : ℕ) (l : List ℕ) → meets r l ≡ false → All (λ x. r ≢ x) l
unfolding meets
meets-Apart r [] e = tt
meets-Apart r (x ∷ l) e = (ground (arith, e), meets-Apart r l (ground (arith, e)))

test_valid-Disjoint : (k l : List ℕ) → test_valid k l ≡ true → Disjoint k l
unfolding test_valid
test_valid-Disjoint [] l e = tt
test_valid-Disjoint (r ∷ k) l e =
    (meets-Apart r l (ground (arith, e)), test_valid-Disjoint k l (ground (arith, e)))

-- The transaction numbers of the history go down, from the counter.
abbrev pub IsOrdered : ℕ → List SetEnt → Type 0
IsOrdered n [] = Unit {0}
IsOrdered n (h ∷ his) = (h.tn ≤ n) × IsOrdered h.tn his

skip_new-none : (n : ℕ) (his : List SetEnt) → IsOrdered n his → skip_new n his ≡ his
unfolding skip_new
skip_new-none n [] o = refl
skip_new-none n (h ∷ his) o = rw (le→ltb n h.tn o.0) refl

old-Clear :
    (start n : ℕ) (rset : List ℕ) (his : List SetEnt)
    → n ≤ start
    → IsOrdered n his
    → All (λ h. start < h.tn → Disjoint h.rows rset) his
old-Clear start n rset [] e o = tt
old-Clear start n rset (h ∷ his) e o = (
  (λ k. absurd (omega (arith, k, e, o.0))),
  old-Clear start h.tn rset his (omega (arith, e, o.0)) o.1,
)

check_history-Clear :
    (start n : ℕ) (rset : List ℕ) (his : List SetEnt)
    → IsOrdered n his
    → check_history start rset his ≡ true
    → All (λ h. start < h.tn → Disjoint h.rows rset) his
unfolding check_history
check_history-Clear start n rset [] o e = tt
check_history-Clear start n rset (h ∷ his) o e = elim (Bool-cases (ltb start h.tn)) [
  | inl new ↦ (
    (λ _. test_valid-Disjoint h.rows rset (ground (arith, new, e))),
    check_history-Clear start h.tn rset his o.1 (ground (arith, new, e)),
  )
  | inr old ↦ (
    (λ k. absurd (ground (arith, old, k))),
    old-Clear start h.tn rset his (ground (arith, old)) o.1,
  )
]

check_active-Clear :
    (rset wset : List ℕ) (l : List SetEnt)
    → check_active rset wset l ≡ true
    → All (λ a. Disjoint a.rows rset × Disjoint a.rows wset) l
unfolding check_active
check_active-Clear rset wset [] e = tt
check_active-Clear rset wset (a ∷ l) e = (
  (
    test_valid-Disjoint a.rows rset (ground (arith, e)),
    test_valid-Disjoint a.rows wset (ground (arith, e)),
  ),
  check_active-Clear rset wset l (ground (arith, e)),
)

-- The numbers of the history go down from the counter, which is the first of them.
pub record IsValid (s : OptCc) : Type 0 where
  pub ordered : IsOrdered s.tnc s.history
  pub fits : head_fits s.tnc s.history ≡ true

-- What is_valid has found: nothing that was committed since the start has written a row read, and
-- nothing in validation has written a row read or written.
pub record Clear (start : ℕ) (rset wset : List ℕ) (s : OptCc) : Type 0 where
  pub committed : All (λ h. start < h.tn → Disjoint h.rows rset) s.history
  pub running : All (λ a. Disjoint a.rows rset × Disjoint a.rows wset) s.active

is_valid-Clear :
    (start : ℕ) (rset : List ℕ) (wset : SetEnt) (s : OptCc)
    → IsValid s
    → is_valid start rset wset s ≡ true
    → Clear start rset wset.rows s
unfolding is_valid
is_valid-Clear start rset wset s v e = record {
  committed = elim (Bool-cases (ltb start s.tnc)) [
    | inl new ↦ check_history-Clear start s.tnc rset s.history v.ordered (
        ap (check_history start rset) (sym (skip_new-none s.tnc s.history v.ordered))
        ∙ ground (arith, e, new))
    | inr old ↦ old-Clear start s.tnc rset s.history (ground (arith, old)) v.ordered
  ];
  running = check_active-Clear rset wset.rows s.active (ground (arith, e));
}

-- The state that validation leaves: the same transactions in validation, and one more in the history
-- if it has passed and has written.
pub record Left (valid : Bool) (wset : SetEnt) (s s' : OptCc) : Type 0 where
  pub valid_state : IsValid s'
  pub active : s'.active ≡ s.active
  pub active_len : s'.active_len ≡ s.active_len
  pub history : s'.history ≡ (
      if readonly wset
      then s.history
      else (if valid then record wset { tn = s.tnc + 1 } ∷ s.history else s.history))

IsOrdered-later : (n m : ℕ) (his : List SetEnt) → n ≤ m → IsOrdered n his → IsOrdered m his
IsOrdered-later n m [] e o = tt
IsOrdered-later n m (h ∷ his) e o = (omega (arith, e, o.0), o.1)

-- What a transaction with writes leaves, when it has been taken out of those in validation.
out-Left :
    (valid : Bool) (wset : SetEnt) (s t : OptCc)
    → readonly wset ≡ false
    → IsValid s
    → s.tnc + 1 < 2 ^ 64
    → t.active ≡ s.active
    → t.active_len ≡ s.active_len
    → t.history ≡ s.history
    → t.tnc ≡ s.tnc
    → Ensures (Left valid wset s) (if valid then commit wset t else done t)
unfolding commit
out-Left true wset s t wr v room act len his tnc =
    rw (his, tnc, v.fits, next)
      (record {
        valid_state = record {
          ordered =
              (omega arith, IsOrdered-later s.tnc (s.tnc + 1) s.history (omega arith) v.ordered);
          fits = ==_refl (s.tnc + 1);
        };
        active = act;
        active_len = len;
        history = rw wr refl;
      })
  where
    next : (s.tnc + 1) % 2 ^ 64 ≡ s.tnc + 1
    next = omega (arith, room)
out-Left false wset s t wr v room act len his tnc = record {
  valid_state = record {
    ordered =
        subst (λ n. IsOrdered n t.history) (sym tnc) (subst (IsOrdered s.tnc) (sym his) v.ordered);
    fits = rw (his, tnc) v.fits;
  };
  active = act;
  active_len = len;
  history = rw wr his;
}

leave-Left :
    (valid : Bool) (wset : SetEnt) (s : OptCc)
    → IsValid s
    → s.tnc + 1 < 2 ^ 64
    → s.active_len + 1 < 2 ^ 64
    → Ensures (Left valid wset s) (leave valid wset (enter wset s))
unfolding leave enter remove_active
leave-Left valid wset s v room many = elim (Bool-cases (readonly wset)) [
  | inl ro ↦
      rw ro (record { valid_state = v; active = refl; active_len = refl; history = rw ro refl })
  | inr wr ↦
      rw (wr, ==_refl wset.txn)
        (out-Left valid wset s
          (record s { active_len = (((s.active_len + 1) % 2 ^ 64) + (2 ^ 64 - 1)) % 2 ^ 64 }) wr v
          room refl (omega (arith, many)) refl refl)
]

abbrev pub write_set_of : ℕ → List Access → SetEnt
write_set_of txn accesses = record { tn = 0; txn = txn; rows = written_rows accesses }

pub record Decided (txn start : ℕ) (accesses : List Access) (s : OptCc) (r : OptCc × Rc)
    : Type 0 where
  pub passed : Bool
  pub answer : r.1 ≡ (if passed then rcok else abort)
  pub clear : passed ≡ true → Clear start (read_rows accesses) (written_rows accesses) s
  pub left : Left passed (write_set_of txn accesses) s r.0

-- From a state whose history goes down from the counter, and with counters that are not at their end,
-- central_validate by itself returns with no failed assertion and leaves such a state, with the same
-- transactions in validation. If it answers RCOK then nothing committed after the start has written
-- a row read, and no transaction in validation has written a row read or written; a transaction that
-- has written is then the newest of the history. Otherwise the history is as it was.
pub central_validate-Decided :
    (txn start : ℕ) (accesses : List Access) (s : OptCc)
    → IsValid s
    → s.tnc + 1 < 2 ^ 64
    → s.active_len + 1 < 2 ^ 64
    → Ensures (Decided txn start accesses s) (central_validate txn start accesses s)
unfolding central_validate
central_validate-Decided txn start accesses s v room many =
    Ensures->>= (Left valid wset s) (Decided txn start accesses s) (leave valid wset (enter wset s))
      (λ t. done (t, if valid then rcok else abort)) (leave-Left valid wset s v room many)
      (λ t k. record {
        passed = valid;
        answer = refl;
        clear = is_valid-Clear start (read_rows accesses) wset s v;
        left = k;
      })
  where
    wset : SetEnt
    wset = write_set_of txn accesses

    valid : Bool
    valid = is_valid start (read_rows accesses) wset s
