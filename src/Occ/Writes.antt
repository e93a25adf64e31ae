-- ===== src/Occ/Writes.antt =====
-- What the writes of a validated transaction leave in the rows.
use veri_txn.Prelude.{
  ℕ, ◌<◌, ◌≡◌, ◌≢◌, refl, List, [], ◌∷◌, All, ◌&&◌, ◌==◌, if◌then◌else◌, arith, Bool-cases, inl,
  inr, Ensures, Ensures->>=, done, lt→ltb,
}
use veri_txn.Occ.{Access, Db, is_wr, write_back, write}
use veri_txn.Occ.Latches.{IsDistinct}

-- What stands in row `j` when each write of `l` has put there what `v` says.
abbrev pub written : (Access → ℕ) → List Access → (ℕ → ℕ) → ℕ → ℕ
written v [] f j = f j
written v (a ∷ l) f j =
    let rest = written v l f j in if is_wr a.type && a.row == j then v a else rest

pub written-absent :
    (v : Access → ℕ) (l : List Access) (f : ℕ → ℕ) (i : ℕ)
    → All (λ b. b.row ≢ i) l
    → written v l f i ≡ f i
written-absent v [] f i d = refl
written-absent v (a ∷ l) f i d = ground (arith, d.0, written-absent v l f i d.1)

-- The copies of the writes are in the rows, with the timestamp, and nothing else has changed.
pub record Wrote (end_ts : ℕ) (l : List Access) (db db' : Db) : Type 0 where
  pub tuples : (j : ℕ) → db'.tuple j ≡ written (λ a. a.local) l db.tuple j
  pub stamps : (j : ℕ) → db'.wts j ≡ written (λ a. end_ts) l db.wts j
  pub latches : db'.latched ≡ db.latched
  pub clock : db'.timestamp ≡ db.timestamp

write-Wrote :
    (end_ts : ℕ) (a : Access) (l : List Access) (db db' : Db)
    → db'.wts a.row < end_ts
    → Wrote end_ts l db db'
    → Ensures
        (Wrote end_ts (a ∷ l) db)
        (if is_wr a.type then write a.row a.local end_ts db' else done db')
unfolding write
write-Wrote end_ts a l db db' old w = elim (Bool-cases (is_wr a.type)) [
  | inl wrt ↦
      rw (wrt, lt→ltb (db'.wts a.row) end_ts old)
        (record {
          tuples = λ j. ground (arith, w.tuples j, wrt);
          stamps = λ j. ground (arith, w.stamps j, wrt);
          latches = w.latches;
          clock = w.clock;
        })
  | inr read ↦ rw read (record {
    tuples = λ j. ground (arith, w.tuples j, read);
    stamps = λ j. ground (arith, w.stamps j, read);
    latches = w.latches;
    clock = w.clock;
  })
]

pub write_back-Wrote :
    (end_ts : ℕ) (l : List Access) (db : Db)
    → IsDistinct l
    → All (λ a. db.wts a.row < end_ts) l
    → Ensures (Wrote end_ts l db) (write_back end_ts l db)
unfolding write_back
write_back-Wrote end_ts [] db d h = record {
  tuples = λ j. refl;
  stamps = λ j. refl;
  latches = refl;
  clock = refl;
}
write_back-Wrote end_ts (a ∷ l) db d h =
    Ensures->>= (Wrote end_ts l db) (Wrote end_ts (a ∷ l) db) (write_back end_ts l db)
      (λ db'. if is_wr a.type then write a.row a.local end_ts db' else done db')
      (write_back-Wrote end_ts l db d.1 h.1)
      (λ db' w.
        write-Wrote end_ts a l db db'
          (omega (arith, h.0, w.stamps a.row, written-absent (λ b. end_ts) l db.wts a.row d.0)) w)
