-- ===== src/Silo/Install.antt =====
-- What validation reads, and what it writes.
use veri_txn.Prelude.{
  set, ℕ, ◌<◌, ◌≤◌, ◌≡◌, ◌≢◌, refl, ◌∙◌, true, false, none, some, List, [], ◌∷◌, All, ltb, leb,
  ◌==◌, if◌then◌else◌, arith, Ensures, Ensures-mono, Bool-cases, inl, inr, ==_refl, lt→ltb,
}
use veri_txn.Silo.{
  Access, Db, lock_bit, tid_of, with_lock, same_tids, validate, check, write, release, install,
}
use veri_txn.Silo.Words.{
  IsDistinct, tid_of-free, tid_of-with_lock, with_lock-Held, free-Open, All-aside, ==_comm,
}

-- The greatest version of the accesses, from `m` on.
abbrev pub max_seen : List Access → ℕ → ℕ
max_seen [] m = m
max_seen (a ∷ l) m = max_seen l (if ltb m a.tid then a.tid else m)

pub max_seen-bound : (l : List Access) (m : ℕ) → m ≤ max_seen l m
max_seen-bound [] m = omega arith
max_seen-bound (a ∷ l) m = ground (arith, max_seen-bound l (if ltb m a.tid then a.tid else m))

pub max_seen-Above : (l : List Access) (m : ℕ) → All (λ a. a.tid ≤ max_seen l m) l
max_seen-Above [] m = tt
max_seen-Above (a ∷ l) m = (
  ground (arith, max_seen-bound l (if ltb m a.tid then a.tid else m)),
  max_seen-Above l (if ltb m a.tid then a.tid else m),
)

pub check-writes :
    (l : List Access) (f : ℕ → ℕ) (m : ℕ)
    → check true l f m ≡ (if same_tids f l then some (max_seen l m) else none)
unfolding check validate same_tids
check-writes [] f m = refl
check-writes (a ∷ l) f m = elim (Bool-cases (tid_of (f a.row) == a.tid)) [
  | inl same ↦
      rw (same, ==_comm a.tid (tid_of (f a.row)) ∙ same)
        (check-writes l f (if ltb m a.tid then a.tid else m))
  | inr other ↦ rw (other, ==_comm a.tid (tid_of (f a.row)) ∙ other) refl
]

pub check-reads :
    (l : List Access) (f : ℕ → ℕ) (m : ℕ)
    → All (λ a. f a.row < lock_bit) l
    → check false l f m ≡ (if same_tids f l then some (max_seen l m) else none)
unfolding check validate same_tids
check-reads [] f m free = refl
check-reads (a ∷ l) f m free = elim (Bool-cases (tid_of (f a.row) == a.tid)) [
  | inl same ↦
      rw (free-Open (f a.row) free.0, same, ==_comm a.tid (tid_of (f a.row)) ∙ same)
        (check-reads l f (if ltb m a.tid then a.tid else m) free.1)
  | inr other ↦
      rw (free-Open (f a.row) free.0, other, ==_comm a.tid (tid_of (f a.row)) ∙ other) refl
]

-- The rows of the list hold the copies under the version `tid`, unlocked, and no other has changed.
pub record Installed (l : List Access) (tid : ℕ) (db db' : Db) : Type 0 where
  pub new : All (λ a. (db'.tuple a.row ≡ a.data_copy) × (db'.word a.row ≡ tid)) l
  pub others :
      (j : ℕ) → All (λ a. a.row ≢ j) l → (db'.tuple j ≡ db.tuple j) × (db'.word j ≡ db.word j)

-- The row is locked, and its version is below `tid`.
abbrev pub Ready : ℕ → ℕ → Type 0
Ready tid v = (leb lock_bit v ≡ true) × (tid_of v < tid)

pub install-Installed :
    (l : List Access) (tid : ℕ) (db : Db)
    → IsDistinct l
    → tid < lock_bit
    → All (λ a. Ready tid (db.word a.row)) l
    → Ensures (Installed l tid db) (install l tid db)
unfolding install write release
install-Installed [] tid db d small ready = record { new = tt; others = λ j h. (refl, refl) }
install-Installed (a ∷ l) tid db d small ready =
    rw
      (
        lt→ltb (tid_of (db.word a.row)) tid ready.0.1,
        ready.0.0,
        ==_refl a.row,
        with_lock-Held tid,
        tid_of-with_lock tid,
      )
      (Ensures-mono (Installed l tid mid) (Installed (a ∷ l) tid db) (install l tid mid)
        (λ db' k. record {
          new = (
            (
              ground (arith, (k.others a.row d.0).0),
              ground (arith, (k.others a.row d.0).1, tid_of-free tid small),
            ),
            k.new,
          );
          others = λ j h.
              (ground (arith, (k.others j h.1).0, h.0), ground (arith, (k.others j h.1).1, h.0));
        })
        (install-Installed l tid mid d.1 small (
          All-aside (λ i. Ready tid) (set db.word a.row (with_lock tid)) a.row (tid_of tid) l d.0
            (All-aside (λ i. Ready tid) db.word a.row (with_lock tid) l d.0 ready.1))))
  where
    mid : Db
    mid = record {
      tuple = set db.tuple a.row a.data_copy;
      word = set (set db.word a.row (with_lock tid)) a.row (tid_of tid);
    }
