-- ===== src/TicToc/Lock.antt =====
-- Locking the write set, giving the locks back, and writing.
use veri_txn.Prelude.{
  set, ℕ, zero, suc, ◌<◌, ◌≡◌, ◌≢◌, refl, sym, subst, ◌∙◌, Bool, true, false, List, [], ◌∷◌, All,
  ◌==◌, if◌then◌else◌, arith, ==_refl,
}
use veri_txn.Accesses.{IsDistinct, among, first_n, first_n-absent}
use veri_txn.TicToc.{
  Access, Db, Locking, full, changed, lock_bit, is_locked, wts_of, with_lock, no_lock, same_writes,
  lock_round, one_more, release, release_locks, write_data, install,
}

abbrev pub row : Access → ℕ
row a = a.row

abbrev pub Free : (ℕ → ℕ) → Type 0
Free f = (j : ℕ) → f j < lock_bit

-- The words `g` are those of `f`, with the locks of the first `n` rows.
abbrev pub Held : ℕ → List Access → (ℕ → ℕ) → (ℕ → ℕ) → Type 0
Held n l f g = (j : ℕ) → g j ≡ (if first_n row n l j then with_lock (f j) else f j)

wts_of-with_lock : (v : ℕ) → wts_of (with_lock v) ≡ wts_of v
wts_of-with_lock v = omega arith

free-Open : (v : ℕ) → v < lock_bit → is_locked v ≡ false
free-Open v h = ground (arith, h)

-- The locks of the first `n` rows are given back, the other words stay.
pub release_locks_lem :
    (n : ℕ) (l : List Access) (g : ℕ → ℕ) (j : ℕ)
    → release_locks n l g j ≡ (if first_n row n l j then no_lock (g j) else g j)
unfolding release_locks
release_locks_lem zero l g j = refl
release_locks_lem (suc n) [] g j = refl
release_locks_lem (suc n) (a ∷ l) g j = release_locks_lem n l (release a.row g) j ∙ ground arith

pub release_locks-Restores :
    (n : ℕ) (l : List Access) (f g : ℕ → ℕ)
    → Free f
    → Held n l f g
    → (j : ℕ) → release_locks n l g j ≡ f j
release_locks-Restores n l f g free held j =
    release_locks_lem n l g j ∙ ground (arith, held j, free j)

-- What a round of locks comes to: all the locks of a write set whose versions are those seen, or some of
-- them.
pub record Locks (l : List Access) (f : ℕ → ℕ) (r : (ℕ → ℕ) × ℕ × Locking) : Type 0 where
  pub held : Held r.1 l f r.0
  pub kind : r.2 ≡ (if same_writes f l then full else changed)
  pub all_held : same_writes f l ≡ true → (j : ℕ) → first_n row r.1 l j ≡ among row l j

lock_round-step :
    (a : Access) (l : List Access) (f : ℕ → ℕ)
    → f a.row < lock_bit
    → lock_round (a ∷ l) f ≡ (
        if wts_of (f a.row) == a.wts
        then one_more (lock_round l (set f a.row (with_lock (f a.row))))
        else (set f a.row (with_lock (f a.row)), 1, changed))
unfolding lock_round
lock_round-step a l f free =
    rw (free-Open (f a.row) free, ==_refl a.row, wts_of-with_lock (f a.row)) refl

same_writes-aside :
    (f : ℕ → ℕ) (i : ℕ) (l : List Access)
    → same_writes (set f i (with_lock (f i))) l ≡ same_writes f l
unfolding same_writes
same_writes-aside f i [] = refl
same_writes-aside f i (b ∷ l) = ground (arith, same_writes-aside f i l, wts_of-with_lock (f i))

abbrev pub FreeOn : List Access → (ℕ → ℕ) → Type 0
FreeOn l f = All (λ b. f b.row < lock_bit) l

pub Free-on : (l : List Access) (f : ℕ → ℕ) → Free f → FreeOn l f
Free-on [] f h = tt
Free-on (a ∷ l) f h = (h a.row, Free-on l f h)

pub FreeOn-aside :
    (f : ℕ → ℕ) (i x : ℕ) (l : List Access)
    → All (λ b. b.row ≢ i) l
    → FreeOn l f
    → FreeOn l (set f i x)
FreeOn-aside f i x [] d h = tt
FreeOn-aside f i x (b ∷ l) d h = (ground (arith, d.0, h.0), FreeOn-aside f i x l d.1 h.1)

lock_one-Locks :
    (a : Access) (l : List Access) (f : ℕ → ℕ) (b : Bool) (r : (ℕ → ℕ) × ℕ × Locking)
    → (wts_of (f a.row) == a.wts) ≡ b
    → All (λ c. c.row ≢ a.row) l
    → Locks l (set f a.row (with_lock (f a.row))) r
    → Locks (a ∷ l) f (if b then one_more r else (set f a.row (with_lock (f a.row)), 1, changed))
unfolding same_writes
lock_one-Locks a l f true (g, n, k) e d h = record {
  held = λ j. ground (arith, h.held j, first_n-absent row n l a.row d);
  kind = rw e (subst (λ b. k ≡ (if b then full else changed)) (same_writes-aside f a.row l) h.kind);
  all_held = λ s j. ground (arith, h.all_held (same_writes-aside f a.row l ∙ rest s) j);
}
  where
    rest : same_writes f (a ∷ l) ≡ true → same_writes f l ≡ true
    rest s = ground (arith, e, s)
lock_one-Locks a l f false r e d h = record {
  held = λ j. ground arith;
  kind = rw e refl;
  all_held = λ s. absurd (ground (arith, e, s));
}

pub lock_round-Locks :
    (l : List Access) (f : ℕ → ℕ) → IsDistinct row l → FreeOn l f → Locks l f (lock_round l f)
unfolding lock_round same_writes
lock_round-Locks [] f d free = record { held = λ j. refl; kind = refl; all_held = λ e j. refl }
lock_round-Locks (a ∷ l) f d free = subst (Locks (a ∷ l) f) (sym (lock_round-step a l f free.0)) (
    lock_one-Locks a l f (wts_of (f a.row) == a.wts)
      (lock_round l (set f a.row (with_lock (f a.row)))) refl d.0
      (lock_round-Locks l (set f a.row (with_lock (f a.row))) d.1
        (FreeOn-aside f a.row (with_lock (f a.row)) l d.0 free.1)))

-- The rows of the list hold the copies under `time`, with no lock and no lease beyond it; no other has changed.
pub record Installed (l : List Access) (time : ℕ) (db db' : Db) : Type 0 where
  pub new : All (λ a. (db'.tuple a.row ≡ a.data_copy) × (db'.word a.row ≡ time)) l
  pub others :
      (j : ℕ) → All (λ a. a.row ≢ j) l → (db'.tuple j ≡ db.tuple j) × (db'.word j ≡ db.word j)

still-Locked :
    (db : Db) (a : Access) (x : ℕ) (l : List Access)
    → All (λ b. b.row ≢ a.row) l
    → All (λ b. is_locked (db.word b.row) ≡ true) l
    → All (λ b. is_locked (release a.row (set db.word a.row x) b.row) ≡ true) l
still-Locked db a x [] h k = tt
still-Locked db a x (b ∷ m) h k = (ground (arith, h.0, k.0), still-Locked db a x m h.1 k.1)

pub install-Installed :
    (l : List Access) (time : ℕ) (db : Db)
    → IsDistinct row l
    → time < lock_bit
    → All (λ a. is_locked (db.word a.row) ≡ true) l
    → Installed l time db (install l time db)
unfolding install write_data
install-Installed [] time db d small held = record { new = tt; others = λ j h. (refl, refl) }
install-Installed (a ∷ l) time db d small held =
    let mid : Db = record {
      tuple = set db.tuple a.row a.data_copy;
      word = release a.row (set db.word a.row (with_lock time));
    } in
    let k =
      install-Installed l time mid d.1 small (still-Locked db a (with_lock time) l d.0 held.1) in
    rw held.0 (record {
      new = (
        (ground (arith, (k.others a.row d.0).0), ground (arith, (k.others a.row d.0).1, small)),
        k.new,
      );
      others =
          λ j h. (ground (arith, (k.others j h.1).0, h.0), ground (arith, (k.others j h.1).1, h.0));
    })
