-- ===== src/Silo/Lock.antt =====
-- Locking the write set, and giving the locks back.
use veri_txn.Prelude.{
  set, ℕ, zero, suc, ◌<◌, ◌≡◌, ◌≢◌, refl, sym, subst, ◌∙◌, Bool, true, false, List, [], ◌∷◌, All,
  ◌==◌, if◌then◌else◌, arith, ==_refl, Ensures,
}
use veri_txn.Silo.{
  Access, Locking, full, changed, lock_bit, tid_of, with_lock, same_tids, lock_round, one_more,
  release, release_locks,
}
use veri_txn.Silo.Words.{
  IsDistinct, among, same_tids-aside, tid_of-free, All-aside, tid_of-with_lock, with_lock-Held,
  free-Open,
}

-- Row `j` is one of the first `n`.
abbrev pub first_n : ℕ → List Access → ℕ → Bool
first_n zero l j = false
first_n (suc n) [] j = false
first_n (suc n) (a ∷ l) j = let rest = first_n n l j in if a.row == j then true else rest

first_n-absent : (n : ℕ) (l : List Access) (i : ℕ) → All (λ b. b.row ≢ i) l → first_n n l i ≡ false
first_n-absent zero l i d = refl
first_n-absent (suc n) [] i d = refl
first_n-absent (suc n) (a ∷ l) i d = ground (arith, d.0, first_n-absent n l i d.1)

-- The words `g` are those of `f`, with the locks of the first `n` rows.
abbrev pub Held : ℕ → List Access → (ℕ → ℕ) → (ℕ → ℕ) → Type 0
Held n l f g = (j : ℕ) → g j ≡ (if first_n n l j then with_lock (f j) else f j)

abbrev pub Free : List Access → (ℕ → ℕ) → Type 0
Free l f = All (λ a. f a.row < lock_bit) l

pub release_locks-Restores :
    (n : ℕ) (l : List Access) (f g : ℕ → ℕ)
    → IsDistinct l
    → Free l f
    → Held n l f g
    → Ensures (λ h. (j : ℕ) → h j ≡ f j) (release_locks n l g)
unfolding release_locks release
release_locks-Restores zero l f g d free held = held
release_locks-Restores (suc n) [] f g d free held = held
release_locks-Restores (suc n) (a ∷ l) f g d free held =
    rw (locked, with_lock-Held (f a.row), tid_of-with_lock (f a.row), tid_of-free (f a.row) free.0)
      (release_locks-Restores n l f (set g a.row (f a.row)) d.1 free.1
        (λ j. ground (arith, held j, first_n-absent n l a.row d.0)))
  where
    locked : g a.row ≡ with_lock (f a.row)
    locked = ground (arith, held a.row)

pub record Locks (l : List Access) (f : ℕ → ℕ) (r : (ℕ → ℕ) × ℕ × Locking) : Type 0 where
  pub held : Held r.1 l f r.0
  pub kind : r.2 ≡ (if same_tids f l then full else changed)
  pub all_held : same_tids f l ≡ true → (j : ℕ) → first_n r.1 l j ≡ among l j

lock_round-step :
    (a : Access) (l : List Access) (f : ℕ → ℕ)
    → f a.row < lock_bit
    → lock_round (a ∷ l) f ≡ (
        if tid_of (f a.row) == a.tid
        then one_more (lock_round l (set f a.row (with_lock (f a.row))))
        else (set f a.row (with_lock (f a.row)), 1, changed))
unfolding lock_round
lock_round-step a l f free =
    rw (free-Open (f a.row) free, ==_refl a.row, tid_of-with_lock (f a.row)) refl

lock_one-Locks :
    (a : Access) (l : List Access) (f : ℕ → ℕ) (b : Bool) (r : (ℕ → ℕ) × ℕ × Locking)
    → tid_of (f a.row) == a.tid ≡ b
    → All (λ c. c.row ≢ a.row) l
    → Locks l (set f a.row (with_lock (f a.row))) r
    → Locks (a ∷ l) f (if b then one_more r else (set f a.row (with_lock (f a.row)), 1, changed))
unfolding same_tids
lock_one-Locks a l f true r e d k = record {
  held = λ j. ground (arith, k.held j, first_n-absent r.1 l a.row d);
  kind = rw (e, sym (same_tids-aside f a.row l d)) k.kind;
  all_held = λ h j. ground (arith, k.all_held (same_tids-aside f a.row l d ∙ rest h) j);
}
  where
    rest : same_tids f (a ∷ l) ≡ true → same_tids f l ≡ true
    rest h = ground (arith, e, h)
lock_one-Locks a l f false r e d k = record {
  held = λ j. ground arith;
  kind = rw e refl;
  all_held = λ h. absurd (ground (arith, e, h));
}

pub lock_round-Locks :
    (l : List Access) (f : ℕ → ℕ) → IsDistinct l → Free l f → Locks l f (lock_round l f)
unfolding lock_round same_tids
lock_round-Locks [] f d free = record { held = λ j. refl; kind = refl; all_held = λ e j. refl }
lock_round-Locks (a ∷ l) f d free = subst (Locks (a ∷ l) f) (sym (lock_round-step a l f free.0)) (
    lock_one-Locks a l f (tid_of (f a.row) == a.tid)
      (lock_round l (set f a.row (with_lock (f a.row)))) refl d.0
      (lock_round-Locks l (set f a.row (with_lock (f a.row))) d.1
        (All-aside (λ i v. v < lock_bit) f a.row (with_lock (f a.row)) l d.0 free.1)))
