-- ===== src/Silo/Words.antt =====
-- The words of the rows: the lock bit and the version.
use veri_txn.Prelude.{
  set, ℕ, ◌<◌, ◌≡◌, ◌≢◌, refl, subst, Bool, true, false, List, [], ◌∷◌, All, leb, ◌==◌,
  if◌then◌else◌, arith,
}
use veri_txn.Silo.{Access, lock_bit, tid_of, with_lock, same_tids}

-- The accesses are of different rows.
abbrev pub IsDistinct : List Access → Type 0
IsDistinct [] = Unit {0}
IsDistinct (a ∷ l) = All (λ b. b.row ≢ a.row) l × IsDistinct l

pub tid_of-free : (v : ℕ) → v < lock_bit → tid_of v ≡ v
tid_of-free v h = omega (arith, h)

pub tid_of-with_lock : (v : ℕ) → tid_of (with_lock v) ≡ tid_of v
tid_of-with_lock v = omega arith

pub with_lock-Held : (v : ℕ) → leb lock_bit (with_lock v) ≡ true
with_lock-Held v = ground arith

pub free-Open : (v : ℕ) → v < lock_bit → leb lock_bit v ≡ false
free-Open v h = ground (arith, h)

-- Row `j` is one of those accessed.
abbrev pub among : List Access → ℕ → Bool
among [] j = false
among (a ∷ l) j = let rest = among l j in if a.row == j then true else rest

pub among-absent : (l : List Access) (i : ℕ) → All (λ b. b.row ≢ i) l → among l i ≡ false
among-absent [] i d = refl
among-absent (a ∷ l) i d = ground (arith, d.0, among-absent l i d.1)

-- Words with the same versions pass the same checks.
pub same_tids-cong :
    (f g : ℕ → ℕ) (l : List Access)
    → All (λ a. tid_of (g a.row) ≡ tid_of (f a.row)) l
    → same_tids g l ≡ same_tids f l
unfolding same_tids
same_tids-cong f g [] h = refl
same_tids-cong f g (a ∷ l) h = rw (h.0, same_tids-cong f g l h.1) refl

pub All-aside :
    (P : ℕ → ℕ → Type 0) (f : ℕ → ℕ) (i x : ℕ) (l : List Access)
    → All (λ b. b.row ≢ i) l
    → All (λ b. P b.row (f b.row)) l
    → All (λ b. P b.row (set f i x b.row)) l
All-aside P f i x [] d h = tt
All-aside P f i x (b ∷ l) d h = (subst (P b.row) (keeps b.row d.0) h.0, All-aside P f i x l d.1 h.1)
  where
    keeps : (j : ℕ) → j ≢ i → f j ≡ set f i x j
    keeps j n = ground (arith, n)

pub same_tids-aside :
    (f : ℕ → ℕ) (i : ℕ) (l : List Access)
    → All (λ b. b.row ≢ i) l
    → same_tids (set f i (with_lock (f i))) l ≡ same_tids f l
same_tids-aside f i l d = same_tids-cong f (set f i (with_lock (f i))) l (go l d)
  where
    go :
        (m : List Access)
        → All (λ b. b.row ≢ i) m
        → All (λ b. tid_of (set f i (with_lock (f i)) b.row) ≡ tid_of (f b.row)) m
    go [] h = tt
    go (b ∷ m) h = (ground (arith, h.0, tid_of-with_lock (f i)), go m h.1)

pub ==_comm : (a b : ℕ) → (a == b) ≡ (b == a)
==_comm a b = ground arith
