-- ===== src/Occ/Latches.antt =====
-- The latches of the per-row validation.
use veri_txn.Prelude.{
  set, ℕ, zero, suc, ◌≡◌, ◌≢◌, refl, Bool, true, false, List, [], ◌∷◌, All, ltb, ◌==◌,
  if◌then◌else◌, arith, Bool-cases, inl, inr, Ensures, Ensures->>=, done,
}
use veri_txn.Occ.{Access, latch_loop, release_loop, one_more}

-- The accesses are of different rows.
abbrev pub IsDistinct : List Access → Type 0
IsDistinct [] = Unit {0}
IsDistinct (a ∷ l) = All (λ b. b.row ≢ a.row) l × IsDistinct l

-- Every row is as old as the transaction's start.
abbrev pub unchanged : (ℕ → ℕ) → ℕ → List Access → Bool
unchanged wts start_ts [] = true
unchanged wts start_ts (a ∷ l) =
    let rest = unchanged wts start_ts l in if ltb start_ts (wts a.row) then false else rest

release_loop-set :
    (n : ℕ) (l : List Access) (f : ℕ → Bool) (i j : ℕ)
    → release_loop n l (set f i false) j ≡ (if i == j then false else release_loop n l f j)
unfolding release_loop
release_loop-set zero l f i j = refl
release_loop-set (suc n) [] f i j = refl
release_loop-set (suc n) (a ∷ l) f i j = ground (
  arith,
  release_loop-set n l (set f i false) a.row j,
  release_loop-set n l f i j,
  release_loop-set n l f a.row j,
)

others-free :
    (l : List Access) (f : ℕ → Bool) (i : ℕ)
    → All (λ b. b.row ≢ i) l
    → All (λ b. f b.row ≡ false) l
    → All (λ b. set f i true b.row ≡ false) l
others-free [] f i d h = tt
others-free (b ∷ l) f i d h = (ground (arith, d.0, h.0), others-free l f i d.1 h.1)

-- The loop ends, tells whether every row is unchanged, and the release of what it latched leaves the
-- latches as they were.
abbrev pub Latched : (ℕ → ℕ) → ℕ → List Access → (ℕ → Bool) → (ℕ → Bool) × Bool × ℕ → Type 0
Latched wts start_ts l f r =
    (r.1 ≡ unchanged wts start_ts l) × ((j : ℕ) → release_loop r.2 l r.0 j ≡ f j)

pub latch_loop-Latched :
    (wts : ℕ → ℕ) (start_ts : ℕ) (l : List Access) (f : ℕ → Bool)
    → IsDistinct l
    → All (λ b. f b.row ≡ false) l
    → Ensures (Latched wts start_ts l f) (latch_loop wts start_ts l f)
unfolding latch_loop release_loop
latch_loop-Latched wts start_ts [] f d h = (refl, λ j. refl)
latch_loop-Latched wts start_ts (a ∷ l) f d h = elim (Bool-cases (ltb start_ts (wts a.row))) [
  | inl newer ↦ rw (h.0, newer) (ground (arith, newer), λ j. ground (arith, h.0))
  | inr old ↦
      let free = others-free l f a.row d.0 h.1 in
      rw (h.0, old)
        (Ensures->>= (Latched wts start_ts l (set f a.row true)) (Latched wts start_ts (a ∷ l) f)
          (latch_loop wts start_ts l (set f a.row true)) (λ r. done (one_more r))
          (latch_loop-Latched wts start_ts l (set f a.row true) d.1 free)
          (λ r k. (
            ground (arith, old, k.0),
            λ j. ground (arith, release_loop-set r.2 l r.0 a.row j, k.1 j, h.0),
          )))
]
