-- ===== src/Silo/Checks.antt =====
-- What the checks of validation find in the words, and what an abort leaves.
use veri_txn.Prelude.{
  ℕ, ◌+◌, ◌<◌, ◌≤◌, ◌≡◌, refl, Bool, true, false, List, [], ◌∷◌, All, ltb, if◌then◌else◌, arith,
  Ensures, Ensures->>=, done,
}
use veri_txn.Silo.{
  Access, Db, Rc, rcok, abort, lock_bit, with_lock, same_tids, release_locks, give_up,
}
use veri_txn.Silo.Words.{IsDistinct, among, among-absent, tid_of-free}
use veri_txn.Silo.Lock.{Held, Free, release_locks-Restores}
use veri_txn.Silo.Install.{max_seen, Installed}
use veri_txn.Silo.Sets.{Apart}

-- What validation answers: `ok` tells whether every row has the version seen.
pub record Validated (ok : Bool) (ws rs : List Access) (cur : ℕ) (db : Db) (r : Db × ℕ × Rc)
    : Type 0 where
  pub answer : r.2 ≡ (if ok then rcok else abort)
  pub committed :
      ok ≡ true
      → (cur < r.1)
        × All (λ a. a.tid < r.1) ws
        × All (λ a. a.tid < r.1) rs
        × Installed ws r.1 db r.0
  pub aborted :
      ok ≡ false → (r.1 ≡ cur) × ((j : ℕ) → (r.0.tuple j ≡ db.tuple j) × (r.0.word j ≡ db.word j))

pub give_up-Validated :
    (n : ℕ) (ws rs : List Access) (f : ℕ → ℕ) (cur : ℕ) (db : Db)
    → IsDistinct ws
    → Free ws db.word
    → Held n ws db.word f
    → Ensures (Validated false ws rs cur db) (give_up n ws f cur db)
give_up-Validated n ws rs f cur db d free held =
    Ensures->>= (λ h. (j : ℕ) → h j ≡ db.word j) (Validated false ws rs cur db)
      (release_locks n ws f) (λ h. done (record db { word = h }, cur, abort))
      (release_locks-Restores n ws db.word f d free held)
      (λ h k. record {
        answer = refl;
        committed = λ e. absurd (ground (arith, e));
        aborted = λ e. (refl, λ j. (refl, k j));
      })

pub max_seen-below :
    (l : List Access) (f : ℕ → ℕ) (m b : ℕ)
    → same_tids f l ≡ true
    → ((j : ℕ) → f j + 1 < b)
    → b ≤ lock_bit
    → m + 1 < b
    → max_seen l m + 1 < b
unfolding same_tids
max_seen-below [] f m b e h small k = k
max_seen-below (a ∷ l) f m b e h small k =
    max_seen-below l f (if ltb m a.tid then a.tid else m) b (ground (arith, e)) h small
      (ground (arith, e, h a.row, k, tid_of-free (f a.row) (omega (arith, h a.row, small))))

pub below : (l : List Access) (m n : ℕ) → All (λ a. a.tid ≤ m) l → m < n → All (λ a. a.tid < n) l
below [] m n h k = tt
below (a ∷ l) m n h k = (omega (arith, h.0, k), below l m n h.1 k)

-- The locks are taken: the words of the rows of `ws`, and those of the rows of `rs`.
pub locked_ws :
    (ws vs : List Access) (f g : ℕ → ℕ)
    → All (λ a. among ws a.row ≡ true) vs
    → ((j : ℕ) → g j ≡ (if among ws j then with_lock (f j) else f j))
    → All (λ a. g a.row ≡ with_lock (f a.row)) vs
locked_ws ws [] f g h k = tt
locked_ws ws (a ∷ vs) f g h k = (ground (arith, h.0, k a.row), locked_ws ws vs f g h.1 k)

pub plain_rs :
    (ws rs : List Access) (f g : ℕ → ℕ)
    → Apart ws rs
    → ((j : ℕ) → g j ≡ (if among ws j then with_lock (f j) else f j))
    → All (λ a. g a.row ≡ f a.row) rs
plain_rs ws [] f g h k = tt
plain_rs ws (a ∷ rs) f g h k =
    (ground (arith, among-absent ws a.row h.0, k a.row), plain_rs ws rs f g h.1 k)

pub among_self : (ws : List Access) → All (λ a. among ws a.row ≡ true) ws
among_self [] = tt
among_self (a ∷ ws) = (ground arith, deeper ws (among_self ws))
  where
    deeper :
        (l : List Access)
        → All (λ b. among ws b.row ≡ true) l
        → All (λ b. among (a ∷ ws) b.row ≡ true) l
    deeper [] h = tt
    deeper (b ∷ l) h = (ground (arith, h.0), deeper l h.1)
