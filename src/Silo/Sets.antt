-- ===== src/Silo/Sets.antt =====
-- The write set and the read set of accesses of different rows.
use mathlib.Core.List.{Permᴰ}
use veri_txn.Prelude.{◌≢◌, sym, subst, List, [], ◌∷◌, All, Bool-cases, inl, inr}
use veri_txn.Silo.{Access, write_set, read_set}
use veri_txn.Silo.Words.{IsDistinct}

pub All-perm : (P : Access → Type 0) {l m : List Access} → Permᴰ l m → All P l → All P m
All-perm P Permᴰ.nil h = tt
All-perm P (Permᴰ.cons e p) h = (subst P e h.0, All-perm P p h.1)
All-perm P (Permᴰ.swap e f) h = (subst P f h.1.0, (subst P e h.0, h.1.1))
All-perm P (Permᴰ.trans p q) h = All-perm P q (All-perm P p h)

pub IsDistinct-perm : {l m : List Access} → Permᴰ l m → IsDistinct l → IsDistinct m
IsDistinct-perm Permᴰ.nil d = tt
IsDistinct-perm (Permᴰ.cons {b = b} {l₂ = l₂} e p) d =
    (subst (λ a. All (λ c. c.row ≢ a.row) l₂) e (All-perm _ p d.0), IsDistinct-perm p d.1)
IsDistinct-perm (Permᴰ.swap {a = a} {b = b} {a' = a'} {b' = b'} {l = l} e f) d =
    subst (λ x. IsDistinct (x ∷ (b' ∷ l))) f
      (subst (λ y. IsDistinct (b ∷ (y ∷ l))) e ((λ s. d.0.0 (sym s), d.1.0), (d.0.1, d.1.1)))
IsDistinct-perm (Permᴰ.trans p q) d = IsDistinct-perm q (IsDistinct-perm p d)

All-write_set : (P : Access → Type 0) (l : List Access) → All P l → All P (write_set l)
unfolding write_set
All-write_set P [] h = tt
All-write_set P (a ∷ l) h = elim (Bool-cases a.is_wr) [
  | inl w ↦ simp w (h.0, All-write_set P l h.1)
  | inr r ↦ simp r (All-write_set P l h.1)
]

All-read_set : (P : Access → Type 0) (l : List Access) → All P l → All P (read_set l)
unfolding read_set
All-read_set P [] h = tt
All-read_set P (a ∷ l) h = elim (Bool-cases a.is_wr) [
  | inl w ↦ simp w (All-read_set P l h.1)
  | inr r ↦ simp r (h.0, All-read_set P l h.1)
]

pub write_set-IsDistinct : (l : List Access) → IsDistinct l → IsDistinct (write_set l)
unfolding write_set
write_set-IsDistinct [] d = tt
write_set-IsDistinct (a ∷ l) d = elim (Bool-cases a.is_wr) [
  | inl w ↦ simp w (All-write_set (λ b. b.row ≢ a.row) l d.0, write_set-IsDistinct l d.1)
  | inr r ↦ simp r (write_set-IsDistinct l d.1)
]

-- No row of `rs` is one of `ws`.
abbrev pub Apart : List Access → List Access → Type 0
Apart ws rs = All (λ b. All (λ a. a.row ≢ b.row) ws) rs

Apart-more :
    (a : Access) (ws rs : List Access)
    → All (λ b. b.row ≢ a.row) rs
    → Apart ws rs
    → Apart (a ∷ ws) rs
Apart-more a ws [] d h = tt
Apart-more a ws (b ∷ rs) d h = ((λ e. d.0 (sym e), h.0), Apart-more a ws rs d.1 h.1)

pub sets-Apart : (l : List Access) → IsDistinct l → Apart (write_set l) (read_set l)
unfolding write_set read_set
sets-Apart [] d = tt
sets-Apart (a ∷ l) d = elim (Bool-cases a.is_wr) [
  | inl w ↦ simp w (
      Apart-more a (write_set l) (read_set l) (All-read_set (λ b. b.row ≢ a.row) l d.0)
        (sets-Apart l d.1))
  | inr r ↦ simp r (All-write_set (λ b. b.row ≢ a.row) l d.0, sets-Apart l d.1)
]

pub Apart-perm :
    (ws : List Access) {vs : List Access} (rs : List Access)
    → Permᴰ ws vs
    → Apart ws rs
    → Apart vs rs
Apart-perm ws [] p h = tt
Apart-perm ws (b ∷ rs) p h = (All-perm (λ a. a.row ≢ b.row) p h.0, Apart-perm ws rs p h.1)
