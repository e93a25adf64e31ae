-- ===== src/Accesses.antt =====
-- The accesses of a transaction by their rows, for the protocols that lock a write set and check a read set
-- under trusted/concurrency_control.
use mathlib.Core.List.{Permᴰ}
use veri_txn.Prelude.{
  ℕ, zero, suc, ◌≡◌, ◌≢◌, refl, sym, subst, Bool, true, false, not, List, [], ◌∷◌, All, Bool-cases,
  inl, inr, ◌==◌, if◌then◌else◌, arith,
}

-- `access_t` of common/global_common.h.
pub data AccessType : Type 0 where
  rd wr xp scan : AccessType

abbrev pub is_rd : AccessType → Bool
is_rd rd = true
is_rd _ = false

abbrev pub is_wr : AccessType → Bool
is_wr wr = true
is_wr _ = false

-- The loop that picks the accesses of one kind, in their order.
pub chosen : {A : Type 0} → (A → Bool) → List A → List A
chosen p [] = []
chosen p (a ∷ l) = let rest = chosen p l in if p a then a ∷ rest else rest

pub map_all :
    {A : Type 0} {P Q : A → Type 0} (l : List A) → ((a : A) → P a → Q a) → All P l → All Q l
map_all [] f h = tt
map_all (a ∷ l) f h = (f a h.0, map_all l f h.1)

pub All-perm : {A : Type 0} (P : A → Type 0) {l m : List A} → Permᴰ l m → All P l → All P m
All-perm P Permᴰ.nil h = tt
All-perm P (Permᴰ.cons e p) h = (subst P e h.0, All-perm P p h.1)
All-perm P (Permᴰ.swap e f) h = (subst P f h.1.0, (subst P e h.0, h.1.1))
All-perm P (Permᴰ.trans p q) h = All-perm P q (All-perm P p h)

pub All-chosen :
    {A : Type 0} (P : A → Type 0) (p : A → Bool) (l : List A) → All P l → All P (chosen p l)
unfolding chosen
All-chosen P p [] h = tt
All-chosen P p (a ∷ l) h = elim (Bool-cases (p a)) [
  | inl takes ↦ rw takes (h.0, All-chosen P p l h.1)
  | inr skips ↦ rw skips (All-chosen P p l h.1)
]

module _ {A : Type 0} (row : A → ℕ) where
  -- The accesses are of different rows.
  abbrev pub IsDistinct : List A → Type 0
  IsDistinct [] = Unit {0}
  IsDistinct (a ∷ l) = All (λ b. row b ≢ row a) l × IsDistinct l

  -- Row `j` is one of those accessed.
  abbrev pub among : List A → ℕ → Bool
  among [] j = false
  among (a ∷ l) j = let rest = among l j in if row a == j then true else rest

  -- Row `j` is one of the first `n`.
  abbrev pub first_n : ℕ → List A → ℕ → Bool
  first_n zero l j = false
  first_n (suc n) [] j = false
  first_n (suc n) (a ∷ l) j = let rest = first_n n l j in if row a == j then true else rest

  pub among-absent : (l : List A) (i : ℕ) → All (λ b. row b ≢ i) l → among l i ≡ false
  among-absent [] i d = refl
  among-absent (a ∷ l) i d = ground (arith, d.0, among-absent l i d.1)

  pub first_n-absent : (n : ℕ) (l : List A) (i : ℕ) → All (λ b. row b ≢ i) l → first_n n l i ≡ false
  first_n-absent zero l i d = refl
  first_n-absent (suc n) [] i d = refl
  first_n-absent (suc n) (a ∷ l) i d = ground (arith, d.0, first_n-absent n l i d.1)

  among_more :
      (ws : List A) (a : A) (l : List A)
      → All (λ b. among ws (row b) ≡ true) l
      → All (λ b. among (a ∷ ws) (row b) ≡ true) l
  among_more ws a [] h = tt
  among_more ws a (b ∷ l) h = (ground (arith, h.0), among_more ws a l h.1)

  pub among_self : (ws : List A) → All (λ a. among ws (row a) ≡ true) ws
  among_self [] = tt
  among_self (a ∷ ws) = (ground arith, among_more ws a ws (among_self ws))

  pub IsDistinct-perm : {l m : List A} → Permᴰ l m → IsDistinct l → IsDistinct m
  IsDistinct-perm Permᴰ.nil d = tt
  IsDistinct-perm (Permᴰ.cons {b = b} {l₂ = l₂} e p) d =
      (subst (λ a. All (λ c. row c ≢ row a) l₂) e (All-perm _ p d.0), IsDistinct-perm p d.1)
  IsDistinct-perm (Permᴰ.swap {a = a} {b = b} {a' = a'} {b' = b'} {l = l} e f) d =
      subst (λ x. IsDistinct (x ∷ (b' ∷ l))) f
        (subst (λ y. IsDistinct (b ∷ (y ∷ l))) e ((λ s. d.0.0 (sym s), d.1.0), (d.0.1, d.1.1)))
  IsDistinct-perm (Permᴰ.trans p q) d = IsDistinct-perm q (IsDistinct-perm p d)

  -- No row of `rs` is one of `ws`.
  abbrev pub Apart : List A → List A → Type 0
  Apart ws rs = All (λ b. All (λ a. row a ≢ row b) ws) rs

  Apart-more :
      (a : A) (ws rs : List A) → All (λ b. row b ≢ row a) rs → Apart ws rs → Apart (a ∷ ws) rs
  Apart-more a ws [] d h = tt
  Apart-more a ws (b ∷ rs) d h = ((λ e. d.0 (sym e), h.0), Apart-more a ws rs d.1 h.1)

  pub Apart-perm :
      (ws : List A) {vs : List A} (rs : List A) → Permᴰ ws vs → Apart ws rs → Apart vs rs
  Apart-perm ws [] p h = tt
  Apart-perm ws (b ∷ rs) p h = (All-perm (λ a. row a ≢ row b) p h.0, Apart-perm ws rs p h.1)

  pub chosen-IsDistinct : (p : A → Bool) (l : List A) → IsDistinct l → IsDistinct (chosen p l)
  unfolding chosen
  chosen-IsDistinct p [] d = tt
  chosen-IsDistinct p (a ∷ l) d = elim (Bool-cases (p a)) [
    | inl takes ↦ rw takes (All-chosen (λ b. row b ≢ row a) p l d.0, chosen-IsDistinct p l d.1)
    | inr skips ↦ rw skips (chosen-IsDistinct p l d.1)
  ]

  pub chosen-Apart :
      (p : A → Bool) (l : List A) → IsDistinct l → Apart (chosen p l) (chosen (λ a. not (p a)) l)
  unfolding chosen
  chosen-Apart p [] d = tt
  chosen-Apart p (a ∷ l) d = elim (Bool-cases (p a)) [
    | inl takes ↦ rw takes (
        Apart-more a (chosen p l) (chosen (λ a. not (p a)) l)
          (All-chosen (λ b. row b ≢ row a) (λ a. not (p a)) l d.0) (chosen-Apart p l d.1))
    | inr skips ↦ rw skips (All-chosen (λ b. row b ≢ row a) p l d.0, chosen-Apart p l d.1)
  ]

pub All-chosen_if :
    {A : Type 0} (P Q : A → Type 0) (p : A → Bool) (l : List A)
    → ((a : A) → p a ≡ true → P a → Q a)
    → All P l
    → All Q (chosen p l)
unfolding chosen
All-chosen_if P Q p [] k h = tt
All-chosen_if P Q p (a ∷ l) k h = elim (Bool-cases (p a)) [
  | inl takes ↦ rw takes (k a takes h.0, All-chosen_if P Q p l k h.1)
  | inr skips ↦ rw skips (All-chosen_if P Q p l k h.1)
]

module _ {A : Type 0} (row : A → ℕ) where
  Apart-flip_one :
      (b : A) (ws rs : List A)
      → All (λ a. row a ≢ row b) ws
      → Apart row rs ws
      → Apart row (b ∷ rs) ws
  Apart-flip_one b [] rs h k = tt
  Apart-flip_one b (a ∷ ws) rs h k = ((λ e. h.0 (sym e), k.0), Apart-flip_one b ws rs h.1 k.1)

  Apart-nothing : (ws : List A) → Apart row [] ws
  Apart-nothing [] = tt
  Apart-nothing (a ∷ ws) = (tt, Apart-nothing ws)

  pub Apart-flip : (ws rs : List A) → Apart row ws rs → Apart row rs ws
  Apart-flip ws [] h = Apart-nothing ws
  Apart-flip ws (b ∷ rs) h = Apart-flip_one b ws rs h.0 (Apart-flip ws rs h.1)

pub All-both :
    {A : Type 0} (P Q R : A → Type 0) (l : List A)
    → ((a : A) → P a → Q a → R a)
    → All P l
    → All Q l
    → All R l
All-both P Q R [] k h g = tt
All-both P Q R (a ∷ l) k h g = (k a h.0 g.0, All-both P Q R l k h.1 g.1)
