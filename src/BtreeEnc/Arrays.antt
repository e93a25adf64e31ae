-- ===== src/BtreeEnc/Arrays.antt =====
-- The loops over the arrays of a B+ tree node.
use veri_txn.Prelude.{
  set, set_at, set_other, ℕ, zero, suc, ◌+◌, ◌-◌, ◌≤◌, ◌<◌, ◌≡◌, ◌≢◌, refl, sym, ap, subst, ◌∙◌,
  ◌⊎◌, inl, inr, Bool, true, false, ltb, leb, ◌==◌, if◌then◌else◌, Bool-cases, arith,
}
use veri_txn.BtreeEnc.{first_from, move_right, copy_around, with_place, copy_to}

eq_of : (i j : ℕ) → (i == j) ≡ true → i ≡ j
eq_of i j e = ground arith

-- Where a search among `n` entries from `i` on stops.
pub record StopsAt (stops : ℕ → Bool) (i n r : ℕ) : Type 0 where
  pub from_start : i ≤ r
  pub within : r ≤ i + n
  pub passes : (j : ℕ) → i ≤ j → j < r → stops j ≡ false
  pub stops_there : r < i + n → stops r ≡ true

pub first_from-StopsAt : (stops : ℕ → Bool) (n i : ℕ) → StopsAt stops i n (first_from stops n i)
unfolding first_from
first_from-StopsAt stops zero i = record {
  from_start = omega arith;
  within = omega arith;
  passes = λ j a b. absurd (omega (arith, a, b));
  stops_there = λ l. absurd (omega (arith, l));
}
first_from-StopsAt stops (suc n) i = decide (stops i) refl (first_from-StopsAt stops n (i + 1))
  where
    decide :
        (b : Bool)
        → stops i ≡ b
        → StopsAt stops (i + 1) n (first_from stops n (i + 1))
        → StopsAt stops i (suc n) (if b then i else first_from stops n (i + 1))
    decide true e s = record {
      from_start = omega arith;
      within = omega arith;
      passes = λ j a b. absurd (omega (arith, a, b));
      stops_there = λ l. e;
    }
    decide false e s = record {
      from_start = omega (arith, s.from_start);
      within = omega (arith, s.within);
      passes = λ j a b. elim (Bool-cases (i == j)) [
        | inl c ↦ subst (λ j. stops j ≡ false) (eq_of i j c) e
        | inr c ↦ s.passes j (after i j c a) b
      ];
      stops_there = λ l. s.stops_there (omega (arith, l));
    }
      where
        after : (i j : ℕ) → (i == j) ≡ false → i ≤ j → i + 1 ≤ j
        after i j c a = ground arith

-- Where the entry `m` stands once there is a place for another one at `p`.
abbrev pub place : ℕ → ℕ → ℕ
place p m = if ltb m p then m else m + 1

-- `g` has `a` at `p`, and the first `n` entries of `f` round it.
pub record IsInserted {ℓ} {A : Type ℓ} (p n : ℕ) (a : A) (f g : ℕ → A) : Type ℓ where
  pub there : g p ≡ a
  pub others : (m : ℕ) → m < n → g (place p m) ≡ f m

-- An index of the longer array is the place `p`, or that of an entry.
pub covers : (p n j : ℕ) → p ≤ n → j < n + 1 → (j ≡ p) ⊎ ((m : ℕ) × (m < n) × (j ≡ place p m))
covers p n j a b = elim (Bool-cases (ltb j p)) [
  | inl c ↦ inr (j, below c, low c)
  | inr c ↦ elim (Bool-cases (j == p)) [
    | inl d ↦ inl (eq_of j p d)
    | inr d ↦ inr (j - 1, above c d, high c d)
  ]
]
  where
    below : ltb j p ≡ true → j < n
    below c = ground arith

    low : ltb j p ≡ true → j ≡ place p j
    low c = ground arith

    above : ltb j p ≡ false → (j == p) ≡ false → j - 1 < n
    above c d = ground arith

    high : ltb j p ≡ false → (j == p) ≡ false → j ≡ place p (j - 1)
    high c d = ground arith

pub move_right-low {ℓ} :
    {A : Type ℓ} (p n : ℕ) (f : ℕ → A) (j : ℕ) → j ≤ p → move_right p n f j ≡ f j
unfolding move_right
move_right-low p zero f j l = refl
move_right-low p (suc n) f j l =
    move_right-low p n (set f (p + suc n) (f (p + n))) j l
    ∙ set_other f (f (p + n)) (omega (arith, l))

move_right-above {ℓ} :
    {A : Type ℓ} (p n : ℕ) (f : ℕ → A) (j : ℕ) → p + n < j → move_right p n f j ≡ f j
unfolding move_right
move_right-above p zero f j l = refl
move_right-above p (suc n) f j l =
    move_right-above p n (set f (p + suc n) (f (p + n))) j (omega (arith, l))
    ∙ set_other f (f (p + n)) (omega (arith, l))

pub move_right-moved {ℓ} :
    {A : Type ℓ} (p n : ℕ) (f : ℕ → A) (j : ℕ) → p ≤ j → j < p + n → move_right p n f (j + 1) ≡ f j
unfolding move_right
move_right-moved p zero f j a b = absurd (omega (arith, a, b))
move_right-moved p (suc n) f j a b = elim (Bool-cases (j == p + n)) [
  | inl e ↦
      move_right-above p n (set f (p + suc n) (f (p + n))) (j + 1)
        (omega (arith, eq_of j (p + n) e))
      ∙ set_at f (f (p + n)) (omega (arith, eq_of j (p + n) e))
      ∙ ap f (sym (eq_of j (p + n) e))
  | inr e ↦
      move_right-moved p n (set f (p + suc n) (f (p + n))) j a
        (before j (p + n) e (omega (arith, b)))
      ∙ set_other f (f (p + n)) (omega (arith, b))
]
  where
    before : (i j : ℕ) → (i == j) ≡ false → i < j + 1 → i < j
    before i j e l = ground arith

-- Moving to the right, and storing, inserts.
pub move_right-IsInserted {ℓ} :
    {A : Type ℓ} (p n : ℕ) (a : A) (f : ℕ → A)
    → p ≤ n
    → IsInserted p n a f (set (move_right p (n - p) f) p a)
move_right-IsInserted p n a f l = record {
  there = set_at (move_right p (n - p) f) {i = p} {j = p} a refl;
  others = λ m b. elim (Bool-cases (ltb m p)) [
    | inl t ↦
        ap (set (move_right p (n - p) f) p a) (low m t)
        ∙ set_other (move_right p (n - p) f) a (omega (arith, less m t))
        ∙ move_right-low p (n - p) f m (omega (arith, less m t))
    | inr t ↦
        ap (set (move_right p (n - p) f) p a) (high m t)
        ∙ set_other (move_right p (n - p) f) a (omega (arith, not_less m t))
        ∙ move_right-moved p (n - p) f m (not_less m t) (omega (arith, b, l))
  ];
}
  where
    low : (m : ℕ) → ltb m p ≡ true → place p m ≡ m
    low m t = ground arith

    high : (m : ℕ) → ltb m p ≡ false → place p m ≡ m + 1
    high m t = ground arith

    less : (m : ℕ) → ltb m p ≡ true → m < p
    less m t = ground arith

    not_less : (m : ℕ) → ltb m p ≡ false → p ≤ m
    not_less m t = ground arith

-- Where the copying round `p` goes on, before the entry `i`.
abbrev going_on : ℕ → ℕ → ℕ
going_on p i = if leb i p then i else i + 1

copy_around-next :
    (p i : ℕ) → (if going_on p i == p then going_on p i + 1 else going_on p i) ≡ place p i
copy_around-next p i = ground arith

going_next : (p i : ℕ) → place p i + 1 ≡ going_on p (i + 1)
going_next p i = ground arith

place_lt : (p i m : ℕ) → i < m → place p i ≢ place p m
place_lt p i m l = ground arith

copy_around-early {ℓ} :
    {A : Type ℓ} (p n i : ℕ) (f temp : ℕ → A) (m : ℕ)
    → m < i
    → copy_around p n i (going_on p i) f temp (place p m) ≡ temp (place p m)
unfolding copy_around
copy_around-early p zero i f temp m l = refl
copy_around-early p (suc n) i f temp m l =
    ap (λ k. copy_around p n (i + 1) (k + 1) f (set temp k (f i)) (place p m))
      (copy_around-next p i)
    ∙ ap (λ j. copy_around p n (i + 1) j f (set temp (place p i) (f i)) (place p m))
        (going_next p i)
    ∙ copy_around-early p n (i + 1) f (set temp (place p i) (f i)) m (omega (arith, l))
    ∙ set_other temp (f i) (λ e. place_lt p m i l (sym e))

copy_around-entry {ℓ} :
    {A : Type ℓ} (p n i : ℕ) (f temp : ℕ → A) (m : ℕ)
    → i ≤ m
    → m < i + n
    → copy_around p n i (going_on p i) f temp (place p m) ≡ f m
unfolding copy_around
copy_around-entry p zero i f temp m a b = absurd (omega (arith, a, b))
copy_around-entry p (suc n) i f temp m a b =
    ap (λ k. copy_around p n (i + 1) (k + 1) f (set temp k (f i)) (place p m))
      (copy_around-next p i)
    ∙ ap (λ j. copy_around p n (i + 1) j f (set temp (place p i) (f i)) (place p m))
        (going_next p i)
    ∙ elim (Bool-cases (i == m)) [
      | inl e ↦
          copy_around-early p n (i + 1) f (set temp (place p i) (f i)) m
            (omega (arith, eq_of i m e))
          ∙ set_at temp (f i) (ap (place p) (eq_of i m e))
          ∙ ap f (eq_of i m e)
      | inr e ↦
          copy_around-entry p n (i + 1) f (set temp (place p i) (f i)) m (after i m e a)
            (omega (arith, b))
    ]
  where
    after : (i j : ℕ) → (i == j) ≡ false → i ≤ j → i + 1 ≤ j
    after i j c a = ground arith

-- Copying round a place, and storing there, inserts.
pub with_place-IsInserted {ℓ} :
    {A : Type ℓ} (p n : ℕ) (a : A) (f temp : ℕ → A) → IsInserted p n a f (with_place p n a f temp)
with_place-IsInserted p n a f temp = record {
  there = set_at (copy_around p n 0 0 f temp) {i = p} {j = p} a refl;
  others = λ m b.
      set_other (copy_around p n 0 0 f temp) a (apart m)
      ∙ ap (λ j. copy_around p n 0 j f temp (place p m)) start
      ∙ copy_around-entry p n 0 f temp m (omega arith) (omega (arith, b));
}
  where
    start : 0 ≡ going_on p 0
    start = ground arith

    apart : (m : ℕ) → p ≢ place p m
    apart m = ground arith

pub copy_to-other {ℓ} :
    {A : Type ℓ} (n i j : ℕ) (f to : ℕ → A) (k : ℕ) → k < j → copy_to n i j f to k ≡ to k
unfolding copy_to
copy_to-other zero i j f to k l = refl
copy_to-other (suc n) i j f to k l =
    copy_to-other n (i + 1) (j + 1) f (set to j (f i)) k (omega (arith, l))
    ∙ set_other to (f i) (omega (arith, l))

pub copy_to-copied {ℓ} :
    {A : Type ℓ} (n i j : ℕ) (f to : ℕ → A) (k : ℕ) → k < n → copy_to n i j f to (j + k) ≡ f (i + k)
unfolding copy_to
copy_to-copied zero i j f to k l = absurd (omega (arith, l))
copy_to-copied (suc n) i j f to zero l =
    ap (copy_to n (i + 1) (j + 1) f (set to j (f i))) {x = j + 0} {y = j} (omega arith)
    ∙ copy_to-other n (i + 1) (j + 1) f (set to j (f i)) j (omega arith)
    ∙ set_at to (f i) (refl_of j)
    ∙ ap f (omega arith)
  where
    refl_of : (i : ℕ) → i ≡ i
    refl_of i = refl
copy_to-copied (suc n) i j f to (suc k) l =
    ap (copy_to n (i + 1) (j + 1) f (set to j (f i))) {x = j + suc k} {y = j + 1 + k} (omega arith)
    ∙ copy_to-copied n (i + 1) (j + 1) f (set to j (f i)) k (omega (arith, l))
    ∙ ap f (omega arith)
