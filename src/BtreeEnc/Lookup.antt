-- ===== src/BtreeEnc/Lookup.antt =====
-- What is read from a leaf of the B+ tree, and where a key is put in it.
use veri_txn.Prelude.{
  ℕ, ◌+◌, ◌≤◌, ◌<◌, ◌≡◌, ◌≢◌, refl, sym, ap, subst, ◌∙◌, ◌⊎◌, inl, inr, true, false, List, none,
  some, ltb, leb, ◌==◌, if◌then◌else◌, Bool-cases, arith, ==→eq, ltb→ge, ltb→lt,
}
use veri_txn.BtreeEnc.{BtNode, first_from, leaf_has_key, read_leaf, insertion_point}
use veri_txn.BtreeEnc.Arrays.{StopsAt, first_from-StopsAt, place, IsInserted, covers}

-- The first `n` keys go up.
abbrev pub IsSorted : ℕ → (ℕ → ℕ) → Type 0
IsSorted n keys = (i j : ℕ) → i < j → j < n → keys i < keys j

-- The key is not one of the first `n`.
abbrev pub IsAbsent : ℕ → ℕ → (ℕ → ℕ) → Type 0
IsAbsent key n keys = (i : ℕ) → i < n → keys i ≢ key

pub search :
    (leaf : BtNode) (key : ℕ)
    → ((leaf_has_key leaf key ≡ none) × IsAbsent key leaf.num_keys leaf.keys)
      ⊎ ((i : ℕ) × (leaf_has_key leaf key ≡ some i) × (i < leaf.num_keys) × (leaf.keys i ≡ key))
unfolding leaf_has_key
search leaf key =
    let i : ℕ = first_from (λ i. leaf.keys i == key) leaf.num_keys 0 in
    let s : StopsAt (λ i. leaf.keys i == key) 0 leaf.num_keys i =
      first_from-StopsAt (λ i. leaf.keys i == key) leaf.num_keys 0 in
    elim (Bool-cases (ltb i leaf.num_keys)) [
      | inl t ↦ inr (
        i,
        (rw t refl),
        ltb→lt i leaf.num_keys t,
        ==→eq (leaf.keys i) key (s.stops_there (omega (arith, ltb→lt i leaf.num_keys t))),
      )
      | inr t ↦ inl (
        (rw t refl),
        λ j l e.
            not_both (leaf.keys j) key
              (s.passes j (omega arith) (omega (arith, l, ltb→ge i leaf.num_keys t))) e,
      )
    ]
  where
    not_both : (i j : ℕ) → (i == j) ≡ false → i ≡ j → ⊥
    not_both i j e c = ground arith

sorted_inj :
    (n : ℕ) (keys : ℕ → ℕ) → IsSorted n keys → (i j : ℕ) → i < n → j < n → keys i ≡ keys j → i ≡ j
sorted_inj n keys s i j a b e = elim (Bool-cases (ltb i j)) [
  | inl t ↦ absurd (omega (arith, e, s i j (ltb→lt i j t) b))
  | inr t ↦ elim (Bool-cases (ltb j i)) [
    | inl u ↦ absurd (omega (arith, e, s j i (ltb→lt j i u) a))
    | inr u ↦ neither i j t u
  ]
]
  where
    neither : (i j : ℕ) → ltb i j ≡ false → ltb j i ≡ false → i ≡ j
    neither i j t u = ground arith

pub read_leaf-found :
    (leaf : BtNode) (key i : ℕ)
    → IsSorted leaf.num_keys leaf.keys
    → i < leaf.num_keys
    → leaf.keys i ≡ key
    → read_leaf key leaf ≡ some (leaf.data_items i)
unfolding read_leaf
read_leaf-found leaf key i s l e = elim (search leaf key) [
  | inl (c, absent) ↦ absurd (absent i l e)
  | inr (j, c, m, d) ↦
      rw (read_leaf, c)
        (ap (λ j. some (leaf.data_items j))
          (sorted_inj leaf.num_keys leaf.keys s j i m l (d ∙ sym e)))
]

pub read_leaf-missing :
    (leaf : BtNode) (key : ℕ) → IsAbsent key leaf.num_keys leaf.keys → read_leaf key leaf ≡ none
unfolding read_leaf
read_leaf-missing leaf key absent = elim (search leaf key) [
  | inl (c, _) ↦ rw (read_leaf, c) refl
  | inr (j, c, m, d) ↦ absurd (absent j m d)
]

-- The keys before the insertion point are below the key, and the others are not.
pub record IsPoint (key n : ℕ) (keys : ℕ → ℕ) (p : ℕ) : Type 0 where
  pub within : p ≤ n
  pub low : (m : ℕ) → m < p → keys m < key
  pub high : (m : ℕ) → p ≤ m → m < n → key < keys m

pub insertion_point-IsPoint :
    (key n : ℕ) (keys : ℕ → ℕ)
    → IsSorted n keys
    → IsAbsent key n keys
    → IsPoint key n keys (insertion_point key n keys)
unfolding insertion_point
insertion_point-IsPoint key n keys sorted absent =
    let p : ℕ = first_from (λ i. leb key (keys i)) n 0 in
    let s : StopsAt (λ i. leb key (keys i)) 0 n p =
      first_from-StopsAt (λ i. leb key (keys i)) n 0 in
    record {
      within = omega (arith, s.within);
      low = λ m l. gt_of key (keys m) (s.passes m (omega arith) l);
      high = λ m a b. elim (Bool-cases (p == m)) [
        | inl e ↦
            subst (λ i. key < keys i) (==→eq p m e)
              (above p (omega (arith, a, b)) (s.stops_there (omega (arith, a, b))))
        | inr e ↦ omega (
          arith,
          above p (omega (arith, a, b)) (s.stops_there (omega (arith, a, b))),
          sorted p m (after p m e a) b,
        )
      ];
    }
  where
    gt_of : (a b : ℕ) → leb a b ≡ false → b < a
    gt_of a b e = ground arith

    after : (i j : ℕ) → (i == j) ≡ false → i ≤ j → i < j
    after i j e a = ground arith

    le_of : (a b : ℕ) → leb a b ≡ true → a ≤ b
    le_of a b e = ground arith

    above : (i : ℕ) → i < n → leb key (keys i) ≡ true → key < keys i
    above i l e = omega (arith, le_of key (keys i) e, absent i l)

-- The keys with one more in its place go up.
pub inserted-IsSorted :
    {key n p : ℕ} {f g : ℕ → ℕ}
    → IsPoint key n f p
    → IsSorted n f
    → IsInserted p n key f g
    → IsSorted (n + 1) g
inserted-IsSorted {key} {n} {p} {f} {g} pt s ins i j l b =
    compare (covers p n i pt.within (omega (arith, l, b))) (covers p n j pt.within b)
  where
    Covered : ℕ → Type 0
    Covered i = (i ≡ p) ⊎ ((m : ℕ) × (m < n) × (i ≡ place p m))

    before : (m : ℕ) → place p m < p → m < p
    before m l = ground arith

    behind : (m : ℕ) → p < place p m → p ≤ m
    behind m l = ground arith

    both : (m m' : ℕ) → place p m < place p m' → m < m'
    both m m' l = ground arith

    at : (i m : ℕ) → m < n → i ≡ place p m → g i ≡ f m
    at i m a e = ap g e ∙ ins.others m a

    top : (i : ℕ) → i ≡ p → g i ≡ key
    top i e = ap g e ∙ ins.there

    compare : Covered i → Covered j → g i < g j
    compare (inl e) (inl c) = absurd (omega (arith, l, e, c))
    compare (inl e) (inr (m, a, c)) =
        omega (arith, top i e, at j m a c, pt.high m (behind m (omega (arith, l, e, c))) a)
    compare (inr (m, a, e)) (inl c) =
        omega (arith, at i m a e, top j c, pt.low m (before m (omega (arith, l, e, c))))
    compare (inr (m, a, e)) (inr (m', a', c)) =
        omega (arith, at i m a e, at j m' a' c, s m m' (both m m' (omega (arith, l, e, c))) a')

-- A key is one of those of the leaf, or none of them.
pub key_cases :
    (leaf : BtNode) (q : ℕ)
    → ((i : ℕ) × (i < leaf.num_keys) × (leaf.keys i ≡ q)) ⊎ IsAbsent q leaf.num_keys leaf.keys
key_cases leaf q = elim (search leaf q) [ inl (c, a) ↦ inr a | inr (i, c, l, e) ↦ inl (i, l, e) ]

-- What is read from a leaf with one more entry.
pub inserted-reads :
    (leaf leaf' : BtNode) (key p : ℕ) (d : List ℕ)
    → IsSorted leaf.num_keys leaf.keys
    → leaf'.num_keys ≡ leaf.num_keys + 1
    → IsPoint key leaf.num_keys leaf.keys p
    → IsInserted p leaf.num_keys key leaf.keys leaf'.keys
    → IsInserted p leaf.num_keys d leaf.data_items leaf'.data_items
    → (q : ℕ) → read_leaf q leaf' ≡ (if q == key then some d else read_leaf q leaf)
inserted-reads leaf leaf' key p d s n pt ik id q = elim (Bool-cases (q == key)) [
  | inl e ↦ rw e (
      read_leaf-found leaf' q p sorted' (omega (arith, n, pt.within))
        (ik.there ∙ sym (==→eq q key e))
      ∙ ap some id.there)
  | inr e ↦ rw e (other e (key_cases leaf q))
]
  where
    sorted' : IsSorted leaf'.num_keys leaf'.keys
    sorted' = subst (λ k. IsSorted k leaf'.keys) (sym n) (inserted-IsSorted pt s ik)

    inside : (m : ℕ) → m < leaf.num_keys → place p m < leaf'.num_keys
    inside m l = omega (arith, n, l, bound m)
      where
        bound : (m : ℕ) → place p m ≤ m + 1
        bound m = ground arith

    not_key : (q == key) ≡ false → key ≢ q
    not_key e = ground arith

    nowhere :
        (q == key) ≡ false
        → IsAbsent q leaf.num_keys leaf.keys
        → IsAbsent q leaf'.num_keys leaf'.keys
    nowhere e a j l c = elim (covers p leaf.num_keys j pt.within (omega (arith, l, n))) [
      | inl t ↦ not_key e (sym ik.there ∙ ap leaf'.keys (sym t) ∙ c)
      | inr (m, b, t) ↦ a m b (sym (ik.others m b) ∙ ap leaf'.keys (sym t) ∙ c)
    ]

    other :
        (q == key) ≡ false
        → ((i : ℕ) × (i < leaf.num_keys) × (leaf.keys i ≡ q)) ⊎ IsAbsent q leaf.num_keys leaf.keys
        → read_leaf q leaf' ≡ read_leaf q leaf
    other e (inl (i, l, c)) =
        read_leaf-found leaf' q (place p i) sorted' (inside i l) (ik.others i l ∙ c)
        ∙ ap some (id.others i l)
        ∙ sym (read_leaf-found leaf q i s l c)
    other e (inr a) = read_leaf-missing leaf' q (nowhere e a) ∙ sym (read_leaf-missing leaf q a)
