-- ===== src/BtreeEnc/Routes.antt =====
-- Which child of an inner node a search goes down to.
use veri_txn.Prelude.{
  ℕ, suc, ◌+◌, ◌-◌, ◌≤◌, ◌<◌, ◌≡◌, ◌≢◌, sym, ap, subst, ◌∙◌, ◌⊎◌, inl, inr, Bool, true, false, ◌&&◌,
  ltb, leb, ◌==◌, if◌then◌else◌, Bool-cases, arith,
}
use veri_txn.BtreeEnc.{BtNode, first_from, find_child}
use veri_txn.BtreeEnc.Arrays.{StopsAt, first_from-StopsAt, place, IsInserted, covers}
use veri_txn.BtreeEnc.Lookup.{IsSorted, IsPoint}

-- Of `n` keys, those before `i` are at most `q`, and the others above it.
pub record IsRoute (q n : ℕ) (keys : ℕ → ℕ) (i : ℕ) : Type 0 where
  pub within : i ≤ n
  pub low : (j : ℕ) → j < i → keys j ≤ q
  pub high : (j : ℕ) → i ≤ j → j < n → q < keys j

lt_of : (i j : ℕ) → ltb i j ≡ true → i < j
lt_of i j t = ground arith

ge_of : (i j : ℕ) → ltb i j ≡ false → j ≤ i
ge_of i j t = ground arith

eq_of : (i j : ℕ) → (i == j) ≡ true → i ≡ j
eq_of i j t = ground arith

ne_of : (i j : ℕ) → (i == j) ≡ false → i ≢ j
ne_of i j t e = ground arith

pub find_child-IsRoute :
    (q : ℕ) (c : BtNode) → IsSorted c.num_keys c.keys → IsRoute q c.num_keys c.keys (find_child q c)
unfolding find_child
find_child-IsRoute q c s =
    let i : ℕ = first_from (λ i. ltb q (c.keys i)) c.num_keys 0 in
    let f : StopsAt (λ i. ltb q (c.keys i)) 0 c.num_keys i =
      first_from-StopsAt (λ i. ltb q (c.keys i)) c.num_keys 0 in
    record {
      within = omega (arith, f.within);
      low = λ j l. ge_of q (c.keys j) (f.passes j (omega arith) l);
      high = λ j a b.
          let above : q < c.keys i = lt_of q (c.keys i) (f.stops_there (omega (arith, a, b))) in
          elim (Bool-cases (i == j)) [
            | inl e ↦ subst (λ j. q < c.keys j) (eq_of i j e) above
            | inr e ↦ omega (arith, above, s i j (after i j e a) b)
          ];
    }
  where
    after : (i j : ℕ) → (i == j) ≡ false → i ≤ j → i < j
    after i j e a = ground arith

pub route_unique :
    (q n : ℕ) (keys : ℕ → ℕ) (i j : ℕ) → IsRoute q n keys i → IsRoute q n keys j → i ≡ j
route_unique q n keys i j a b = elim (Bool-cases (ltb i j)) [
  | inl t ↦ absurd (
      omega (
        arith,
        b.low i (lt_of i j t),
        a.high i (omega arith) (omega (arith, lt_of i j t, b.within)),
      ))
  | inr t ↦ elim (Bool-cases (ltb j i)) [
    | inl u ↦ absurd (
        omega (
          arith,
          a.low j (lt_of j i u),
          b.high j (omega arith) (omega (arith, lt_of j i u, a.within)),
        ))
    | inr u ↦ omega (arith, ge_of i j t, ge_of j i u)
  ]
]

-- Whether a search goes to the new child.
abbrev pub goes_right : ℕ → ℕ → ℕ → ℕ → Bool
goes_right p key q i = (i == p) && leb key q

-- Where a search goes once `key` stands at `p`.
abbrev route_after : ℕ → ℕ → ℕ → ℕ → ℕ
route_after p key q i = if goes_right p key q i then p + 1 else place (p + 1) i

inserted-IsRoute :
    {key n p : ℕ} {f g : ℕ → ℕ} (q i : ℕ)
    → IsPoint key n f p
    → IsInserted p n key f g
    → IsRoute q n f i
    → IsRoute q (n + 1) g (route_after p key q i)
inserted-IsRoute {key} {n} {p} {f} {g} q i pt ins r = record {
  within = omega (arith, inside, r.within, pt.within);
  low = λ j l. low j l (covers p n j pt.within (omega (arith, l, inside, r.within, pt.within)));
  high = λ j a b. high j a b (covers p n j pt.within b);
}
  where
    inside : route_after p key q i ≤ n + 1
    inside = ground (arith, r.within, pt.within)

    at : (j m : ℕ) → m < n → j ≡ place p m → g j ≡ f m
    at j m a e = ap g e ∙ ins.others m a

    top : (j : ℕ) → j ≡ p → g j ≡ key
    top j e = ap g e ∙ ins.there

    m_before : (m : ℕ) → place p m < route_after p key q i → m < i
    m_before m l = ground arith

    m_behind : (m : ℕ) → route_after p key q i ≤ place p m → i ≤ m
    m_behind m l = ground arith

    key_low : p < route_after p key q i → (key ≤ q) ⊎ (p < i)
    key_low l = ground arith

    key_high : route_after p key q i ≤ p → (q < key) ⊎ (i < p)
    key_high l = ground arith

    low :
        (j : ℕ)
        → j < route_after p key q i
        → (j ≡ p) ⊎ ((m : ℕ) × (m < n) × (j ≡ place p m))
        → g j ≤ q
    low j l (inl e) = elim (key_low (omega (arith, l, e))) [
      | inl k ↦ omega (arith, top j e, k)
      | inr k ↦
          omega (arith, top j e, r.low p k, pt.high p (omega arith) (omega (arith, k, r.within)))
    ]
    low j l (inr (m, a, e)) = omega (arith, at j m a e, r.low m (m_before m (omega (arith, l, e))))

    high :
        (j : ℕ)
        → route_after p key q i ≤ j
        → j < n + 1
        → (j ≡ p) ⊎ ((m : ℕ) × (m < n) × (j ≡ place p m))
        → q < g j
    high j l b (inl e) = elim (key_high (omega (arith, l, e))) [
      | inl k ↦ omega (arith, top j e, k)
      | inr k ↦
          omega (arith, top j e, pt.low i k, r.high i (omega arith) (omega (arith, k, pt.within)))
    ]
    high j l b (inr (m, a, e)) =
        omega (arith, at j m a e, r.high m (m_behind m (omega (arith, l, e))) a)

-- The child that a search goes down to, of a node with one more key and the new child behind it.
pub inserted-child :
    (c c' : BtNode) (key right p : ℕ)
    → IsSorted c.num_keys c.keys
    → IsSorted c'.num_keys c'.keys
    → c'.num_keys ≡ c.num_keys + 1
    → IsPoint key c.num_keys c.keys p
    → IsInserted p c.num_keys key c.keys c'.keys
    → IsInserted (p + 1) (c.num_keys + 1) right c.child c'.child
    → (q : ℕ)
    → c'.child (find_child q c')
      ≡ (if goes_right p key q (find_child q c) then right else c.child (find_child q c))
inserted-child c c' key right p s s' n pt ik ic q =
    ap c'.child (
      route_unique q c'.num_keys c'.keys (find_child q c') (route_after p key q i)
        (find_child-IsRoute q c' s')
        (subst (λ k. IsRoute q k c'.keys (route_after p key q i)) (sym n)
          (inserted-IsRoute q i pt ik r)))
    ∙ by_side (goes_right p key q i)
  where
    i : ℕ
    i = find_child q c

    r : IsRoute q c.num_keys c.keys i
    r = find_child-IsRoute q c s

    by_side :
        (b : Bool)
        → c'.child (if b then p + 1 else place (p + 1) i) ≡ (if b then right else c.child i)
    by_side true = ic.there
    by_side false = ic.others i (omega (arith, r.within))

-- The halves of an inner node with one more key: the search goes to the child that the whole node leads to.
pub halves-child :
    (whole l r : BtNode) (n m k : ℕ)
    → IsSorted whole.num_keys whole.keys
    → whole.num_keys ≡ n + suc m
    → l.num_keys ≡ n
    → r.num_keys ≡ m
    → k ≡ whole.keys n
    → ((i : ℕ) → i < n → l.keys i ≡ whole.keys i)
    → ((i : ℕ) → i < n + 1 → l.child i ≡ whole.child i)
    → ((i : ℕ) → i < m → r.keys i ≡ whole.keys (n + 1 + i))
    → ((i : ℕ) → i < m + 1 → r.child i ≡ whole.child (n + 1 + i))
    → IsSorted l.num_keys l.keys
      × IsSorted r.num_keys r.keys
      × ((q : ℕ)
          → (if ltb q k then l.child (find_child q l) else r.child (find_child q r))
            ≡ whole.child (find_child q whole))
halves-child whole l r n m k s w ln rn kn lk lc rk rc =
    (sorted_l, sorted_r, λ q. by_side q (Bool-cases (ltb q k)))
  where
    sorted_l : IsSorted l.num_keys l.keys
    sorted_l i j a b = omega (
      arith,
      lk i (omega (arith, a, b, ln)),
      lk j (omega (arith, b, ln)),
      s i j a (omega (arith, b, ln, w)),
    )

    sorted_r : IsSorted r.num_keys r.keys
    sorted_r i j a b = omega (
      arith,
      rk i (omega (arith, a, b, rn)),
      rk j (omega (arith, b, rn)),
      s (n + 1 + i) (n + 1 + j) (omega (arith, a)) (omega (arith, b, rn, w)),
    )

    at_whole : (q : ℕ) → IsRoute q whole.num_keys whole.keys (find_child q whole)
    at_whole q = find_child-IsRoute q whole s

    goes_left : (q : ℕ) → q < k → find_child q whole ≤ n
    goes_left q a = elim (Bool-cases (ltb n (find_child q whole))) [
      | inl t ↦ absurd (omega (arith, (at_whole q).low n (lt_of n (find_child q whole) t), a, kn))
      | inr t ↦ ge_of n (find_child q whole) t
    ]

    goes_on : (q : ℕ) → k ≤ q → n + 1 ≤ find_child q whole
    goes_on q a = elim (Bool-cases (ltb n (find_child q whole))) [
      | inl t ↦ omega (arith, lt_of n (find_child q whole) t)
      | inr t ↦ absurd (
          omega
            (arith, (at_whole q).high n (ge_of n (find_child q whole) t) (omega (arith, w)), a, kn))
    ]

    left_route : (q : ℕ) → q < k → find_child q l ≡ find_child q whole
    left_route q a =
        route_unique q l.num_keys l.keys (find_child q l) (find_child q whole)
          (find_child-IsRoute q l sorted_l)
          (record {
            within = omega (arith, goes_left q a, ln);
            low =
                λ j b. omega (arith, lk j (omega (arith, b, goes_left q a)), (at_whole q).low j b);
            high = λ j b c. omega (
              arith,
              lk j (omega (arith, c, ln)),
              (at_whole q).high j b (omega (arith, c, ln, w)),
            );
          })

    right_route : (q : ℕ) → k ≤ q → find_child q r ≡ find_child q whole - (n + 1)
    right_route q a =
        route_unique q r.num_keys r.keys (find_child q r) (find_child q whole - (n + 1))
          (find_child-IsRoute q r sorted_r)
          (record {
            within = omega (arith, (at_whole q).within, rn, w);
            low = λ j b.
                let c : n + 1 + j < find_child q whole = omega (arith, b) in
                omega (
                  arith,
                  rk j (omega (arith, c, (at_whole q).within, w)),
                  (at_whole q).low (n + 1 + j) c,
                );
            high = λ j b c. omega (
              arith,
              rk j (omega (arith, c, rn)),
              (at_whole q).high (n + 1 + j) (omega (arith, b, goes_on q a))
                  (omega (arith, c, rn, w)),
            );
          })

    by_side :
        (q : ℕ)
        → (ltb q k ≡ true) ⊎ (ltb q k ≡ false)
        → (if ltb q k then l.child (find_child q l) else r.child (find_child q r))
          ≡ whole.child (find_child q whole)
    by_side q (inl t) =
        let a : q < k = lt_of q k t in
        rw t (ap l.child (left_route q a) ∙ lc (find_child q whole) (omega (arith, goes_left q a)))
    by_side q (inr t) =
        let a : k ≤ q = ge_of q k t in
        rw t (
          ap r.child (right_route q a)
          ∙ rc (find_child q whole - (n + 1)) (omega (arith, (at_whole q).within, w))
          ∙ ap whole.child (omega (arith, goes_on q a)))
