-- ===== src/Hekaton/Chains.antt =====
-- How the versions and the rows of a Hekaton ring change: versions are dropped at the front, the last one is
-- closed, and one more is put behind it.
use veri_txn.Prelude.{
  set, ℕ, suc, ◌+◌, ◌≤◌, ◌<◌, ◌≡◌, refl, sym, ap, subst, ◌≢◌, ◌⊎◌, inl, inr, true, false, ◌||◌, ltb,
  ◌==◌, Bool-cases, fun_ext, arith,
}
use veri_txn.Hekaton.{WriteHisEntry, inf, init}
use veri_txn.Hekaton.Ring.{IsChain, HasRows, IsRing, entry}

-- Only the first `d` versions are gone.
pub chain_drop :
    {e e' : ℕ → WriteHisEntry} (d m : ℕ)
    → ((k : ℕ) → k ≤ m → e' k ≡ e (d + k))
    → IsChain e (d + m)
    → IsChain e' m
chain_drop {e} {e'} d m same c = record {
  grows = λ k l.
      rw (same k (omega (arith, l)), same (suc k) l, plus k) (c.grows (d + k) (omega (arith, l)));
  meets = λ k l.
      rw (same k (omega (arith, l)), same (suc k) l, plus k) (c.meets (d + k) (omega (arith, l)));
  ended = λ k l. rw (same k (omega (arith, l))) (c.ended (d + k) (omega (arith, l)));
  has_row = λ k l. rw (same k l) (c.has_row (d + k) (omega (arith, l)));
  last_end = rw (same m (omega arith)) c.last_end;
}
  where
    plus : (k : ℕ) → d + suc k ≡ suc (d + k)
    plus k = omega arith

-- What a chain says of its versions, but for the end of the last one.
record IsInner (e : ℕ → WriteHisEntry) (m : ℕ) : Type 0 where
  grows : (k : ℕ) → k < m → (e k).begin < (e (suc k)).begin
  meets : (k : ℕ) → k < m → (e k).end ≡ (e (suc k)).begin
  ended : (k : ℕ) → k < m → (e k).end_txn ≡ false
  has_row : (k : ℕ) → k ≤ m → (e k).row ≢ 0

-- The last version keeps its time and its row.
module _ {e e' : ℕ → WriteHisEntry} (m : ℕ) (same : (k : ℕ) → k < m → e' k ≡ e k)
    (b : (e' m).begin ≡ (e m).begin) (r : (e' m).row ≡ (e m).row) (c : IsChain e m) where
  begins : (k : ℕ) → k ≤ m → (e' k).begin ≡ (e k).begin
  begins k a = elim (Bool-cases (ltb k m)) [
    | inl t ↦ ap (λ x. x.begin) (same k (ground arith))
    | inr t ↦ subst (λ j. (e' j).begin ≡ (e j).begin) {x = m} {y = k} (ground arith) b
  ]

  rows : (k : ℕ) → k ≤ m → (e' k).row ≡ (e k).row
  rows k a = elim (Bool-cases (ltb k m)) [
    | inl t ↦ ap (λ x. x.row) (same k (ground arith))
    | inr t ↦ subst (λ j. (e' j).row ≡ (e j).row) {x = m} {y = k} (ground arith) r
  ]

  kept_inside : IsInner e' m
  kept_inside = record {
    grows = λ k a. rw (same k a, begins (suc k) a) (c.grows k a);
    meets = λ k a. rw (same k a, begins (suc k) a) (c.meets k a);
    ended = λ k a. rw (same k a) (c.ended k a);
    has_row = λ k a. rw (rows k a) (c.has_row k a);
  }

  pub chain_last : ((e' m).end == inf || (e' m).end_txn) ≡ true → IsChain e' m
  chain_last l = record {
    grows = kept_inside.grows;
    meets = kept_inside.meets;
    ended = kept_inside.ended;
    has_row = kept_inside.has_row;
    last_end = l;
  }

  upto : (P : ℕ → Type 0) → ((k : ℕ) → k < m → P k) → P m → (k : ℕ) → k < suc m → P k
  upto P f p k a = elim (Bool-cases (ltb k m)) [
    | inl t ↦ f k (ground arith)
    | inr t ↦ subst P {x = m} {y = k} (ground arith) p
  ]

  -- One more version, where the last one ends.
  pub chain_extend :
      (e' m).begin < (e' (suc m)).begin
      → (e' m).end ≡ (e' (suc m)).begin
      → (e' m).end_txn ≡ false
      → (e' (suc m)).row ≢ 0
      → ((e' (suc m)).end == inf || (e' (suc m)).end_txn) ≡ true
      → IsChain e' (suc m)
  chain_extend g n t r l = record {
    grows = upto (λ k. (e' k).begin < (e' (suc k)).begin) kept_inside.grows g;
    meets = upto (λ k. (e' k).end ≡ (e' (suc k)).begin) kept_inside.meets n;
    ended = upto (λ k. (e' k).end_txn ≡ false) kept_inside.ended t;
    has_row = λ k a. new_rows k (Bool-cases (ltb m k)) a r;
    last_end = l;
  }
    where
      new_rows :
          (k : ℕ)
          → (ltb m k ≡ true) ⊎ (ltb m k ≡ false)
          → k ≤ suc m
          → (e' (suc m)).row ≢ 0
          → (e' k).row ≢ 0
      new_rows k (inl t) a r = subst (λ j. (e' j).row ≢ 0) {x = suc m} {y = k} (ground arith) r
      new_rows k (inr t) a r = kept_inside.has_row k (ground arith)

pub rows_same :
    {len n : ℕ} {r r' : ℕ → ℕ} → ((i : ℕ) → r' i ≡ r i) → HasRows len n r → HasRows len n r'
rows_same {len} {n} e v = subst (HasRows len n) (sym (fun_ext e)) v

-- An entry takes a new row.
pub rows_new :
    {len n : ℕ} {r : ℕ → ℕ} (idx : ℕ) → HasRows len n r → HasRows len (n + 1) (set r idx n)
rows_new {len} {n} {r} idx v = record {
  not_null = omega arith;
  given = λ i l. given i l (Bool-cases (idx == i));
  apart = λ i j a b z e. apart i j a b z e (Bool-cases (idx == i)) (Bool-cases (idx == j));
}
  where
    hit : (i : ℕ) → (idx == i) ≡ true → set r idx n i ≡ n
    hit i t = rw t refl

    miss : (i : ℕ) → (idx == i) ≡ false → set r idx n i ≡ r i
    miss i t = rw t refl

    given : (i : ℕ) → i < len → ((idx == i) ≡ true) ⊎ ((idx == i) ≡ false) → set r idx n i < n + 1
    given i l (inl t) = omega (arith, hit i t)
    given i l (inr t) = omega (arith, miss i t, v.given i l)

    apart :
        (i j : ℕ)
        → i < len
        → j < len
        → set r idx n i ≢ 0
        → set r idx n i ≡ set r idx n j
        → ((idx == i) ≡ true) ⊎ ((idx == i) ≡ false)
        → ((idx == j) ≡ true) ⊎ ((idx == j) ≡ false)
        → i ≡ j
    apart i j a b z e (inl s) (inl t) = ground arith
    apart i j a b z e (inl s) (inr t) = absurd (omega (arith, e, hit i s, miss j t, v.given j b))
    apart i j a b z e (inr s) (inl t) = absurd (omega (arith, e, miss i s, hit j t, v.given i a))
    apart i j a b z e (inr s) (inr t) =
        v.apart i j a b (omega (arith, z, miss i s)) (omega (arith, e, miss i s, miss j t))

-- A row that has just been set up has one version.
pub init-IsRing :
    (memory : ℕ → WriteHisEntry) (row next_row : ℕ) (tuple : ℕ → ℕ)
    → 0 < row
    → row < next_row
    → IsRing (init memory row tuple next_row) 0
unfolding init
init-IsRing memory row next_row tuple a b = record {
  large = omega arith;
  word = omega arith;
  room = omega arith;
  oldest_in = omega arith;
  latest_at = refl;
  chain = record {
    grows = λ k l. absurd (omega (arith, l));
    meets = λ k l. absurd (omega (arith, l));
    ended = λ k l. absurd (omega (arith, l));
    has_row = λ k l. ground arith;
    last_end = refl;
  };
  rows = record {
    not_null = omega (arith, a, b);
    given = λ i l. ground arith;
    apart = λ i j c d z e. ground arith;
  };
}

pub init_lem :
    (memory : ℕ → WriteHisEntry) (row next_row : ℕ) (tuple : ℕ → ℕ)
    → let h = init memory row tuple next_row in
      (h.blatch ≡ false) × ((entry h 0).begin ≡ 0) × ((entry h 0).end ≡ inf)
unfolding init
init_lem memory row next_row tuple = (refl, refl, refl)
