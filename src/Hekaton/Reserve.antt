-- ===== src/Hekaton/Reserve.antt =====
-- How `Row_hekaton::reserveRow` makes room for one more version: it drops versions that have ended, doubles the
-- ring, or gives up the oldest version.
use veri_txn.Prelude.{
  ℕ, zero, suc, ◌+◌, ◌-◌, ◌^◌, ◌≤◌, ◌<◌, ◌≡◌, refl, sym, ap, subst, ◌∙◌, ◌≢◌, inl, inr, true, false,
  ◌&&◌, ltb, ◌==◌, Bool-cases, arith, done, Ensures, Ensures-else, Ensures-if, Ensures->>=,
  Ensures-mono, ==→eq, ltb→lt,
}
use veri_txn.Hekaton.{RowHekaton, inf, oldest, is_full, recycle, collect}
use veri_txn.Hekaton.Ring.{
  slot, slot_lt, slot_further, slot_zero, next-slot, entry, IsChain, IsRing, latest_ne,
}
use veri_txn.Hekaton.Chains.{chain_drop}

-- The versions of `h'` are those of `h` but for the first `d`.
pub record IsCut (h h' : RowHekaton) (m d m' : ℕ) : Type 0 where
  pub split : d + m' ≡ m
  pub ring : IsRing h' m'
  pub same : (k : ℕ) → k ≤ m' → entry h' k ≡ entry h (d + k)
  pub tuples : h'.tuple ≡ h.tuple
  pub flag : h'.exists_prewrite ≡ h.exists_prewrite
  pub latch : h'.blatch ≡ h.blatch
  pub longer : h.his_len ≤ h'.his_len

pub cut_none : {h : RowHekaton} {m : ℕ} → IsRing h m → IsCut h h m 0 m
cut_none {h} v = record {
  split = omega arith;
  ring = v;
  same = λ k l. ap (entry h) (omega arith);
  tuples = refl;
  flag = refl;
  latch = refl;
  longer = omega arith;
}

-- The oldest versions are dropped by moving `_his_oldest` on.
pub cut_oldest :
    {h : RowHekaton} {m : ℕ} (d m' : ℕ)
    → IsRing h m
    → d + m' ≡ m
    → IsCut h (record h { his_oldest = slot h.his_len h.his_oldest d }) m d m'
cut_oldest {h} {m} d m' v e = record {
  split = e;
  ring = record {
    large = v.large;
    word = v.word;
    room = omega (arith, e, v.room);
    oldest_in = slot_lt h.his_len h.his_oldest d v.oldest_in (omega (arith, e, v.room));
    latest_at =
        v.latest_at
        ∙ ap (slot h.his_len h.his_oldest) (sym e)
        ∙ sym (
            slot_further h.his_len h.his_oldest d m' v.oldest_in (omega (arith, e, v.room))
              (omega (arith, e, v.room)));
    chain = chain_drop {e = entry h} d m' same (subst (IsChain (entry h)) (sym e) v.chain);
    rows = v.rows;
  };
  same = same;
  tuples = refl;
  flag = refl;
  latch = refl;
  longer = omega arith;
}
  where
    same :
        (k : ℕ)
        → k ≤ m'
        → entry (record h { his_oldest = slot h.his_len h.his_oldest d }) k ≡ entry h (d + k)
    same k l = ap h.write_history (
        slot_further h.his_len h.his_oldest d k v.oldest_in (omega (arith, l, e, v.room))
          (omega (arith, e, v.room)))

-- What the collection finds from the version `k` on.
abbrev Found : RowHekaton → ℕ → ℕ → ℕ → ℕ → Type 0
Found h m min_ts k i =
    (d : ℕ) × (k ≤ d)
    × (d ≤ m)
    × (i ≡ slot h.his_len h.his_oldest d)
    × ((j : ℕ) → k ≤ j → j < d → (entry h j).end < min_ts)

module _ {h : RowHekaton} {m : ℕ} (v : IsRing h m) (open_end : (entry h m).end ≡ inf) (min_ts : ℕ)
    (word : min_ts < 2 ^ 64) where
  -- The last version does not end, so one that has ended is another.
  not_last : (k : ℕ) → k ≤ m → ltb (entry h k).end min_ts ≡ true → suc k ≤ m
  not_last k a t = elim (Bool-cases (k == m)) [
    | inl e ↦ absurd (
        omega (
          arith,
          ap (λ j. (entry h j).end) (==→eq k m e),
          open_end,
          word,
          ltb→lt (entry h k).end min_ts t,
        ))
    | inr e ↦ ne k m e a
  ]
    where
      ne : (k m : ℕ) → (k == m) ≡ false → k ≤ m → suc k ≤ m
      ne k m e a = ground arith

  slot_not_latest : (k : ℕ) → suc k ≤ m → (slot h.his_len h.his_oldest k == h.his_latest) ≡ false
  slot_not_latest k a =
      differs (slot h.his_len h.his_oldest k) h.his_latest
        (latest_ne v k (omega (arith, a, v.room)) (omega (arith, a)))
    where
      differs : (a b : ℕ) → b ≢ a → (a == b) ≡ false
      differs a b n = ground arith

  widen : (k i : ℕ) → (entry h k).end < min_ts → Found h m min_ts (suc k) i → Found h m min_ts k i
  widen k i t (d, b, c, e, g) = (
    d,
    omega (arith, b),
    c,
    e,
    (λ j l n. elim (Bool-cases (k == j)) [
      | inl s ↦ subst (λ i. (entry h i).end < min_ts) (==→eq k j s) t
      | inr s ↦ g j (ne k j s l) n
    ]),
  )
    where
      ne : (k m : ℕ) → (k == m) ≡ false → k ≤ m → suc k ≤ m
      ne k m e a = ground arith

  recycle-finds :
      (fuel k : ℕ)
      → k ≤ m
      → m < fuel + k
      → Ensures (Found h m min_ts k) (recycle fuel min_ts h (slot h.his_len h.his_oldest k))
  unfolding recycle
  recycle-finds zero k a f = absurd (omega (arith, a, f))
  recycle-finds (suc fuel) k a f =
      Ensures-if (Found h m min_ts k) (ltb (entry h k).end min_ts) _ _
        (λ t. Ensures-else (Found h m min_ts k) _ _ (slot_not_latest k (not_last k a t)) (
          subst (λ i. Ensures (Found h m min_ts k) (recycle fuel min_ts h i))
            (sym (next-slot h.his_len h.his_oldest k v.oldest_in (omega (arith, a, v.room)) v.word))
            (Ensures-mono (Found h m min_ts (suc k)) (Found h m min_ts k)
              (recycle fuel min_ts h (slot h.his_len h.his_oldest (suc k)))
              (λ i found. widen k i (ground arith) found)
              (recycle-finds fuel (suc k) (not_last k a t) (omega (arith, f))))))
        (λ t. (k, omega arith, a, refl, (λ j b c. absurd (omega (arith, b, c)))))

  -- The versions that the collection drops have ended before `min_ts`.
  abbrev pub Collected : RowHekaton → Type 0
  Collected h' = (d m' : ℕ) × IsCut h h' m d m' × ((k : ℕ) → k < d → (entry h k).end < min_ts)

  pub collect-Collected : Ensures Collected (collect min_ts h)
  unfolding collect
  collect-Collected =
      Ensures-if Collected (is_full h && ltb (oldest h).end min_ts) _ _
        (λ t.
          Ensures->>= (Found h m min_ts 0) Collected (recycle h.his_len min_ts h h.his_oldest)
            (λ i. done (record h { his_oldest = i }))
            (subst (λ i. Ensures (Found h m min_ts 0) (recycle h.his_len min_ts h i))
              (slot_zero h.his_len h.his_oldest v.oldest_in)
              (recycle-finds h.his_len 0 (omega arith) (omega (arith, v.room))))
            (λ i found. cut i found))
        (λ t. (0, m, cut_none v, (λ k l. absurd (omega (arith, l)))))
    where
      cut : (i : ℕ) → Found h m min_ts 0 i → Collected (record h { his_oldest = i })
      cut i (d, a, b, e, g) = (
        d,
        m - d,
        subst (λ i. IsCut h (record h { his_oldest = i }) m d (m - d)) (sym e)
            (cut_oldest d (m - d) v (omega (arith, b))),
        (λ k l. g k (omega arith) l),
      )
