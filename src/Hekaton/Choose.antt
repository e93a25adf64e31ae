-- ===== src/Hekaton/Choose.antt =====
-- The choice of an entry in reserveRow of Row_hekaton: the versions stay in order.
use veri_txn.Prelude.{
  true_ne_false, ℕ, zero, suc, ◌^◌, ◌≤◌, ◌<◌, ◌≡◌, refl, sym, ap, subst, ◌∙◌, ◌⊎◌, inl, inr, true,
  false, ltb, ◌==◌, ==_refl, Bool-cases, arith,
}
use veri_txn.Hekaton.{RowHekaton, WriteHisEntry, next, is_full, choose, double_history}
use veri_txn.Hekaton.Ring.{
  slot, slot_zero, slot_full, slot_later, slot_further, next-slot, IsRing, next_latest,
}
use veri_txn.Hekaton.Reserve.{IsCut, cut_none, cut_oldest}
use veri_txn.Hekaton.Double.{double_history-IsCut}

eq_of : (i j : ℕ) → (i == j) ≡ true → i ≡ j
eq_of i j e = ground arith

-- What has room for one more version, and where.
pub record IsRoom (h h' : RowHekaton) (thread_cnt m d m' idx : ℕ) : Type 0 where
  pub cut : IsCut h h' m d m'
  pub free : suc m' < h'.his_len
  pub index : idx ≡ slot h'.his_len h'.his_oldest (suc m')
  pub loss : (d ≡ 0) ⊎ ((d ≡ 1) × (thread_cnt ≤ h.his_len))

full_ring : {h : RowHekaton} {m : ℕ} → IsRing h m → is_full h ≡ true → suc m ≡ h.his_len
full_ring {h} {m} v t = elim (Bool-cases (suc m == h.his_len)) [
  | inl e ↦ eq_of (suc m) h.his_len e
  | inr e ↦ absurd (
      true_ne_false (
        sym t
        ∙ ap (λ i. i == h.his_oldest) (next_latest v)
        ∙ slot_later h.his_len h.his_oldest m v.oldest_in (below m h.his_len v.room e)))
]
  where
    below : (m len : ℕ) → m < len → (suc m == len) ≡ false → suc m < len
    below m len l e = ground arith

free_ring : {h : RowHekaton} {m : ℕ} → IsRing h m → is_full h ≡ false → suc m < h.his_len
free_ring {h} {m} v t = elim (Bool-cases (suc m == h.his_len)) [
  | inl e ↦ absurd (
      true_ne_false (
        sym (
          ap (λ i. i == h.his_oldest) (next_latest v)
          ∙ ap (λ k. slot h.his_len h.his_oldest k == h.his_oldest) (eq_of (suc m) h.his_len e)
          ∙ ap (λ i. i == h.his_oldest) (slot_full h.his_len h.his_oldest v.oldest_in)
          ∙ ==_refl h.his_oldest)
        ∙ t))
  | inr e ↦ below m h.his_len v.room e
]
  where
    below : (m len : ℕ) → m < len → (suc m == len) ≡ false → suc m < len
    below m len l e = ground arith

abbrev pub HasRoom : RowHekaton → ℕ → ℕ → RowHekaton × ℕ → Type 0
HasRoom h thread_cnt m (h', idx) = (d m' : ℕ) × IsRoom h h' thread_cnt m d m' idx

choose_free :
    {h : RowHekaton} {m : ℕ} (thread_cnt : ℕ)
    → IsRing h m
    → is_full h ≡ false
    → HasRoom h thread_cnt m (h, next h.his_len h.his_latest)
choose_free {h} {m} thread_cnt v t = (
  0,
  m,
  record { cut = cut_none v; free = free_ring v t; index = next_latest v; loss = inl refl },
)

choose_doubled :
    {h : RowHekaton} {m : ℕ} (thread_cnt : ℕ) (memory : ℕ → WriteHisEntry)
    → IsRing h m
    → thread_cnt ≤ 2 ^ 31
    → is_full h ≡ true
    → ltb h.his_len thread_cnt ≡ true
    → HasRoom h thread_cnt m (
      double_history memory h,
      next (double_history memory h).his_len (double_history memory h).his_latest,
    )
choose_doubled {h} {m} thread_cnt memory v c t s =
    let (cut, free) = double_history-IsCut memory v (full_ring v t) (small h.his_len s) in
    (0, m, record { cut = cut; free = free; index = next_latest cut.ring; loss = inl refl })
  where
    small : (len : ℕ) → ltb len thread_cnt ≡ true → len < 2 ^ 31
    small len s = ground arith

choose_oldest :
    {h : RowHekaton} {m : ℕ} (thread_cnt : ℕ)
    → IsRing h m
    → is_full h ≡ true
    → ltb h.his_len thread_cnt ≡ false
    → HasRoom h thread_cnt m (record h { his_oldest = next h.his_len h.his_oldest }, h.his_oldest)
choose_oldest {h} {m = zero} thread_cnt v t s = absurd (omega (arith, full_ring v t, v.large))
choose_oldest {h} {m = suc m} thread_cnt v t s = (
  1,
  m,
  record {
    cut =
        subst (λ i. IsCut h (record h { his_oldest = i }) (suc m) 1 m) (sym moved)
          (cut_oldest 1 m v (omega arith));
    free = omega (arith, v.room);
    index = sym (
        ap (λ i. slot h.his_len i (suc m)) moved
        ∙ slot_further h.his_len h.his_oldest 1 (suc m) v.oldest_in (omega (arith, v.room))
            (omega (arith, v.large))
        ∙ ap (slot h.his_len h.his_oldest) (omega (arith, full_ring v t))
        ∙ slot_full h.his_len h.his_oldest v.oldest_in);
    loss = inr (refl, many h.his_len s);
  },
)
  where
    many : (len : ℕ) → ltb len thread_cnt ≡ false → thread_cnt ≤ len
    many len s = ground arith

    moved : next h.his_len h.his_oldest ≡ slot h.his_len h.his_oldest 1
    moved =
        ap (next h.his_len) (sym (slot_zero h.his_len h.his_oldest v.oldest_in))
        ∙ next-slot h.his_len h.his_oldest 0 v.oldest_in (omega (arith, v.large)) v.word

-- reserveRow takes an entry right after the last version, in a ring that is in order and has every version, but
-- for the oldest when the ring is full and has an entry for each thread.
pub choose-HasRoom :
    {h : RowHekaton} {m : ℕ} (thread_cnt : ℕ) (memory : ℕ → WriteHisEntry)
    → IsRing h m
    → thread_cnt ≤ 2 ^ 31
    → HasRoom h thread_cnt m (choose thread_cnt memory h)
unfolding choose
choose-HasRoom {h} {m} thread_cnt memory v c = elim (Bool-cases (is_full h)) [
  | inr t ↦ rw t (choose_free thread_cnt v t)
  | inl t ↦ elim (Bool-cases (ltb h.his_len thread_cnt)) [
    | inl s ↦ rw (t, s) (choose_doubled thread_cnt memory v c t s)
    | inr s ↦ rw (t, s) (choose_oldest thread_cnt v t s)
  ]
]
