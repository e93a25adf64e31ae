-- ===== src/Hekaton/Double.antt =====
-- `Row_hekaton::doubleHistory`: the versions stay in order.
use veri_txn.Prelude.{
  set, set_at, set_other, ℕ, zero, suc, ◌+◌, ◌-◌, ◌*◌, ◌%◌, ◌^◌, ◌≤◌, ◌<◌, ◌≡◌, refl, sym, ap,
  subst, ◌∙◌, ◌≢◌, ◌⊎◌, inl, inr, true, false, ltb, ◌==◌, Bool-cases, arith,
}
use veri_txn.Hekaton.{RowHekaton, WriteHisEntry, double_loop, double_history, unused}
use veri_txn.Hekaton.Ring.{
  slot, slot_lt, slot_inj, slot_from_zero, slot_zero, next-slot, entry, IsChain, HasRows, IsRing,
  rows_of,
}
use veri_txn.Hekaton.Chains.{chain_drop}
use veri_txn.Hekaton.Reserve.{IsCut}

-- The first `i` rounds of the loop: the entries from the oldest on are copied, and those of the new half are free.
record IsCopied (len o : ℕ) (history : ℕ → WriteHisEntry) (i : ℕ) (temp : ℕ → WriteHisEntry)
    : Type 0 where
  copied : (j : ℕ) → j < i → temp j ≡ history (slot len o j)
  unused_row : (j : ℕ) → j < i → (temp (j + len)).row ≡ 0

eq_of : (i j : ℕ) → (i == j) ≡ true → i ≡ j
eq_of i j e = ground arith

lt_of : (i j : ℕ) → (i == j) ≡ false → j < i + 1 → j < i
lt_of i j e l = ground arith

one_round_on :
    {len o : ℕ} {history : ℕ → WriteHisEntry} (i : ℕ) {temp : ℕ → WriteHisEntry}
    → i < len
    → IsCopied len o history i temp
    → IsCopied len o history
        (i + 1)
        (set (set temp i (history (slot len o i))) (i + len) (unused (temp (i + len))))
one_round_on {len} {o} {history} i {temp} a c = record {
  copied = λ j l.
      set_other (set temp i (history (slot len o i))) (unused (temp (i + len)))
        (omega (arith, l, a))
      ∙ first j l (Bool-cases (i == j));
  unused_row = λ j l. free j l (Bool-cases (i == j));
}
  where
    first :
        (j : ℕ)
        → j < i + 1
        → ((i == j) ≡ true) ⊎ ((i == j) ≡ false)
        → set temp i (history (slot len o i)) j ≡ history (slot len o j)
    first j l (inl e) =
        set_at temp (history (slot len o i)) (eq_of i j e)
        ∙ ap (λ k. history (slot len o k)) (eq_of i j e)
    first j l (inr e) = rw e (c.copied j (lt_of i j e l))

    free :
        (j : ℕ)
        → j < i + 1
        → ((i == j) ≡ true) ⊎ ((i == j) ≡ false)
        → (set
            (set temp i (history (slot len o i)))
            (i + len)
            (unused (temp (i + len)))
            (j + len)).row
          ≡ 0
    free j l (inl e) =
        ap (λ e. e.row)
          (set_at (set temp i (history (slot len o i))) (unused (temp (i + len)))
            (ap (λ k. k + len) (eq_of i j e)))
    free j l (inr e) =
        ap (λ e. e.row)
          (set_other (set temp i (history (slot len o i))) (unused (temp (i + len)))
              (omega (arith, lt_of i j e l))
            ∙ set_other temp (history (slot len o i)) (omega (arith, a)))
        ∙ c.unused_row j (lt_of i j e l)

double_loop-copies :
    (len o n i : ℕ) (history temp : ℕ → WriteHisEntry)
    → o < len
    → len < 2 ^ 32
    → i + n ≡ len
    → IsCopied len o history i temp
    → IsCopied len o history len (double_loop len history n i (slot len o i) temp)
unfolding double_loop
double_loop-copies len o zero i history temp a w e c =
    subst (λ k. IsCopied len o history k temp) (omega (arith, e)) c
double_loop-copies len o (suc n) i history temp a w e c =
    subst
      (λ idx. IsCopied len o history len (
        double_loop len history n (i + 1) idx
          (set (set temp i (history (slot len o i))) (i + len) (unused (temp (i + len))))))
      (ap (slot len o) {x = i + 1} {y = suc i} (omega arith)
        ∙ sym (next-slot len o i a (omega (arith, e)) w))
      (double_loop-copies len o n (i + 1) history
        (set (set temp i (history (slot len o i))) (i + len) (unused (temp (i + len)))) a w
        (omega (arith, e)) (one_round_on i (omega (arith, e)) c))

-- The rows after doubling.
rows_doubled :
    {len o n : ℕ} {history temp : ℕ → WriteHisEntry}
    → o < len
    → IsCopied len o history len temp
    → HasRows len n (rows_of history)
    → HasRows (len * 2) n (rows_of temp)
rows_doubled {len} {o} {n} {history} {temp} a c v = record {
  not_null = v.not_null;
  given = λ i l. given i l (Bool-cases (ltb i len));
  apart = λ i j b d z e. apart i j b d z e (Bool-cases (ltb i len)) (Bool-cases (ltb j len));
}
  where
    low : (i : ℕ) → ltb i len ≡ true → (temp i).row ≡ (history (slot len o i)).row
    low i t = ap (λ e. e.row) (c.copied i (ground arith))

    high : (i : ℕ) → i < len * 2 → ltb i len ≡ false → (temp i).row ≡ 0
    high i l t =
        ap (λ k. (temp k).row) {x = i} {y = i - len + len} (ground arith)
        ∙ c.unused_row (i - len) (ground arith)

    given : (i : ℕ) → i < len * 2 → (ltb i len ≡ true) ⊎ (ltb i len ≡ false) → (temp i).row < n
    given i l (inl t) =
        subst (λ r. r < n) (sym (low i t))
          (v.given (slot len o i) (slot_lt len o i a (ground arith)))
    given i l (inr t) = subst (λ r. r < n) (sym (high i l t)) v.not_null

    apart :
        (i j : ℕ)
        → i < len * 2
        → j < len * 2
        → (temp i).row ≢ 0
        → (temp i).row ≡ (temp j).row
        → (ltb i len ≡ true) ⊎ (ltb i len ≡ false)
        → (ltb j len ≡ true) ⊎ (ltb j len ≡ false)
        → i ≡ j
    apart i j b d z e (inr s) t = absurd (z (high i b s))
    apart i j b d z e (inl s) (inr t) = absurd (z (e ∙ high j d t))
    apart i j b d z e (inl s) (inl t) = slot_inj len o i j a (ground arith) (ground arith) (
        v.apart (slot len o i) (slot len o j) (slot_lt len o i a (ground arith))
          (slot_lt len o j a (ground arith)) (λ n. z (low i s ∙ n)) (sym (low i s) ∙ e ∙ low j t))

pub double_history-IsCut :
    {h : RowHekaton} {m : ℕ} (memory : ℕ → WriteHisEntry)
    → IsRing h m
    → suc m ≡ h.his_len
    → h.his_len < 2 ^ 31
    → IsCut h (double_history memory h) m 0 m × (suc m < (double_history memory h).his_len)
unfolding double_history
double_history-IsCut {h} {m} memory v full small = (
  record {
    split = omega arith;
    ring = record {
      large = rw wide (omega (arith, v.large));
      word = rw wide (omega (arith, small));
      room = rw wide (omega (arith, v.room));
      oldest_in = rw wide (omega (arith, v.large));
      latest_at =
          rw wide
            (omega (arith, full) ∙ sym (slot_from_zero (h.his_len * 2) m (omega (arith, v.room))));
      chain = chain_drop 0 m same (subst (IsChain (entry h)) (omega arith) v.chain);
      rows = rw wide (rows_doubled v.oldest_in whole v.rows);
    };
    same = same;
    tuples = refl;
    flag = refl;
    latch = refl;
    longer = rw wide (omega arith);
  },
  rw wide (omega (arith, full, v.large)),
)
  where
    wide : h.his_len * 2 % 2 ^ 32 ≡ h.his_len * 2
    wide = omega (arith, small)

    start : IsCopied h.his_len h.his_oldest h.write_history 0 memory
    start = record {
      copied = λ j l. absurd (omega (arith, l));
      unused_row = λ j l. absurd (omega (arith, l));
    }

    doubled : ℕ → WriteHisEntry
    doubled = double_loop h.his_len h.write_history h.his_len 0 h.his_oldest memory

    whole : IsCopied h.his_len h.his_oldest h.write_history h.his_len doubled
    whole =
        subst
          (λ i.
            IsCopied h.his_len h.his_oldest h.write_history h.his_len
              (double_loop h.his_len h.write_history h.his_len 0 i memory))
          (slot_zero h.his_len h.his_oldest v.oldest_in)
          (double_loop-copies h.his_len h.his_oldest h.his_len 0 h.write_history memory v.oldest_in
            v.word (omega arith) start)

    same : (k : ℕ) → k ≤ m → doubled (slot (h.his_len * 2 % 2 ^ 32) 0 k) ≡ entry h (0 + k)
    same k l =
        ap doubled (rw wide (slot_from_zero (h.his_len * 2) k (omega (arith, l, v.room))))
        ∙ whole.copied k (omega (arith, l, v.room))
        ∙ ap (entry h) (omega arith)
