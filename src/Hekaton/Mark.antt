-- ===== src/Hekaton/Mark.antt =====
-- How a prewrite marks the reserved entry and the one before it in Row_hekaton.
use veri_txn.Prelude.{
  set, set_at, set_other, ℕ, suc, ◌≤◌, ◌<◌, ◌≡◌, refl, sym, ap, subst, ◌∙◌, ◌≢◌, inl, inr, Bool,
  true, false, ◌||◌, ltb, ◌==◌, Bool-cases, arith,
}
use veri_txn.Hekaton.{RowHekaton, WriteHisEntry, inf, mark}
use veri_txn.Hekaton.Ring.{slot, slot_ne, prev-slot, entry, IsRing, IsPending}
use veri_txn.Hekaton.Chains.{chain_last, rows_same}

-- The version of the transaction is marked, and the last version ends with the transaction.
module _ {h : RowHekaton} {m : ℕ} (txn_id : ℕ) (v : IsRing h m) (free : suc m < h.his_len)
    (new_row : (entry h (suc m)).row ≢ 0) where
  abbrev at : ℕ → ℕ
  at k = slot h.his_len h.his_oldest k

  abbrev begun : WriteHisEntry → WriteHisEntry
  begun e = record e { begin_txn = true; begin = txn_id }

  abbrev ending : WriteHisEntry → WriteHisEntry
  ending e = record e { end_txn = true; end = txn_id }

  abbrev marked_new : ℕ → WriteHisEntry
  marked_new = set h.write_history (at (suc m)) (begun (entry h (suc m)))

  abbrev marked : ℕ → WriteHisEntry
  marked = set marked_new (at m) (ending (marked_new (at m)))

  slots_differ : (j k : ℕ) → j ≤ suc m → k ≤ suc m → j ≢ k → at j ≢ at k
  slots_differ j k a b n =
      slot_ne h.his_len h.his_oldest j k v.oldest_in (omega (arith, a, free))
        (omega (arith, b, free)) n

  pub marked_before : (k : ℕ) → k < m → marked (at k) ≡ entry h k
  marked_before k l =
      set_other marked_new (ending (marked_new (at m)))
        (slots_differ m k (omega arith) (omega (arith, l)) (omega (arith, l)))
      ∙ set_other h.write_history (begun (entry h (suc m)))
          (slots_differ (suc m) k (omega arith) (omega (arith, l)) (omega (arith, l)))

  pub marked_last : marked (at m) ≡ ending (entry h m)
  marked_last =
      set_at marked_new (ending (marked_new (at m))) refl
      ∙ ap ending (
          set_other h.write_history (begun (entry h (suc m)))
            (slots_differ (suc m) m (omega arith) (omega arith) (omega arith)))

  pub marked_next : marked (at (suc m)) ≡ begun (entry h (suc m))
  marked_next =
      set_other marked_new (ending (marked_new (at m)))
        (slots_differ m (suc m) (omega arith) (omega arith) (omega arith))
      ∙ set_at h.write_history (begun (entry h (suc m))) refl

  set_row :
      (f : ℕ → WriteHisEntry) (i : ℕ) (e : WriteHisEntry)
      → e.row ≡ (f i).row
      → (j : ℕ) → (set f i e j).row ≡ (f j).row
  set_row f i e r j = ground arith

  pub marked_rows : (i : ℕ) → (marked i).row ≡ (h.write_history i).row
  marked_rows i =
      set_row marked_new (at m) (ending (marked_new (at m))) refl i
      ∙ set_row h.write_history (at (suc m)) (begun (entry h (suc m))) refl i

  pub marked_begin : (k : ℕ) → k ≤ m → (marked (at k)).begin ≡ (entry h k).begin
  marked_begin k l = elim (Bool-cases (ltb k m)) [
    | inl t ↦ ap (λ e. e.begin) (marked_before k (ground arith))
    | inr t ↦
        subst (λ k. (marked (at k)).begin ≡ (entry h k).begin) {x = m} {y = k} (ground arith)
          (ap (λ e. e.begin) marked_last)
  ]

  abbrev pub with_mark : RowHekaton
  with_mark = record h { write_history = marked }

  pub mark-with_mark : mark txn_id (at (suc m)) h ≡ with_mark
  unfolding mark
  mark-with_mark =
      ap (λ i. record h { write_history = set marked_new i (ending (marked_new i)) })
        (prev-slot h.his_len h.his_oldest m v.oldest_in v.room)

  pub with_mark-IsRing : IsRing with_mark m
  with_mark-IsRing = record {
    large = v.large;
    word = v.word;
    room = v.room;
    oldest_in = v.oldest_in;
    latest_at = v.latest_at;
    chain =
        chain_last m marked_before (ap (λ e. e.begin) marked_last) (ap (λ e. e.row) marked_last)
          v.chain (ap (λ e. e.end == inf || e.end_txn) marked_last ∙ or_true (txn_id == inf));
    rows = rows_same marked_rows v.rows;
  }
    where
      or_true : (b : Bool) → (b || true) ≡ true
      or_true true = refl
      or_true false = refl

  pub with_mark-IsPending : h.exists_prewrite ≡ true → IsPending with_mark m txn_id
  with_mark-IsPending e = record {
    one_writes = e;
    ends = ap (λ e. e.end_txn) marked_last;
    free = free;
    begins = ap (λ e. e.begin_txn) marked_next;
    owner = ap (λ e. e.begin) marked_next;
    new_row = λ z. new_row (sym (ap (λ e. e.row) marked_next) ∙ z);
  }
