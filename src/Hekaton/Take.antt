-- ===== src/Hekaton/Take.antt =====
-- reserveRow of Row_hekaton: an entry with a row for one more version.
use veri_txn.Prelude.{
  set, set_at, set_other, ℕ, suc, ◌+◌, ◌^◌, ◌≤◌, ◌<◌, ◌≡◌, refl, sym, ap, subst, ◌∙◌, ◌≢◌, ◌⊎◌, inl,
  inr, Bool, true, false, ltb, ◌==◌, if◌then◌else◌, Bool-cases, arith, done, Ensures, Ensures->>=,
}
use veri_txn.Hekaton.{RowHekaton, WriteHisEntry, inf, allocate, choose, collect, take_entry}
use veri_txn.Hekaton.Ring.{slot, slot_ne, entry, IsChain, HasRows, IsRing, rows_of}
use veri_txn.Hekaton.Chains.{chain_drop, rows_same, rows_new}
use veri_txn.Hekaton.Reserve.{IsCut, Collected, collect-Collected}
use veri_txn.Hekaton.Choose.{IsRoom, HasRoom, choose-HasRoom}

cut_trans :
    {h h1 h2 : RowHekaton} {m d1 m1 d2 m2 : ℕ}
    → IsCut h h1 m d1 m1
    → IsCut h1 h2 m1 d2 m2
    → IsCut h h2 m (d1 + d2) m2
cut_trans {h} {h1} {d1 = d1} {d2 = d2} {m2 = m2} a b = record {
  split = omega (arith, a.split, b.split);
  ring = b.ring;
  same =
      λ k l. b.same k l ∙ a.same (d2 + k) (omega (arith, b.split, l)) ∙ ap (entry h) (omega arith);
  tuples = b.tuples ∙ a.tuples;
  flag = b.flag ∙ a.flag;
  latch = b.latch ∙ a.latch;
  longer = omega (arith, a.longer, b.longer);
}

-- The entry that is taken has a row.
abbrev Taken : RowHekaton → ℕ → ℕ → ℕ → ℕ → RowHekaton × ℕ → Type 0
Taken h thread_cnt m d m' (h', idx) =
    IsRoom h h' thread_cnt m d m' idx × ((h'.write_history idx).row ≢ 0)

-- A ring whose entries after the last version are changed, with the same number of them.
with_entry :
    {h h' : RowHekaton} {thread_cnt m d m' idx : ℕ} (e : WriteHisEntry) (next_row : ℕ)
    → IsRoom h h' thread_cnt m d m' idx
    → HasRows h'.his_len next_row (rows_of (set h'.write_history idx e))
    → IsRoom h
        (record h' { write_history = set h'.write_history idx e; next_row = next_row })
        thread_cnt
        m
        d
        m'
        idx
with_entry {h} {h'} {m' = m'} {idx = idx} e next_row r rows = record {
  cut = record {
    split = r.cut.split;
    ring = record {
      large = v.large;
      word = v.word;
      room = v.room;
      oldest_in = v.oldest_in;
      latest_at = v.latest_at;
      chain =
          chain_drop {e = entry h'} 0 m' (λ k l. same k l ∙ ap (entry h') (omega arith))
            (subst (IsChain (entry h')) (omega arith) v.chain);
      rows = rows;
    };
    same = λ k l. same k l ∙ r.cut.same k l;
    tuples = r.cut.tuples;
    flag = r.cut.flag;
    latch = r.cut.latch;
    longer = r.cut.longer;
  };
  free = r.free;
  index = r.index;
  loss = r.loss;
}
  where
    v : IsRing h' m'
    v = r.cut.ring

    same :
        (k : ℕ) → k ≤ m' → set h'.write_history idx e (slot h'.his_len h'.his_oldest k) ≡ entry h' k
    same k l = set_other h'.write_history e (λ z.
        slot_ne h'.his_len h'.his_oldest (suc m') k v.oldest_in r.free (omega (arith, l, v.room))
          (omega (arith, l)) (sym r.index ∙ z))

if_row : (b : Bool) (x y : WriteHisEntry) → (if b then x else y).row ≡ (if b then x.row else y.row)
if_row true x y = refl
if_row false x y = refl

allocate-Taken :
    {h h' : RowHekaton} {thread_cnt m d m' idx : ℕ}
    → IsRoom h h' thread_cnt m d m' idx
    → Taken h thread_cnt m d m' (allocate (h', idx))
unfolding allocate
allocate-Taken {h} {h'} {thread_cnt} {m} {d} {m'} {idx} r =
    elim (Bool-cases ((h'.write_history idx).row == 0)) [
      | inl t ↦ rw t (
        with_entry (fresh_entry (h'.write_history idx)) (h'.next_row + 1) r
            (rows_same row_at (rows_new idx r.cut.ring.rows)),
        given,
      )
      | inr t ↦ rw t (r, nonzero t)
    ]
  where
    fresh_entry : WriteHisEntry → WriteHisEntry
    fresh_entry e = record e { row = h'.next_row }

    row_at :
        (i : ℕ)
        → rows_of (set h'.write_history idx (fresh_entry (h'.write_history idx))) i
          ≡ set (rows_of h'.write_history) idx h'.next_row i
    row_at i = if_row (idx == i) (fresh_entry (h'.write_history idx)) (h'.write_history i)

    given : (set h'.write_history idx (fresh_entry (h'.write_history idx)) idx).row ≢ 0
    given z =
        let e : idx ≡ idx = refl in
        omega (
          arith,
          r.cut.ring.rows.not_null,
          z,
          row_at idx,
          set_at (rows_of h'.write_history) h'.next_row e,
        )

    nonzero : {n : ℕ} → (n == 0) ≡ false → n ≢ 0
    nonzero t = ground arith

-- Room for one more version, with a row for it, in which no version is lost but those that have ended and, in a
-- ring with an entry for each thread, the oldest.
pub record IsReserved (h : RowHekaton) (thread_cnt min_ts m d m' : ℕ) (h' : RowHekaton) (idx : ℕ)
    : Type 0 where
  pub cut : IsCut h h' m d m'
  pub free : suc m' < h'.his_len
  pub index : idx ≡ slot h'.his_len h'.his_oldest (suc m')
  pub new_row : (h'.write_history idx).row ≢ 0
  pub lost :
      (k : ℕ) → k < d → ((entry h k).end < min_ts) ⊎ ((suc k ≡ d) × (thread_cnt ≤ h'.his_len))

abbrev pub Reserved : RowHekaton → ℕ → ℕ → ℕ → RowHekaton × ℕ → Type 0
Reserved h thread_cnt min_ts m (h', idx) = (d m' : ℕ) × IsReserved h thread_cnt min_ts m d m' h' idx

lost_of :
    (h : RowHekaton) {thread_cnt min_ts len : ℕ} (d1 d2 : ℕ)
    → ((k : ℕ) → k < d1 → (entry h k).end < min_ts)
    → (d2 ≡ 0) ⊎ ((d2 ≡ 1) × (thread_cnt ≤ len))
    → (k : ℕ) → k < d1 + d2
    → ((entry h k).end < min_ts) ⊎ ((suc k ≡ d1 + d2) × (thread_cnt ≤ len))
lost_of h d1 d2 f (inl e) k l = inl (f k (omega (arith, e, l)))
lost_of h d1 d2 f (inr (e, t)) k l = elim (Bool-cases (ltb k d1)) [
  | inl b ↦ inl (f k (ground arith))
  | inr b ↦ inr (ground arith, t)
]

reserve_after :
    {h h1 : RowHekaton} {m d1 m1 : ℕ} (thread_cnt min_ts : ℕ)
    → IsCut h h1 m d1 m1
    → ((k : ℕ) → k < d1 → (entry h k).end < min_ts)
    → (p : RowHekaton × ℕ) → HasRoom h1 thread_cnt m1 p
    → Reserved h thread_cnt min_ts m (allocate p)
reserve_after {h} {h1} {d1 = d1} thread_cnt min_ts cut ended (h2, idx) (d2, m2, r) =
    let (room, new_row) = allocate-Taken r in
    (
      d1 + d2,
      m2,
      record {
        cut = cut_trans cut room.cut;
        free = room.free;
        index = room.index;
        new_row = new_row;
        lost = lost_of h d1 d2 ended (wider room.loss room.cut.longer);
      },
    )
  where
    wider :
        {d len len' : ℕ}
        → (d ≡ 0) ⊎ ((d ≡ 1) × (thread_cnt ≤ len))
        → len ≤ len'
        → (d ≡ 0) ⊎ ((d ≡ 1) × (thread_cnt ≤ len'))
    wider (inl e) l = inl e
    wider (inr (e, t)) l = inr (e, omega (arith, t, l))

pub take_entry-Reserved :
    {h : RowHekaton} {m : ℕ} (thread_cnt min_ts : ℕ) (memory : ℕ → WriteHisEntry)
    → IsRing h m
    → (entry h m).end ≡ inf
    → min_ts < 2 ^ 64
    → thread_cnt ≤ 2 ^ 31
    → Ensures (Reserved h thread_cnt min_ts m) (take_entry thread_cnt memory min_ts h)
unfolding take_entry
take_entry-Reserved {h} {m} thread_cnt min_ts memory v e w c =
    Ensures->>= (Collected v e min_ts w) (Reserved h thread_cnt min_ts m) (collect min_ts h)
      (λ h. done (allocate (choose thread_cnt memory h))) (collect-Collected v e min_ts w)
      (λ h1 (d1, m1, cut, ended).
        reserve_after thread_cnt min_ts cut ended (choose thread_cnt memory h1)
          (choose-HasRoom thread_cnt memory cut.ring c))
