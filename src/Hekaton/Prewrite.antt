-- ===== src/Hekaton/Prewrite.antt =====
-- What a prewrite does to the versions of a row: `Row_hekaton::access` with P_REQ.
use veri_txn.Prelude.{
  set, set_at, set_other, ℕ, suc, ◌+◌, ◌^◌, ◌≤◌, ◌<◌, ◌≡◌, refl, sym, ap, subst, ◌∙◌, ◌≢◌, ◌⊎◌, inl,
  inr, Bool, true, false, not, ◌||◌, ltb, ◌==◌, if◌then◌else◌, arith, Outcome, done, fault, ◌>>=◌,
  Bool-cases, Ensures, Ensures-else, Ensures->>=,
}
use veri_txn.Hekaton.{
  RowHekaton, WriteHisEntry, Result, rcok, abort, p_req, inf, latest, take_entry, fill_entry,
  reserve_row, mark, copy_latest, prewrite, access,
}
use veri_txn.Hekaton.Ring.{slot, slot_lt, slot_ne, entry, IsRing, IsPending, last_version}
use veri_txn.Hekaton.Take.{IsReserved, Reserved, take_entry-Reserved}
use veri_txn.Hekaton.Mark.{
  mark-with_mark, with_mark-IsRing, with_mark-IsPending, marked_begin, marked_rows,
}

-- The transaction has a copy of the last version behind it, and the versions are those from before but for the
-- first `d`, which have ended before `min_ts`, or of which the last made way in a ring with an entry for each thread.
pub record IsPrewritten (h : RowHekaton) (thread_cnt min_ts m txn_id d m' : ℕ) (h' : RowHekaton)
    (r : Result) : Type 0 where
  pub split : d + m' ≡ m
  pub ring : IsRing h' m'
  pub pending : IsPending h' m' txn_id
  pub begins : (k : ℕ) → k ≤ m' → (entry h' k).begin ≡ (entry h (d + k)).begin
  pub rows : (k : ℕ) → k ≤ m' → (entry h' k).row ≡ (entry h (d + k)).row
  pub tuples : (k : ℕ) → k ≤ m' → h'.tuple (entry h' k).row ≡ h.tuple (entry h (d + k)).row
  pub lost :
      (k : ℕ) → k < d → ((entry h k).end < min_ts) ⊎ ((suc k ≡ d) × (thread_cnt ≤ h'.his_len))
  pub accepted : r.rc ≡ rcok
  pub new_row : r.cur_row ≡ (entry h' (suc m')).row
  pub copied : h'.tuple r.cur_row ≡ h.tuple (entry h m).row
  pub unlatched : h'.blatch ≡ h.blatch

pub Prewritten : RowHekaton → ℕ → ℕ → ℕ → ℕ → RowHekaton × Result → Type 0
Prewritten h thread_cnt min_ts m txn_id (h', r) =
    (d m' : ℕ) × IsPrewritten h thread_cnt min_ts m txn_id d m' h' r

with_tuple-IsRing :
    {h : RowHekaton} {m : ℕ} (t : ℕ → ℕ) → IsRing h m → IsRing (record h { tuple = t }) m
with_tuple-IsRing t v = record {
  large = v.large;
  word = v.word;
  room = v.room;
  oldest_in = v.oldest_in;
  latest_at = v.latest_at;
  chain = v.chain;
  rows = v.rows;
}

with_tuple-IsPending :
    {h : RowHekaton} {m txn_id : ℕ} (t : ℕ → ℕ)
    → IsPending h m txn_id
    → IsPending (record h { tuple = t }) m txn_id
with_tuple-IsPending t p = record {
  one_writes = p.one_writes;
  ends = p.ends;
  free = p.free;
  begins = p.begins;
  owner = p.owner;
  new_row = p.new_row;
}

-- The rows of the versions are not that of the reserved entry.
other_row :
    {h : RowHekaton} {m : ℕ}
    → IsRing h m
    → suc m < h.his_len
    → (entry h (suc m)).row ≢ 0
    → (k : ℕ) → k ≤ m
    → (entry h (suc m)).row ≢ (entry h k).row
other_row {h} {m} v free new_row k l e =
    slot_ne h.his_len h.his_oldest (suc m) k v.oldest_in free (omega (arith, l, free))
      (omega (arith, l))
      (v.rows.apart (slot h.his_len h.his_oldest (suc m)) (slot h.his_len h.his_oldest k)
        (slot_lt h.his_len h.his_oldest (suc m) v.oldest_in (omega (arith, free)))
        (slot_lt h.his_len h.his_oldest k v.oldest_in (omega (arith, l, free))) new_row e)

with_flag-IsRing :
    {h : RowHekaton} {m : ℕ} → IsRing h m → IsRing (record h { exists_prewrite = true }) m
with_flag-IsRing v = record {
  large = v.large;
  word = v.word;
  room = v.room;
  oldest_in = v.oldest_in;
  latest_at = v.latest_at;
  chain = v.chain;
  rows = v.rows;
}

copies :
    (h : RowHekaton) {h' g : RowHekaton} {thread_cnt min_ts m txn_id d m' idx : ℕ}
    → IsReserved (record h { exists_prewrite = true }) thread_cnt min_ts m d m' h' idx
    → IsRing g m'
    → IsPending g m' txn_id
    → idx ≡ slot g.his_len g.his_oldest (suc m')
    → ((k : ℕ) → k ≤ m' → (entry g k).begin ≡ (entry h' k).begin)
    → ((k : ℕ) → k ≤ m' → (entry g k).row ≡ (entry h' k).row)
    → g.tuple ≡ h'.tuple
    → g.his_len ≡ h'.his_len
    → g.blatch ≡ h'.blatch
    → Ensures (Prewritten h thread_cnt min_ts m txn_id) (copy_latest idx g)
unfolding copy_latest Prewritten
copies h {h'} {g} {thread_cnt} {min_ts} {m} {txn_id} {d} {m'} {idx} r v p at begin_same row_same
      tuples len latch =
    Ensures-else (Prewritten h thread_cnt min_ts m txn_id) _ _
      (nonzero (λ z. p.new_row (sym (ap row_at at) ∙ z)))
      (
        d,
        m',
        record {
          split = r.cut.split;
          ring = with_tuple-IsRing t v;
          pending = with_tuple-IsPending t p;
          begins = λ k l. begin_same k l ∙ ap (λ e. e.begin) (r.cut.same k l);
          rows = same_row;
          tuples = λ k l.
              set_other g.tuple x (λ e. other_row v p.free p.new_row k l (sym (ap row_at at) ∙ e))
              ∙ ap (λ t. t (entry g k).row) (tuples ∙ r.cut.tuples)
              ∙ ap h.tuple (same_row k l);
          lost = λ k l. rw len (r.lost k l);
          accepted = refl;
          new_row = ap row_at at;
          copied =
              set_at g.tuple x same_idx
              ∙ ap (λ t. t (latest g).row) (tuples ∙ r.cut.tuples)
              ∙ ap (λ e. h.tuple e.row) (last_version v)
              ∙ ap h.tuple (same_row m' (omega arith) ∙ ap (λ k. (entry h k).row) r.cut.split);
          unlatched = latch ∙ r.cut.latch;
        },
      )
  where
    row_at : ℕ → ℕ
    row_at i = (g.write_history i).row

    x : ℕ
    x = g.tuple (latest g).row

    t : ℕ → ℕ
    t = set g.tuple (row_at idx) x

    same_row : (k : ℕ) → k ≤ m' → (entry g k).row ≡ (entry h (d + k)).row
    same_row k l = row_same k l ∙ ap (λ e. e.row) (r.cut.same k l)

    same_idx : row_at idx ≡ row_at idx
    same_idx = refl

    nonzero : {n : ℕ} → n ≢ 0 → (n == 0) ≡ false
    nonzero n = ground arith

-- The reserved entry is marked, and takes the data of the last version.
mark_copies :
    (h : RowHekaton) {h' : RowHekaton} {thread_cnt min_ts m d m' idx : ℕ} (txn_id : ℕ)
    → IsReserved (record h { exists_prewrite = true }) thread_cnt min_ts m d m' h' idx
    → Ensures (Prewritten h thread_cnt min_ts m txn_id) (copy_latest idx (mark txn_id idx h'))
mark_copies h {h'} {thread_cnt} {min_ts} {m} {m' = m'} {idx = idx} txn_id r =
    let v = r.cut.ring in
    let new_row : (entry h' (suc m')).row ≢ 0 =
      λ z. r.new_row (ap (λ i. (h'.write_history i).row) r.index ∙ z) in
    subst (λ g. Ensures (Prewritten h thread_cnt min_ts m txn_id) (copy_latest idx g))
      (sym (mark-with_mark txn_id v r.free new_row) ∙ ap (λ i. mark txn_id i h') (sym r.index))
      (copies h r (with_mark-IsRing txn_id v r.free new_row)
        (with_mark-IsPending txn_id v r.free new_row r.cut.flag) r.index
        (marked_begin txn_id v r.free new_row)
        (λ k l. marked_rows txn_id v r.free new_row (slot h'.his_len h'.his_oldest k)) refl refl
        refl)

-- What a prewrite answers, and what becomes of the ring if get_min_ts gives `min_ts`.
pub record PrewriteResult (h : RowHekaton) (thread_cnt min_ts m txn_id ts : ℕ)
    (memory : ℕ → WriteHisEntry) (o : Outcome (RowHekaton × Result)) : Type 0 where
  pub answer : o ≡ (
      if h.exists_prewrite || ltb ts (entry h m).begin
      then done (h, record { rc = abort; cur_row = 0 })
      else fault)
  pub reserved :
      (h.exists_prewrite ≡ true)
      ⊎ Ensures (Prewritten h thread_cnt min_ts m txn_id) (
          take_entry thread_cnt memory min_ts (record h { exists_prewrite = true })
          >>= fill_entry txn_id)

-- On a ring of versions in order under a free latch, a prewrite is refused, and leaves the ring as it is, if a
-- transaction has a version of its own or the last version begins after its time. Every other prewrite fails
-- an assertion, that of get_min_ts, which reserveRow calls first. What the code behind this call does is
-- stated for any 64-bit number as its answer and at most 2 ^ 31 threads: if no transaction has a version of
-- its own, and the last version has no end then, it returns with no failed assertion, whether or not the ring
-- is full. The ring is in order then, and the transaction has a row behind the last version, with its data;
-- the versions and their data are those from before, but for the oldest ones, which ended before that number,
-- or, the last of them, made way in a ring with an entry for each thread.
pub access-PrewriteResult :
    {h : RowHekaton} {m : ℕ} (repeatable : Bool) (thread_cnt min_ts txn_id ts : ℕ)
    (memory : ℕ → WriteHisEntry)
    → IsRing h m
    → h.blatch ≡ false
    → (h.exists_prewrite ≡ false → (entry h m).end ≡ inf)
    → min_ts < 2 ^ 64
    → thread_cnt ≤ 2 ^ 31
    → PrewriteResult h thread_cnt min_ts m txn_id ts memory
        (access repeatable thread_cnt memory txn_id ts p_req h)
unfolding access prewrite reserve_row fill_entry
access-PrewriteResult {h} {m} repeatable thread_cnt min_ts txn_id ts memory v free ends w c =
    let last : not ((latest h).end == inf || (latest h).end_txn) ≡ false =
      ap not (ap (λ e. e.end == inf || e.end_txn) (last_version v) ∙ v.chain.last_end) in
    record {
      answer = rw (free, last, last_version v) refl;
      reserved = elim (Bool-cases h.exists_prewrite) [
        | inl t ↦ inl t
        | inr b ↦ inr (filled (ends b))
      ];
    }
  where
    hp : RowHekaton
    hp = record h { exists_prewrite = true }

    filled :
        (entry h m).end ≡ inf
        → Ensures
            (Prewritten h thread_cnt min_ts m txn_id)
            (take_entry thread_cnt memory min_ts hp >>= fill_entry txn_id)
    filled e =
        Ensures->>= (Reserved hp thread_cnt min_ts m) (Prewritten h thread_cnt min_ts m txn_id)
          (take_entry thread_cnt memory min_ts hp) _
          (take_entry-Reserved thread_cnt min_ts memory (with_flag-IsRing v) e w c)
          (λ x (d, m', r). mark_copies h txn_id r)
