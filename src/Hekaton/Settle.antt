-- ===== src/Hekaton/Settle.antt =====
-- What `Row_hekaton::post_process` makes of the version of a transaction that commits or aborts.
use veri_txn.Prelude.{
  set, set_at, set_other, ℕ, suc, ◌≤◌, ◌<◌, ◌≡◌, refl, sym, ap, subst, ◌∙◌, ◌≢◌, Bool, true, false,
  not, ◌&&◌, ◌||◌, ltb, ◌==◌, ==_refl, lt→ltb, arith, done, Ensures, Ensures-else,
}
use veri_txn.Hekaton.{
  RowHekaton, WriteHisEntry, Rc, rcok, abort, next, inf, latest, commit, withdraw, post_process,
}
use veri_txn.Hekaton.Ring.{
  slot, slot_ne, slot_later, entry, IsRing, IsOpen, IsPending, last_version, latest_ne, next_latest,
}
use veri_txn.Hekaton.Chains.{chain_last, chain_extend, rows_same}

-- The versions of `h` stand in `h'` too, but for where the last one ends.
pub record Keeps (h h' : RowHekaton) (m : ℕ) : Type 0 where
  pub before : (k : ℕ) → k < m → entry h' k ≡ entry h k
  pub last_begin : (entry h' m).begin ≡ (entry h m).begin
  pub last_row : (entry h' m).row ≡ (entry h m).row
  pub tuples : h'.tuple ≡ h.tuple

-- The version of the transaction is the last one, from `commit_ts` on.
pub record IsCommitted (h : RowHekaton) (m commit_ts : ℕ) (h' : RowHekaton) : Type 0 where
  pub ring : IsRing h' (suc m)
  pub opened : IsOpen h' (suc m)
  pub keeps : Keeps h h' m
  pub new_begin : (entry h' (suc m)).begin ≡ commit_ts
  pub new_row : (entry h' (suc m)).row ≡ (entry h (suc m)).row

pub record IsWithdrawn (h : RowHekaton) (m : ℕ) (h' : RowHekaton) : Type 0 where
  pub ring : IsRing h' m
  pub opened : IsOpen h' m
  pub keeps : Keeps h h' m

pub Settles : RowHekaton → ℕ → ℕ → Rc → RowHekaton → Type 0
Settles h m commit_ts rcok h' = IsCommitted h m commit_ts h'
Settles h m commit_ts abort h' = IsWithdrawn h m h'

set_row :
    (f : ℕ → WriteHisEntry) (i : ℕ) (e : WriteHisEntry)
    → e.row ≡ (f i).row
    → (j : ℕ) → (set f i e j).row ≡ (f j).row
set_row f i e r j = ground arith

module _ {h : RowHekaton} {m txn_id : ℕ} (v : IsRing h m) (p : IsPending h m txn_id) where
  abbrev closed : WriteHisEntry → ℕ → WriteHisEntry
  closed e ts = record e { end_txn = false; end = ts }

  -- The ring with the last version closed at `ts`.
  close_at : ℕ → ℕ → WriteHisEntry
  close_at ts = set h.write_history h.his_latest (closed (latest h) ts)

  abbrev at : ℕ → ℕ
  at k = slot h.his_len h.his_oldest k

  close_before : (ts k : ℕ) → k < h.his_len → k ≢ m → close_at ts (at k) ≡ entry h k
  unfolding close_at
  close_before ts k l n = set_other h.write_history (closed (latest h) ts) (latest_ne v k l n)

  close_last : (ts : ℕ) → close_at ts (at m) ≡ closed (entry h m) ts
  unfolding close_at
  close_last ts =
      set_at h.write_history (closed (latest h) ts) v.latest_at
      ∙ ap (λ e. closed e ts) (last_version v)

  close_rows : (ts i : ℕ) → (close_at ts i).row ≡ (h.write_history i).row
  unfolding close_at
  close_rows ts i = set_row h.write_history h.his_latest (closed (latest h) ts) refl i

  pub withdraw-Withdrawn : IsWithdrawn h m (withdraw h)
  unfolding withdraw close_at
  withdraw-Withdrawn = record {
    ring = record {
      large = v.large;
      word = v.word;
      room = v.room;
      oldest_in = v.oldest_in;
      latest_at = v.latest_at;
      chain =
          chain_last m before (ap (λ e. e.begin) (close_last inf))
            (ap (λ e. e.row) (close_last inf)) v.chain
            (ap (λ e. e.end == inf || e.end_txn) (close_last inf));
      rows = rows_same (close_rows inf) v.rows;
    };
    opened = record { none_writes = refl; no_end = ap (λ e. e.end) (close_last inf) };
    keeps = record {
      before = before;
      last_begin = ap (λ e. e.begin) (close_last inf);
      last_row = ap (λ e. e.row) (close_last inf);
      tuples = refl;
    };
  }
    where
      before : (k : ℕ) → k < m → close_at inf (at k) ≡ entry h k
      before k l = close_before inf k (omega (arith, l, v.room)) (omega (arith, l))

  abbrev installed : ℕ → WriteHisEntry → WriteHisEntry
  installed ts e = record e { begin = ts; end = inf }

  -- The ring with the new version after it.
  install_at : ℕ → ℕ → WriteHisEntry
  unfolding close_at
  install_at ts = set (close_at ts) (at (suc m)) (installed ts (close_at ts (at (suc m))))

  install_upto : (ts k : ℕ) → k ≤ m → install_at ts (at k) ≡ close_at ts (at k)
  unfolding install_at close_at
  install_upto ts k l = set_other (close_at ts) (installed ts (close_at ts (at (suc m)))) (
      slot_ne h.his_len h.his_oldest (suc m) k v.oldest_in p.free (omega (arith, l, v.room))
        (omega (arith, l)))

  install_new : (ts : ℕ) → install_at ts (at (suc m)) ≡ installed ts (entry h (suc m))
  unfolding install_at close_at
  install_new ts =
      set_at (close_at ts) (installed ts (close_at ts (at (suc m)))) refl
      ∙ ap (installed ts) (close_before ts (suc m) p.free (omega arith))

  install_rows : (ts i : ℕ) → (install_at ts i).row ≡ (h.write_history i).row
  unfolding install_at close_at
  install_rows ts i =
      set_row (close_at ts) (at (suc m)) (installed ts (close_at ts (at (suc m)))) refl i
      ∙ close_rows ts i

  pub commit-Committed :
      (ts : ℕ)
      → (entry h m).begin < ts
      → Ensures (IsCommitted h m ts) (commit ts (next h.his_len h.his_latest) h)
  unfolding commit install_at close_at
  commit-Committed ts g = rw (next_latest v) (
      Ensures-else (IsCommitted h m ts)
        {t = not (ltb (latest h).begin ts) || (at (suc m) == h.his_oldest)} _ _
        (refuses (last_version v) (lt→ltb (entry h m).begin ts g)
          (slot_later h.his_len h.his_oldest m v.oldest_in p.free))
        (record {
          ring = record {
            large = v.large;
            word = v.word;
            room = p.free;
            oldest_in = v.oldest_in;
            latest_at = refl;
            chain =
                chain_extend m before (ap (λ e. e.begin) last) (ap (λ e. e.row) last) v.chain later
                  (ap (λ e. e.end) last ∙ sym (ap (λ e. e.begin) (install_new ts)))
                  (ap (λ e. e.end_txn) last)
                  (λ z. p.new_row (sym (ap (λ e. e.row) (install_new ts)) ∙ z))
                  (ap (λ e. e.end == inf || e.end_txn) (install_new ts));
            rows = rows_same (install_rows ts) v.rows;
          };
          opened = record { none_writes = refl; no_end = ap (λ e. e.end) (install_new ts) };
          keeps = record {
            before = before;
            last_begin = ap (λ e. e.begin) last;
            last_row = ap (λ e. e.row) last;
            tuples = refl;
          };
          new_begin = ap (λ e. e.begin) (install_new ts);
          new_row = ap (λ e. e.row) (install_new ts);
        }))
    where
      refuses :
          {e e' : WriteHisEntry} {b : Bool}
          → e ≡ e'
          → ltb e'.begin ts ≡ true
          → b ≡ false
          → (not (ltb e.begin ts) || b) ≡ false
      refuses a c d = rw (a, c, d) refl

      before : (k : ℕ) → k < m → install_at ts (at k) ≡ entry h k
      before k l =
          install_upto ts k (omega (arith, l))
          ∙ close_before ts k (omega (arith, l, v.room)) (omega (arith, l))

      last : install_at ts (at m) ≡ closed (entry h m) ts
      last = install_upto ts m (omega arith) ∙ close_last ts

      later : (install_at ts (at m)).begin < (install_at ts (at (suc m))).begin
      later =
          subst (λ b. b < (install_at ts (at (suc m))).begin) (sym (ap (λ e. e.begin) last))
            (subst (λ b. (entry h m).begin < b) (sym (ap (λ e. e.begin) (install_new ts))) g)

  is_owner : WriteHisEntry → Bool
  is_owner e = e.begin_txn && (e.begin == txn_id)

  owned : is_owner (h.write_history (next h.his_len h.his_latest)) ≡ true
  unfolding is_owner
  owned =
      ap (λ i. is_owner (h.write_history i)) (next_latest v)
      ∙ rw (p.begins, p.owner) (==_refl txn_id)

  settle :
      (commit_ts : ℕ) (rc : Rc)
      → (rc ≡ rcok → (entry h m).begin < commit_ts)
      → Ensures (Settles h m commit_ts rc) (elim rc [
        | rcok ↦ commit commit_ts (next h.his_len h.his_latest) h
        | abort ↦ done (withdraw h)
      ])
  unfolding Settles
  settle commit_ts rcok g = commit-Committed commit_ts (g refl)
  settle commit_ts abort g = withdraw-Withdrawn

-- post_process, under a free latch, of the transaction that has the entry after the last version of a ring
-- in order returns with no failed assertion, if it commits at a time after that version. The ring is in
-- order again, no transaction has a version of its own, and the versions are those from before, with the
-- data that they had; after a commit the transaction's row is one more version from the commit time on,
-- after an abort there is none.
pub post_process-Settles :
    {h : RowHekaton} {m txn_id : ℕ} (commit_ts : ℕ) (rc : Rc)
    → IsRing h m
    → IsPending h m txn_id
    → h.blatch ≡ false
    → (rc ≡ rcok → (entry h m).begin < commit_ts)
    → Ensures (Settles h m commit_ts rc) (post_process txn_id commit_ts rc h)
unfolding post_process is_owner
post_process-Settles {h} {m} {txn_id} commit_ts rc v p free g =
    Ensures-else (Settles h m commit_ts rc) _ _ free
      (Ensures-else (Settles h m commit_ts rc) _ _ (ap not (owned v p)) (settle v p commit_ts rc g))
