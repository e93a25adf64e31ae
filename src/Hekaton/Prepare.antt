-- ===== src/Hekaton/Prepare.antt =====
-- What `Row_hekaton::prepare_read` says of a version that was read.
use veri_txn.Prelude.{
  ℕ, zero, suc, ◌≤◌, ◌<◌, ◌≡◌, sym, ap, subst, ◌∙◌, ◌≢◌, ◌⊎◌, inl, inr, true, false, ◌==◌,
  Bool-cases, arith, Ensures, Ensures-else, Ensures-if, Ensures-then, ==_refl, ==→eq, ==→ne,
}
use veri_txn.Hekaton.{
  RowHekaton, WriteHisEntry, Rc, rcok, abort, verdict, prepare_scan, prepare_read,
}
use veri_txn.Hekaton.Ring.{slot, slot_zero, slot_later, prev-slot, entry, IsRing}

-- The version may be read at `ts` and is there until `commit_ts`, unless a transaction is about to end it.
abbrev pub IsValidAt : WriteHisEntry → ℕ → ℕ → Type 0
IsValidAt e ts commit_ts = (e.begin ≤ ts) × ((e.end_txn ≡ true) ⊎ (commit_ts ≤ e.end))

-- The version begins after `ts`, or has ended before `commit_ts`.
abbrev pub IsStale : WriteHisEntry → ℕ → ℕ → Type 0
IsStale e ts commit_ts = (ts < e.begin) ⊎ ((e.end_txn ≡ false) × (e.end < commit_ts))

-- The read is accepted if its row is that of a version which is valid, and else aborted.
pub record Prepared (h : RowHekaton) (m ts commit_ts row : ℕ) (rc : Rc) : Type 0 where
  pub accepted :
      rc ≡ rcok → (k : ℕ) × (k ≤ m) × ((entry h k).row ≡ row) × IsValidAt (entry h k) ts commit_ts
  pub refused :
      rc ≡ abort
      → ((k : ℕ) → k ≤ m → (entry h k).row ≢ row)
        ⊎ ((k : ℕ) × (k ≤ m) × ((entry h k).row ≡ row) × IsStale (entry h k) ts commit_ts)

verdict_cases :
    (e : WriteHisEntry) (ts commit_ts : ℕ)
    → ((verdict ts commit_ts e ≡ rcok) × IsValidAt e ts commit_ts)
      ⊎ ((verdict ts commit_ts e ≡ abort) × IsStale e ts commit_ts)
verdict_cases e ts commit_ts = ground arith

pub rcok_not_abort : rcok ≡ abort → ⊥
rcok_not_abort e = ground arith

module _ {h : RowHekaton} {m : ℕ} (v : IsRing h m) (ts commit_ts row : ℕ) where
  found :
      (k : ℕ)
      → k ≤ m
      → (entry h k).row ≡ row
      → Prepared h m ts commit_ts row (verdict ts commit_ts (entry h k))
  found k l e = elim (verdict_cases (entry h k) ts commit_ts) [
    | inl (r, valid) ↦ record {
      accepted = λ _. (k, l, e, valid);
      refused = λ z. absurd (rcok_not_abort (sym r ∙ z));
    }
    | inr (r, stale) ↦ record {
      accepted = λ z. absurd (rcok_not_abort (sym z ∙ r));
      refused = λ _. inr (k, l, e, stale);
    }
  ]

  nowhere : ((k : ℕ) → k ≤ m → (entry h k).row ≢ row) → Prepared h m ts commit_ts row abort
  nowhere none = record { accepted = λ z. absurd (rcok_not_abort (sym z)); refused = λ _. inl none }

  -- The versions after `k` have other rows.
  abbrev Passed : ℕ → Type 0
  Passed k = (j : ℕ) → k < j → j ≤ m → (entry h j).row ≢ row

  pass :
      (k : ℕ)
      → Passed k
      → ((entry h k).row == row) ≡ false
      → (j : ℕ) → k ≤ j
      → j ≤ m
      → (entry h j).row ≢ row
  pass k f t j a b = elim (Bool-cases (k == j)) [
    | inl e ↦ subst (λ j. (entry h j).row ≢ row) (==→eq k j e) (==→ne (entry h k).row row t)
    | inr e ↦ f j (ne k j e a) b
  ]
    where
      ne : (i j : ℕ) → (i == j) ≡ false → i ≤ j → i < j
      ne i j e a = ground arith

  same_row : (a : ℕ) → (a == row) ≡ true → a ≡ row
  same_row a e = ground arith

  prepare_scan-Prepared :
      (fuel k : ℕ)
      → k < fuel
      → k ≤ m
      → Passed k
      → Ensures
          (Prepared h m ts commit_ts row)
          (prepare_scan fuel ts commit_ts row h (slot h.his_len h.his_oldest k))
  unfolding prepare_scan
  prepare_scan-Prepared zero k f l p = absurd (omega (arith, f))
  prepare_scan-Prepared (suc fuel) zero f l p =
      Ensures-if (Prepared h m ts commit_ts row) ((entry h 0).row == row) _ _
        (λ t. found 0 l (same_row (entry h 0).row t))
        (λ t.
          Ensures-then (Prepared h m ts commit_ts row) _ _
            (ap (λ i. i == h.his_oldest) (slot_zero h.his_len h.his_oldest v.oldest_in)
              ∙ ==_refl h.his_oldest)
            (nowhere (λ j b. pass 0 p t j (omega arith) b)))
  prepare_scan-Prepared (suc fuel) (suc k) f l p =
      Ensures-if (Prepared h m ts commit_ts row) ((entry h (suc k)).row == row) _ _
        (λ t. found (suc k) l (same_row (entry h (suc k)).row t))
        (λ t.
          Ensures-else (Prepared h m ts commit_ts row) _ _
            (slot_later h.his_len h.his_oldest k v.oldest_in (omega (arith, l, v.room)))
            (subst
              (λ i.
                Ensures (Prepared h m ts commit_ts row) (prepare_scan fuel ts commit_ts row h i))
              (sym (prev-slot h.his_len h.his_oldest k v.oldest_in (omega (arith, l, v.room))))
              (prepare_scan-Prepared fuel k (omega (arith, f)) (omega (arith, l))
                (λ j a b. pass (suc k) p t j a b))))

-- On a ring of versions in order under a free latch prepare_read returns. It accepts a read only of a row that
-- is that of a version which begins no later than the reader and does not end before the commit time, or whose
-- end a transaction is about to set; it aborts only if the row is that of no version, or the version begins
-- after the reader or has ended before the commit time.
pub prepare_read-Prepared :
    {h : RowHekaton} {m : ℕ} (ts commit_ts row : ℕ)
    → IsRing h m
    → h.blatch ≡ false
    → Ensures (Prepared h m ts commit_ts row) (prepare_read ts commit_ts row h)
unfolding prepare_read
prepare_read-Prepared {h} {m} ts commit_ts row v free =
    Ensures-else (Prepared h m ts commit_ts row) _ _ free (
      subst
        (λ i. Ensures (Prepared h m ts commit_ts row) (prepare_scan h.his_len ts commit_ts row h i))
        (sym v.latest_at)
        (prepare_scan-Prepared v ts commit_ts row h.his_len m v.room (omega arith)
          (λ j a b. absurd (omega (arith, a, b)))))
