-- ===== src/Hekaton/Reads.antt =====
-- What `Row_hekaton::access` gives a reader.
use veri_txn.Prelude.{
  ℕ, zero, suc, ◌≤◌, ◌<◌, ◌≡◌, refl, sym, ap, subst, ◌∙◌, ◌≢◌, ◌⊎◌, inl, inr, Bool, false, not,
  ◌||◌, ltb, ◌==◌, if◌then◌else◌, Outcome, done, Ensures, Ensures-mono, Ensures->>=, Ensures-else,
  ◌>>=◌, arith,
}
use veri_txn.Hekaton.{
  RowHekaton, WriteHisEntry, Result, rcok, abort, r_req, inf, read_scan, read_req, access,
}
use veri_txn.Hekaton.Ring.{slot, entry, slot_later, prev-slot, IsRing, first_version, last_version}

-- `row` is that of the last version that begins before `ts`.
abbrev pub Serves : RowHekaton → ℕ → ℕ → ℕ → Type 0
Serves h m ts row =
    (k : ℕ) × (k ≤ m)
    × ((entry h k).begin < ts)
    × (k < m → ts < (entry h (suc k)).begin)
    × (row ≡ (entry h k).row)

-- `ts` is not the time of a version.
abbrev pub IsFresh : RowHekaton → ℕ → ℕ → Type 0
IsFresh h m ts = (k : ℕ) → k ≤ m → (entry h k).begin ≢ ts

-- One round of the scan, at the entry `e`.
scan_round :
    (e : WriteHisEntry) (ts : ℕ) (at_oldest : Bool) (rest : Outcome ℕ) (P : ℕ → Type 0)
    → (e.begin < ts → ts < e.end)
    → (e.begin < ts → P e.row)
    → (ts ≤ e.begin → at_oldest ≡ false)
    → (ts ≤ e.begin → Ensures P rest)
    → Ensures P (
        if ltb e.begin ts
        then (if ltb ts e.end then done e.row else Outcome.fault)
        else (if at_oldest then Outcome.fault else rest))
scan_round e ts at_oldest rest P a b c d = ground arith

module _ {h : RowHekaton} {m : ℕ} (v : IsRing h m) (ts : ℕ) (fresh : IsFresh h m ts) where
  -- The scan from a version that begins after `ts`.
  pub read_scan-finds :
      (fuel k : ℕ)
      → k < fuel
      → suc k ≤ m
      → (entry h 0).begin < ts
      → ts < (entry h (suc k)).begin
      → Ensures (Serves h m ts) (read_scan fuel ts h (slot h.his_len h.his_oldest (suc k)))
  unfolding read_scan
  read_scan-finds zero k f a after before = absurd (omega (arith, f))
  read_scan-finds (suc fuel) zero f a after before =
      rw (prev-slot h.his_len h.his_oldest 0 v.oldest_in (omega (arith, a, v.room))) (
        scan_round (entry h 0) ts (slot h.his_len h.his_oldest 0 == h.his_oldest)
          (read_scan fuel ts h (slot h.his_len h.his_oldest 0)) (Serves h m ts)
          (λ l. omega (arith, before, v.chain.meets 0 a))
          (λ l. (0, omega (arith, a), l, (λ c. before), refl))
          (λ l. absurd (omega (arith, after, l))) (λ l. absurd (omega (arith, after, l))))
  read_scan-finds (suc fuel) (suc k) f a after before =
      rw (prev-slot h.his_len h.his_oldest (suc k) v.oldest_in (omega (arith, a, v.room))) (
        scan_round (entry h (suc k)) ts (slot h.his_len h.his_oldest (suc k) == h.his_oldest)
          (read_scan fuel ts h (slot h.his_len h.his_oldest (suc k))) (Serves h m ts)
          (λ l. omega (arith, before, v.chain.meets (suc k) a))
          (λ l. (suc k, omega (arith, a), l, (λ c. before), refl))
          (λ l. slot_later h.his_len h.his_oldest k v.oldest_in (omega (arith, a, v.room)))
          (λ l.
            read_scan-finds fuel k (omega (arith, f)) (omega (arith, a)) after
              (omega (arith, l, fresh (suc k) (omega (arith, a))))))

-- A reader at a time before all versions is aborted, and any other has the version of its time.
pub ReadsAt : RowHekaton → ℕ → ℕ → Result → Type 0
ReadsAt h m ts r =
    ((r.rc ≡ abort) × (ts < (entry h 0).begin)) ⊎ ((r.rc ≡ rcok) × Serves h m ts r.cur_row)

-- The branches of a reader, over what the oldest and the latest entries say.
read_branches :
    (ts first last row : ℕ) (scan : Outcome ℕ) (P : Result → Type 0)
    → (ts < first → P (record { rc = abort; cur_row = 0 }))
    → (last < ts → P (record { rc = rcok; cur_row = row }))
    → (first ≤ ts → ts ≤ last → Ensures (λ x. P (record { rc = rcok; cur_row = x })) scan)
    → Ensures P (
        if ltb ts first
        then done (record { rc = abort; cur_row = 0 })
        else (if ltb last ts
            then done (record { rc = rcok; cur_row = row })
            else scan >>= λ x. done (record { rc = rcok; cur_row = x })))
read_branches ts first last row (done x) P a b c = ground arith
read_branches ts first last row Outcome.blocked P a b c = ground arith
read_branches ts first last row Outcome.fault P a b c = ground arith

-- The scan of a reader between the oldest version and the latest.
scan_latest :
    {h : RowHekaton} {m : ℕ} (v : IsRing h m) (ts : ℕ)
    → IsFresh h m ts
    → (entry h 0).begin ≤ ts
    → ts ≤ (entry h m).begin
    → Ensures (Serves h m ts) (read_scan h.his_len ts h h.his_latest)
scan_latest {m = zero} v ts fresh a b = absurd (fresh 0 (omega arith) (omega (arith, a, b)))
scan_latest {h} {m = suc k} v ts fresh a b =
    subst (λ i. Ensures (Serves h (suc k) ts) (read_scan h.his_len ts h i)) (sym v.latest_at)
      (read_scan-finds v ts fresh h.his_len k (omega (arith, v.room)) (omega arith)
        (omega (arith, a, fresh 0 (omega arith))) (omega (arith, b, fresh (suc k) (omega arith))))

pub read_req-Reads :
    {h : RowHekaton} {m : ℕ} (ts : ℕ)
    → IsRing h m
    → IsFresh h m ts
    → Ensures (ReadsAt h m ts) (read_req false ts h)
unfolding read_req ReadsAt
read_req-Reads {h} {m} ts v fresh =
    rw (first_version v, last_version v)
      (read_branches ts (entry h 0).begin (entry h m).begin (entry h m).row
        (read_scan h.his_len ts h h.his_latest) (ReadsAt h m ts) (λ l. inl (refl, l))
        (λ l. inr (refl, (m, omega arith, l, (λ c. absurd (omega (arith, c))), refl)))
        (λ a b.
          Ensures-mono (Serves h m ts) (λ x. ReadsAt h m ts (record { rc = rcok; cur_row = x }))
            (read_scan h.his_len ts h h.his_latest) (λ x s. inr (refl, s))
            (scan_latest v ts fresh a b)))

-- On a ring of versions in order under a free latch, and not under REPEATABLE_READ, a read at a time that is
-- not that of a version returns with no failed assertion and leaves the ring as it is: it is aborted if the
-- oldest version begins after its time, and else it gets the row of the last version that begins before its
-- time.
pub access-ReadsAt :
    {h : RowHekaton} {m : ℕ} (thread_cnt : ℕ) (memory : ℕ → WriteHisEntry) (txn_id ts : ℕ)
    → IsRing h m
    → h.blatch ≡ false
    → IsFresh h m ts
    → Ensures
        (λ r. (r.0 ≡ h) × ReadsAt h m ts r.1)
        (access false thread_cnt memory txn_id ts r_req h)
unfolding access
access-ReadsAt {h} {m} thread_cnt memory txn_id ts v free fresh =
    let P : RowHekaton × Result → Type 0 = λ r. (r.0 ≡ h) × ReadsAt h m ts r.1 in
    Ensures-else P _ _ free (
      Ensures-else P _ _
        (ap not (ap (λ e. e.end == inf || e.end_txn) (last_version v) ∙ v.chain.last_end))
        (Ensures->>= (ReadsAt h m ts) P (read_req false ts h) (λ r. done (h, r))
          (read_req-Reads ts v fresh) (λ r s. (refl, s))))
