-- ===== src/ManagerEnc/Draws.antt =====
-- The timestamps that a run of calls draws.
use veri_txn.Prelude.{
  ℕ, zero, suc, ◌+◌, ◌^◌, ◌<◌, ◌≤◌, ◌≡◌, refl, sym, ap, subst, ◌∙◌, Bool, true, false, List, [],
  ◌∷◌, if◌then◌else◌, length, arith, Outcome, done, ◌>>=◌, Ensures, Ensures->>=,
}
use veri_txn.ManagerEnc.{
  Config, ManagerEnc, TsAlloc, ts_mutex, ts_cas, ts_hw, ts_clock, switch, get_ts,
}

-- What a call takes: a batch, or one.
abbrev pub taken : Config → ℕ
taken cfg = if cfg.batch then cfg.batch_num else 1

-- The ways that are built: by mutex one by one, or by compare-and-swap with and without batches.
abbrev pub IsBuilt : TsAlloc → Bool → Type 0
IsBuilt ts_mutex false = Unit {0}
IsBuilt ts_cas batch = Unit {0}
IsBuilt _ _ = ⊥

abbrev pub draws : Config → ℕ → ManagerEnc → Outcome (List ℕ)
draws cfg zero m = done []
draws cfg (suc n) m = do (m, time) ← get_ts cfg m; rest ← draws cfg n m; done (time ∷ rest)

-- Each timestamp is at or above the bound, and what is taken with it ends before the next one.
abbrev pub IsSpaced : ℕ → ℕ → List ℕ → Type 0
IsSpaced gap low [] = Unit {0}
IsSpaced gap low (t ∷ r) = (low ≤ t) × IsSpaced gap (t + gap) r

-- The timestamp that the next call gives.
abbrev pub next_time : TsAlloc → ManagerEnc → ℕ
next_time ts_mutex m = m.timestamp + 1
next_time _ m = m.timestamp

-- Where `n` calls from `low` on come to.
abbrev pub end_of : ℕ → ℕ → ℕ → ℕ
end_of gap zero low = low
end_of gap (suc n) low = end_of gap n (low + gap)

end_of-bound : (gap n low : ℕ) → low ≤ end_of gap n low
end_of-bound gap zero low = omega arith
end_of-bound gap (suc n) low = omega (arith, end_of-bound gap n (low + gap))

-- One call: the next timestamp, and the one after it lies behind what is taken.
abbrev Drawn : TsAlloc → ℕ → ManagerEnc → ManagerEnc × ℕ → Type 0
Drawn alloc gap m (m', time) =
    (time ≡ next_time alloc m) × (next_time alloc m' ≡ next_time alloc m + gap)

get_ts-Drawn :
    (alloc : TsAlloc) (batch : Bool) (num : ℕ) (m : ManagerEnc)
    → IsBuilt alloc batch
    → next_time alloc m + (if batch then num else 1) < 2 ^ 64
    → Ensures
        (Drawn alloc (if batch then num else 1) m)
        (get_ts (record { alloc = alloc; batch = batch; batch_num = num }) m)
unfolding get_ts switch
get_ts-Drawn ts_mutex false num m b h = (omega (arith, h), omega (arith, h))
get_ts-Drawn ts_mutex true num m b h = absurd b
get_ts-Drawn ts_cas true num m b h = (refl, omega (arith, h))
get_ts-Drawn ts_cas false num m b h = (refl, omega (arith, h))
get_ts-Drawn ts_hw batch num m b h = absurd b
get_ts-Drawn ts_clock batch num m b h = absurd b

-- Calls of get_ts, as many as there are 64-bit timestamps for, by mutex one by one or by compare-and-swap with
-- and without batches, return with no failed assertion. The first timestamp is not before the
-- next one of the counter, and each lies behind the batch taken with the one before it, so no timestamp
-- is given twice unless a batch is empty.
pub draws-IsSpaced :
    (cfg : Config) (n : ℕ) (m : ManagerEnc)
    → IsBuilt cfg.alloc cfg.batch
    → end_of (taken cfg) n (next_time cfg.alloc m) < 2 ^ 64
    → Ensures (λ l. (length l ≡ n) × IsSpaced (taken cfg) (next_time cfg.alloc m) l) (draws cfg n m)
draws-IsSpaced cfg zero m b h = (refl, tt)
draws-IsSpaced cfg (suc n) m b h =
    let gap : ℕ = taken cfg in
    let low : ℕ = next_time cfg.alloc m in
    Ensures->>= (Drawn cfg.alloc gap m) (λ l. (length l ≡ suc n) × IsSpaced gap low l)
      (get_ts cfg m) _
      (get_ts-Drawn cfg.alloc cfg.batch cfg.batch_num m b
        (omega (arith, h, end_of-bound gap n (low + gap))))
      (λ (m', time) (t, next).
        Ensures->>= (λ l. (length l ≡ n) × IsSpaced gap (next_time cfg.alloc m') l)
          (λ l. (length l ≡ suc n) × IsSpaced gap low l) (draws cfg n m')
          (λ rest. done (time ∷ rest))
          (draws-IsSpaced cfg n m' b (subst (λ k. end_of gap n k < 2 ^ 64) (sym next) h))
          (λ rest (len, spaced). (
            ap suc len,
            (
              omega (arith, t),
              subst (λ k. IsSpaced gap k rest) (next ∙ ap (λ k. k + gap) (sym t)) spaced,
            ),
          )))
