-- ===== src/Plock/Tests.antt =====
-- A partition whose owner has two younger transactions behind it.
use veri_txn.Prelude.{
  ℕ, ◌+◌, ◌≡◌, refl, some, true, arith, inl, Ensures, [], ◌∷◌, ◌*◌, if◌then◌else◌, ◌==◌,
}
use veri_txn.Plock.{Txn, PartMan, Ready, wait, lock, unlock, lock_parts, init}
use veri_txn.Plock.Spec.{IsValid}
use veri_txn.Plock.Acquire.{lock-IsValid, Answers}
use veri_txn.Plock.HandOver.{unlock-IsValid, Unlocked}

abbrev queue : ℕ → Txn
queue i = record { id = i + 1; ts = 10 * i + 10 }

abbrev nothing_left : Ready
nothing_left i = 0

abbrev busy : PartMan
busy = record { owner = some (record { id = 0; ts = 5 }); waiter_cnt = 2; waiters = queue }

busy-IsValid : IsValid busy
busy-IsValid = record { rising = λ i j l m. omega arith; younger = λ i l. omega arith }

lock-IsValid_example :
    Ensures
      (λ r. IsValid r.0 × Answers (record { id = 9; ts = 15 }) busy r)
      (lock 4 (record { id = 9; ts = 15 }) busy nothing_left)
lock-IsValid_example =
    lock-IsValid 4 (record { id = 9; ts = 15 }) busy nothing_left (omega arith) (λ i l. omega arith)
      busy-IsValid

unlock-IsValid_example :
    Ensures (λ r. IsValid r.0 × Unlocked 0 busy true r) (unlock 0 busy nothing_left)
unlock-IsValid_example = unlock-IsValid 0 busy nothing_left (inl refl) busy-IsValid

-- A partition is free, the other one is held by an older transaction: the younger one waits for it.
two_parts :
    Ensures
      (λ r. (r.2 ≡ wait) × (r.1 9 ≡ 1))
      (lock_parts 4
        (record { id = 9; ts = 15 })
        (0 ∷ (1 ∷ []))
        (λ part. if part == 0 then init queue else busy)
        nothing_left)
unfolding lock_parts init
two_parts = (refl, refl)
