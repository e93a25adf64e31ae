-- ===== src/DlDetect/Tests.antt =====
-- Two transactions that wait for each other.
use mathlib.Core.List.{Memᴰ}
use mathlib.Core.List.Memᴰ
use veri_txn.Prelude.{
  ℕ, ◌+◌, List, All, subst, sym, Bool-cases, inl, inr, ◌<◌, ◌^◌, ◌≡◌, refl, true, false, some, none,
  [], ◌∷◌, if◌then◌else◌, ◌==◌, arith, done, Ensures,
}
use veri_txn.DlDetect.{Graph, add_dep, clear_dep, detect_cycle, invalid}
use veri_txn.DlDetect.Spec.{HasCycle}
use veri_txn.DlDetect.Search.{detect_cycle-finds}

abbrev idle : Graph
idle j = record { adj = []; txnid = invalid; num_locks = 0 }

-- Transaction 5 of thread 1 has two locks, transaction 6 of thread 2 has three.
abbrev crossed : Graph
crossed j =
    if j == 1
    then record { adj = 6 ∷ []; txnid = 5; num_locks = 2 }
    else (if j == 2
        then record { adj = 5 ∷ []; txnid = 6; num_locks = 3 }
        else record { adj = []; txnid = invalid; num_locks = 0 })

added : add_dep 4 6 (5 ∷ []) 3 (add_dep 4 5 (6 ∷ []) 2 idle) 1 ≡ crossed 1
unfolding add_dep
added = refl

cleared : detect_cycle 0 4 (clear_dep 4 6 crossed) 5 ≡ done (false, none)
unfolding detect_cycle clear_dep
cleared = refl

-- The transaction with fewer locks is told to abort.
found : detect_cycle 0 4 crossed 6 ≡ done (true, some 1)
unfolding detect_cycle
found = refl

-- From 2 ^ 31 on a cycle goes unseen.
abbrev large : Graph
large j =
    if j == 1
    then record { adj = (2 ^ 31 + 2) ∷ []; txnid = 2 ^ 31 + 1; num_locks = 2 }
    else (if j == 2
        then record { adj = (2 ^ 31 + 1) ∷ []; txnid = 2 ^ 31 + 2; num_locks = 3 }
        else record { adj = []; txnid = invalid; num_locks = 0 })

missed : detect_cycle 0 4 large (2 ^ 31 + 1) ≡ done (false, none)
unfolding detect_cycle
missed = refl

small_in : {u : ℕ} (l : List ℕ) → All (λ u. u < 2 ^ 31) l → Memᴰ u l → u < 2 ^ 31
small_in [] h m = absurd (Memᴰ.not-nil m)
small_in (x ∷ l) h (Memᴰ.head e) = subst (λ u. u < 2 ^ 31) (sym e) h.0
small_in (x ∷ l) h (Memᴰ.tail m) = small_in l h.1 m

crossed-All : (j : ℕ) → All (λ u. u < 2 ^ 31) (crossed j).adj
crossed-All j = elim (Bool-cases (j == 1)) [
  | inl one ↦ rw one (omega arith, tt)
  | inr other ↦ elim (Bool-cases (j == 2)) [
    | inl two ↦ rw (other, two) (omega arith, tt)
    | inr none_there ↦ rw (other, none_there) tt
  ]
]

crossed-small : (j u : ℕ) → Memᴰ u (crossed j).adj → u < 2 ^ 31
crossed-small j u m = small_in (crossed j).adj (crossed-All j) m

detect_cycle-finds_example :
    Ensures (λ r. if r.0 then HasCycle 4 crossed else (r.1 ≡ none)) (detect_cycle 0 4 crossed 6)
detect_cycle-finds_example = detect_cycle-finds 4 crossed 0 6 (omega arith) crossed-small
