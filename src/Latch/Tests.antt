-- ===== src/Latch/Tests.antt =====
-- Two threads share the latch, a third one that wants it alone is sent away.
use veri_txn.Prelude.{◌≡◌, ◌==◌, refl, true, false, arith, ◌⊎◌, Ensures}
use veri_txn.Latch.{Latch, latch_ex, latch_sh, init, latch_node, release_latch}
use veri_txn.Latch.Exclusion.{
  Holders, Reach, start, next, tries, Fits, removed, IsExclusive, nobody, Answers, latch-Excludes,
}

abbrev shared : Latch
shared = record { latch_type = latch_sh; share_cnt = 2 }

abbrev two : Holders
two = record { sharing = 2; alone = 0 }

two-Reach : Reach shared two
unfolding init latch_node
two-Reach =
    next
      (next (next start (tries latch_sh true (λ e. cc) (omega arith) refl))
        (tries latch_sh true (λ e. cc) (omega arith) refl))
      (tries latch_ex false (λ e. cc) (omega arith) refl)

latch-Excludes_example :
    IsExclusive two
    × Answers latch_ex (nobody two) shared
    × Answers latch_sh (two.alone == 0) shared
    × ((nobody two ≡ true) ⊎ Ensures (λ r. Fits r.0 (removed r.1 two)) (release_latch shared))
latch-Excludes_example = latch-Excludes two-Reach
