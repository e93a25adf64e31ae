-- ===== src/Latch.antt =====
-- `latch_node` and `release_latch` of trusted/system/index_enc.cpp, the shared and exclusive latch of a
-- page, with ENABLE_LATCH. What runs between the two ATOM_CAS on `latch` is one step.
pub mod Exclusion
pub mod Free
mod Tests
use veri_txn.Prelude.{
  ℕ, ◌+◌, ◌-◌, ◌%◌, ◌^◌, Bool, true, false, not, ◌&&◌, ◌||◌, ◌==◌, if◌then◌else◌, Outcome, done,
  fault, ◌>>=◌,
}

pub data LatchType : Type 0 where
  latch_ex latch_sh latch_none : LatchType

pub record Latch : Type 0 where
  pub latch_type : LatchType
  pub share_cnt : ℕ

pub init : Latch
init = record { latch_type = latch_none; share_cnt = 0 }

abbrev pub is_none : LatchType → Bool
is_none latch_none = true
is_none _ = false

abbrev pub is_sh : LatchType → Bool
is_sh latch_sh = true
is_sh _ = false

abbrev pub is_ex : LatchType → Bool
is_ex latch_ex = true
is_ex _ = false

-- The latch is given to one more holder.
abbrev pub give : LatchType → Latch → Latch
give latch_sh l = record { latch_type = latch_sh; share_cnt = (l.share_cnt + 1) % 2 ^ 32 }
give t l = record l { latch_type = t }

pub latch_node : LatchType → Latch → Outcome (Latch × Bool)
latch_node t l =
    if is_none l.latch_type || is_sh l.latch_type && is_sh t
    then (if is_none l.latch_type && not (l.share_cnt == 0) then fault else done (give t l, true))
    else done (l, false)

-- One holder less; the type given is the one the latch had before.
pub drop : LatchType → ℕ → Outcome (Latch × LatchType)
drop latch_none n = fault
drop latch_ex n = done (record { latch_type = latch_none; share_cnt = n }, latch_ex)
drop latch_sh n =
    let m : ℕ = (n + (2 ^ 32 - 1)) % 2 ^ 32 in
    done
      (record { latch_type = (if m == 0 then latch_none else latch_sh); share_cnt = m }, latch_sh)

pub release_latch : Latch → Outcome (Latch × LatchType)
unfolding drop
release_latch l = drop l.latch_type l.share_cnt
