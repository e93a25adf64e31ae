-- ===== src/Prelude/Or.antt =====
-- The bitwise or of a number with one that has its digits above it.
use Prim.Native.Nat.{ℕ, zero, suc, ◌+◌, ◌*◌, ◌/◌, ◌%◌, ◌^◌, ◌<◌, max, bit_or, bit_or-bitwise}
use mathlib.Core.Path.{◌≡◌, sym, ap, ◌∙◌}
use native.Mathlib.Omega.{arith}
use native.Mathlib.Nat.{two-pow-succ}
use veri_txn.Prelude.Xor.{digits_enough}

or_zero : (b : ℕ) → bit_or 0 b ≡ b
or_zero b = bit_or-bitwise 0 b

or_step : (a b : ℕ) → bit_or a b ≡ bit_or (a / 2) (b / 2) * 2 + max (a % 2) (b % 2)
or_step zero b = or_zero b ∙ (omega arith ∙ ap (λ d. d * 2 + max 0 (b % 2)) (sym (or_zero (b / 2))))
or_step (suc a) b =
    bit_or-bitwise (suc a) b
    ∙ ap (λ d. d * 2 + max (suc a % 2) (b % 2))
        (digits_enough max a (suc a / 2) (suc a / 2) (b / 2) (omega arith) (omega arith)
          ∙ sym (bit_or-bitwise (suc a / 2) (b / 2)))

-- The digits of `d` moved up by `k` places.
abbrev pub moved_up : ℕ → ℕ → ℕ
moved_up zero d = d
moved_up (suc k) d = moved_up k d * 2

pub or-moved_up : (k a d : ℕ) → a < 2 ^ k → bit_or a (moved_up k d) ≡ a + moved_up k d
or-moved_up zero a d h = ap (λ b. bit_or b d) (omega (arith, h)) ∙ or_zero d ∙ omega (arith, h)
or-moved_up (suc k) a d h =
    or_step a (moved_up k d * 2)
    ∙ ap (λ b. bit_or (a / 2) b * 2 + max (a % 2) (moved_up k d * 2 % 2)) (omega arith)
    ∙ ap (λ b. b * 2 + max (a % 2) (moved_up k d * 2 % 2))
        (or-moved_up k (a / 2) d (omega (arith, h, two-pow-succ k)))
    ∙ omega arith

-- Moved up by 48 places.
pub or_48 : (a d : ℕ) → a < 2 ^ 48 → bit_or a (d * 2 ^ 48) ≡ a + d * 2 ^ 48
or_48 a d h = ap (bit_or a) (omega arith) ∙ or-moved_up 48 a d h ∙ omega arith
