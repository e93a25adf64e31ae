-- ===== src/Prelude/Xor.antt =====
-- The exclusive or of machine words, digit by digit: it is a commutative group in which each word is its own
-- inverse.
use Prim.Native.Nat.{
  ℕ, zero, suc, ◌+◌, ◌*◌, ◌/◌, ◌%◌, ◌≤◌, ◌<◌, bit_xor, bit_xor-bitwise, digits, differ,
}
use mathlib.Core.Path.{◌≡◌, refl, sym, ap, ◌∙◌}
use mathlib.Core.Logic.{◌⊎◌, inl, inr}
use native.Mathlib.Omega.{arith}

module _ (f : ℕ → ℕ → ℕ) where
  abbrev pub two_digits : ℕ → ℕ → ℕ → ℕ
  two_digits n a b = digits (λ b. b) f n a b

  pub digits_enough : (n m a b : ℕ) → a ≤ n → a ≤ m → two_digits n a b ≡ two_digits m a b
  digits_enough zero zero a b h k = refl
  digits_enough zero (suc m) zero b h k = refl
  digits_enough zero (suc m) (suc a) b h k = absurd (omega arith)
  digits_enough (suc n) zero zero b h k = refl
  digits_enough (suc n) zero (suc a) b h k = absurd (omega arith)
  digits_enough (suc n) (suc m) zero b h k = refl
  digits_enough (suc n) (suc m) (suc a) b h k =
      ap (λ d. d * 2 + f (suc a % 2) (b % 2))
        (digits_enough n m (suc a / 2) (b / 2) (omega arith) (omega arith))

pub xor_zero : (b : ℕ) → bit_xor 0 b ≡ b
xor_zero b = bit_xor-bitwise 0 b

differ_zero : (y : ℕ) → differ 0 y ≡ y
differ_zero y = refl

-- The lowest digit, and the others.
pub xor_step : (a b : ℕ) → bit_xor a b ≡ bit_xor (a / 2) (b / 2) * 2 + differ (a % 2) (b % 2)
xor_step zero b = xor_zero b ∙ (omega arith ∙ ap (λ d. d * 2 + b % 2) (sym (xor_zero (b / 2))))
xor_step (suc a) b =
    bit_xor-bitwise (suc a) b
    ∙ ap (λ d. d * 2 + differ (suc a % 2) (b % 2))
        (digits_enough differ a (suc a / 2) (suc a / 2) (b / 2) (omega arith) (omega arith)
          ∙ sym (bit_xor-bitwise (suc a / 2) (b / 2)))

digit : (a : ℕ) → (a % 2 ≡ 0) ⊎ (a % 2 ≡ 1)
digit a = omega arith

differ_comm : (a b : ℕ) → differ (a % 2) (b % 2) ≡ differ (b % 2) (a % 2)
differ_comm a b = elim (digit a) [
  | inl e ↦ elim (digit b) [ inl f ↦ rw (e, f) refl | inr f ↦ rw (e, f) refl ]
  | inr e ↦ elim (digit b) [ inl f ↦ rw (e, f) refl | inr f ↦ rw (e, f) refl ]
]

differ_assoc :
    (a b c : ℕ) → differ (differ (a % 2) (b % 2)) (c % 2) ≡ differ (a % 2) (differ (b % 2) (c % 2))
differ_assoc a b c = elim (digit a) [
  | inl e ↦ rw e refl
  | inr e ↦ elim (digit b) [
    | inl f ↦ rw (e, f) refl
    | inr f ↦ elim (digit c) [ inl g ↦ rw (e, f, g) refl | inr g ↦ rw (e, f, g) refl ]
  ]
]

differ_self : (a : ℕ) → differ (a % 2) (a % 2) ≡ 0
differ_self a = elim (digit a) [ inl e ↦ rw e refl | inr e ↦ rw e refl ]

differ_small : (a b : ℕ) → differ (a % 2) (b % 2) < 2
differ_small a b = elim (digit a) [
  | inl e ↦ rw e (omega arith)
  | inr e ↦ elim (digit b) [ inl f ↦ rw (e, f) (omega arith) | inr f ↦ rw (e, f) (omega arith) ]
]

xor_half : (a b : ℕ) → bit_xor a b / 2 ≡ bit_xor (a / 2) (b / 2)
xor_half a b = omega (arith, xor_step a b, differ_small a b)

xor_digit : (a b : ℕ) → bit_xor a b % 2 ≡ differ (a % 2) (b % 2)
xor_digit a b = omega (arith, xor_step a b, differ_small a b)

null : (a : ℕ) → a ≤ 0 → a ≡ 0
null a h = omega arith

comm_below : (n a b : ℕ) → a ≤ n → b ≤ n → bit_xor a b ≡ bit_xor b a
comm_below zero a b h k = rw (null a h, null b k) refl
comm_below (suc n) a b h k =
    xor_step a b
    ∙ rw (comm_below n (a / 2) (b / 2) (omega arith) (omega arith), differ_comm a b)
        (sym (xor_step b a))

pub xor_comm : (a b : ℕ) → bit_xor a b ≡ bit_xor b a
xor_comm a b = comm_below (a + b) a b (omega arith) (omega arith)

assoc_below :
    (n a b c : ℕ) → a ≤ n → b ≤ n → c ≤ n → bit_xor (bit_xor a b) c ≡ bit_xor a (bit_xor b c)
assoc_below zero a b c h k l = rw (null a h, null b k, null c l) refl
assoc_below (suc n) a b c h k l =
    xor_step (bit_xor a b) c
    ∙ rw
        (
          xor_half a b,
          xor_digit a b,
          assoc_below n (a / 2) (b / 2) (c / 2) (omega arith) (omega arith) (omega arith),
          differ_assoc a b c,
          sym (xor_half b c),
          sym (xor_digit b c),
        )
        (sym (xor_step a (bit_xor b c)))

pub xor_assoc : (a b c : ℕ) → bit_xor (bit_xor a b) c ≡ bit_xor a (bit_xor b c)
xor_assoc a b c = assoc_below (a + (b + c)) a b c (omega arith) (omega arith) (omega arith)

self_below : (n a : ℕ) → a ≤ n → bit_xor a a ≡ 0
self_below zero a h = rw (null a h) refl
self_below (suc n) a h = xor_step a a ∙ rw (self_below n (a / 2) (omega arith), differ_self a) refl

pub xor_self : (a : ℕ) → bit_xor a a ≡ 0
xor_self a = self_below a a (omega arith)

pub xor_cancel : (a b : ℕ) → bit_xor (bit_xor a b) a ≡ b
xor_cancel a b =
    ap (λ d. bit_xor d a) (xor_comm a b)
    ∙ xor_assoc b a a
    ∙ ap (bit_xor b) (xor_self a)
    ∙ xor_comm b 0
    ∙ xor_zero b
