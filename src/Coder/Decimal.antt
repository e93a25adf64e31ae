-- ===== src/Coder/Decimal.antt =====
-- `std::to_string` and `std::stoull` on strings of digits.
use veri_txn.Prelude.{
  ℕ, zero, suc, ◌+◌, ◌-◌, ◌*◌, ◌/◌, ◌%◌, ◌^◌, ◌<◌, ◌≡◌, refl, Bool, true, [], ◌∷◌, ◌++◌, All, ltb,
  leb, ◌&&◌, if◌then◌else◌, arith, Bool-cases, inl, inr, Outcome, done, fault, lt→ltb, length,
  length-append,
}
use veri_txn.Coder.{Chars}
use veri_txn.Coder.Scan.{nest, Balanced}

-- The digits of `n`, with more rounds than it has digits.
pub digits : ℕ → ℕ → Chars
digits zero n = []
digits (suc f) n =
    let rest = digits f (n / 10) in
    if ltb n 10 then (n + b'0') ∷ [] else rest ++ ((n % 10 + b'0') ∷ [])

pub to_string : ℕ → Chars
unfolding digits
to_string n = digits (suc n) n

pub is_digit : ℕ → Bool
is_digit c = leb b'0' c && leb c b'9'

-- The number that the digits in front stand for, from the number read so far.
pub read_digits : ℕ → Chars → ℕ
unfolding is_digit
read_digits acc [] = acc
read_digits acc (c ∷ s) =
    let more = read_digits (acc * 10 + (c - b'0')) s in if is_digit c then more else acc

-- An exception for a string with no digit in front, or a number beyond 64 bits, ends the run.
pub stoull : Chars → Outcome ℕ
stoull [] = fault
stoull (c ∷ s) =
    if is_digit c && ltb (read_digits 0 (c ∷ s)) (2 ^ 64)
    then done (read_digits 0 (c ∷ s))
    else fault

abbrev pub IsDigit : ℕ → Type 0
IsDigit c = is_digit c ≡ true

IsDigit_lem : (d : ℕ) → d < 10 → IsDigit (d + b'0')
unfolding is_digit
IsDigit_lem d h = ground (arith, h)

All-append : (s t : Chars) → All IsDigit s → All IsDigit t → All IsDigit (s ++ t)
All-append [] t h k = k
All-append (c ∷ s) t h k = (h.0, All-append s t h.1 k)

digits-IsDigit : (f n : ℕ) → All IsDigit (digits f n)
unfolding digits
digits-IsDigit zero n = tt
digits-IsDigit (suc f) n = elim (Bool-cases (ltb n 10)) [
  | inl small ↦ rw small (IsDigit_lem n (ground (arith, small)), tt)
  | inr big ↦ rw big (
      All-append (digits f (n / 10)) _ (digits-IsDigit f (n / 10))
        (IsDigit_lem (n % 10) (omega arith), tt))
]

read_digits-append :
    (s t : Chars) (acc : ℕ)
    → All IsDigit s
    → read_digits acc (s ++ t) ≡ read_digits (read_digits acc s) t
unfolding read_digits
read_digits-append [] t acc h = refl
read_digits-append (c ∷ s) t acc h = rw h.0 (read_digits-append s t (acc * 10 + (c - b'0')) h.1)

read_digits-digits : (f n : ℕ) → n < f → read_digits 0 (digits f n) ≡ n
unfolding digits read_digits
read_digits-digits zero n h = absurd (omega (arith, h))
read_digits-digits (suc f) n h = elim (Bool-cases (ltb n 10)) [
  | inl small ↦ rw (small, IsDigit_lem n (ground (arith, small))) (omega arith)
  | inr big ↦
      rw
        (
          big,
          read_digits-append (digits f (n / 10)) ((n % 10 + b'0') ∷ []) 0
              (digits-IsDigit f (n / 10)),
          read_digits-digits f (n / 10) (ground (arith, big, h)),
          IsDigit_lem (n % 10) (omega arith),
        )
        (omega arith)
]

digits_pos : (f n : ℕ) → 0 < length (digits (suc f) n)
unfolding digits
digits_pos f n = elim (Bool-cases (ltb n 10)) [
  | inl small ↦ rw small (omega arith)
  | inr big ↦ rw big (omega (arith, length-append (digits f (n / 10)) ((n % 10 + b'0') ∷ [])))
]

-- A string of digits has no braces.
pub digits-Balanced : (s : Chars) → All IsDigit s → Balanced s
unfolding nest is_digit
digits-Balanced [] h = refl
digits-Balanced (c ∷ s) h = ground (arith, h.0, digits-Balanced s h.1)

pub to_string-Balanced : (n : ℕ) → Balanced (to_string n)
unfolding to_string
to_string-Balanced n = digits-Balanced (to_string n) (digits-IsDigit (suc n) n)

pub stoull-to_string : (n : ℕ) → n < 2 ^ 64 → stoull (to_string n) ≡ done n
unfolding stoull to_string
stoull-to_string n h =
    go (to_string n) (digits-IsDigit (suc n) n) (read_digits-digits (suc n) n (omega arith))
      (digits_pos n n)
  where
    go : (s : Chars) → All IsDigit s → read_digits 0 s ≡ n → 0 < length s → stoull s ≡ done n
    go [] d e l = absurd (omega (arith, l))
    go (c ∷ s) d e l = rw (d.0, e, lt→ltb n (2 ^ 64) h)
