-- ===== src/BubbleSort/Tests.antt =====
-- Three numbers are sorted.
use mathlib.Core.List.{Permᴰ}
use veri_txn.Prelude.{ℕ, ◌≡◌, refl, Bool, true, false, [], ◌∷◌, List, ltb, arith}
use veri_txn.BubbleSort.{bubble_sort}
use veri_txn.BubbleSort.Order.{IsSorted, bubble_sort-IsSorted}

abbrev above : ℕ → ℕ → Bool
above a b = ltb b a

total : (a b : ℕ) → above a b ≡ true → above b a ≡ false
total a b e = ground (arith, e)

between : (a b c : ℕ) → above a b ≡ false → above b c ≡ false → above a c ≡ false
between a b c e f = ground (arith, e, f)

abbrev three : List ℕ
three = 2 ∷ (3 ∷ (1 ∷ []))

bubble_sort-IsSorted_example :
    IsSorted above (bubble_sort above three) × Permᴰ (bubble_sort above three) three
bubble_sort-IsSorted_example = bubble_sort-IsSorted above total between three

in_order : bubble_sort above three ≡ 1 ∷ (2 ∷ (3 ∷ []))
unfolding bubble_sort
in_order = refl
