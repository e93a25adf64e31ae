-- ===== src/BubbleSort.antt =====
-- The bubble sort that puts a transaction's accesses in the order of their keys before it locks
-- them: in trusted/concurrency_control/occ.cpp, and again in silo.cpp and tictoc.cpp. The test that
-- makes two neighbours change places is a parameter.
pub mod Order
mod Tests
use veri_txn.Prelude.{ℕ, zero, suc, ◌-◌, Bool, List, [], ◌∷◌, if◌then◌else◌, length}

module _ {A : Type 0} (gt : A → A → Bool) where
  abbrev pub first_of_two : A → A → A
  first_of_two x y = if gt x y then y else x

  abbrev pub second_of_two : A → A → A
  second_of_two x y = if gt x y then x else y

  -- The inner `for`, with `n` rounds to go at the front of the list.
  pub bubble : ℕ → List A → List A
  bubble zero l = l
  bubble (suc n) [] = []
  bubble (suc n) (x ∷ []) = x ∷ []
  bubble (suc n) (x ∷ (y ∷ r)) = first_of_two x y ∷ bubble n (second_of_two x y ∷ r)

  -- The outer `for`, from the index `i` down to 1.
  pub sort_down : ℕ → List A → List A
  unfolding bubble
  sort_down zero l = l
  sort_down (suc i) l = sort_down i (bubble (suc i) l)

  unfoldable pub bubble_sort : List A → List A
  unfolding sort_down
  bubble_sort l = sort_down (length l - 1) l
