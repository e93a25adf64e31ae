-- ===== src/BubbleSort/Order.antt =====
-- The sorted list holds the same elements, in the order of the test.
use mathlib.Core.List.{Permᴰ, append-nil, append_assoc}
use mathlib.Core.List.Permᴰ
use veri_txn.Prelude.{
  ℕ, zero, suc, ◌-◌, ◌≡◌, refl, sym, ap, ◌∙◌, subst, Bool, true, false, List, [], ◌∷◌, ◌++◌, length,
  All, arith, Bool-cases, inl, inr,
}
use veri_txn.BubbleSort.{bubble, sort_down, bubble_sort}

module _ {A : Type 0} (gt : A → A → Bool) where
  bubble-perm : (n : ℕ) (l : List A) → Permᴰ (bubble gt n l) l
  unfolding bubble
  bubble-perm zero l = Permᴰ.refl l
  bubble-perm (suc n) [] = Permᴰ.refl []
  bubble-perm (suc n) (x ∷ []) = Permᴰ.refl (x ∷ [])
  bubble-perm (suc n) (x ∷ (y ∷ r)) = elim (Bool-cases (gt x y)) [
    | inl swap ↦
        rw swap (Permᴰ.trans (Permᴰ.cons refl (bubble-perm n (x ∷ r))) (Permᴰ.swap refl refl))
    | inr keep ↦ rw keep (Permᴰ.cons refl (bubble-perm n (y ∷ r)))
  ]

  sort_down-perm : (i : ℕ) (l : List A) → Permᴰ (sort_down gt i l) l
  unfolding sort_down
  sort_down-perm zero l = Permᴰ.refl l
  sort_down-perm (suc i) l =
      Permᴰ.trans (sort_down-perm i (bubble gt (suc i) l)) (bubble-perm (suc i) l)

  -- Sorting only moves the elements, whatever the test says.
  pub bubble_sort-perm : (l : List A) → Permᴰ (bubble_sort gt l) l
  unfolding bubble_sort
  bubble_sort-perm l = sort_down-perm (length l - 1) l

  abbrev pub IsSorted : List A → Type 0
  IsSorted [] = Unit {0}
  IsSorted (x ∷ r) = All (λ b. gt x b ≡ false) r × IsSorted r

  IsSorted-top :
      (l : List A) (m : A) → IsSorted l → All (λ a. gt a m ≡ false) l → IsSorted (l ++ (m ∷ []))
  IsSorted-top [] m s h = (tt, tt)
  IsSorted-top (x ∷ r) m s h = (last x r s.0 h.0, IsSorted-top r m s.1 h.1)
    where
      last :
          (x : A) (r : List A)
          → All (λ b. gt x b ≡ false) r
          → gt x m ≡ false
          → All (λ b. gt x b ≡ false) (r ++ (m ∷ []))
      last x [] k e = (e, tt)
      last x (y ∷ r) k e = (k.0, last x r k.1 e)

  All-top : (P : A → Type 0) (l : List A) (m : A) → All P l → P m → All P (l ++ (m ∷ []))
  All-top P [] m h p = (p, tt)
  All-top P (x ∷ r) m h p = (h.0, All-top P r m h.1 p)

  -- A pass over `l`, whose last element comes out as `top`, with `rest` behind it.
  record Pass (n : ℕ) (l rest : List A) : Type 1 where
    front : List A
    top : A
    long : length front ≡ n
    split : bubble gt n (l ++ rest) ≡ front ++ (top ∷ rest)
    tops : All (λ a. gt a top ≡ false) l
    kept : (P : A → Type 0) → All P l → All P front × P top

  record Sorting (i : ℕ) (l rest : List A) : Type 1 where
    sorted : List A
    split : sort_down gt i (l ++ rest) ≡ sorted ++ rest
    in_order : IsSorted sorted
    kept : (P : A → Type 0) → All P l → All P sorted

  module _ (total : (a b : A) → gt a b ≡ true → gt b a ≡ false)
      (trans : (a b c : A) → gt a b ≡ false → gt b c ≡ false → gt a c ≡ false) where
    not_after : (a : A) → gt a a ≡ false
    not_after a = elim (Bool-cases (gt a a)) [ inl e ↦ total a a e | inr e ↦ e ]

    bubble-Pass : (n : ℕ) (l rest : List A) → length l ≡ suc n → Pass n l rest
    unfolding bubble
    bubble-Pass zero [] rest e = absurd (omega (arith, e))
    bubble-Pass zero (x ∷ (y ∷ r)) rest e = absurd (omega (arith, e))
    bubble-Pass zero (x ∷ []) rest e = record {
      front = [];
      top = x;
      long = refl;
      split = refl;
      tops = (not_after x, tt);
      kept = λ P h. (tt, h.0);
    }
    bubble-Pass (suc n) [] rest e = absurd (omega (arith, e))
    bubble-Pass (suc n) (x ∷ []) rest e = absurd (omega (arith, e))
    bubble-Pass (suc n) (x ∷ (y ∷ r)) rest e = elim (Bool-cases (gt x y)) [
      | inl swap ↦
          let p = bubble-Pass n (x ∷ r) rest (omega (arith, e)) in
          record {
            front = y ∷ p.front;
            top = p.top;
            long = omega (arith, p.long);
            split = rw swap (ap (◌∷◌ y) p.split);
            tops = (p.tops.0, (trans y x p.top (total x y swap) p.tops.0, p.tops.1));
            kept = λ P h. let k = p.kept P (h.0, h.1.1) in ((h.1.0, k.0), k.1);
          }
      | inr keep ↦
          let p = bubble-Pass n (y ∷ r) rest (omega (arith, e)) in
          record {
            front = x ∷ p.front;
            top = p.top;
            long = omega (arith, p.long);
            split = rw keep (ap (◌∷◌ x) p.split);
            tops = (trans x y p.top keep p.tops.0, p.tops);
            kept = λ P h. let k = p.kept P h.1 in ((h.0, k.0), k.1);
          }
    ]

    sort_down-Sorting : (i : ℕ) (l rest : List A) → length l ≡ suc i → Sorting i l rest
    unfolding sort_down
    sort_down-Sorting zero [] rest e = absurd (omega (arith, e))
    sort_down-Sorting zero (x ∷ (y ∷ r)) rest e = absurd (omega (arith, e))
    sort_down-Sorting zero (x ∷ []) rest e = record {
      sorted = x ∷ [];
      split = refl;
      in_order = (tt, tt);
      kept = λ P h. h;
    }
    sort_down-Sorting (suc i) l rest e =
        let p = bubble-Pass (suc i) l rest e in
        let s = sort_down-Sorting i p.front (p.top ∷ rest) p.long in
        record {
          sorted = s.sorted ++ (p.top ∷ []);
          split = rw (p.split, append_assoc) s.split;
          in_order =
              IsSorted-top s.sorted p.top s.in_order
                (s.kept (λ a. gt a p.top ≡ false) (p.kept (λ a. gt a p.top ≡ false) p.tops).0);
          kept = λ P h. let k = p.kept P h in All-top P s.sorted p.top (s.kept P k.0) k.1;
        }

    sort-Sorting :
        (x : A) (r : List A)
        → (s : Sorting (length r) (x ∷ r) []) × (bubble_sort gt (x ∷ r) ≡ s.sorted)
    unfolding bubble_sort
    sort-Sorting x r =
        let s = sort_down-Sorting (length r) (x ∷ r) [] refl in
        let less : suc (length r) - 1 ≡ length r = omega arith in
        let whole : sort_down gt (length r) (x ∷ r) ≡ s.sorted =
          subst (λ l. sort_down gt (length r) l ≡ s.sorted) (append-nil (x ∷ r))
            (s.split ∙ append-nil s.sorted) in
        (s, ap (λ n. sort_down gt n (x ∷ r)) less ∙ whole)

    -- For a test by which no two elements are each after the other, and "not after" is transitive,
    -- the result of the bubble sort holds the elements of the list, as often, and none stands before
    -- one that it is after.
    pub bubble_sort-IsSorted :
        (l : List A) → IsSorted (bubble_sort gt l) × Permᴰ (bubble_sort gt l) l
    unfolding bubble_sort
    bubble_sort-IsSorted [] = (tt, Permᴰ.refl [])
    bubble_sort-IsSorted (x ∷ r) =
        let (s, e) = sort-Sorting x r in
        (subst IsSorted (sym e) s.in_order, bubble_sort-perm (x ∷ r))
