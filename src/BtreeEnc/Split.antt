-- ===== src/BtreeEnc/Split.antt =====
-- What is read from the two leaves that a full leaf is split into.
use veri_txn.Prelude.{
  ℕ, ◌+◌, ◌-◌, ◌≤◌, ◌<◌, ◌≡◌, refl, sym, ap, subst, ◌∙◌, ◌⊎◌, inl, inr, true, false, List, [], ◌∷◌,
  some, ltb, ◌==◌, ==_refl, if◌then◌else◌, Bool-cases, Ensures, Ensures-then, arith, ==→eq, ltb→ge,
  ltb→lt,
}
use veri_txn.BtreeEnc.{
  BtNode, order, read_leaf, insertion_point, with_place, cut, copy_to, clear_from, split_lf_insert,
}
use veri_txn.BtreeEnc.Arrays.{IsInserted, with_place-IsInserted, copy_to-copied}
use veri_txn.BtreeEnc.Lookup.{
  IsSorted, IsAbsent, IsPoint, key_cases, read_leaf-found, read_leaf-missing,
  insertion_point-IsPoint, inserted-IsSorted, inserted-reads,
}

-- The two halves of a split, with the key between them.
pub record IsSplit (key item : ℕ) (leaf l : BtNode) (k : ℕ) (r : BtNode) (new_id : ℕ) : Type 0 where
  pub sorted_left : IsSorted l.num_keys l.keys
  pub sorted_right : IsSorted r.num_keys r.keys
  pub bounded_left : l.num_keys < order
  pub bounded_right : r.num_keys < order
  pub filled_left : order ≤ l.num_keys + l.num_keys
  pub filled_right : order ≤ r.num_keys + r.num_keys
  pub reads :
      (q : ℕ)
      → read_leaf q (if ltb q k then l else r)
        ≡ (if q == key then some (item ∷ []) else read_leaf q leaf)
  pub left_next : l.next ≡ new_id
  pub right_next : r.next ≡ leaf.next
  pub right_parent : r.parent ≡ leaf.parent

-- A leaf with as many entries as the order, and its halves.
halves-reads :
    (whole l r : BtNode) (n m : ℕ)
    → IsSorted whole.num_keys whole.keys
    → whole.num_keys ≡ n + m
    → 0 < m
    → l.num_keys ≡ n
    → r.num_keys ≡ m
    → ((i : ℕ) → i < n → (l.keys i ≡ whole.keys i) × (l.data_items i ≡ whole.data_items i))
    → ((i : ℕ)
        → i < m
        → (r.keys i ≡ whole.keys (n + i)) × (r.data_items i ≡ whole.data_items (n + i)))
    → IsSorted l.num_keys l.keys
      × IsSorted r.num_keys r.keys
      × ((q : ℕ) → read_leaf q (if ltb q (r.keys 0) then l else r) ≡ read_leaf q whole)
halves-reads whole l r n m s w pos ln rn left right =
    (sorted_l, sorted_r, λ q. read q (Bool-cases (ltb q (r.keys 0))))
  where
    sorted_l : IsSorted l.num_keys l.keys
    sorted_l i j a b = omega (
      arith,
      (left i (omega (arith, a, b, ln))).0,
      (left j (omega (arith, b, ln))).0,
      s i j a (omega (arith, b, ln, w)),
    )

    sorted_r : IsSorted r.num_keys r.keys
    sorted_r i j a b = omega (
      arith,
      (right i (omega (arith, a, b, rn))).0,
      (right j (omega (arith, b, rn))).0,
      s (n + i) (n + j) (omega (arith, a)) (omega (arith, b, rn, w)),
    )

    first : r.keys 0 ≡ whole.keys n
    first = (right 0 pos).0 ∙ ap whole.keys (omega arith)

    in_left : (q : ℕ) → q < r.keys 0 → (i : ℕ) → i < whole.num_keys → whole.keys i ≡ q → i < n
    in_left q t i a e = elim (Bool-cases (ltb i n)) [
      | inl c ↦ ltb→lt i n c
      | inr c ↦ absurd (omega (arith, first, e, t, below n i (ltb→ge i n c) a))
    ]
      where
        below : (j i : ℕ) → j ≤ i → i < whole.num_keys → whole.keys j ≤ whole.keys i
        below j i c a = elim (Bool-cases (j == i)) [
          | inl d ↦ omega (arith, ap whole.keys (==→eq j i d))
          | inr d ↦ omega (arith, s j i (after j i d c) a)
        ]
          where
            after : (i j : ℕ) → (i == j) ≡ false → i ≤ j → i < j
            after i j e a = ground arith

    in_right : (q : ℕ) → r.keys 0 ≤ q → (i : ℕ) → i < whole.num_keys → whole.keys i ≡ q → n ≤ i
    in_right q t i a e = elim (Bool-cases (ltb i n)) [
      | inl c ↦ absurd (omega (arith, first, e, t, s i n (ltb→lt i n c) (omega (arith, w, pos))))
      | inr c ↦ ltb→ge i n c
    ]

    from_left :
        (q : ℕ)
        → q < r.keys 0
        → ((i : ℕ) × (i < whole.num_keys) × (whole.keys i ≡ q))
          ⊎ IsAbsent q whole.num_keys whole.keys
        → read_leaf q l ≡ read_leaf q whole
    from_left q t (inl (i, a, e)) =
        let b : i < n = in_left q t i a e in
        read_leaf-found l q i sorted_l (omega (arith, b, ln)) ((left i b).0 ∙ e)
        ∙ ap some (left i b).1
        ∙ sym (read_leaf-found whole q i s a e)
    from_left q t (inr a) =
        read_leaf-missing l q
          (λ i b e. a i (omega (arith, b, ln, w)) (sym (left i (omega (arith, b, ln))).0 ∙ e))
        ∙ sym (read_leaf-missing whole q a)

    from_right :
        (q : ℕ)
        → r.keys 0 ≤ q
        → ((i : ℕ) × (i < whole.num_keys) × (whole.keys i ≡ q))
          ⊎ IsAbsent q whole.num_keys whole.keys
        → read_leaf q r ≡ read_leaf q whole
    from_right q t (inl (i, a, e)) =
        let b : n ≤ i = in_right q t i a e in
        let c : i - n < m = omega (arith, a, b, w) in
        let d : n + (i - n) ≡ i = omega (arith, b) in
        read_leaf-found r q (i - n) sorted_r (omega (arith, c, rn))
          ((right (i - n) c).0 ∙ ap whole.keys d ∙ e)
        ∙ ap some ((right (i - n) c).1 ∙ ap whole.data_items d)
        ∙ sym (read_leaf-found whole q i s a e)
    from_right q t (inr a) =
        read_leaf-missing r q (λ i b e.
          a (n + i) (omega (arith, b, rn, w)) (sym (right i (omega (arith, b, rn))).0 ∙ e))
        ∙ sym (read_leaf-missing whole q a)

    read :
        (q : ℕ)
        → (ltb q (r.keys 0) ≡ true) ⊎ (ltb q (r.keys 0) ≡ false)
        → read_leaf q (if ltb q (r.keys 0) then l else r) ≡ read_leaf q whole
    read q (inl t) = rw t (from_left q (ltb→lt q (r.keys 0) t) (key_cases whole q))
    read q (inr t) = rw t (from_right q (ltb→ge q (r.keys 0) t) (key_cases whole q))

-- split_lf_insert of a full leaf whose keys go up and are not the new one returns with no failed assertion two
-- leaves that hold at least half of the order each, and fewer than the order, with keys that go up. Read in the
-- leaf that the key between them leads to, the new key has the new item and every other key what it had in the
-- full leaf. The new leaf comes after the old one, with the same parent.
pub split_lf_insert-IsSplit :
    (temp_keys : ℕ → ℕ) (temp_pointers : ℕ → List ℕ) (new_leaf : BtNode) (key item : ℕ)
    (leaf : BtNode)
    → IsSorted leaf.num_keys leaf.keys
    → leaf.num_keys ≡ order - 1
    → IsAbsent key leaf.num_keys leaf.keys
    → Ensures
        (λ x. IsSplit key item leaf x.0 x.1 x.2 new_leaf.node_id)
        (split_lf_insert temp_keys temp_pointers new_leaf key item leaf)
unfolding split_lf_insert cut
split_lf_insert-IsSplit temp_keys temp_pointers new_leaf key item leaf s n a =
    Ensures-then (λ x. IsSplit key item leaf x.0 x.1 x.2 new_leaf.node_id) _ _
      (ap (λ m. m == order - 1) n ∙ ==_refl (order - 1))
      (record {
        sorted_left = halves.0;
        sorted_right = halves.1;
        bounded_left = omega arith;
        bounded_right = omega arith;
        filled_left = omega arith;
        filled_right = omega arith;
        reads = λ q. halves.2 q ∙ inserted-reads leaf whole key p (item ∷ []) s refl pt ik id q;
        left_next = refl;
        right_next = refl;
        right_parent = refl;
      })
  where
    p : ℕ
    p = insertion_point key (order - 1) leaf.keys

    pt : IsPoint key leaf.num_keys leaf.keys p
    pt =
        subst (λ k. IsPoint key leaf.num_keys leaf.keys (insertion_point key k leaf.keys)) n
          (insertion_point-IsPoint key leaf.num_keys leaf.keys s a)

    whole : BtNode
    whole = record leaf {
      num_keys = leaf.num_keys + 1;
      keys = with_place p leaf.num_keys key leaf.keys temp_keys;
      data_items = with_place p leaf.num_keys (item ∷ []) leaf.data_items temp_pointers;
    }

    ik : IsInserted p leaf.num_keys key leaf.keys whole.keys
    ik = with_place-IsInserted p leaf.num_keys key leaf.keys temp_keys

    id : IsInserted p leaf.num_keys (item ∷ []) leaf.data_items whole.data_items
    id = with_place-IsInserted p leaf.num_keys (item ∷ []) leaf.data_items temp_pointers

    kept : (i m : ℕ) (f : ℕ → List ℕ) → i < m → clear_from (order - 1) m f i ≡ f i
    kept i m f l = ground arith

    left : BtNode
    left = record leaf {
      keys = copy_to 8 0 0 whole.keys leaf.keys;
      data_items = clear_from (order - 1) 8 (copy_to 8 0 0 whole.data_items leaf.data_items);
      num_keys = 8;
      next = new_leaf.node_id;
    }

    right : BtNode
    right = record new_leaf {
      keys = copy_to 8 8 0 whole.keys new_leaf.keys;
      data_items = clear_from (order - 1) 8 (copy_to 8 8 0 whole.data_items new_leaf.data_items);
      num_keys = 8;
      next = leaf.next;
      parent = leaf.parent;
    }

    from_zero :
        {A : Type 0} (n i : ℕ) (f to : ℕ → A) (k : ℕ) → k < n → copy_to n i 0 f to k ≡ f (i + k)
    from_zero n i f to k l =
        ap (copy_to n i 0 f to) {x = k} {y = 0 + k} (omega arith) ∙ copy_to-copied n i 0 f to k l

    halves :
        IsSorted left.num_keys left.keys
        × IsSorted right.num_keys right.keys
        × ((q : ℕ) → read_leaf q (if ltb q (right.keys 0) then left else right) ≡ read_leaf q whole)
    halves =
        halves-reads whole left right 8 8 (inserted-IsSorted pt s ik) (omega (arith, n))
          (omega arith) refl refl
          (λ i l. (
            from_zero 8 0 whole.keys leaf.keys i l ∙ ap whole.keys (omega arith),
            kept i 8 (copy_to 8 0 0 whole.data_items leaf.data_items) l
                ∙ from_zero 8 0 whole.data_items leaf.data_items i l
                ∙ ap whole.data_items (omega arith),
          ))
          (λ i l. (
            from_zero 8 8 whole.keys new_leaf.keys i l,
            kept i 8 (copy_to 8 8 0 whole.data_items new_leaf.data_items) l
                ∙ from_zero 8 8 whole.data_items new_leaf.data_items i l,
          ))
