-- ===== src/BtreeEnc/Leaf.antt =====
-- What is read from a leaf after an insertion.
use veri_txn.Prelude.{
  set, set_at, set_other, ℕ, ◌+◌, ◌-◌, ◌<◌, ◌≡◌, refl, sym, ap, ◌∙◌, ◌⊎◌, inl, inr, true, false,
  List, [], ◌∷◌, Option, none, some, lt→ltb, ◌==◌, if◌then◌else◌, Bool-cases, Ensures, Ensures-then,
  ==→eq, ==→ne,
}
use veri_txn.BtreeEnc.{
  BtNode, order, leaf_has_key, read_leaf, insertion_point, insert_into_leaf, move_right,
}
use veri_txn.BtreeEnc.Arrays.{move_right-IsInserted}
use veri_txn.BtreeEnc.Lookup.{
  IsSorted, IsAbsent, IsPoint, search, key_cases, read_leaf-found, read_leaf-missing,
  insertion_point-IsPoint, inserted-IsSorted, inserted-reads,
}

-- The items that were read, or none.
abbrev pub items_or_none : Option (List ℕ) → List ℕ
items_or_none none = []
items_or_none (some d) = d

-- The leaf after an insertion: its keys go up, and the item stands in front of those of its key.
pub record HasInserted (key item : ℕ) (leaf leaf' : BtNode) : Type 0 where
  pub sorted : IsSorted leaf'.num_keys leaf'.keys
  pub bounded : leaf'.num_keys < order
  pub reads :
      (q : ℕ)
      → read_leaf q leaf'
        ≡ (if q == key then some (item ∷ items_or_none (read_leaf key leaf)) else read_leaf q leaf)
  pub same_next : leaf'.next ≡ leaf.next
  pub same_parent : leaf'.parent ≡ leaf.parent

-- More items for a key that is there.
more_items :
    (leaf : BtNode) (key item i : ℕ)
    → IsSorted leaf.num_keys leaf.keys
    → leaf.num_keys < order
    → i < leaf.num_keys
    → leaf.keys i ≡ key
    → HasInserted key item leaf
        (record leaf { data_items = set leaf.data_items i (item ∷ leaf.data_items i) })
more_items leaf key item i s b l e = record {
  sorted = s;
  bounded = b;
  reads = λ q. read q (Bool-cases (q == key)) (key_cases leaf q);
  same_next = refl;
  same_parent = refl;
}
  where
    new : BtNode
    new = record leaf { data_items = set leaf.data_items i (item ∷ leaf.data_items i) }

    read :
        (q : ℕ)
        → ((q == key) ≡ true) ⊎ ((q == key) ≡ false)
        → ((j : ℕ) × (j < leaf.num_keys) × (leaf.keys j ≡ q)) ⊎ IsAbsent q leaf.num_keys leaf.keys
        → read_leaf q new ≡ (
            if q == key then some (item ∷ items_or_none (read_leaf key leaf)) else read_leaf q leaf)
    read q (inl t) c = rw t (
        read_leaf-found new q i s l (e ∙ sym (==→eq q key t))
        ∙ ap some (set_at leaf.data_items (item ∷ leaf.data_items i) (refl_of i))
        ∙ ap (λ o. some (item ∷ items_or_none o)) (sym (read_leaf-found leaf key i s l e)))
      where
        refl_of : (i : ℕ) → i ≡ i
        refl_of i = refl
    read q (inr t) (inl (j, m, c)) = rw t (
        read_leaf-found new q j s m c
        ∙ ap some (
            set_other leaf.data_items (item ∷ leaf.data_items i)
              (λ f. ==→ne q key t (sym c ∙ ap leaf.keys (sym f) ∙ e)))
        ∙ sym (read_leaf-found leaf q j s m c))
    read q (inr t) (inr a) = rw t (read_leaf-missing new q a ∙ sym (read_leaf-missing leaf q a))

-- insert_into_leaf of a leaf whose keys go up, and which has room or has the key, returns with no failed
-- assertion. The keys still go up and are fewer than the order, and what is read for the key is the item in front
-- of what was read before, while every other key reads as before.
pub insert_into_leaf-HasInserted :
    (key item : ℕ) (leaf : BtNode)
    → IsSorted leaf.num_keys leaf.keys
    → leaf.num_keys < order
    → (leaf_has_key leaf key ≡ none → leaf.num_keys + 1 < order)
    → Ensures (HasInserted key item leaf) (insert_into_leaf key item leaf)
unfolding insert_into_leaf
insert_into_leaf-HasInserted key item leaf s b room = elim (search leaf key) [
  | inr (i, c, l, e) ↦ rw (insert_into_leaf, c) (more_items leaf key item i s b l e)
  | inl (c, a) ↦
      rw (insert_into_leaf, c)
        (Ensures-then (HasInserted key item leaf) _ _ (lt→ltb (leaf.num_keys + 1) order (room c))
          (fresh c a (insertion_point-IsPoint key leaf.num_keys leaf.keys s a)))
]
  where
    p : ℕ
    p = insertion_point key leaf.num_keys leaf.keys

    new : BtNode
    new = record leaf {
      keys = set (move_right p (leaf.num_keys - p) leaf.keys) p key;
      data_items = set (move_right p (leaf.num_keys - p) leaf.data_items) p (item ∷ []);
      num_keys = leaf.num_keys + 1;
    }

    fresh :
        leaf_has_key leaf key ≡ none
        → IsAbsent key leaf.num_keys leaf.keys
        → IsPoint key leaf.num_keys leaf.keys p
        → HasInserted key item leaf new
    fresh c a pt = record {
      sorted =
          inserted-IsSorted pt s (move_right-IsInserted p leaf.num_keys key leaf.keys pt.within);
      bounded = room c;
      reads = λ q.
          inserted-reads leaf new key p (item ∷ []) s refl pt
            (move_right-IsInserted p leaf.num_keys key leaf.keys pt.within)
            (move_right-IsInserted p leaf.num_keys (item ∷ []) leaf.data_items pt.within) q
          ∙ ap (λ o. if q == key then some (item ∷ items_or_none o) else read_leaf q leaf)
              (sym (read_leaf-missing leaf key a));
      same_next = refl;
      same_parent = refl;
    }
