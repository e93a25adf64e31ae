-- ===== src/BtreeEnc/Inner.antt =====
-- Where a search goes after a new child is put into an inner node, with and without a split.
use veri_txn.Prelude.{
  set, ℕ, ◌+◌, ◌-◌, ◌≤◌, ◌<◌, ◌≡◌, refl, ap, subst, ◌∙◌, ltb, if◌then◌else◌, arith,
}
use veri_txn.BtreeEnc.{
  BtNode, order, find_child, insertion_point, insert_into_inner, move_right, with_place, cut,
  copy_to, split_nl_insert,
}
use veri_txn.BtreeEnc.Arrays.{
  IsInserted, move_right-IsInserted, with_place-IsInserted, copy_to-copied,
}
use veri_txn.BtreeEnc.Lookup.{
  IsSorted, IsAbsent, IsPoint, insertion_point-IsPoint, inserted-IsSorted,
}
use veri_txn.BtreeEnc.Routes.{goes_right, inserted-child, halves-child}

-- A node whose keys go up, in which a search goes to the new child if it came to the place of the key and is not
-- below it, and else to the child that it came to.
pub record Routes (key right : ℕ) (c c' : BtNode) : Type 0 where
  pub sorted : IsSorted c'.num_keys c'.keys
  pub bounded : c'.num_keys < order
  pub child_of :
      (q : ℕ)
      → c'.child (find_child q c') ≡ (
          if goes_right (insertion_point key c.num_keys c.keys) key q (find_child q c)
          then right
          else c.child (find_child q c))

-- insert_into_parent in a parent with room, whose keys go up and are not the new one: the keys still go up and are
-- fewer than the order, and a search goes to the new child just when it came to the child in front of the new
-- key's place and its key is not below the new one, and else to the child that it came to.
pub insert_into_inner-Routes :
    (key right : ℕ) (parent : BtNode)
    → IsSorted parent.num_keys parent.keys
    → IsAbsent key parent.num_keys parent.keys
    → parent.num_keys < order - 1
    → Routes key right parent (insert_into_inner key right parent)
unfolding insert_into_inner
insert_into_inner-Routes key right parent s a b = record {
  sorted = sorted;
  bounded = omega (arith, b);
  child_of = inserted-child parent new key right p s sorted refl pt ik ic;
}
  where
    n : ℕ
    n = parent.num_keys

    p : ℕ
    p = insertion_point key n parent.keys

    new : BtNode
    new = record parent {
      keys = set (move_right p (n - p) parent.keys) p key;
      child = set (move_right (p + 1) (n - p) parent.child) (p + 1) right;
      num_keys = n + 1;
    }

    pt : IsPoint key n parent.keys p
    pt = insertion_point-IsPoint key n parent.keys s a

    ik : IsInserted p n key parent.keys new.keys
    ik = move_right-IsInserted p n key parent.keys pt.within

    ic : IsInserted (p + 1) (n + 1) right parent.child new.child
    ic =
        subst
          (λ k.
            IsInserted (p + 1) (n + 1) right parent.child
              (set (move_right (p + 1) k parent.child) (p + 1) right))
          {x = n + 1 - (p + 1)} {y = n - p} (omega arith)
          (move_right-IsInserted (p + 1) (n + 1) right parent.child (omega (arith, pt.within)))

    sorted : IsSorted new.num_keys new.keys
    sorted = inserted-IsSorted pt s ik

-- The two halves of an inner node, with the key between them.
pub record RoutesSplit (key right : ℕ) (c l : BtNode) (k : ℕ) (r : BtNode) (new_id : ℕ)
    : Type 0 where
  pub sorted_left : IsSorted l.num_keys l.keys
  pub sorted_right : IsSorted r.num_keys r.keys
  pub bounded_left : l.num_keys < order
  pub bounded_right : r.num_keys < order
  pub filled_left : order ≤ (l.num_keys + 1) + (l.num_keys + 1)
  pub filled_right : order ≤ (r.num_keys + 1) + (r.num_keys + 1)
  pub child_of :
      (q : ℕ)
      → (if ltb q k then l.child (find_child q l) else r.child (find_child q r)) ≡ (
          if goes_right (insertion_point key c.num_keys c.keys) key q (find_child q c)
          then right
          else c.child (find_child q c))
  pub left_next : l.next ≡ new_id
  pub right_next : r.next ≡ c.next
  pub right_parent : r.parent ≡ c.parent

-- split_nl_insert of a full inner node whose keys go up and are not the new one, at the new key's place: the two
-- nodes have at least half of the order of children each, and their keys go up. A search that goes to the node which
-- the key between them leads to goes down to the new child just when it came to the child in front of the new
-- key's place and its key is not below the new one, and else to the child that it came to.
pub split_nl_insert-RoutesSplit :
    (temp_keys temp_pointers : ℕ → ℕ) (new_node : BtNode) (key right : ℕ) (old_node : BtNode)
    → IsSorted old_node.num_keys old_node.keys
    → old_node.num_keys ≡ order - 1
    → IsAbsent key old_node.num_keys old_node.keys
    → let (l, k, r) =
        split_nl_insert temp_keys temp_pointers new_node
          (insertion_point key old_node.num_keys old_node.keys)
          key
          right
          old_node in
      RoutesSplit key right old_node l k r new_node.node_id
unfolding split_nl_insert cut
split_nl_insert-RoutesSplit temp_keys temp_pointers new_node key right old_node s full a = record {
  sorted_left = halves.0;
  sorted_right = halves.1;
  bounded_left = omega arith;
  bounded_right = omega arith;
  filled_left = omega arith;
  filled_right = omega arith;
  child_of = λ q. halves.2 q ∙ inserted-child old_node whole key right p s sorted refl pt ik ic q;
  left_next = refl;
  right_next = refl;
  right_parent = refl;
}
  where
    n : ℕ
    n = old_node.num_keys

    p : ℕ
    p = insertion_point key n old_node.keys

    pt : IsPoint key n old_node.keys p
    pt = insertion_point-IsPoint key n old_node.keys s a

    whole : BtNode
    whole = record old_node {
      num_keys = n + 1;
      keys = with_place p n key old_node.keys temp_keys;
      child = with_place (p + 1) (n + 1) right old_node.child temp_pointers;
    }

    ik : IsInserted p n key old_node.keys whole.keys
    ik = with_place-IsInserted p n key old_node.keys temp_keys

    ic : IsInserted (p + 1) (n + 1) right old_node.child whole.child
    ic = with_place-IsInserted (p + 1) (n + 1) right old_node.child temp_pointers

    sorted : IsSorted whole.num_keys whole.keys
    sorted = inserted-IsSorted pt s ik

    left : BtNode
    left = record old_node {
      child = copy_to 8 0 0 whole.child old_node.child;
      keys = copy_to 7 0 0 whole.keys old_node.keys;
      num_keys = 7;
      next = new_node.node_id;
    }

    right_node : BtNode
    right_node = record new_node {
      child = copy_to 9 8 0 whole.child new_node.child;
      keys = copy_to 8 8 0 whole.keys new_node.keys;
      num_keys = 8;
      next = old_node.next;
      parent = old_node.parent;
    }

    from_zero : (c i : ℕ) (f to : ℕ → ℕ) (k : ℕ) → k < c → copy_to c i 0 f to k ≡ f (i + k)
    from_zero c i f to k l =
        ap (copy_to c i 0 f to) {x = k} {y = 0 + k} (omega arith) ∙ copy_to-copied c i 0 f to k l

    halves :
        IsSorted left.num_keys left.keys
        × IsSorted right_node.num_keys right_node.keys
        × ((q : ℕ)
            → (if ltb q (whole.keys 7)
                then left.child (find_child q left)
                else right_node.child (find_child q right_node))
              ≡ whole.child (find_child q whole))
    halves =
        halves-child whole left right_node 7 8 (whole.keys 7) sorted (omega (arith, full)) refl refl
          refl (λ i l. from_zero 7 0 whole.keys old_node.keys i l ∙ ap whole.keys (omega arith))
          (λ i l.
            from_zero 8 0 whole.child old_node.child i (omega (arith, l))
            ∙ ap whole.child (omega arith))
          (λ i l. from_zero 8 8 whole.keys new_node.keys i l)
          (λ i l. from_zero 9 8 whole.child new_node.child i (omega (arith, l)))
