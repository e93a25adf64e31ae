-- ===== src/BtreeEnc/Tests.antt =====
-- Runs of the definitions of the B+ tree nodes, and their theorems at concrete nodes.
use veri_txn.Prelude.{ℕ, ◌+◌, ◌*◌, ◌≡◌, refl, true, some, [], ◌∷◌, done, map_done, Ensures, arith}
use veri_txn.BtreeEnc.{
  BtNode, first_from, find_child, leaf_has_key, read_leaf, move_right, insertion_point,
  insert_into_leaf, copy_around, cut, copy_to, split_lf_insert, insert_into_inner,
  insert_into_new_root, split_nl_insert,
}
use veri_txn.BtreeEnc.Lookup.{IsSorted, IsAbsent}
use veri_txn.BtreeEnc.Leaf.{HasInserted, insert_into_leaf-HasInserted}
use veri_txn.BtreeEnc.Split.{IsSplit, split_lf_insert-IsSplit}
use veri_txn.BtreeEnc.Inner.{RoutesSplit, split_nl_insert-RoutesSplit}

-- A node with the keys 0, 10, 20 and so on, the items 1, 2, 3 and the children 100, 101, 102.
abbrev node_of : ℕ → BtNode
node_of n = record {
  node_id = 5;
  is_leaf = true;
  num_keys = n;
  keys = λ i. i * 10;
  child = λ i. 100 + i;
  data_items = λ i. (i + 1) ∷ [];
  parent = 3;
  next = 9;
}

abbrev blank : BtNode
blank = record {
  node_id = 7;
  is_leaf = true;
  num_keys = 0;
  keys = λ i. 0;
  child = λ i. 0;
  data_items = λ i. [];
  parent = 0;
  next = 0;
}

read_new : map_done (read_leaf 15) (insert_into_leaf 15 77 (node_of 3)) ≡ done (some (77 ∷ []))
unfolding first_from leaf_has_key read_leaf move_right insertion_point insert_into_leaf
read_new = refl

read_old :
    map_done (read_leaf 20) (insert_into_leaf 20 77 (node_of 3)) ≡ done (some (77 ∷ (3 ∷ [])))
unfolding first_from leaf_has_key read_leaf move_right insertion_point insert_into_leaf
read_old = refl

separator :
    map_done (λ x. x.1) (split_lf_insert (λ i. 0) (λ i. []) blank 15 77 (node_of 15)) ≡ done 70
unfolding first_from insertion_point copy_around cut copy_to split_lf_insert
separator = refl

goes_to_new : (let c = insert_into_inner 15 200 (node_of 3) in c.child (find_child 17 c)) ≡ 200
unfolding first_from insertion_point insert_into_inner move_right find_child
goes_to_new = refl

new_root : (insert_into_new_root blank (node_of 2) 15 (node_of 3)).2.child 1 ≡ 5
unfolding insert_into_new_root
new_root = refl

sorted : (n : ℕ) → IsSorted n (λ i. i * 10)
sorted n i j a b = omega (arith, a)

absent : (n : ℕ) → IsAbsent 15 n (λ i. i * 10)
absent n i l e = omega (arith, e)

insert_into_leaf-HasInserted_example :
    Ensures (HasInserted 15 77 (node_of 3)) (insert_into_leaf 15 77 (node_of 3))
insert_into_leaf-HasInserted_example =
    insert_into_leaf-HasInserted 15 77 (node_of 3) (sorted 3) (omega arith) (λ e. omega arith)

split_lf_insert-IsSplit_example :
    Ensures
      (λ x. IsSplit 15 77 (node_of 15) x.0 x.1 x.2 7)
      (split_lf_insert (λ i. 0) (λ i. []) blank 15 77 (node_of 15))
split_lf_insert-IsSplit_example =
    split_lf_insert-IsSplit (λ i. 0) (λ i. []) blank 15 77 (node_of 15) (sorted 15) refl (absent 15)

split_nl_insert-RoutesSplit_example :
    let (l, k, r) =
      split_nl_insert
        (λ i. 0)
        (λ i. 0)
        blank
        (insertion_point 15 15 (λ i. i * 10))
        15
        200
        (node_of 15) in
    RoutesSplit 15 200 (node_of 15) l k r 7
split_nl_insert-RoutesSplit_example =
    split_nl_insert-RoutesSplit (λ i. 0) (λ i. 0) blank 15 200 (node_of 15) (sorted 15) refl
      (absent 15)
