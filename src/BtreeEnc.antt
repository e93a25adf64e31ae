-- ===== src/BtreeEnc.antt =====
-- The nodes of the B+ tree in the enclave, `IndexBTEnc` of trusted/system/index_btree_enc.cpp: the search in a node,
-- insertion into a leaf, and the splits of a leaf and of an inner node. The arrays of a node are functions.
pub mod Arrays
pub mod Lookup
pub mod Leaf
pub mod Split
pub mod Routes
pub mod Inner
mod Tests
use veri_txn.Prelude.{
  set, ℕ, zero, suc, ◌+◌, ◌-◌, ◌/◌, ◌%◌, ◌^◌, Bool, true, false, not, ◌&&◌, ◌||◌, Option, none,
  some, List, [], ◌∷◌, ltb, leb, ◌==◌, if◌then◌else◌, Outcome, done, blocked, fault, ◌>>=◌,
}

abbrev pub order : ℕ
order = 16

-- `child` are the numbers of the children, `data` the chains of items, each item a number.
pub record BtNode : Type 0 where
  pub node_id : ℕ
  pub is_leaf : Bool
  pub num_keys : ℕ
  pub keys : ℕ → ℕ
  pub child : ℕ → ℕ
  pub data_items : ℕ → List ℕ
  pub parent : ℕ
  pub next : ℕ

-- The rounds of a loop that stops at the first index from `i` on, of `n`, with the test.
pub first_from : (ℕ → Bool) → ℕ → ℕ → ℕ
first_from stops zero i = i
first_from stops (suc n) i = let rest = first_from stops n (i + 1) in if stops i then i else rest

-- The child that a search for the key goes down to.
pub find_child : ℕ → BtNode → ℕ
unfolding first_from
find_child key c = first_from (λ i. ltb key (c.keys i)) c.num_keys 0

-- `leaf_has_key`: the index of the key, or that there is none.
pub leaf_has_key : BtNode → ℕ → Option ℕ
unfolding first_from
leaf_has_key leaf key =
    let i : ℕ = first_from (λ i. leaf.keys i == key) leaf.num_keys 0 in
    if ltb i leaf.num_keys then some i else none

-- The items that `index_read` finds in the leaf.
pub read_leaf : ℕ → BtNode → Option (List ℕ)
unfolding leaf_has_key
read_leaf key leaf = elim (leaf_has_key leaf key) [
  | none ↦ none
  | some i ↦ some (leaf.data_items i)
]

-- The loop that moves the entries from `p` on to the right, from the last one down; `n` entries are left to move.
pub move_right {ℓ} : {A : Type ℓ} → ℕ → ℕ → (ℕ → A) → ℕ → A
move_right p zero f = f
move_right p (suc n) f = move_right p n (set f (p + suc n) (f (p + n)))

-- The index at which a key is inserted, among the first `n` keys.
pub insertion_point : ℕ → ℕ → (ℕ → ℕ) → ℕ
unfolding first_from
insertion_point key n keys = first_from (λ i. leb key (keys i)) n 0

pub insert_into_leaf : ℕ → ℕ → BtNode → Outcome BtNode
unfolding leaf_has_key insertion_point move_right
insert_into_leaf key item leaf = elim (leaf_has_key leaf key) [
  | some idx ↦
      done (record leaf { data_items = set leaf.data_items idx (item ∷ leaf.data_items idx) })
  | none ↦
      let p : ℕ = insertion_point key leaf.num_keys leaf.keys in
      let moved : ℕ = leaf.num_keys - p in
      if ltb (leaf.num_keys + 1) order
      then done (record leaf {
        keys = set (move_right p moved leaf.keys) p key;
        data_items = set (move_right p moved leaf.data_items) p (item ∷ []);
        num_keys = leaf.num_keys + 1;
      })
      else fault
]

-- The loop that copies `n` entries from `i` on, to `j` on, leaving out the place `p`.
pub copy_around {ℓ} : {A : Type ℓ} → ℕ → ℕ → ℕ → ℕ → (ℕ → A) → (ℕ → A) → ℕ → A
copy_around p zero i j f temp = temp
copy_around p (suc n) i j f temp =
    let k : ℕ = (if j == p then j + 1 else j) in
    copy_around p n (i + 1) (k + 1) f (set temp k (f i))

-- The temporary array of a split: the old entries with one more at `p`.
abbrev pub with_place {ℓ} : {A : Type ℓ} → ℕ → ℕ → A → (ℕ → A) → (ℕ → A) → ℕ → A
with_place p n a f temp = set (copy_around p n 0 0 f temp) p a

pub cut : ℕ → ℕ
cut length = if length % 2 == 0 then length / 2 else length / 2 + 1

-- The loop that copies `n` entries from `i` on, to `j` on.
pub copy_to {ℓ} : {A : Type ℓ} → ℕ → ℕ → ℕ → (ℕ → A) → (ℕ → A) → ℕ → A
copy_to zero i j f to = to
copy_to (suc n) i j f to = copy_to n (i + 1) (j + 1) f (set to j (f i))

-- The pointers from `i` to `n` are null.
abbrev pub clear_from : ℕ → ℕ → (ℕ → List ℕ) → ℕ → List ℕ
clear_from n i f j = if leb i j && ltb j n then [] else f j

-- The two leaves of `split_lf_insert` and the key between them, before they go into the parent; `new_leaf` is
-- what make_node gives, and `temp_keys` and `temp_pointers` what stands on the stack.
pub split_lf_insert :
    (ℕ → ℕ) → (ℕ → List ℕ) → BtNode → ℕ → ℕ → BtNode → Outcome (BtNode × ℕ × BtNode)
unfolding copy_around cut copy_to insertion_point
split_lf_insert temp_keys temp_pointers new_leaf key item leaf =
    let p : ℕ = insertion_point key (order - 1) leaf.keys in
    let keys : ℕ → ℕ = with_place p leaf.num_keys key leaf.keys temp_keys in
    let items : ℕ → List ℕ = with_place p leaf.num_keys (item ∷ []) leaf.data_items temp_pointers in
    let split : ℕ = cut (order - 1) in
    let right_keys : ℕ → ℕ = copy_to (order - split) split 0 keys new_leaf.keys in
    if leaf.num_keys == order - 1
    then done (
      record leaf {
        keys = copy_to split 0 0 keys leaf.keys;
        data_items = clear_from (order - 1) split (copy_to split 0 0 items leaf.data_items);
        num_keys = split;
        next = new_leaf.node_id;
      },
      right_keys 0,
      record new_leaf {
        keys = right_keys;
        data_items =
            clear_from (order - 1) (order - split)
              (copy_to (order - split) split 0 items new_leaf.data_items);
        num_keys = order - split;
        next = leaf.next;
        parent = leaf.parent;
      },
    )
    else fault

-- `insert_into_parent` in a parent with room.
pub insert_into_inner : ℕ → ℕ → BtNode → BtNode
unfolding insertion_point move_right
insert_into_inner key right parent =
    let p : ℕ = insertion_point key parent.num_keys parent.keys in
    let moved : ℕ = parent.num_keys - p in
    record parent {
      keys = set (move_right p moved parent.keys) p key;
      child = set (move_right (p + 1) moved parent.child) (p + 1) right;
      num_keys = parent.num_keys + 1;
    }

pub insert_into_new_root : BtNode → BtNode → ℕ → BtNode → BtNode × BtNode × BtNode
insert_into_new_root new_root left key right = (
  record left { parent = new_root.node_id; next = right.node_id },
  record right { parent = new_root.node_id },
  record new_root {
    keys = set new_root.keys 0 key;
    child = set (set new_root.child 0 left.node_id) 1 right.node_id;
    num_keys = new_root.num_keys + 1;
    parent = 0;
  },
)

-- The two inner nodes of `split_nl_insert` and the key between them, before they go into the parent.
pub split_nl_insert : (ℕ → ℕ) → (ℕ → ℕ) → BtNode → ℕ → ℕ → ℕ → BtNode → BtNode × ℕ × BtNode
unfolding copy_around cut copy_to
split_nl_insert temp_keys temp_pointers new_node left_index key right old_node =
    let pointers : ℕ → ℕ =
      with_place (left_index + 1) (old_node.num_keys + 1) right old_node.child temp_pointers in
    let keys : ℕ → ℕ = with_place left_index old_node.num_keys key old_node.keys temp_keys in
    let split : ℕ = cut order in
    (
      record old_node {
        child = copy_to split 0 0 pointers old_node.child;
        keys = copy_to (split - 1) 0 0 keys old_node.keys;
        num_keys = split - 1;
        next = new_node.node_id;
      },
      keys (split - 1),
      record new_node {
        child = copy_to (order - split + 1) split 0 pointers new_node.child;
        keys = copy_to (order - split) split 0 keys new_node.keys;
        num_keys = order - split;
        next = old_node.next;
        parent = old_node.parent;
      },
    )
