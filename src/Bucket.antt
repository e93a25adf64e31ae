-- ===== src/Bucket.antt =====
-- `BucketHeader_ENC` and `BucketNode_ENC` of trusted/system/index_enc.cpp: a page of the verified hash
-- index. The nodes and the items are linked lists, here lists; the latch is in Latch.
pub mod Lookup
pub mod Copy
pub mod RoundTrip
pub mod Hash
pub mod Tests
use Prim.Native.Nat.{bit_xor}
use veri_txn.Prelude.{
  ℕ, ◌==◌, Bool, true, false, Option, none, some, List, [], ◌∷◌, if◌then◌else◌, Outcome, done,
  fault, ◌>>=◌,
}
use veri_txn.Coder.{Chars, encode_vec, decode_vec}
use veri_txn.Coder.Decimal.{to_string, stoull}
use veri_txn.RowEnc
use veri_txn.RowEnc.{Row, Catalog}

pub record BucketNode : Type 0 where
  pub key : ℕ
  pub items : List Row

abbrev pub Bucket : Type 0
Bucket = List BucketNode

-- `BucketHeader_ENC::insert_item` of one row: in front of the items of its key, or behind the last node.
pub insert_item : ℕ → Row → Bucket → Bucket
insert_item key item [] = record { key = key; items = item ∷ [] } ∷ []
insert_item key item (n ∷ r) =
    let rest = insert_item key item r in
    if n.key == key then record n { items = item ∷ n.items } ∷ r else n ∷ rest

-- `BucketHeader_ENC::read_item`: `none` is the null pointer.
pub read_item : ℕ → Bucket → Option (List Row)
read_item key [] = none
read_item key (n ∷ r) = let rest = read_item key r in if n.key == key then some n.items else rest

-- The rows that load_bucket and flush_out allocate for those of a page: all but the part id is copied.
pub copy_items : ℕ → List Row → List Row
copy_items part [] = []
copy_items part (it ∷ r) = record it { part_id = part } ∷ copy_items part r

pub copy_nodes : ℕ → Bucket → Bucket
unfolding copy_items
copy_nodes part [] = []
copy_nodes part (n ∷ b) = record n { items = copy_items part n.items } ∷ copy_nodes part b

pub hash_items : Catalog → ℕ → List Row → ℕ
hash_items cat res [] = res
hash_items cat res (it ∷ r) = hash_items cat (bit_xor res (RowEnc.hash cat it)) r

-- `BucketNode_ENC::hash`.
pub hash : Catalog → BucketNode → ℕ
unfolding hash_items
hash cat n = hash_items cat n.key n.items

pub hash_nodes : Catalog → ℕ → Bucket → ℕ
unfolding hash
hash_nodes cat res [] = res
hash_nodes cat res (n ∷ r) = hash_nodes cat (bit_xor res (bit_xor (hash cat n) n.key)) r

-- `BucketHeader_ENC::get_hash`.
pub get_hash : Catalog → Bucket → ℕ
unfolding hash_nodes
get_hash cat b = hash_nodes cat 0 b

pub encode_items : Catalog → List Row → List (Chars × Chars)
encode_items cat [] = []
encode_items cat (it ∷ r) = (to_string it.part_id, RowEnc.encode cat it) ∷ encode_items cat r

-- `BucketNode_ENC::encode`: the key with an empty string, then the rows.
pub encode_node : Catalog → BucketNode → Chars
unfolding encode_items
encode_node cat n = encode_vec ((to_string n.key, []) ∷ encode_items cat n.items)

-- The list that `BucketHeader_ENC::encode` writes.
pub node_items : Catalog → Bucket → List (Chars × Chars)
unfolding encode_node
node_items cat [] = []
node_items cat (n ∷ r) = (to_string n.key, encode_node cat n) ∷ node_items cat r

pub encode : Catalog → Bucket → Chars
unfolding node_items
encode cat b = encode_vec (node_items cat b)

-- The loop of `BucketNode_ENC::decode`: each round decodes the string at index 1, given first.
pub decode_items : Catalog → Chars → List (Chars × Chars) → Outcome (List Row)
decode_items cat second [] = done []
decode_items cat second (p ∷ r) = do
  row ← RowEnc.decode cat second
  rest ← decode_items cat second r
  done (row ∷ rest)

-- Without a row the node keeps one item that points nowhere, here `none`.
abbrev pub Decoded : Type 0
Decoded = ℕ × Option (List Row)

pub rows_of : Catalog → List (Chars × Chars) → Outcome (Option (List Row))
unfolding decode_items
rows_of cat [] = done none
rows_of cat (p ∷ r) = decode_items cat p.1 (p ∷ r) >>= λ l. done (some l)

pub of_items : Catalog → List (Chars × Chars) → Outcome Decoded
unfolding rows_of
of_items cat [] = fault
of_items cat (k ∷ r) = do key ← stoull k.0; rows ← rows_of cat r; done (key, rows)

-- `BucketNode_ENC::decode`.
pub decode_node : Catalog → Chars → Outcome Decoded
unfolding of_items
decode_node cat e = decode_vec e >>= of_items cat

-- `BucketHeader_ENC::decode`: each pair is a node, whose decoding sets its key again.
pub decode_nodes : Catalog → List (Chars × Chars) → Outcome (List Decoded)
unfolding decode_node
decode_nodes cat [] = done []
decode_nodes cat (p ∷ r) = do
  first ← stoull p.0
  n ← decode_node cat p.1
  rest ← decode_nodes cat r
  done (n ∷ rest)

pub decode : Catalog → Chars → Outcome (List Decoded)
unfolding decode_nodes
decode cat e = decode_vec e >>= decode_nodes cat
