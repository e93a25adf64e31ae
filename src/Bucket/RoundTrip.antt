-- ===== src/Bucket/RoundTrip.antt =====
-- What `decode` makes of an encoded page.
use veri_txn.Prelude.{
  ◌^◌, ◌<◌, ◌≡◌, refl, ap, ◌∙◌, Option, none, some, List, [], ◌∷◌, All, done, ◌>>=◌, map,
}
use veri_txn.Coder.Scan.{nest}
use veri_txn.Coder.RoundTrip.{Fits, encode_vec-Balanced, decode_vec-encode_vec}
use veri_txn.Coder.Decimal.{to_string, to_string-Balanced, stoull-to_string}
use veri_txn.RowEnc
use veri_txn.RowEnc.{Row, Catalog}
use veri_txn.RowEnc.RoundTrip.{IsRow, spread, decode-encode, encode-Balanced}
use veri_txn.Bucket.{
  BucketNode, Bucket, encode_items, encode_node, node_items, encode, decode_items, Decoded, rows_of,
  of_items, decode_node, decode_nodes, decode,
}

-- Each row in its node is one that the encoding of rows is about, and the keys have 64 bits.
abbrev pub IsNode : Catalog → BucketNode → Type 0
IsNode cat n = (n.key < 2 ^ 64) × All (IsRow cat) n.items

-- The row that comes back in place of `r`.
abbrev pub reread : Row → Row
reread r = record r { cells = spread r.cells }

-- The first row, as often as there are rows.
abbrev pub first_again : List Row → Option (List Row)
first_again [] = none
first_again (r ∷ l) = some (map (λ _. reread r) (r ∷ l))

abbrev pub reread_node : BucketNode → Decoded
reread_node n = (n.key, first_again n.items)

encode_items-Fits :
    (cat : Catalog) (l : List Row) → All (IsRow cat) l → All Fits (encode_items cat l)
unfolding encode_items
encode_items-Fits cat [] h = tt
encode_items-Fits cat (r ∷ l) h =
    ((to_string-Balanced r.part_id, encode-Balanced cat r h.0.name), encode_items-Fits cat l h.1)

pairs-Fits :
    (cat : Catalog) (n : BucketNode)
    → IsNode cat n
    → All Fits ((to_string n.key, []) ∷ encode_items cat n.items)
unfolding nest
pairs-Fits cat n h = ((to_string-Balanced n.key, refl), encode_items-Fits cat n.items h.1)

node_items-Fits : (cat : Catalog) (b : Bucket) → All (IsNode cat) b → All Fits (node_items cat b)
unfolding node_items encode_node
node_items-Fits cat [] h = tt
node_items-Fits cat (n ∷ b) h = (
  (to_string-Balanced n.key, encode_vec-Balanced _ (pairs-Fits cat n h.0)),
  node_items-Fits cat b h.1,
)

decode_items-again :
    (cat : Catalog) (r : Row) (l : List Row)
    → IsRow cat r
    → decode_items cat (RowEnc.encode cat r) (encode_items cat l) ≡ done (map (λ _. reread r) l)
unfolding decode_items encode_items
decode_items-again cat r [] h = refl
decode_items-again cat r (x ∷ l) h = rw (decode-encode cat r h, decode_items-again cat r l h) refl

rows_of-again :
    (cat : Catalog) (l : List Row)
    → All (IsRow cat) l
    → rows_of cat (encode_items cat l) ≡ done (first_again l)
unfolding rows_of encode_items
rows_of-again cat [] h = refl
rows_of-again cat (r ∷ l) h =
    ap (λ o. o >>= λ l. done (some l)) (decode_items-again cat r (r ∷ l) h.0)

decode_node-encode_node :
    (cat : Catalog) (n : BucketNode)
    → IsNode cat n
    → decode_node cat (encode_node cat n) ≡ done (reread_node n)
unfolding decode_node encode_node of_items
decode_node-encode_node cat n h =
    ap (λ o. o >>= of_items cat)
      (decode_vec-encode_vec ((to_string n.key, []) ∷ encode_items cat n.items)
        (pairs-Fits cat n h))
    ∙ rw (stoull-to_string n.key h.0, rows_of-again cat n.items h.1) refl

decode_nodes-again :
    (cat : Catalog) (b : Bucket)
    → All (IsNode cat) b
    → decode_nodes cat (node_items cat b) ≡ done (map reread_node b)
unfolding decode_nodes node_items
decode_nodes-again cat [] h = refl
decode_nodes-again cat (n ∷ b) h =
    rw
      (
        stoull-to_string n.key h.0.0,
        decode_node-encode_node cat n h.0,
        decode_nodes-again cat b h.1,
      )
      refl

-- A page with 64-bit keys, whose rows are of tables of the catalog, decodes without a failed assertion
-- into the same keys in the same order. But each row of a node comes back as the first of the
-- node, with its bytes spread, and a node without rows with an item that points nowhere.
pub decode-encode_page :
    (cat : Catalog) (b : Bucket)
    → All (IsNode cat) b
    → decode cat (encode cat b) ≡ done (map reread_node b)
unfolding decode encode
decode-encode_page cat b h =
    ap (λ o. o >>= decode_nodes cat)
      (decode_vec-encode_vec (node_items cat b) (node_items-Fits cat b h))
    ∙ decode_nodes-again cat b h
