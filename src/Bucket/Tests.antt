-- ===== src/Bucket/Tests.antt =====
-- A page with one node of two rows.
use Prim.Native.Nat.{bit_xor}
use veri_txn.Prelude.{◌≡◌, refl, [], ◌∷◌, map, arith, done, if◌then◌else◌, ◌==◌}
use mathlib.Core.List.{Permᴰ}
use veri_txn.RowEnc
use veri_txn.RowEnc.{Row}
use veri_txn.RowEnc.Tests.{one_table, row, row-IsRow}
use veri_txn.RowEnc.RoundTrip.{IsRow}
use veri_txn.Bucket.{BucketNode, encode, decode, insert_item, read_item, get_hash}
use veri_txn.Bucket.Lookup.{in_front, read_item-insert_item}
use veri_txn.Bucket.RoundTrip.{reread_node, decode-encode_page}
use veri_txn.Bucket.Hash.{get_hash-Perm, get_hash-insert_item}

abbrev pub second : Row
second = record row { row_id = 8; cells = 1 ∷ (2 ∷ []) }

abbrev pub node : BucketNode
node = record { key = 1024; items = row ∷ (second ∷ []) }

second-IsRow : IsRow one_table second
second-IsRow = record {
  table = row-IsRow.table;
  name = row-IsRow.name;
  key_fits = omega arith;
  part_fits = omega arith;
  row_fits = omega arith;
  whole = refl;
  bytes = omega arith;
}

decode-encode_page_example :
    decode one_table (encode one_table (node ∷ [])) ≡ done (map reread_node (node ∷ []))
decode-encode_page_example =
    decode-encode_page one_table (node ∷ []) ((omega arith, (row-IsRow, (second-IsRow, tt))), tt)

read_item-insert_item_example : read_item 1024 (insert_item 1024 second (node ∷ [])) ≡ (
    if 1024 == 1024
    then in_front second (read_item 1024 (node ∷ []))
    else read_item 1024 (node ∷ []))
read_item-insert_item_example = read_item-insert_item 1024 1024 second (node ∷ [])

get_hash-Perm_example :
    get_hash one_table (node ∷ [])
    ≡ get_hash one_table
        (record { key = 5; items = second ∷ [] } ∷ (record { key = 6; items = row ∷ [] } ∷ []))
get_hash-Perm_example =
    get_hash-Perm one_table (node ∷ [])
      (record { key = 5; items = second ∷ [] } ∷ (record { key = 6; items = row ∷ [] } ∷ []))
      (Permᴰ.swap refl refl)

get_hash-insert_item_example :
    get_hash one_table (insert_item 3 second (node ∷ []))
    ≡ bit_xor (RowEnc.hash one_table second) (get_hash one_table (node ∷ []))
get_hash-insert_item_example = get_hash-insert_item one_table 3 second (node ∷ [])
