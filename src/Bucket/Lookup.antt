-- ===== src/Bucket/Lookup.antt =====
-- Reading after an insertion.
use veri_txn.Prelude.{ℕ, ◌==◌, ◌≡◌, Option, none, some, List, [], ◌∷◌, if◌then◌else◌, arith}
use veri_txn.RowEnc.{Row}
use veri_txn.Bucket.{Bucket, insert_item, read_item}

-- The rows under a key, the inserted one in front.
abbrev pub in_front : Row → Option (List Row) → Option (List Row)
in_front item none = some (item ∷ [])
in_front item (some l) = some (item ∷ l)

-- After insert_item the row stands in front of those of its key, and every other key reads as before.
pub read_item-insert_item :
    (key k : ℕ) (item : Row) (b : Bucket)
    → read_item k (insert_item key item b)
      ≡ (if key == k then in_front item (read_item key b) else read_item k b)
unfolding read_item insert_item
read_item-insert_item key k item [] = ground arith
read_item-insert_item key k item (n ∷ r) = ground (arith, read_item-insert_item key k item r)
