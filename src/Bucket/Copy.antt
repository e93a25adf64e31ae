-- ===== src/Bucket/Copy.antt =====
-- The copies of a page that load_bucket and flush_out make have its hash.
use veri_txn.Prelude.{ℕ, ◌≡◌, refl, ap, ◌∙◌, List, [], ◌∷◌}
use Prim.Native.Nat.{bit_xor}
use veri_txn.RowEnc
use veri_txn.RowEnc.{Row, Catalog}
use veri_txn.RowEnc.RoundTrip.{hash-part_id}
use veri_txn.Bucket.{Bucket, copy_items, copy_nodes, hash_items, hash, hash_nodes, get_hash}

hash_items-copy_items :
    (cat : Catalog) (part res : ℕ) (l : List Row)
    → hash_items cat res (copy_items part l) ≡ hash_items cat res l
unfolding hash_items copy_items
hash_items-copy_items cat part res [] = refl
hash_items-copy_items cat part res (it ∷ r) =
    ap (λ h. hash_items cat (bit_xor res h) (copy_items part r)) (hash-part_id cat it part)
    ∙ hash_items-copy_items cat part (bit_xor res (RowEnc.hash cat it)) r

hash_nodes-copy_nodes :
    (cat : Catalog) (part res : ℕ) (b : Bucket)
    → hash_nodes cat res (copy_nodes part b) ≡ hash_nodes cat res b
unfolding hash_nodes copy_nodes hash
hash_nodes-copy_nodes cat part res [] = refl
hash_nodes-copy_nodes cat part res (n ∷ b) =
    ap (λ h. hash_nodes cat (bit_xor res (bit_xor h n.key)) (copy_nodes part b))
      (hash_items-copy_items cat part n.key n.items)
    ∙ hash_nodes-copy_nodes cat part (bit_xor res (bit_xor (hash cat n) n.key)) b

pub get_hash-copy_nodes :
    (cat : Catalog) (part : ℕ) (b : Bucket) → get_hash cat (copy_nodes part b) ≡ get_hash cat b
unfolding get_hash
get_hash-copy_nodes cat part b = hash_nodes-copy_nodes cat part 0 b
