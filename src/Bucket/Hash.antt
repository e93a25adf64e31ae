-- ===== src/Bucket/Hash.antt =====
-- What the hash of a page depends on.
use Prim.Native.Nat.{bit_xor}
use veri_txn.Prelude.{ℕ, ◌==◌, ◌≡◌, refl, sym, ap, ◌∙◌, Bool-cases, inl, inr, List, [], ◌∷◌, ◌++◌}
use mathlib.Core.List.{Permᴰ}
use mathlib.Core.List.Permᴰ
use veri_txn.Prelude.Xor.{xor_comm, xor_assoc, xor_zero, xor_cancel}
use veri_txn.RowEnc
use veri_txn.RowEnc.{Row, Catalog}
use veri_txn.Bucket.{BucketNode, Bucket, insert_item, hash_items, hash, hash_nodes, get_hash}

-- The hashes of the rows alone.
abbrev pub rows_hash : Catalog → List Row → ℕ
rows_hash cat l = hash_items cat 0 l

hash_items_from :
    (cat : Catalog) (res : ℕ) (l : List Row)
    → hash_items cat res l ≡ bit_xor res (hash_items cat 0 l)
unfolding hash_items
hash_items_from cat res [] = sym (xor_comm res 0 ∙ xor_zero res)
hash_items_from cat res (it ∷ r) =
    hash_items_from cat (bit_xor res (RowEnc.hash cat it)) r
    ∙ xor_assoc res (RowEnc.hash cat it) (hash_items cat 0 r)
    ∙ ap (bit_xor res) (
        ap (λ h. bit_xor h (hash_items cat 0 r)) (sym (xor_zero (RowEnc.hash cat it)))
        ∙ sym (hash_items_from cat (bit_xor 0 (RowEnc.hash cat it)) r))

-- The key, which the hash of the node and that of the page both add, is gone.
node_lem : (cat : Catalog) (n : BucketNode) → bit_xor (hash cat n) n.key ≡ rows_hash cat n.items
unfolding hash
node_lem cat n =
    ap (λ h. bit_xor h n.key) (hash_items_from cat n.key n.items)
    ∙ xor_cancel n.key (rows_hash cat n.items)

-- The hash of the page from the hashes of its rows.
abbrev pub page_hash : Catalog → Bucket → ℕ
page_hash cat [] = 0
page_hash cat (n ∷ r) = bit_xor (rows_hash cat n.items) (page_hash cat r)

hash_nodes_from :
    (cat : Catalog) (res : ℕ) (b : Bucket) → hash_nodes cat res b ≡ bit_xor res (page_hash cat b)
unfolding hash_nodes
hash_nodes_from cat res [] = sym (xor_comm res 0 ∙ xor_zero res)
hash_nodes_from cat res (n ∷ r) =
    hash_nodes_from cat (bit_xor res (bit_xor (hash cat n) n.key)) r
    ∙ ap (λ h. bit_xor (bit_xor res h) (page_hash cat r)) (node_lem cat n)
    ∙ xor_assoc res (rows_hash cat n.items) (page_hash cat r)

get_hash_lem : (cat : Catalog) (b : Bucket) → get_hash cat b ≡ page_hash cat b
unfolding get_hash
get_hash_lem cat b = hash_nodes_from cat 0 b ∙ xor_zero (page_hash cat b)

-- The rows of a page, whatever their keys.
abbrev pub all_rows : Bucket → List Row
all_rows [] = []
all_rows (n ∷ r) = n.items ++ all_rows r

xor_swap : (a b c : ℕ) → bit_xor a (bit_xor b c) ≡ bit_xor b (bit_xor a c)
xor_swap a b c = sym (xor_assoc a b c) ∙ ap (λ d. bit_xor d c) (xor_comm a b) ∙ xor_assoc b a c

rows_hash-cons :
    (cat : Catalog) (r : Row) (l : List Row)
    → rows_hash cat (r ∷ l) ≡ bit_xor (RowEnc.hash cat r) (rows_hash cat l)
unfolding hash_items
rows_hash-cons cat r l =
    hash_items_from cat (bit_xor 0 (RowEnc.hash cat r)) l
    ∙ ap (λ h. bit_xor h (rows_hash cat l)) (xor_zero (RowEnc.hash cat r))

rows_hash-append :
    (cat : Catalog) (l m : List Row)
    → rows_hash cat (l ++ m) ≡ bit_xor (rows_hash cat l) (rows_hash cat m)
unfolding hash_items
rows_hash-append cat [] m = sym (xor_zero (rows_hash cat m))
rows_hash-append cat (r ∷ l) m =
    rows_hash-cons cat r (l ++ m)
    ∙ ap (bit_xor (RowEnc.hash cat r)) (rows_hash-append cat l m)
    ∙ sym (xor_assoc (RowEnc.hash cat r) (rows_hash cat l) (rows_hash cat m))
    ∙ ap (λ h. bit_xor h (rows_hash cat m)) (sym (rows_hash-cons cat r l))

rows_hash-swap :
    (cat : Catalog) (a b : Row) (l : List Row)
    → rows_hash cat (a ∷ (b ∷ l)) ≡ rows_hash cat (b ∷ (a ∷ l))
rows_hash-swap cat a b l =
    rows_hash-cons cat a (b ∷ l)
    ∙ ap (bit_xor (RowEnc.hash cat a)) (rows_hash-cons cat b l)
    ∙ xor_swap (RowEnc.hash cat a) (RowEnc.hash cat b) (rows_hash cat l)
    ∙ sym (rows_hash-cons cat b (a ∷ l) ∙ ap (bit_xor (RowEnc.hash cat b)) (rows_hash-cons cat a l))

rows_hash-Perm : (cat : Catalog) {l m : List Row} → Permᴰ l m → rows_hash cat l ≡ rows_hash cat m
rows_hash-Perm cat Permᴰ.nil = refl
rows_hash-Perm cat (Permᴰ.cons {a} {b} {l₁} {l₂} e p) =
    rows_hash-cons cat a l₁
    ∙ ap (λ r. bit_xor (RowEnc.hash cat r) (rows_hash cat l₁)) e
    ∙ ap (bit_xor (RowEnc.hash cat b)) (rows_hash-Perm cat p)
    ∙ sym (rows_hash-cons cat b l₂)
rows_hash-Perm cat (Permᴰ.swap {a} {b} {a'} {b'} {l} e f) =
    rows_hash-swap cat a b l
    ∙ ap (λ r. rows_hash cat (r ∷ (a ∷ l))) f
    ∙ ap (λ r. rows_hash cat (a' ∷ (r ∷ l))) e
rows_hash-Perm cat (Permᴰ.trans p q) = rows_hash-Perm cat p ∙ rows_hash-Perm cat q

page_hash-all_rows : (cat : Catalog) (b : Bucket) → page_hash cat b ≡ rows_hash cat (all_rows b)
unfolding hash_items
page_hash-all_rows cat [] = refl
page_hash-all_rows cat (n ∷ r) =
    ap (bit_xor (rows_hash cat n.items)) (page_hash-all_rows cat r)
    ∙ sym (rows_hash-append cat n.items (all_rows r))

-- Two pages have the same hash if the same rows stand in them, in whatever order, and under whatever keys.
pub get_hash-Perm :
    (cat : Catalog) (b b' : Bucket)
    → Permᴰ (all_rows b) (all_rows b')
    → get_hash cat b ≡ get_hash cat b'
get_hash-Perm cat b b' p =
    get_hash_lem cat b
    ∙ page_hash-all_rows cat b
    ∙ rows_hash-Perm cat p
    ∙ sym (page_hash-all_rows cat b')
    ∙ sym (get_hash_lem cat b')

insert_item-Perm :
    (key : ℕ) (item : Row) (b : Bucket)
    → Permᴰ (all_rows (insert_item key item b)) (item ∷ all_rows b)
unfolding insert_item
insert_item-Perm key item [] = Permᴰ.refl (item ∷ [])
insert_item-Perm key item (n ∷ r) = elim (Bool-cases (n.key == key)) [
  | inl same ↦ rw same (Permᴰ.refl (item ∷ (n.items ++ all_rows r)))
  | inr other ↦ rw other (
      Permᴰ.trans (Permᴰ.append_left n.items (insert_item-Perm key item r))
        (Permᴰ.middle item n.items (all_rows r)))
]

-- The hash of a page after the insertion of a row, under any key, is the one before with the hash of the row
-- added by exclusive or.
pub get_hash-insert_item :
    (cat : Catalog) (key : ℕ) (item : Row) (b : Bucket)
    → get_hash cat (insert_item key item b) ≡ bit_xor (RowEnc.hash cat item) (get_hash cat b)
get_hash-insert_item cat key item b =
    get_hash_lem cat (insert_item key item b)
    ∙ page_hash-all_rows cat (insert_item key item b)
    ∙ rows_hash-Perm cat (insert_item-Perm key item b)
    ∙ rows_hash-cons cat item (all_rows b)
    ∙ ap (bit_xor (RowEnc.hash cat item))
        (sym (page_hash-all_rows cat b) ∙ sym (get_hash_lem cat b))
