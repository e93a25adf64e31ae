-- ===== src/RowEnc/RoundTrip.antt =====
-- What `decode` makes of an encoded row.
use veri_txn.Prelude.{
  ℕ, ◌+◌, ◌/◌, ◌%◌, ◌^◌, ◌<◌, ◌≡◌, refl, sym, ap, ◌∙◌, true, List, [], ◌∷◌, All, take, take-length,
  length, arith, done, ◌>>=◌,
}
use veri_txn.Coder.Scan.{nest, Balanced}
use veri_txn.Coder.RoundTrip.{Fits, decode_vec-encode_vec, encode_vec-Balanced}
use veri_txn.Coder.Decimal.{to_string-Balanced, stoull-to_string}
use veri_txn.RowEnc.{Row, Catalog, tuple, spell, items, encode, hash, read_cells, of_items, decode}

-- A row of a table, with a name in which braces match, 64-bit numbers, and bytes for the whole tuple.
pub record IsRow (cat : Catalog) (r : Row) : Type 0 where
  pub table : cat.is_table r.table_name ≡ true
  pub name : Balanced r.table_name
  pub key_fits : r.primary_key < 2 ^ 64
  pub part_fits : r.part_id < 2 ^ 64
  pub row_fits : r.row_id < 2 ^ 64
  pub whole : length r.cells ≡ cat.tuple_size r.table_name
  pub bytes : All (λ v. v < 256) r.cells

-- The bytes with the digits of each left behind it.
abbrev pub spread : List ℕ → List ℕ
spread [] = []
spread (v ∷ r) = v ∷ ((v / 10 % 10 + b'0') ∷ ((v / 100 % 10 + b'0') ∷ spread r))

spell-Balanced : (l : List ℕ) → Balanced (spell l)
unfolding spell nest
spell-Balanced [] = refl
spell-Balanced (v ∷ l) = ground (arith, spell-Balanced l)

read_cells-spell : (l : List ℕ) → All (λ v. v < 256) l → read_cells (spell l) ≡ done (spread l)
unfolding read_cells spell
read_cells-spell [] h = refl
read_cells-spell (v ∷ l) h = rw (read_cells-spell l h.1) (
    ap (λ w. done (w ∷ ((v / 10 % 10 + b'0') ∷ ((v / 100 % 10 + b'0') ∷ spread l))))
      (omega (arith, h.0)))

items-Fits : (cat : Catalog) (r : Row) → Balanced r.table_name → All Fits (items cat r)
unfolding nest
items-Fits cat r h = (
  (refl, h),
  (
    (refl, to_string-Balanced r.primary_key),
    (
      (refl, to_string-Balanced r.part_id),
      ((refl, to_string-Balanced r.row_id), ((refl, spell-Balanced (tuple cat r)), tt)),
    ),
  ),
)

-- An encoded row can itself stand in an encoding.
pub encode-Balanced : (cat : Catalog) (r : Row) → Balanced r.table_name → Balanced (encode cat r)
unfolding encode
encode-Balanced cat r h = encode_vec-Balanced (items cat r) (items-Fits cat r h)

-- A row of a table of the catalog, with bytes for the whole tuple and numbers of 64 bits, decodes
-- without a failed assertion into a row with its table and numbers. Of the bytes only the first
-- is back at its place: each stands at three times its index, and its digits stand behind it.
pub decode-encode :
    (cat : Catalog) (r : Row)
    → IsRow cat r
    → decode cat (encode cat r) ≡ done (record r { cells = spread r.cells })
unfolding decode encode of_items
decode-encode cat r v =
    ap (λ o. o >>= of_items cat) (decode_vec-encode_vec (items cat r) (items-Fits cat r v.name))
    ∙ rw
        (
          v.table,
          bytes,
          stoull-to_string r.primary_key v.key_fits,
          stoull-to_string r.part_id v.part_fits,
          stoull-to_string r.row_id v.row_fits,
        )
        refl
  where
    bytes : read_cells (spell (tuple cat r)) ≡ done (spread r.cells)
    bytes =
        ap (λ l. read_cells (spell l))
          (ap (λ n. take n r.cells) (sym v.whole) ∙ take-length r.cells)
        ∙ read_cells-spell r.cells v.bytes

-- The part of a row is not in its hash.
pub hash-part_id :
    (cat : Catalog) (row : Row) (part : ℕ) → hash cat (record row { part_id = part }) ≡ hash cat row
unfolding hash
hash-part_id cat row part = refl
