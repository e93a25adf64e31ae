-- ===== src/RowEnc/Tests.antt =====
-- A row of two bytes.
use veri_txn.Prelude.{◌≡◌, refl, true, [], ◌∷◌, done, map_done, arith}
use veri_txn.Coder.Scan.{nest}
use veri_txn.RowEnc.{Row, Catalog, encode, decode, hash}
use veri_txn.RowEnc.RoundTrip.{IsRow, spread, decode-encode}

abbrev pub one_table : Catalog
one_table = record { is_table = λ t. true; tuple_size = λ t. 2 }

abbrev pub row : Row
row = record {
  table_name = b'm' ∷ b'{' ∷ b'}' ∷ [];
  primary_key = 1024;
  part_id = 0;
  row_id = 7;
  cells = 200 ∷ (31 ∷ []);
}

pub row-IsRow : IsRow one_table row
unfolding nest
row-IsRow = record {
  table = refl;
  name = refl;
  key_fits = omega arith;
  part_fits = omega arith;
  row_fits = omega arith;
  whole = refl;
  bytes = omega arith;
}

decode-encode_example :
    decode one_table (encode one_table row) ≡ done (record row { cells = spread row.cells })
decode-encode_example = decode-encode one_table row row-IsRow

-- The hash is not that of the row encoded.
hash_before : hash one_table row ≡ 1232
unfolding hash
hash_before = refl

hash_after : map_done (hash one_table) (decode one_table (encode one_table row)) ≡ done 1279
unfolding hash
hash_after = rw decode-encode_example refl
