-- ===== src/RowEnc.antt =====
-- `row_t::encode`, `hash` and `decode` in trusted/system/row_enc.cpp. The catalog gives the tables that
-- exist and the size of their tuples.
pub mod RoundTrip
pub mod Tests
use Prim.Native.Nat.{bit_xor}
use veri_txn.Prelude.{
  ℕ, zero, suc, ◌+◌, ◌-◌, ◌*◌, ◌/◌, ◌%◌, Bool, true, false, List, [], ◌∷◌, take, if◌then◌else◌,
  Outcome, done, fault, ◌>>=◌,
}
use veri_txn.Coder.{Chars, encode_vec, decode_vec}
use veri_txn.Coder.Decimal.{to_string, stoull}

pub record Row : Type 0 where
  pub table_name : Chars
  pub primary_key : ℕ
  pub part_id : ℕ
  pub row_id : ℕ
  pub cells : List ℕ

pub record Catalog : Type 0 where
  pub is_table : Chars → Bool
  pub tuple_size : Chars → ℕ

-- The bytes of the tuple.
abbrev pub tuple : Catalog → Row → List ℕ
tuple cat r = take (cat.tuple_size r.table_name) r.cells

-- `data_str`: each byte as three digits, the last first.
pub spell : List ℕ → Chars
spell [] = []
spell (val ∷ r) = (val % 10 + b'0') ∷ ((val / 10 % 10 + b'0') ∷ ((val / 100 % 10 + b'0') ∷ spell r))

-- The labels `"table_name:"`, `"primary_key:"`, `"part_id:"`, `"row_id:"` and `"data:"`.
abbrev pub table_name_label : Chars
table_name_label = b't' ∷ b'a' ∷ b'b' ∷ b'l' ∷ b'e' ∷ b'_' ∷ b'n' ∷ b'a' ∷ b'm' ∷ b'e' ∷ b':' ∷ []

abbrev pub primary_key_label : Chars
primary_key_label =
    b'p' ∷ b'r' ∷ b'i' ∷ b'm' ∷ b'a' ∷ b'r' ∷ b'y' ∷ b'_' ∷ b'k' ∷ b'e' ∷ b'y' ∷ b':' ∷ []

abbrev pub part_id_label : Chars
part_id_label = b'p' ∷ b'a' ∷ b'r' ∷ b't' ∷ b'_' ∷ b'i' ∷ b'd' ∷ b':' ∷ []

abbrev pub row_id_label : Chars
row_id_label = b'r' ∷ b'o' ∷ b'w' ∷ b'_' ∷ b'i' ∷ b'd' ∷ b':' ∷ []

abbrev pub data_label : Chars
data_label = b'd' ∷ b'a' ∷ b't' ∷ b'a' ∷ b':' ∷ []

abbrev pub items : Catalog → Row → List (Chars × Chars)
items cat r =
    (table_name_label, r.table_name)
    ∷ ((primary_key_label, to_string r.primary_key)
        ∷ ((part_id_label, to_string r.part_id)
            ∷ ((row_id_label, to_string r.row_id) ∷ ((data_label, spell (tuple cat r)) ∷ []))))

pub encode : Catalog → Row → Chars
encode cat r = encode_vec (items cat r)

pub hash_cells : ℕ → List ℕ → ℕ
hash_cells res [] = res
hash_cells res (val ∷ r) = hash_cells (bit_xor res val) r

pub hash : Catalog → Row → ℕ
unfolding hash_cells
hash cat r = hash_cells (bit_xor r.primary_key r.row_id) (tuple cat r)

-- `c - '0'` in a byte.
abbrev minus_zero : ℕ → ℕ
minus_zero c = c + 208

abbrev pub cell_of : ℕ → ℕ → ℕ → ℕ
cell_of a b c = (minus_zero a + minus_zero b * 10 + minus_zero c * 100) % 256

-- The loop of `decode` over the bytes that `memcpy` has put there: only every third is replaced. Behind
-- the end of the string stands a 0, and nothing that can be read after it.
pub read_cells : Chars → Outcome (List ℕ)
read_cells [] = done []
read_cells (a ∷ []) = fault
read_cells (a ∷ (b ∷ [])) = done (cell_of a b 0 ∷ (b ∷ []))
read_cells (a ∷ (b ∷ (c ∷ s))) = do r ← read_cells s; done (cell_of a b c ∷ (b ∷ (c ∷ r)))

pub of_items : Catalog → List (Chars × Chars) → Outcome Row
of_items cat (t ∷ (k ∷ (p ∷ (r ∷ (d ∷ []))))) =
    if cat.is_table t.1
    then (do
      cells ← read_cells d.1
      primary_key ← stoull k.1
      part_id ← stoull p.1
      row_id ← stoull r.1
      done (record {
        table_name = t.1;
        primary_key = primary_key;
        part_id = part_id;
        row_id = row_id;
        cells = cells;
      }))
    else fault
of_items cat _ = fault

pub decode : Catalog → Chars → Outcome Row
decode cat e = decode_vec e >>= of_items cat
