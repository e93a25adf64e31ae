-- ===== src/Coder.antt =====
-- common/coder.cpp: a list of pairs of strings written into one string, and read back. A string is
-- the list of its character codes.
pub mod Scan
pub mod RoundTrip
pub mod Decimal
mod Tests
use veri_txn.Prelude.{
  ℕ, zero, suc, ◌+◌, Bool, true, false, not, ◌&&◌, ◌||◌, List, [], ◌∷◌, ◌++◌, get_last?, Option,
  none, some, ltb, ◌==◌, if◌then◌else◌, length, Outcome, done, fault, ◌>>=◌,
}

abbrev pub Chars : Type 0
Chars = List ℕ

-- `int depth`, which can go below 0.
pub data ℤ : Type 0 where
  pos negsuc : ℕ → ℤ

abbrev pub inc : ℤ → ℤ
inc (pos n) = pos (suc n)
inc (negsuc zero) = pos 0
inc (negsuc (suc n)) = negsuc n

abbrev pub dec : ℤ → ℤ
dec (pos zero) = negsuc 0
dec (pos (suc n)) = pos n
dec (negsuc n) = negsuc (suc n)

abbrev pub is_zero : ℤ → Bool
is_zero (pos zero) = true
is_zero _ = false

abbrev pub is_one : ℤ → Bool
is_one (pos (suc zero)) = true
is_one _ = false

abbrev pub above_one : ℤ → Bool
above_one (pos (suc (suc n))) = true
above_one _ = false

-- `"{" + s + "}"`.
abbrev pub block : Chars → Chars
block s = b'{' ∷ (s ++ (b'}' ∷ []))

pub encode_vec : List (Chars × Chars) → Chars
encode_vec [] = []
encode_vec ((first, second) ∷ r) = block first ++ (block second ++ encode_vec r)

-- The variables of the loop of `decode_vec`.
pub record Decoder : Type 0 where
  pub depth : ℤ
  pub is_first : Bool
  pub tmp : Chars
  pub fi : Chars
  pub vector : List (Chars × Chars)

abbrev pub start : Decoder
start = record { depth = pos 0; is_first = true; tmp = []; fi = []; vector = [] }

-- `tmp.push_back`.
pub collect : ℕ → Decoder → Decoder
collect c s =
    if above_one s.depth || is_one s.depth && not (c == b'}')
    then record s { tmp = s.tmp ++ (c ∷ []) }
    else s

-- The end of a block.
pub finish_block : ℕ → Decoder → Decoder
finish_block c s =
    if is_one s.depth && c == b'}'
    then (if s.is_first then record s { fi = s.tmp; is_first = false; tmp = [] } else record s {
      vector = s.vector ++ ((s.fi, s.tmp) ∷ []);
      fi = [];
      is_first = true;
      tmp = [];
    })
    else s

pub move_depth : ℕ → Decoder → Decoder
move_depth c s =
    if c == b'{'
    then record s { depth = inc s.depth }
    else (if c == b'}' then record s { depth = dec s.depth } else s)

pub check_outside : ℕ → Decoder → Outcome Decoder
check_outside c s = if is_zero s.depth && not (c == b'}' || c == b'{') then fault else done s

-- The body of the loop.
pub step : ℕ → Decoder → Outcome Decoder
unfolding collect finish_block move_depth check_outside
step c s = check_outside c (move_depth c (finish_block c (collect c s)))

pub decode_loop : Chars → Decoder → Outcome Decoder
unfolding step
decode_loop [] s = done s
decode_loop (c ∷ e) s = step c s >>= decode_loop e

pub is_nil : Chars → Bool
is_nil [] = true
is_nil (c ∷ s) = false

abbrev pub ends_with : ℕ → Option ℕ → Bool
ends_with c none = false
ends_with c (some d) = d == c

-- The assertions behind the loop.
pub result : Decoder → Outcome (List (Chars × Chars))
unfolding is_nil
result s = if is_zero s.depth && is_nil s.fi then done s.vector else fault

pub decode_vec : Chars → Outcome (List (Chars × Chars))
unfolding decode_loop result
decode_vec [] = done []
decode_vec (c ∷ e) =
    if ltb 1 (length (c ∷ e)) && c == b'{' && ends_with b'}' (get_last? (c ∷ e))
    then decode_loop (c ∷ e) start >>= result
    else fault
