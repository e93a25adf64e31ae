-- ===== src/Coder/Tests.antt =====
-- Nested encodings.
use veri_txn.Prelude.{◌≡◌, refl, arith, [], ◌∷◌, List, done, fault}
use veri_txn.Coder.{Chars, encode_vec, decode_vec}
use veri_txn.Coder.Scan.{nest}
use veri_txn.Coder.RoundTrip.{decode_vec-encode_vec}
use veri_txn.Coder.Decimal.{to_string, stoull, stoull-to_string}

abbrev nested : List (Chars × Chars)
nested = (b'a' ∷ [], b'{' ∷ (b'x' ∷ (b'}' ∷ []))) ∷ (([], b'7' ∷ []) ∷ [])

decode_vec-encode_vec_example : decode_vec (encode_vec nested) ≡ done nested
unfolding nest
decode_vec-encode_vec_example = decode_vec-encode_vec nested ((refl, refl), ((refl, refl), tt))

-- A closing brace in a string ends its block too early.
abbrev closing : List (Chars × Chars)
closing = (b'}' ∷ [], []) ∷ []

breaks : decode_vec (encode_vec closing) ≡ fault
unfolding encode_vec decode_vec
breaks = refl

number_again : stoull (to_string 1024) ≡ done 1024
number_again = stoull-to_string 1024 (omega arith)
