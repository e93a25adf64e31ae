-- ===== src/Coder/RoundTrip.antt =====
-- What was encoded decodes back.
use veri_txn.Prelude.{
  ℕ, zero, suc, ◌≡◌, refl, ap, ◌∙◌, Bool, true, false, some, List, [], ◌∷◌, ◌++◌, All, append_assoc,
  append-nil, ltb, if◌then◌else◌, arith, length, length-append, lt→ltb, get_last?, done, ◌>>=◌,
}
use veri_txn.Coder.{
  Chars, pos, block, Decoder, step, decode_loop, encode_vec, decode_vec, result, ends_with,
}
use veri_txn.Coder.Scan.{nest, Balanced, inside, decode_loop-inside}

-- Both strings of the pair have matching braces.
abbrev pub Fits : Chars × Chars → Type 0
Fits p = Balanced p.0 × Balanced p.1

nest-suc : (s : Chars) (d e : ℕ) → nest d s ≡ some e → nest (suc d) s ≡ some (suc e)
unfolding nest
nest-suc [] d e h = ground (arith, h)
nest-suc (c ∷ s) zero e h = ground (arith, h, nest-suc s 1 e, nest-suc s 0 e)
nest-suc (c ∷ s) (suc d) e h =
    ground (arith, h, nest-suc s (suc (suc d)) e, nest-suc s (suc d) e, nest-suc s d e)

nest-append : (s t : Chars) (d e : ℕ) → nest d s ≡ some e → nest d (s ++ t) ≡ nest e t
unfolding nest
nest-append [] t d e h = ground (arith, h)
nest-append (c ∷ s) t zero e h = ground (arith, h, nest-append s t 1 e, nest-append s t 0 e)
nest-append (c ∷ s) t (suc d) e h =
    ground
      (arith, h, nest-append s t (suc (suc d)) e, nest-append s t (suc d) e, nest-append s t d e)

block-Balanced : (s : Chars) → Balanced s → Balanced (block s)
unfolding nest
block-Balanced s h = nest-append s (b'}' ∷ []) 1 1 (nest-suc s 0 0 h)

-- An encoding has matching braces whatever number of pairs it holds, so it can stand in a pair.
pub encode_vec-Balanced : (r : List (Chars × Chars)) → All Fits r → Balanced (encode_vec r)
unfolding encode_vec nest
encode_vec-Balanced [] h = refl
encode_vec-Balanced ((a, b) ∷ r) h =
    nest-append (block a) (block b ++ encode_vec r) 0 0 (block-Balanced a h.0.0)
    ∙ nest-append (block b) (encode_vec r) 0 0 (block-Balanced b h.0.1)
    ∙ encode_vec-Balanced r h.1

abbrev outside : Bool → Chars → List (Chars × Chars) → Decoder
outside b fi v = record { depth = pos 0; is_first = b; tmp = []; fi = fi; vector = v }

-- A block is read whole.
decode_loop-block :
    (b : Bool) (fi : Chars) (v : List (Chars × Chars)) (s rest : Chars)
    → Balanced s
    → decode_loop (block s ++ rest) (outside b fi v)
      ≡ decode_loop rest (if b then outside false s v else outside true [] (v ++ ((fi, s) ∷ [])))
unfolding decode_loop step
decode_loop-block true fi v s rest h =
    ap (λ e. decode_loop e (inside true fi v 0 [])) (append_assoc s (b'}' ∷ []) rest)
    ∙ decode_loop-inside true fi v s 0 0 [] (b'}' ∷ rest) h
decode_loop-block false fi v s rest h =
    ap (λ e. decode_loop e (inside false fi v 0 [])) (append_assoc s (b'}' ∷ []) rest)
    ∙ decode_loop-inside false fi v s 0 0 [] (b'}' ∷ rest) h

decode_loop-encode_vec :
    (r v : List (Chars × Chars))
    → All Fits r
    → decode_loop (encode_vec r) (outside true [] v) ≡ done (outside true [] (v ++ r))
unfolding decode_loop encode_vec
decode_loop-encode_vec [] v h = rw append-nil refl
decode_loop-encode_vec ((a, b) ∷ r) v h =
    decode_loop-block true [] v a (block b ++ encode_vec r) h.0.0
    ∙ decode_loop-block false a v b (encode_vec r) h.0.1
    ∙ decode_loop-encode_vec r (v ++ ((a, b) ∷ [])) h.1
    ∙ ap (λ l. done (outside true [] l)) (append_assoc v ((a, b) ∷ []) r)

get_last?-append : (s t : Chars) (c : ℕ) → get_last? (s ++ (c ∷ t)) ≡ get_last? (c ∷ t)
get_last?-append [] t c = refl
get_last?-append (x ∷ []) t c = refl
get_last?-append (x ∷ (y ∷ s)) t c = get_last?-append (y ∷ s) t c

encode_vec-last :
    (s : Chars) (r : List (Chars × Chars)) → get_last? (block s ++ encode_vec r) ≡ some b'}'
unfolding encode_vec
encode_vec-last s [] = ap get_last? (append-nil (block s)) ∙ get_last?-append (b'{' ∷ s) [] b'}'
encode_vec-last s ((a, b) ∷ r) =
    get_last?-append (block s) ((a ++ (b'}' ∷ [])) ++ (block b ++ encode_vec r)) b'{'
    ∙ get_last?-append (block a) ((b ++ (b'}' ∷ [])) ++ encode_vec r) b'{'
    ∙ encode_vec-last b r

-- The tests in front of the loop hold for an encoding.
guards :
    (a b : Chars) (r : List (Chars × Chars))
    → let e = block a ++ (block b ++ encode_vec r) in
      (ltb 1 (length e) ≡ true) × (ends_with b'}' (get_last? e) ≡ true)
guards a b r = (
  lt→ltb _ _ (omega (arith, length-append {0} (a ++ (b'}' ∷ [])) (block b ++ encode_vec r))),
  ap (ends_with b'}')
        (get_last?-append (block a) ((b ++ (b'}' ∷ [])) ++ encode_vec r) b'{' ∙ encode_vec-last b r)
      ∙ refl,
)

-- A list of pairs of strings with matching braces is encoded into a string that decodes, with no
-- failed assertion, to the same list.
pub decode_vec-encode_vec :
    (r : List (Chars × Chars)) → All Fits r → decode_vec (encode_vec r) ≡ done r
unfolding decode_vec encode_vec result
decode_vec-encode_vec [] h = refl
decode_vec-encode_vec ((a, b) ∷ r) h =
    rw ((guards a b r).0, (guards a b r).1)
      (ap (λ o. o >>= result) (decode_loop-encode_vec ((a, b) ∷ r) [] h))
