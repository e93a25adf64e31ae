-- ===== src/Coder/Scan.antt =====
-- A string whose braces match is read whole.
use veri_txn.Prelude.{
  ℕ, zero, suc, ◌≡◌, refl, ap, ◌∙◌, Bool, true, false, Option, none, some, List, [], ◌∷◌, ◌++◌,
  append_assoc, append-nil, ◌==◌, if◌then◌else◌, arith, Bool-cases, inl, inr, done, ◌>>=◌,
}
use veri_txn.Coder.{Chars, pos, Decoder, step, decode_loop}

-- The depth behind a string that begins at depth `d`: `none` if it falls below 0.
unfoldable pub nest : ℕ → Chars → Option ℕ
nest d [] = some d
nest d (c ∷ s) =
    let deeper = nest (suc d) s in
    let out = elim d as (λ _. Option ℕ) [ zero ↦ none | suc e ↦ nest e s ] in
    let same = nest d s in if c == b'{' then deeper else (if c == b'}' then out else same)

-- Each closing brace has its opening brace before it, and the other way round.
abbrev pub Balanced : Chars → Type 0
Balanced s = nest 0 s ≡ some 0

-- Inside a block at depth `d`, with the variables that the characters there leave alone.
module _ (b : Bool) (fi : Chars) (v : List (Chars × Chars)) where
  abbrev pub inside : ℕ → Chars → Decoder
  inside d tmp = record { depth = pos (suc d); is_first = b; tmp = tmp; fi = fi; vector = v }

  step-inside :
      (c d : ℕ) (tmp : Chars)
      → c == b'}' ≡ false
      → c == b'{' ≡ false
      → step c (inside d tmp) ≡ done (inside d (tmp ++ (c ∷ [])))
  unfolding step
  step-inside c zero tmp f g = ground (arith, f, g)
  step-inside c (suc d) tmp f g = ground (arith, f, g)

  step-open :
      (d : ℕ) (tmp : Chars) → step b'{' (inside d tmp) ≡ done (inside (suc d) (tmp ++ (b'{' ∷ [])))
  unfolding step
  step-open zero tmp = refl
  step-open (suc d) tmp = refl

  step-close :
      (d : ℕ) (tmp : Chars) → step b'}' (inside (suc d) tmp) ≡ done (inside d (tmp ++ (b'}' ∷ [])))
  unfolding step
  step-close d tmp = refl

  -- What the first character does, as the rest of the string is read from depth `e`.
  onward :
      (c d e f : ℕ) (s tmp rest : Chars)
      → step c (inside d tmp) ≡ done (inside e (tmp ++ (c ∷ [])))
      → decode_loop (s ++ rest) (inside e (tmp ++ (c ∷ [])))
        ≡ decode_loop rest (inside f ((tmp ++ (c ∷ [])) ++ s))
      → decode_loop ((c ∷ s) ++ rest) (inside d tmp) ≡ decode_loop rest (inside f (tmp ++ (c ∷ s)))
  unfolding decode_loop
  onward c d e f s tmp rest h k =
      ap (λ o. o >>= decode_loop (s ++ rest)) h
      ∙ k
      ∙ ap (λ t. decode_loop rest (inside f t)) (append_assoc tmp (c ∷ []) s)

  -- From depth `d` within a block the whole string is collected.
  pub decode_loop-inside :
      (s : Chars) (d e : ℕ) (tmp rest : Chars)
      → nest d s ≡ some e
      → decode_loop (s ++ rest) (inside d tmp) ≡ decode_loop rest (inside e (tmp ++ s))
  unfolding nest
  decode_loop-inside [] d e tmp rest h =
      let k : d ≡ e = ground (arith, h) in rw (k, append-nil) refl
  decode_loop-inside (c ∷ s) d e tmp rest h = elim (Bool-cases (c == b'{')) [
    | inl opens ↦
        let is : c ≡ b'{' = ground (arith, opens) in
        onward c d (suc d) e s tmp rest (rw is (step-open d tmp))
          (decode_loop-inside s (suc d) e (tmp ++ (c ∷ [])) rest (ground (arith, h, opens)))
    | inr other ↦ elim (Bool-cases (c == b'}')) [
      | inl closes ↦ close d h (λ d. decode_loop-inside s d e (tmp ++ (c ∷ [])) rest) other closes
      | inr plain ↦
          onward c d d e s tmp rest (step-inside c d tmp plain other)
            (decode_loop-inside s d e (tmp ++ (c ∷ [])) rest (ground (arith, h, other, plain)))
    ]
  ]
    where
      close :
          (d : ℕ)
          → nest d (c ∷ s) ≡ some e
          → ((d : ℕ)
              → nest d s ≡ some e
              → decode_loop (s ++ rest) (inside d (tmp ++ (c ∷ [])))
                ≡ decode_loop rest (inside e ((tmp ++ (c ∷ [])) ++ s)))
          → c == b'{' ≡ false
          → c == b'}' ≡ true
          → decode_loop ((c ∷ s) ++ rest) (inside d tmp)
            ≡ decode_loop rest (inside e (tmp ++ (c ∷ s)))
      close zero h k other closes = absurd (ground (arith, h, other, closes))
      close (suc d) h k other closes =
          let is : c ≡ b'}' = ground (arith, closes) in
          onward c (suc d) d e s tmp rest (rw is (step-close d tmp))
            (k d (ground (arith, h, other, closes)))
