-- ===== src/IndexEnc/Chain.antt =====
-- What the chain of a page promises after the index has set its tail or checked a page against it.
use veri_txn.Prelude.{
  ℕ, suc, ◌<◌, ◌≤◌, ◌^◌, ◌≡◌, refl, sym, ap, ◌∙◌, subst, some, List, [], ◌∷◌, length, get_last?,
  arith, done,
}
use veri_txn.HashChain.{HashChain, HashItem}
use veri_txn.HashChain.Spec.{IsValid, IsSorted, Above, floor}
use veri_txn.HashChain.Read.{promised, floor_tail, promised-floor}
use veri_txn.IndexEnc.{set_last, retail, set_tail}

-- The hash that the chain has for reads at `now`.
abbrev pub hash_at : ℕ → HashChain → ℕ
hash_at now c = (promised now 0 0 c).res

set_last-Above :
    (x i : HashItem) (b : ℕ) (t : HashItem) (r : List HashItem)
    → Above b (i ∷ r)
    → get_last? (i ∷ r) ≡ some t
    → t.commit_ts ≤ x.commit_ts
    → Above b (set_last x (i ∷ r))
unfolding set_last
set_last-Above x i b t [] a e le = ground (arith, a.0, e, le)
set_last-Above x i b t (j ∷ r) a e le = (a.0, set_last-Above x j i.commit_ts t r a.1 e le)

set_last-IsSorted :
    (x t : HashItem) (l : List HashItem)
    → IsSorted l
    → get_last? l ≡ some t
    → t.commit_ts ≤ x.commit_ts
    → IsSorted (set_last x l)
unfolding set_last
set_last-IsSorted x t [] s e le = tt
set_last-IsSorted x t (i ∷ []) s e le = tt
set_last-IsSorted x t (i ∷ (j ∷ r)) s e le = set_last-Above x j i.commit_ts t r s e le

length-set_last : (x : HashItem) (l : List HashItem) → length (set_last x l) ≡ length l
unfolding set_last
length-set_last x [] = refl
length-set_last x (i ∷ []) = refl
length-set_last x (i ∷ (j ∷ r)) = ap suc (length-set_last x (j ∷ r))

get_last-set_last :
    (x t : HashItem) (l : List HashItem) → get_last? l ≡ some t → get_last? (set_last x l) ≡ some x
unfolding set_last
get_last-set_last x t [] e = absurd (ground (arith, e))
get_last-set_last x t (i ∷ []) e = refl
get_last-set_last x t (i ∷ (j ∷ [])) e = refl
get_last-set_last x t (i ∷ (j ∷ (k ∷ r))) e = get_last-set_last x t (j ∷ (k ∷ r)) e

-- Setting the tail at a time that is not before its own keeps the chain valid.
pub retail-IsValid :
    (x t : HashItem) (c : HashChain)
    → IsValid c
    → c.tail ≡ some t
    → t.commit_ts ≤ x.commit_ts
    → IsValid (retail x c)
retail-IsValid x t c v e le = record {
  sorted = set_last-IsSorted x t c.items v.sorted (sym v.tailed ∙ e) le;
  counted = v.counted ∙ sym (length-set_last x c.items);
  small = subst (λ n. n < 2 ^ 32) (sym (length-set_last x c.items)) v.small;
  tailed = sym (get_last-set_last x t c.items (sym v.tailed ∙ e));
  free = v.free;
}

-- The last version of all is what a read at or after its time sees.
floor_last :
    (ts : ℕ) (t : HashItem) (l : List HashItem)
    → IsSorted l
    → get_last? l ≡ some t
    → t.commit_ts ≤ ts
    → floor ts l ≡ some t
floor_last ts t [] s e le = absurd (ground (arith, e))
floor_last ts t (h ∷ r) s e le = floor_tail ts t h r s le e

pub hash_at-retail :
    (now : ℕ) (x t : HashItem) (c : HashChain)
    → IsValid c
    → c.tail ≡ some t
    → t.commit_ts ≤ x.commit_ts
    → x.commit_ts ≤ now
    → hash_at now (retail x c) ≡ x.value
hash_at-retail now x t c v e le after =
    let v' = retail-IsValid x t c v e le in
    ap (λ a. a.res)
      (promised-floor now 0 0 (retail x c) x
        (floor_last now x (set_last x c.items) v'.sorted (sym v'.tailed) after))

pub set_tail_lem :
    (value ts : ℕ) (t : HashItem) (c : HashChain)
    → c.tail ≡ some t
    → set_tail value ts c ≡ done (retail (record { value = value; commit_ts = ts }) c)
unfolding set_tail
set_tail_lem value ts t c e = ground (arith, e)
