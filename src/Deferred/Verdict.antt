-- ===== src/Deferred/Verdict.antt =====
-- When the check of one record of the deferred verification passes.
use Prim.Native.Nat.{bit_xor}
use veri_txn.Prelude.{
  ℕ, ◌≡◌, ◌≢◌, refl, sym, ap, subst, ◌∙◌, inl, inr, Bool, true, false, ◌||◌, Option, none, some,
  ◌==◌, ==_refl, if◌then◌else◌, Bool-cases, Outcome, done, fault, ◌>>=◌, Accepts, arith, ==→eq,
  ==→ne,
}
use veri_txn.Prelude.Xor.{xor_comm, xor_cancel}
use veri_txn.Deferred.{VerifyRecord, Pages, verify, get_latch, release_latch}
use veri_txn.Deferred.Tracks.{Expects, get_latch_free}

-- A page in the cache is not asked.
abbrev pub agrees : Pages → ℕ → Option ℕ → Bool
agrees pages p none = true
agrees pages p (some v) = pages.cached p || (pages.get_hash p == v)

same_test : (a b c d : ℕ) → (a ≡ b → c ≡ d) → (c ≡ d → a ≡ b) → (a == b) ≡ (c == d)
same_test a b c d f g = elim (Bool-cases (a == b)) [
  | inl t ↦ t ∙ sym (is_true c d (f (==→eq a b t)))
  | inr t ↦ t ∙ sym (is_false c d (λ e. ==→ne a b t (g e)))
]
  where
    is_true : (a b : ℕ) → a ≡ b → (a == b) ≡ true
    is_true a b e = ground arith

    is_false : (a b : ℕ) → a ≢ b → (a == b) ≡ false
    is_false a b e = ground arith

xor_inj : (a b c : ℕ) → bit_xor a b ≡ bit_xor a c → b ≡ c
xor_inj a b c e = sym (xor_cancel a b) ∙ ap (λ x. bit_xor x a) e ∙ xor_cancel a c

-- The test of a record whose page is not in the cache holds of the expected hash alone.
xor_test :
    (r o w h t v : ℕ)
    → bit_xor r o ≡ w
    → o ≡ bit_xor v t
    → (bit_xor r (bit_xor h t) == w) ≡ (h == v)
xor_test r o w h t v b e =
    same_test (bit_xor r (bit_xor h t)) w h v
      (λ x. xor_inj t h v (xor_comm t h ∙ xor_inj r (bit_xor h t) o (x ∙ sym b) ∙ e ∙ xor_comm v t))
      (λ x. ap (λ y. bit_xor r (bit_xor y t)) x ∙ ap (bit_xor r) (sym e) ∙ b)

-- What `verify` compares with the hash of the written values.
abbrev test_of : Pages → VerifyRecord → Bool
test_of pages r =
    bit_xor r.read_set_hash (
      if pages.cached r.origin_node
      then r.old_value_hash
      else bit_xor (pages.get_hash r.origin_node) r.timestamp)
    == r.write_set_hash

verify-test_of :
    (pages : Pages) (r : VerifyRecord)
    → pages.is_leaf r.origin_node ≡ true
    → r.locked ≡ false
    → verify pages r ≡ (if test_of pages r then done (record r { locked = false }) else fault)
unfolding verify
verify-test_of pages r leaf free =
    ap (λ b. if b then (get_latch r >>= λ r'. release_latch r' >>= go) else fault) leaf
    ∙ ap (λ o. o >>= λ r'. release_latch r' >>= go) (get_latch_free r free)
  where
    newh : ℕ
    newh =
        (if pages.cached r.origin_node
          then r.old_value_hash
          else bit_xor (pages.get_hash r.origin_node) r.timestamp)

    go : VerifyRecord → Outcome VerifyRecord
    go r' = if bit_xor r'.read_set_hash newh == r'.write_set_hash then done r' else fault

test_cases :
    (c : Bool) (r o w h t v : ℕ)
    → bit_xor r o ≡ w
    → o ≡ bit_xor v t
    → (bit_xor r (if c then o else bit_xor h t) == w) ≡ (c || (h == v))
test_cases true r o w h t v b e = ap (λ x. x == w) b ∙ ==_refl w
test_cases false r o w h t v b e = xor_test r o w h t v b e

decided :
    {A : Type 0} {b t : Bool} (P : A → Type 0) (a : A)
    → b ≡ t
    → P a
    → Accepts t P (if b then done a else fault)
decided {b = true} P a e p = subst (λ t. Accepts t P (done a)) e p
decided {b = false} P a e p = subst (λ t. Accepts t P fault) e refl

pub verify-Accepts :
    {p from v : ℕ} {r : VerifyRecord} (pages : Pages)
    → Expects p from v r
    → pages.is_leaf p ≡ true
    → Accepts (agrees pages p (some v)) (Expects p from v) (verify pages r)
verify-Accepts {p} {from} {v} {r} pages e leaf =
    subst (Accepts (agrees pages p (some v)) (Expects p from v))
      (sym (verify-test_of pages r (ap pages.is_leaf e.page ∙ leaf) e.free))
      (decided (Expects p from v) (record r { locked = false })
        (test_cases (pages.cached r.origin_node) r.read_set_hash r.old_value_hash r.write_set_hash
            (pages.get_hash r.origin_node) r.timestamp v e.balance e.old
          ∙ ap (λ p. pages.cached p || (pages.get_hash p == v)) e.page)
        (record { page = e.page; index = e.index; free = refl; balance = e.balance; old = e.old }))
