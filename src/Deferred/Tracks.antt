-- ===== src/Deferred/Tracks.antt =====
-- What the records of the deferred verification say of the calls that made them.
use Prim.Native.Nat.{bit_xor}
use veri_txn.Prelude.{
  set, ℕ, ◌+◌, ◌%◌, ◌^◌, ◌<◌, ◌≡◌, refl, sym, ap, subst, ◌∙◌, inl, inr, ◌⊎◌, true, false, Option,
  none, some, ◌==◌, ==_refl, lt→ltb, Bool-cases, Outcome, done, ◌>>=◌, Ensures, Ensures->>=,
  Ensures-mono, Ensures-then, arith,
}
use veri_txn.Prelude.Xor.{xor_comm, xor_assoc, xor_zero}
use veri_txn.Deferred.{
  VerifyRecord, Pages, MemoryVerifier, init_record, record_read, record_write, find_record,
  update_record, add_read, add_write, get_latch, release_latch,
}

-- The record of the page `p` expects the value `v`: the last written, or else the first one read.
pub record Expects (p from v : ℕ) (r : VerifyRecord) : Type 0 where
  pub page : r.origin_node ≡ p
  pub index : r.from ≡ from
  pub free : r.locked ≡ false
  pub balance : bit_xor r.read_set_hash r.old_value_hash ≡ r.write_set_hash
  pub old : r.old_value_hash ≡ bit_xor v r.timestamp

xor_zero_right : (a : ℕ) → bit_xor a 0 ≡ a
xor_zero_right a = xor_comm a 0 ∙ xor_zero a

init_record-Expects : (p from v : ℕ) → 0 < p → Ensures (Expects p from v) (init_record v p from)
unfolding init_record
init_record-Expects p from v h = rw (nonzero p h) (record {
  page = refl;
  index = refl;
  free = refl;
  balance = xor_zero v;
  old = sym (xor_zero_right v);
})
  where
    nonzero : (p : ℕ) → 0 < p → (p == 0) ≡ false
    nonzero p h = ground arith

pub get_latch_free :
    (r : VerifyRecord) → r.locked ≡ false → get_latch r ≡ done (record r { locked = true })
get_latch_free r e = rw e refl

xor_swap : (a b c : ℕ) → bit_xor (bit_xor a b) c ≡ bit_xor (bit_xor a c) b
xor_swap a b c = xor_assoc a b c ∙ ap (bit_xor a) (xor_comm b c) ∙ sym (xor_assoc a c b)

module _ {p from v : ℕ} {r : VerifyRecord} (e : Expects p from v r) where
  -- Whatever value is read, the two sets take it alike.
  record_read-Expects : (read_value : ℕ) → Ensures (Expects p from v) (record_read read_value r)
  unfolding record_read
  record_read-Expects read_value =
      subst
        (λ o. Ensures (Expects p from v) (
          o >>= λ r. release_latch (record r {
            read_set_hash = bit_xor r.read_set_hash (bit_xor read_value r.timestamp);
            write_set_hash = bit_xor r.write_set_hash (bit_xor read_value r.timestamp);
          })))
        (sym (get_latch_free r e.free))
        (record {
          page = e.page;
          index = e.index;
          free = refl;
          balance =
              xor_swap r.read_set_hash (bit_xor read_value r.timestamp) r.old_value_hash
              ∙ ap (λ x. bit_xor x (bit_xor read_value r.timestamp)) e.balance;
          old = e.old;
        })

  record_write-Expects :
      (write_value : ℕ) → Ensures (Expects p from write_value) (record_write write_value r)
  unfolding record_write
  record_write-Expects write_value =
      let now : ℕ = (r.timestamp + 1) % 2 ^ 64 in
      subst
        (λ o. Ensures (Expects p from write_value) (
          o >>= λ r. release_latch (record r {
            read_set_hash = bit_xor r.read_set_hash r.old_value_hash;
            timestamp = (r.timestamp + 1) % 2 ^ 64;
            write_set_hash =
                bit_xor r.write_set_hash (bit_xor write_value ((r.timestamp + 1) % 2 ^ 64));
            old_value_hash = bit_xor write_value ((r.timestamp + 1) % 2 ^ 64);
          })))
        (sym (get_latch_free r e.free))
        (record {
          page = e.page;
          index = e.index;
          free = refl;
          balance = ap (λ x. bit_xor x (bit_xor write_value now)) e.balance;
          old = refl;
        })

-- What a page is expected to have, for the pages of the batch.
abbrev pub Expected : Type 0
Expected = ℕ → Option ℕ

-- A first read is believed, and later ones change nothing.
abbrev pub first_of : Option ℕ → ℕ → ℕ
first_of none v = v
first_of (some w) v = w

abbrev pub expect_read : ℕ → ℕ → Expected → Expected
expect_read p v e = set e p (some (first_of (e p) v))

abbrev pub expect_write : ℕ → ℕ → Expected → Expected
expect_write p v e = set e p (some v)

abbrev pub Tracks : ℕ → ℕ → Option VerifyRecord → Option ℕ → Type 0
Tracks from p none none = Unit {0}
Tracks from p (some r) (some v) = Expects p from v r
Tracks from p none (some v) = ⊥
Tracks from p (some r) none = ⊥

-- The verifier has the records of the pages in the batch.
pub record IsTracking (from limit start : ℕ) (e : Expected) (m : MemoryVerifier) : Type 0 where
  pub tracks : (p : ℕ) → Tracks from p (m.updates p) (e p)
  pub size : m.limit ≡ limit
  pub idle : m.verifying ≡ false
  pub clock : m.last_verification ≡ start

-- One record is replaced.
replaced :
    {from limit start : ℕ} {e : Expected} {m : MemoryVerifier} (p v : ℕ) (r : VerifyRecord)
    → IsTracking from limit start e m
    → Expects p from v r
    → IsTracking from limit start
        (set e p (some v))
        (record m { updates = set m.updates p (some r) })
replaced {from} {limit} {start} {e} {m} p v r t x = record {
  tracks = λ q. at q (Bool-cases (p == q));
  size = t.size;
  idle = t.idle;
  clock = t.clock;
}
  where
    same : (q : ℕ) → (p == q) ≡ true → p ≡ q
    same q b = ground arith

    at :
        (q : ℕ)
        → ((p == q) ≡ true) ⊎ ((p == q) ≡ false)
        → Tracks from q (set m.updates p (some r) q) (set e p (some v) q)
    at q (inl b) = rw b (subst (λ q. Expects q from v r) (same q b) x)
    at q (inr b) = rw b (t.tracks q)

update_record-IsTracking :
    {from limit start : ℕ} {e : Expected} {m : MemoryVerifier}
    (f : VerifyRecord → Outcome VerifyRecord) (p first v : ℕ)
    → IsTracking from limit start e m
    → 0 < p
    → p < limit
    → ((w : ℕ)
        → (e p ≡ some w) ⊎ ((e p ≡ none) × (w ≡ first))
        → (r : VerifyRecord) → Expects p from w r
        → Ensures (Expects p from v) (f r))
    → Ensures (IsTracking from limit start (set e p (some v))) (update_record f p first from m)
unfolding update_record
update_record-IsTracking {from} {limit} {start} {e} {m} f p first v t a b step =
    Ensures-then P _ _ (lt→ltb p m.limit (omega (arith, b, t.size))) (
      Ensures->>= Q P (find_record p first from m) _ (found (m.updates p) (e p) (t.tracks p))
        (λ r (w, c, x).
          Ensures-then P _ _ (ap (λ i. i == from) x.index ∙ ==_refl from)
            (Ensures->>= (Expects p from v) P (f r) _ (step w c r x) (λ r y. replaced p v r t y))))
  where
    P : MemoryVerifier → Type 0
    P = IsTracking from limit start (set e p (some v))

    Q : VerifyRecord → Type 0
    Q r = (w : ℕ) × ((e p ≡ some w) ⊎ ((e p ≡ none) × (w ≡ first))) × Expects p from w r

    found :
        (o : Option VerifyRecord) (x : Option ℕ)
        → Tracks from p o x
        → Ensures
            (λ r. (w : ℕ) × ((x ≡ some w) ⊎ ((x ≡ none) × (w ≡ first))) × Expects p from w r)
            (elim o [ none ↦ init_record first p from | some r ↦ done r ])
    found none none z =
        Ensures-mono (Expects p from first) _ (init_record first p from)
          (λ r y. (first, inr (refl, refl), y)) (init_record-Expects p from first a)
    found (some r) (some w) z = (w, inl refl, z)
    found none (some w) z = absurd z
    found (some r) none z = absurd z

pub add_read-IsTracking :
    {from limit start : ℕ} {e : Expected} {m : MemoryVerifier} (p v : ℕ)
    → IsTracking from limit start e m
    → 0 < p
    → p < limit
    → Ensures (IsTracking from limit start (expect_read p v e)) (add_read p v from m)
unfolding add_read
add_read-IsTracking {from} {limit} {start} {e} {m} p v t a b =
    update_record-IsTracking (record_read v) p v (first_of (e p) v) t a b (λ w c r x.
      subst (λ y. Ensures (Expects p from y) (record_read v r)) (sym (value w c))
        (record_read-Expects x v))
  where
    value : (w : ℕ) → (e p ≡ some w) ⊎ ((e p ≡ none) × (w ≡ v)) → first_of (e p) v ≡ w
    value w (inl c) = ap (λ o. first_of o v) c
    value w (inr (c, d)) = ap (λ o. first_of o v) c ∙ sym d

pub add_write-IsTracking :
    {from limit start : ℕ} {e : Expected} {m : MemoryVerifier} (pages : Pages) (p v : ℕ)
    → IsTracking from limit start e m
    → 0 < p
    → p < limit
    → Ensures (IsTracking from limit start (expect_write p v e)) (add_write pages p v from m)
unfolding add_write
add_write-IsTracking pages p v t a b =
    update_record-IsTracking (record_write v) p (pages.get_hash p) v t a b
      (λ w c r x. record_write-Expects x v)
