-- ===== src/Deferred/Batch.antt =====
-- What the deferred verification accepts, after any calls of add_read and add_write.
use veri_txn.Prelude.{
  set, ℕ, zero, suc, ◌+◌, ◌<◌, ◌≡◌, refl, sym, ap, subst, ◌∙◌, inl, inr, ◌⊎◌, Bool, true, false,
  ◌&&◌, ◌||◌, Option, none, some, List, [], ◌∷◌, All, ltb, ◌==◌, if◌then◌else◌, Bool-cases, Outcome,
  done, blocked, fault, ◌>>=◌, Ensures, Ensures->>=, Ensures-mono, Accepts, Accepts->>=, arith,
  ==→eq,
}
use veri_txn.Deferred.{
  VerifyRecord, Pages, MemoryVerifier, init, add_read, add_write, verify, check_record,
  check_records, verification, get_latch, sub_u64,
}
use veri_txn.Deferred.Tracks.{
  Expects, Expected, expect_read, expect_write, first_of, Tracks, IsTracking, add_read-IsTracking,
  add_write-IsTracking, get_latch_free,
}
use veri_txn.Deferred.Verdict.{agrees, verify-Accepts}

-- A call for a page, with the hash that was read or written.
pub data Call : Type 0 where
  read write : ℕ → ℕ → Call

abbrev pub page_of : Call → ℕ
page_of (read p v) = p
page_of (write p v) = p

abbrev pub run : Pages → ℕ → List Call → MemoryVerifier → Outcome MemoryVerifier
run pages from [] m = done m
run pages from (read p v ∷ l) m = add_read p v from m >>= run pages from l
run pages from (write p v ∷ l) m = add_write pages p v from m >>= run pages from l

-- The page of a record has the hash last written, or the first one read; a page in the cache is not asked.
pub expected : List Call → Expected → Expected
expected [] e = e
expected (read p v ∷ l) e = expected l (expect_read p v e)
expected (write p v ∷ l) e = expected l (expect_write p v e)

pub all_agree : Pages → Expected → ℕ → ℕ → Bool
all_agree pages e zero i = true
all_agree pages e (suc n) i = agrees pages i (e i) && all_agree pages e n (i + 1)

run-IsTracking :
    {from limit start : ℕ} (pages : Pages) (l : List Call) {e : Expected} {m : MemoryVerifier}
    → IsTracking from limit start e m
    → All (λ c. (0 < page_of c) × (page_of c < limit)) l
    → Ensures (IsTracking from limit start (expected l e)) (run pages from l m)
unfolding expected
run-IsTracking pages [] t h = t
run-IsTracking {from} {limit} {start} pages (read p v ∷ l) {e} {m} t h =
    Ensures->>= (IsTracking from limit start (expect_read p v e))
      (IsTracking from limit start (expected l (expect_read p v e))) (add_read p v from m)
      (run pages from l) (add_read-IsTracking p v t h.0.0 h.0.1)
      (λ m u. run-IsTracking pages l u h.1)
run-IsTracking {from} {limit} {start} pages (write p v ∷ l) {e} {m} t h =
    Ensures->>= (IsTracking from limit start (expect_write p v e))
      (IsTracking from limit start (expected l (expect_write p v e))) (add_write pages p v from m)
      (run pages from l) (add_write-IsTracking pages p v t h.0.0 h.0.1)
      (λ m u. run-IsTracking pages l u h.1)

-- The records from `i` on are deleted, those before are gone.
abbrev forget : ℕ → Expected → Expected
forget i e p = if ltb p i then none else e p

abbrev Leaves : Pages → Expected → Type 0
Leaves pages e = (p v : ℕ) → e p ≡ some v → pages.is_leaf p ≡ true

record Holds (from limit : ℕ) (e : Expected) (m : MemoryVerifier) : Type 0 where
  tracks : (p : ℕ) → Tracks from p (m.updates p) (e p)
  size : m.limit ≡ limit

-- Without a record of the page `i`, nothing is left to forget.
nothing_there : (i p : ℕ) (e : Expected) → e i ≡ none → forget i e p ≡ forget (i + 1) e p
nothing_there i p e n = elim (Bool-cases (p == i)) [
  | inl b ↦ ground (arith, ap e (==→eq p i b) ∙ n)
  | inr b ↦ ground arith
]

forgets :
    {from limit : ℕ} (e : Expected) {m : MemoryVerifier} (i : ℕ)
    → Holds from limit (forget i e) m
    → Holds from limit (forget (i + 1) e) (record m { updates = set m.updates i none })
forgets {from} {limit} e {m} i t = record {
  tracks = λ p. at p (Bool-cases (i == p));
  size = t.size;
}
  where
    gone : (p : ℕ) → (i == p) ≡ true → forget (i + 1) e p ≡ none
    gone p b = ground arith

    kept : (p : ℕ) → (i == p) ≡ false → forget i e p ≡ forget (i + 1) e p
    kept p b = ground arith

    at :
        (p : ℕ)
        → ((i == p) ≡ true) ⊎ ((i == p) ≡ false)
        → Tracks from p (set m.updates i none p) (forget (i + 1) e p)
    at p (inl b) = rw (b, gone p b) tt
    at p (inr b) = rw b (subst (Tracks from p (m.updates p)) (kept p b) (t.tracks p))

check_record-Accepts :
    {from limit : ℕ} {e : Expected} {m : MemoryVerifier} (pages : Pages) (i : ℕ)
    → Leaves pages e
    → Holds from limit (forget i e) m
    → Accepts (agrees pages i (e i)) (Holds from limit (forget (i + 1) e)) (check_record pages i m)
unfolding check_record
check_record-Accepts {from} {limit} {e} {m} pages i leaves t =
    by_record (m.updates i) (e i) (subst (Tracks from i (m.updates i)) (not_yet i) (t.tracks i))
      refl
  where
    not_yet : (i : ℕ) → forget i e i ≡ e i
    not_yet i = ground arith

    P : MemoryVerifier → Type 0
    P = Holds from limit (forget (i + 1) e)

    delete : VerifyRecord → Outcome MemoryVerifier
    delete r = get_latch r >>= λ r. done (record m { updates = set m.updates i none })

    by_record :
        (o : Option VerifyRecord) (x : Option ℕ)
        → Tracks from i o x
        → e i ≡ x
        → Accepts
            (agrees pages i x)
            P
            (elim o [ none ↦ done m | some r ↦ verify pages r >>= delete ])
    by_record none none z c = record {
      tracks = λ p. subst (Tracks from p (m.updates p)) (nothing_there i p e c) (t.tracks p);
      size = t.size;
    }
    by_record (some r) (some v) z c =
        Accepts->>= (agrees pages i (some v)) (Expects i from v) P (verify pages r) delete
          (verify-Accepts pages z (leaves i v c))
          (λ r y.
            subst (λ o. Ensures P (o >>= λ r. done (record m { updates = set m.updates i none })))
              (sym (get_latch_free r y.free)) (forgets e i t))
    by_record none (some v) z c = absurd z
    by_record (some r) none z c = absurd z

check_records-Accepts :
    {from limit : ℕ} {e : Expected} (pages : Pages) (n i : ℕ) {m : MemoryVerifier}
    → Leaves pages e
    → Holds from limit (forget i e) m
    → Accepts
        (all_agree pages e n i)
        (Holds from limit (forget (i + n) e))
        (check_records pages n i m)
unfolding check_records all_agree
check_records-Accepts {from} {limit} {e} pages zero i {m} leaves t =
    subst (λ j. Holds from limit (forget j e) m) {x = i} {y = i + 0} (omega arith) t
check_records-Accepts {from} {limit} {e} pages (suc n) i {m} leaves t =
    accepts_and (agrees pages i (e i)) (all_agree pages e n (i + 1))
      (Holds from limit (forget (i + 1) e)) (Holds from limit (forget (i + suc n) e))
      (check_record pages i m) (check_records pages n (i + 1))
      (check_record-Accepts pages i leaves t)
      (λ m u.
        subst
          (λ j.
            Accepts (all_agree pages e n (i + 1)) (Holds from limit (forget j e))
              (check_records pages n (i + 1) m))
          {x = i + 1 + n} {y = i + suc n} (omega arith)
          (check_records-Accepts pages n (i + 1) leaves u))
  where
    accepts_and :
        (a b : Bool) (P Q : MemoryVerifier → Type 0) (o : Outcome MemoryVerifier)
        (f : MemoryVerifier → Outcome MemoryVerifier)
        → Accepts a P o
        → ((m : MemoryVerifier) → P m → Accepts b Q (f m))
        → Accepts (a && b) Q (o >>= f)
    accepts_and true true P Q o f x g = Ensures->>= P Q o f x g
    accepts_and true false P Q (done m) f x g = g m x
    accepts_and true false P Q blocked f x g = absurd x
    accepts_and true false P Q fault f x g = absurd x
    accepts_and false b P Q o f x g = ap (λ o. o >>= f) x

-- After the verification there is no record, and the verifier is idle again.
pub record IsCleared (limit later : ℕ) (m : MemoryVerifier) : Type 0 where
  pub no_records : (p : ℕ) → p < limit → m.updates p ≡ none
  pub idle : m.verifying ≡ false
  pub time : m.last_verification ≡ later
  pub size : m.limit ≡ limit

cleared :
    {from limit : ℕ} (e : Expected) {m : MemoryVerifier} (later : ℕ)
    → Holds from limit (forget limit e) m
    → IsCleared limit later (record m { last_verification = later; verifying = false })
cleared {from} {limit} e {m} later t = record {
  no_records =
      λ p l. none_of p (m.updates p) (subst (Tracks from p (m.updates p)) (gone p l) (t.tracks p));
  idle = refl;
  time = refl;
  size = t.size;
}
  where
    gone : (p : ℕ) → p < limit → forget limit e p ≡ none
    gone p l = ground arith

    none_of : (p : ℕ) (o : Option VerifyRecord) → Tracks from p o none → o ≡ none
    none_of p none z = refl
    none_of p (some r) z = absurd z

verification-Accepts :
    {from limit start : ℕ} {e : Expected} {m : MemoryVerifier} (pages : Pages) (batch now later : ℕ)
    → IsTracking from limit start e m
    → Leaves pages e
    → ltb (sub_u64 now start) batch ≡ false
    → Accepts
        (all_agree pages e limit 0)
        (IsCleared limit later)
        (verification pages batch now later m)
unfolding verification
verification-Accepts {from} {limit} {start} {e} {m} pages batch now later t leaves due =
    subst
      (λ b.
        Accepts (all_agree pages e limit 0) (IsCleared limit later)
          (if b then done m else rest m.limit))
      (sym (both (ap (λ x. ltb (sub_u64 now x) batch) t.clock ∙ due) t.idle))
      (subst (λ n. Accepts (all_agree pages e limit 0) (IsCleared limit later) (rest n))
        (sym t.size)
        (Accepts->>= (all_agree pages e limit 0) (Holds from limit (forget limit e))
          (IsCleared limit later) (check_records pages limit 0 (record m { verifying = true }))
          finish
          (subst
            (λ j.
              Accepts (all_agree pages e limit 0) (Holds from limit (forget j e))
                (check_records pages limit 0 (record m { verifying = true })))
            {x = 0 + limit} {y = limit} (omega arith)
            (check_records-Accepts pages limit 0 leaves (record {
              tracks = λ p. subst (Tracks from p (m.updates p)) (all_left p) (t.tracks p);
              size = t.size;
            })))
          (λ m u. cleared e later u)))
  where
    both : {a b : Bool} → a ≡ false → b ≡ false → (a || b) ≡ false
    both p q = rw (p, q) refl

    finish : MemoryVerifier → Outcome MemoryVerifier
    finish m = done (record m { last_verification = later; verifying = false })

    rest : ℕ → Outcome MemoryVerifier
    rest n = check_records pages n 0 (record m { verifying = true }) >>= finish

    all_left : (p : ℕ) → e p ≡ forget 0 e p
    all_left p = ground arith

set-Leaves :
    (pages : Pages) (e : Expected) (p v : ℕ)
    → Leaves pages e
    → pages.is_leaf p ≡ true
    → Leaves pages (set e p (some v))
set-Leaves pages e p v h b q w c = elim (Bool-cases (p == q)) [
  | inl t ↦ ap pages.is_leaf (sym (==→eq p q t)) ∙ b
  | inr t ↦ h q w (sym (miss q t) ∙ c)
]
  where
    miss : (q : ℕ) → (p == q) ≡ false → set e p (some v) q ≡ e q
    miss q t = rw t refl

expected-Leaves :
    (pages : Pages) (l : List Call) (e : Expected)
    → Leaves pages e
    → All (λ c. pages.is_leaf (page_of c) ≡ true) l
    → Leaves pages (expected l e)
unfolding expected
expected-Leaves pages [] e h a = h
expected-Leaves pages (read p v ∷ l) e h a =
    expected-Leaves pages l (expect_read p v e) (set-Leaves pages e p (first_of (e p) v) h a.0) a.1
expected-Leaves pages (write p v ∷ l) e h a =
    expected-Leaves pages l (expect_write p v e) (set-Leaves pages e p v h a.0) a.1

-- Nothing is expected of any page.
abbrev pub nothing : Expected
nothing p = none

-- After any calls of add_read and add_write for leaf pages in the array, on a verifier that has just been set
-- up, a verification that is due either returns, with no records left, or stops at a failed assertion, and it
-- returns just when every page in the calls that is not in the cache has the hash last written, or, if none was
-- written, the hash first read. In particular no value read later makes it stop.
pub run-Accepts :
    (pages : Pages) (from limit start batch now later : ℕ) (l : List Call)
    → All (λ c. (0 < page_of c) × (page_of c < limit)) l
    → All (λ c. pages.is_leaf (page_of c) ≡ true) l
    → ltb (sub_u64 now start) batch ≡ false
    → Ensures
        (λ m.
          Accepts
            (all_agree pages (expected l nothing) limit 0)
            (IsCleared limit later)
            (verification pages batch now later m))
        (run pages from l (init limit start))
run-Accepts pages from limit start batch now later l a b due =
    Ensures-mono (IsTracking from limit start (expected l nothing)) _
      (run pages from l (init limit start))
      (λ m t.
        verification-Accepts pages batch now later t
          (expected-Leaves pages l nothing (λ p v e. absurd (none_some e)) b) due)
      (run-IsTracking pages l (record { tracks = λ p. tt; size = refl; idle = refl; clock = refl })
        a)
  where
    none_some : {v : ℕ} → none ≡ some v → ⊥
    none_some e = ground arith
