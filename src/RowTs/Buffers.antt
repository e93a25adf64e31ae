-- ===== src/RowTs/Buffers.antt =====
-- The buffers of requests, and the loop that empties them.
use veri_txn.Prelude.{
  ℕ, zero, suc, ◌+◌, ◌<◌, ◌≡◌, refl, ap, ◌∙◌, ◌==◌, Bool, true, false, Option, none, some, List, [],
  ◌∷◌, ltb, leb, if◌then◌else◌, length, arith, Outcome, done, blocked, fault, ◌>>=◌, Bool-cases,
  inl, inr,
}
use veri_txn.RowTs.{
  TsReqEntry, RowTs, uint64_max, lesser, greater, debuffer_txn, debuffer_pre, debuffer_ts, cal_min,
  perform_reads, settle_writes, copy_of, writes_ready, reads_ready, update_round, update_loop,
  update_buffer,
}

-- The call does not wait: it returns a result of the predicate, or an assertion fails.
abbrev pub Halts {ℓ} : {A : Type ℓ} → (A → Type 0) → Outcome A → Type 0
Halts P (done a) = P a
Halts P blocked = ⊥
Halts P fault = Unit

Halts->>= {ℓ κ} :
    {A : Type ℓ} {B : Type κ} (P : A → Type 0) (Q : B → Type 0) (m : Outcome A) (f : A → Outcome B)
    → Halts P m
    → ((a : A) → P a → Halts Q (f a))
    → Halts Q (m >>= f)
Halts->>= P Q (done a) f h k = k a h
Halts->>= P Q blocked f h k = absurd h
Halts->>= P Q fault f h k = tt

Halts-mono {ℓ} :
    {A : Type ℓ} (P Q : A → Type 0) (m : Outcome A) → ((a : A) → P a → Q a) → Halts P m → Halts Q m
Halts-mono P Q (done a) k h = k a h
Halts-mono P Q blocked k h = h
Halts-mono P Q fault k h = tt

debuffer_ts-length :
    (ts : ℕ) (q taken : List TsReqEntry)
    → length (debuffer_ts ts q taken).0 + length (debuffer_ts ts q taken).1
      ≡ length q + length taken
unfolding debuffer_ts
debuffer_ts-length ts [] taken = omega arith
debuffer_ts-length ts (r ∷ q) taken = elim (Bool-cases (leb r.ts ts)) [
  | inl e ↦ rw e (omega (arith, debuffer_ts-length ts q (r ∷ taken)))
  | inr e ↦ rw e (omega (arith, debuffer_ts-length ts q taken))
]

perform_reads-readreq : (q : List TsReqEntry) (s : RowTs) → (perform_reads q s).readreq ≡ s.readreq
unfolding perform_reads
perform_reads-readreq [] s = refl
perform_reads-readreq (r ∷ q) s = perform_reads-readreq q _

-- The readers that wait are as before.
abbrev Same : RowTs → RowTs → Type 0
Same s t = t.readreq ≡ s.readreq

debuffer_txn-Halts : (txn : ℕ) (q : List TsReqEntry) → Halts (λ _. Unit) (debuffer_txn txn q)
unfolding debuffer_txn
debuffer_txn-Halts txn [] = tt
debuffer_txn-Halts txn (r ∷ q) = elim (Bool-cases (r.txn == txn)) [
  | inl e ↦ rw e tt
  | inr e ↦ rw e (
      Halts->>= (λ _. Unit) (λ _. Unit) (debuffer_txn txn q) (λ q. done (r ∷ q))
        (debuffer_txn-Halts txn q) (λ q h. tt))
]

settle_writes-Halts :
    (q : List TsReqEntry) (young_ts : ℕ) (young : Option TsReqEntry) (s : RowTs)
    → Halts (λ r. Same s r.1) (settle_writes q young_ts young s)
unfolding settle_writes debuffer_txn
settle_writes-Halts [] young_ts young s = refl
settle_writes-Halts (r ∷ q) young_ts young s =
    Halts->>= (λ t. Same s t) (λ t. Same s t.1) (debuffer_pre r.txn s)
      (settle_writes q (lesser r.ts young_ts) (if ltb r.ts young_ts then some r else young))
      (Halts->>= (λ _. Unit) (λ t. Same s t) (debuffer_txn r.txn s.prereq) _
        (debuffer_txn-Halts r.txn s.prereq) (λ q h. refl))
      (λ t e.
        Halts-mono (λ u. Same t u.1) (λ u. Same s u.1)
          (settle_writes q (lesser r.ts young_ts) (if ltb r.ts young_ts then some r else young) t)
          (λ u k. k ∙ e) (settle_writes-Halts q _ _ t))

copy_of-Halts : (e : Option TsReqEntry) (s : RowTs) → Halts (Same s) (copy_of e s)
copy_of-Halts none s = tt
copy_of-Halts (some e) s = go e.row
  where
    go :
        (c : Option ℕ)
        → Halts (Same s) (elim c [
          | none ↦ fault
          | some copy ↦ done (record s { value = copy; wts = greater s.wts e.ts })
        ])
    go none = tt
    go (some copy) = refl

-- A round goes on only if some request was ready.
abbrev Went : List TsReqEntry → RowTs → Bool × RowTs → Type 0
Went ready s t = Same s t.1 × (t.0 ≡ true → 0 < length ready)

writes_ready-Halts :
    (ready : List TsReqEntry) (s : RowTs) → Halts (λ t. Same s t.1) (writes_ready ready s)
unfolding settle_writes
writes_ready-Halts [] s = refl
writes_ready-Halts (r ∷ q) s =
    Halts->>= (λ t. Same s t.1) (λ t. Same s t.1) (settle_writes (r ∷ q) uint64_max none s) _
      (settle_writes-Halts (r ∷ q) uint64_max none s)
      (λ t e.
        Halts->>= (Same t.1) (λ u. Same s u.1) (copy_of t.0 t.1) (λ u. done (true, u))
          (copy_of-Halts t.0 t.1) (λ u h. h ∙ e))

reads_ready-Halts :
    (ready : List TsReqEntry) (s : RowTs) → Halts (Went ready s) (reads_ready ready s)
unfolding perform_reads
reads_ready-Halts [] s = (refl, λ e. absurd (ground (arith, e)))
reads_ready-Halts (r ∷ q) s = go (ltb t.min_rts new_min_rts)
  where
    t : RowTs
    t = perform_reads (r ∷ q) s

    new_min_rts : ℕ
    new_min_rts = cal_min t.readreq uint64_max

    d : List TsReqEntry × List TsReqEntry
    d = debuffer_ts new_min_rts t.writereq []

    same : t.readreq ≡ s.readreq
    same = perform_reads-readreq (r ∷ q) s

    u : RowTs
    u = record t { min_rts = new_min_rts; writereq = d.1 }

    go : (b : Bool) → Halts (Went (r ∷ q) s) (if b then writes_ready d.0 u else done (false, t))
    go true =
        Halts-mono (λ v. Same u v.1) (Went (r ∷ q) s) (writes_ready d.0 u)
          (λ v e. (e ∙ same, λ h. omega arith)) (writes_ready-Halts d.0 u)
    go false = (same, λ e. omega arith)

-- A round that another follows leaves fewer readers waiting.
abbrev Fewer : RowTs → Bool × RowTs → Type 0
Fewer s t = t.0 ≡ true → length t.1.readreq < length s.readreq

update_round-Halts : (s : RowTs) → Halts (Fewer s) (update_round s)
unfolding update_round
update_round-Halts s = go (ltb new_min_pts s.min_pts) (ltb s.min_pts new_min_pts)
  where
    new_min_pts : ℕ
    new_min_pts = cal_min s.prereq uint64_max

    d : List TsReqEntry × List TsReqEntry
    d = debuffer_ts new_min_pts s.readreq []

    t : RowTs
    t = record s { min_pts = new_min_pts; readreq = d.1 }

    go :
        (b c : Bool)
        → Halts (Fewer s) (if b then fault else (if c then reads_ready d.0 t else done (false, s)))
    go true c = tt
    go false false = λ e. absurd (ground (arith, e))
    go false true =
        Halts-mono (Went d.0 t) (Fewer s) (reads_ready d.0 t)
          (λ v w e.
            omega (arith, w.1 e, ap length w.0, debuffer_ts-length new_min_pts s.readreq []))
          (reads_ready-Halts d.0 t)

update_loop-Halts : (n : ℕ) (s : RowTs) → length s.readreq < n → Halts (λ _. Unit) (update_loop n s)
unfolding update_loop
update_loop-Halts zero s h = absurd (omega (arith, h))
update_loop-Halts (suc n) s h =
    Halts->>= (Fewer s) (λ _. Unit) (update_round s) _ (update_round-Halts s)
      (λ t f. go (update_loop-Halts n) t.0 t.1 f)
  where
    go :
        ((u : RowTs) → length u.readreq < n → Halts (λ _. Unit) (update_loop n u))
        → (b : Bool) (t : RowTs) → (b ≡ true → length t.readreq < length s.readreq)
        → Halts (λ _. Unit) (if b then update_loop n t else done t)
    go ih true t f = ih t (omega (arith, f refl, h))
    go ih false t f = tt

-- update_buffer comes to an end from every state of the row: its rounds do not run out, and it
-- returns unless an assertion fails.
pub update_buffer-Halts : (s : RowTs) → Halts (λ _. Unit) (update_buffer s)
unfolding update_buffer
update_buffer-Halts s = update_loop-Halts (length s.readreq + 1) s (omega arith)
