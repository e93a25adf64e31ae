-- ===== src/Plock/Acquire.antt =====
-- `PartMan::lock`: an older transaction gives up, a younger one takes its place in the queue.
use veri_txn.Prelude.{
  set, ℕ, zero, suc, ◌+◌, ◌≤◌, ◌<◌, ◌≡◌, ◌≢◌, refl, subst, Option, none, some, ltb, arith,
  Bool-cases, inl, inr, Ensures, lt→ltb, dec_lt, ℕ_discrete,
}
use native.Mathlib.Numerals.{add-one}
use veri_txn.Plock.{Txn, PartMan, shift_in, Ready, Rc, rcok, wait, abort, lock, lock_for}
use veri_txn.Plock.Spec.{IsRising, IsYounger, IsValid, IsInserted}

shift_in_frame : (txn : Txn) (n : ℕ) (w : ℕ → Txn) (j : ℕ) → n < j → shift_in txn n w j ≡ w j
unfolding shift_in
shift_in_frame txn zero w j h = ground arith
shift_in_frame txn (suc i) w j h = ground (arith, shift_in_frame txn i (set w (suc i) (w i)) j)

shift_in-IsInserted :
    (txn : Txn) (n : ℕ) (w : ℕ → Txn)
    → IsRising n w
    → (k : ℕ) × IsInserted txn n k w (shift_in txn n w)
unfolding shift_in
shift_in-IsInserted txn zero w r = (
  zero,
  record {
    within = omega arith;
    before = λ i h. absurd (omega arith);
    here = ground arith;
    after = λ i h l. absurd (omega arith);
  },
)
shift_in-IsInserted txn (suc i) w r = elim (Bool-cases (ltb (w i).ts txn.ts)) [
  | inl last ↦ rw last (
    suc i,
    record {
      within = omega arith;
      before = λ j h. (
        ground arith,
        elim (ℕ_discrete j i) [ yes e ↦ rw e (ground arith) | no d ↦ ground (arith, r j i) ],
      );
      here = ground arith;
      after = λ j h l. absurd (omega arith);
    },
  )
  | inr further ↦
      let (k, ih) =
        shift_in-IsInserted txn i (set w (suc i) (w i)) (λ a b l m. ground (arith, r a b)) in
      rw further (
        k,
        record {
          within = omega (arith, ih.within);
          before = λ j h. ground (arith, ih.before j h, ih.within);
          here = ih.here;
          after = λ j h l. elim (ℕ_discrete j i) [
            | yes e ↦ rw e (ground (arith, shift_in_frame txn i (set w (suc i) (w i)) (suc i)))
            | no d ↦ ground (arith, ih.after j h)
          ];
        },
      )
]

-- Where a place of the new queue comes from: its timestamp, against places further on.
above :
    (txn : Txn) (n k : ℕ) (w w' : ℕ → Txn)
    → IsRising n w
    → IsInserted txn n k w w'
    → ((i : ℕ) → i < n → (w i).ts ≢ txn.ts)
    → (i j : ℕ) → i ≤ j
    → k ≤ j
    → j < n
    → (w' i).ts < (w j).ts
above txn n k w w' r s d i j le kj lt = elim (dec_lt i k) [
  | yes b ↦ ground (arith, s.before i b, r i j)
  | no b ↦ elim (ℕ_discrete i k) [
    | yes e ↦ rw (e, s.here) (ground (arith, s.after j, d j))
    | no f ↦ behind i le (omega arith)
  ]
]
  where
    behind : (i : ℕ) → i ≤ j → k < i → (w' i).ts < (w j).ts
    behind zero l h = absurd (omega arith)
    behind (suc i) l h = ground (arith, s.after i, r i j)

-- A queue with a transaction of another timestamp put in at its place is in order again.
inserted-IsRising :
    (txn : Txn) (n k : ℕ) (w w' : ℕ → Txn)
    → IsRising n w
    → IsInserted txn n k w w'
    → ((i : ℕ) → i < n → (w i).ts ≢ txn.ts)
    → IsRising (suc n) w'
inserted-IsRising txn n k w w' r s d i zero lt le = absurd (omega arith)
inserted-IsRising txn n k w w' r s d i (suc j) lt le = elim (dec_lt (suc j) k) [
  | yes b ↦ ground (arith, s.before i, s.before (suc j) b, r i (suc j), s.within)
  | no b ↦ elim (ℕ_discrete (suc j) k) [
    | yes e ↦ let at : w' (suc j) ≡ txn = rw e s.here in rw at (ground (arith, s.before i))
    | no f ↦
        let from = s.after j (omega arith) (omega arith) in
        rw (from.0) (above txn n k w w' r s d i j (omega arith) (omega arith) (omega arith))
  ]
]

inserted_from :
    (txn : Txn) (n k : ℕ) (w w' : ℕ → Txn) (t : ℕ)
    → IsInserted txn n k w w'
    → t < txn.ts
    → ((i : ℕ) → i < n → t < (w i).ts)
    → (i : ℕ) → i < suc n
    → t < (w' i).ts
inserted_from txn n k w w' t s lt h i le = elim (dec_lt i k) [
  | yes b ↦ ground (arith, s.before i b, h i, s.within)
  | no b ↦ elim (ℕ_discrete i k) [ yes e ↦ rw (e, s.here) lt | no f ↦ behind i le (omega arith) ]
]
  where
    behind : (i : ℕ) → i < suc n → k < i → t < (w' i).ts
    behind zero l m = absurd (omega arith)
    behind (suc i) l m = ground (arith, s.after i, h i)

-- What the answers of `lock` mean.
abbrev pub Answers : Txn → PartMan → PartMan × Ready × Rc → Type 0
Answers txn p (p', ready, rcok) =
    (p.owner ≡ none) × (p'.owner ≡ some txn) × (p'.waiter_cnt ≡ p.waiter_cnt)
Answers txn p (p', ready, wait) =
    (p'.owner ≡ p.owner)
    × (p'.waiter_cnt ≡ p.waiter_cnt + 1)
    × ((k : ℕ) × IsInserted txn p.waiter_cnt k p.waiters p'.waiters)
Answers txn p (p', ready, abort) = p' ≡ p

lock_for-IsValid :
    (thread_cnt : ℕ) (txn : Txn) (p : PartMan) (ready : Ready) (o : Option Txn)
    → p.owner ≡ o
    → p.waiter_cnt < thread_cnt
    → ((i : ℕ) → i < p.waiter_cnt → (p.waiters i).ts ≢ txn.ts)
    → IsValid p
    → Ensures (λ r. IsValid r.0 × Answers txn p r) (lock_for thread_cnt txn p ready o)
lock_for-IsValid thread_cnt txn p ready none e room d v =
    let nobody : p.waiter_cnt ≡ 0 = subst (IsYounger p.waiter_cnt p.waiters) e v.younger in
    (record { rising = v.rising; younger = λ i h. absurd (omega arith) }, (e, refl, refl))
lock_for-IsValid thread_cnt txn p ready (some owner) e room d v =
    elim (Bool-cases (ltb owner.ts txn.ts)) [
      | inr older ↦ rw older (v, refl)
      | inl younger ↦
          let (k, s) = shift_in-IsInserted txn p.waiter_cnt p.waiters v.rising in
          let before : IsYounger p.waiter_cnt p.waiters (some owner) =
            subst (IsYounger p.waiter_cnt p.waiters) e v.younger in
          rw (younger, lt→ltb p.waiter_cnt thread_cnt room)
            (
              record {
                rising = rw add-one (inserted-IsRising txn p.waiter_cnt k p.waiters _ v.rising s d);
                younger =
                    rw (e, add-one)
                      (inserted_from txn p.waiter_cnt k p.waiters _ owner.ts s (ground arith)
                        before);
              },
              (refl, refl, (k, s)),
            )
    ]

-- `PartMan::lock` on a valid partition with room in its queue, for a transaction whose timestamp no
-- waiter has, returns and leaves the partition valid: the waiters in the order of their timestamps,
-- all younger than the owner. RCOK is the answer for a free partition, which the transaction then
-- owns; WAIT puts it at its place in the queue, the others keeping their order; Abort changes nothing.
pub lock-IsValid :
    (thread_cnt : ℕ) (txn : Txn) (p : PartMan) (ready : Ready)
    → p.waiter_cnt < thread_cnt
    → ((i : ℕ) → i < p.waiter_cnt → (p.waiters i).ts ≢ txn.ts)
    → IsValid p
    → Ensures (λ r. IsValid r.0 × Answers txn p r) (lock thread_cnt txn p ready)
unfolding lock
lock-IsValid thread_cnt txn p ready room d v =
    lock_for-IsValid thread_cnt txn p ready p.owner refl room d v
