-- ===== src/Plock/HandOver.antt =====
-- `PartMan::unlock`: the oldest waiter becomes the owner, or a waiter leaves the queue.
use veri_txn.Prelude.{
  set, ℕ, zero, suc, ◌+◌, ◌-◌, ◌≤◌, ◌<◌, ◌≡◌, refl, subst, Option, none, some, ltb, arith, ◌==◌,
  Bool-cases, inl, inr, ◌⊎◌, Ensures, dec_lt, ℕ_discrete, Bool, true, false, done,
}
use veri_txn.Plock.{
  Txn, PartMan, shift_out, shift_found, Ready, unlock, hand_over, left, is_owner, sub_ready,
}
use veri_txn.Plock.Spec.{IsRising, IsYounger, IsValid}

-- `w'` is `w` without the place `m`.
pub record IsShifted (m cnt : ℕ) (w w' : ℕ → Txn) : Type 0 where
  pub before : (j : ℕ) → j < m → w' j ≡ w j
  pub after : (j : ℕ) → m ≤ j → suc j < cnt → w' j ≡ w (suc j)

shift_out-IsShifted :
    (i k : ℕ) (w : ℕ → Txn)
    → ((j : ℕ) → i ≤ j → j < i + k → (w j).ts < (w (suc j)).ts)
    → (w' : ℕ → Txn) × (shift_out i k w ≡ done w') × IsShifted i (suc (i + k)) w w'
unfolding shift_out
shift_out-IsShifted i zero w r =
    (w, refl, record { before = λ j h. refl; after = λ j h l. absurd (omega arith) })
shift_out-IsShifted i (suc k) w r =
    let (w', e, s) =
      shift_out-IsShifted (suc i) k (set w i (w (suc i)))
        (λ j a b. ground (arith, r j (omega arith))) in
    (
      w',
      ground (arith, e, r i),
      record {
        before = λ j h. ground (arith, s.before j);
        after = λ j h l. elim (ℕ_discrete j i) [
          | yes f ↦ rw f (ground (arith, s.before i))
          | no f ↦ ground (arith, s.after j)
        ];
      },
    )

shifted-IsRising :
    (m cnt : ℕ) (w w' : ℕ → Txn)
    → IsRising (suc cnt) w
    → IsShifted m (suc cnt) w w'
    → IsRising cnt w'
shifted-IsRising m cnt w w' r s i j lt le = elim (dec_lt i m) [
  | yes a ↦ elim (dec_lt j m) [
    | yes b ↦ ground (arith, s.before i a, s.before j b, r i j)
    | no b ↦ ground (arith, s.before i a, s.after j, r i (suc j))
  ]
  | no a ↦ ground (arith, s.after i, s.after j, r (suc i) (suc j))
]

-- From the first place of the transaction on, the later ones move up.
shift_found-true :
    (id cnt i k : ℕ) (w : ℕ → Txn)
    → i + k ≡ cnt
    → ((shift_found id cnt i k true w).0 ≡ true)
      × IsShifted i cnt w (shift_found id cnt i k true w).1
unfolding shift_found
shift_found-true id cnt i zero w e =
    (refl, record { before = λ j h. refl; after = λ j h l. absurd (omega arith) })
shift_found-true id cnt i (suc k) w e = elim (Bool-cases (ltb i (cnt - 1))) [
  | inl more ↦
      let (f, s) = shift_found-true id cnt (suc i) k (set w i (w (suc i))) (omega arith) in
      rw (more, shift_found)
        (
          f,
          record {
            before = λ j h. ground (arith, s.before j);
            after = λ j h l. elim (ℕ_discrete j i) [
              | yes g ↦ rw g (ground (arith, s.before i))
              | no g ↦ ground (arith, s.after j)
            ];
          },
        )
  | inr last ↦
      let (f, s) = shift_found-true id cnt (suc i) k w (omega arith) in
      rw (last, shift_found)
        (
          f,
          record {
            before = λ j h. ground (arith, s.before j);
            after = λ j h l. absurd (ground arith);
          },
        )
]

shift_found-IsShifted :
    (id cnt i k : ℕ) (w : ℕ → Txn) (p : ℕ)
    → i + k ≡ cnt
    → i ≤ p
    → p < cnt
    → (w p).id ≡ id
    → ((shift_found id cnt i k false w).0 ≡ true)
      × ((m : ℕ) × (m < cnt)
          × ((w m).id ≡ id)
          × IsShifted m cnt w (shift_found id cnt i k false w).1)
unfolding shift_found
shift_found-IsShifted id cnt i zero w p e a b q = absurd (omega arith)
shift_found-IsShifted id cnt i (suc k) w p e a b q = elim (Bool-cases ((w i).id == id)) [
  | inr on ↦
      rw (on, shift_found)
        (shift_found-IsShifted id cnt (suc i) k w p (omega arith) (ground arith) b q)
  | inl here ↦ elim (Bool-cases (ltb i (cnt - 1))) [
    | inl more ↦
        let (f, s) = shift_found-true id cnt (suc i) k (set w i (w (suc i))) (omega arith) in
        rw (here, more, shift_found)
          (
            f,
            (
              i,
              omega arith,
              ground arith,
              record {
                before = λ j h. ground (arith, s.before j);
                after = λ j h l. elim (ℕ_discrete j i) [
                  | yes g ↦ rw g (ground (arith, s.before i))
                  | no g ↦ ground (arith, s.after j)
                ];
              },
            ),
          )
    | inr last ↦
        let (f, s) = shift_found-true id cnt (suc i) k w (omega arith) in
        rw (here, last, shift_found)
          (
            f,
            (
              i,
              omega arith,
              ground arith,
              record {
                before = λ j h. ground (arith, s.before j);
                after = λ j h l. absurd (ground arith);
              },
            ),
          )
  ]
]

-- What `unlock` by the owner does: the oldest waiter is the next owner, the others move up.
abbrev pub HandsOver : PartMan → PartMan × Ready → ℕ → Type 0
HandsOver p (p', ready) zero = (p'.owner ≡ none) × (p'.waiter_cnt ≡ 0)
HandsOver p (p', ready) (suc k) =
    (p'.owner ≡ some (p.waiters 0)) × (p'.waiter_cnt ≡ k) × IsShifted 0 (suc k) p.waiters p'.waiters

hand_over-IsValid :
    (p : PartMan) (ready : Ready) (cnt : ℕ)
    → p.waiter_cnt ≡ cnt
    → IsRising cnt p.waiters
    → Ensures (λ r. IsValid r.0 × HandsOver p r cnt) (hand_over p ready cnt)
hand_over-IsValid p ready zero e r =
    (record { rising = λ i j l m. absurd (omega arith); younger = e }, (refl, e))
hand_over-IsValid p ready (suc k) e r =
    let (w', eq, s) =
      shift_out-IsShifted 0 k p.waiters (λ j a b. r j (suc j) (omega arith) (omega arith)) in
    let s' : IsShifted 0 (suc k) p.waiters w' = record {
      before = λ j h. absurd (omega arith);
      after = λ j h l. s.after j h (omega arith);
    } in
    rw eq (
      record {
        rising = shifted-IsRising 0 k p.waiters w' r s';
        younger = λ i l. ground (arith, s'.after i, r 0 (suc i));
      },
      (refl, refl, s'),
    )

-- What `unlock` by a waiter does: it leaves the queue, and the owner stays.
abbrev pub Leaves : ℕ → PartMan → PartMan × Ready → Type 0
Leaves id p (p', ready) =
    (p'.owner ≡ p.owner)
    × (p'.waiter_cnt + 1 ≡ p.waiter_cnt)
    × ((m : ℕ) × (m < p.waiter_cnt)
        × ((p.waiters m).id ≡ id)
        × IsShifted m p.waiter_cnt p.waiters p'.waiters)

shifted-IsYounger :
    (m cnt : ℕ) (w w' : ℕ → Txn) (o : Option Txn)
    → m < suc cnt
    → IsYounger (suc cnt) w o
    → IsShifted m (suc cnt) w w'
    → IsYounger cnt w' o
shifted-IsYounger m cnt w w' none l y s = absurd (omega arith)
shifted-IsYounger m cnt w w' (some o) l y s = λ i h. elim (dec_lt i m) [
  | yes a ↦ ground (arith, s.before i a, y i)
  | no a ↦ ground (arith, s.after i, y (suc i))
]

left-IsValid :
    (id n place : ℕ) (p : PartMan) (ready : Ready)
    → p.waiter_cnt ≡ suc n
    → place < p.waiter_cnt
    → (p.waiters place).id ≡ id
    → IsValid p
    → Ensures
        (λ r. IsValid r.0 × Leaves id p r)
        (left p ready (shift_found id p.waiter_cnt 0 p.waiter_cnt false p.waiters))
left-IsValid id n place p ready e h q v =
    let (f, found) =
      shift_found-IsShifted id p.waiter_cnt 0 p.waiter_cnt p.waiters place (omega arith)
        (omega arith) h q in
    let (m, lt, is, s) = found in
    go (shift_found id p.waiter_cnt 0 p.waiter_cnt false p.waiters) f m lt is s
  where
    go :
        (r : Bool × (ℕ → Txn))
        → r.0 ≡ true
        → (m : ℕ) → m < p.waiter_cnt
        → (p.waiters m).id ≡ id
        → IsShifted m p.waiter_cnt p.waiters r.1
        → Ensures (λ r. IsValid r.0 × Leaves id p r) (left p ready r)
    go (false, w) f m lt is s = cc
    go (true, w) f m lt is s =
        let less : p.waiter_cnt - 1 ≡ n = omega arith in
        let s' = subst (λ c. IsShifted m c p.waiters w) e s in
        (
          record {
            rising = rw less (
                shifted-IsRising m n p.waiters w (subst (λ c. IsRising c p.waiters) e v.rising) s');
            younger = rw less (
                shifted-IsYounger m n p.waiters w p.owner (omega arith)
                  (subst (λ c. IsYounger c p.waiters p.owner) e v.younger) s');
          },
          (refl, omega arith, (m, lt, is, s)),
        )

-- The transaction owns the partition or waits for it.
abbrev pub Holds : ℕ → PartMan → Type 0
Holds id p =
    (is_owner id p.owner ≡ true)
    ⊎ ((place : ℕ) × (place < p.waiter_cnt) × ((p.waiters place).id ≡ id))

-- What `unlock` does for an owner, and for a transaction that is not the owner.
abbrev pub Unlocked : ℕ → PartMan → Bool → PartMan × Ready → Type 0
Unlocked id p true r = HandsOver p r p.waiter_cnt
Unlocked id p false r = Leaves id p r

-- `PartMan::unlock` of a transaction that owns a valid partition or waits for it returns, with no
-- failed assertion, and leaves the partition valid: the waiters in the order of their timestamps and
-- all younger than the owner, and no waiter for a free partition. The owner hands over to the oldest
-- waiter, or frees the partition if nobody waits; a waiter leaves the queue and the owner stays; the
-- waiters that are left keep their order.
pub unlock-IsValid :
    (id : ℕ) (p : PartMan) (ready : Ready)
    → Holds id p
    → IsValid p
    → Ensures (λ r. IsValid r.0 × Unlocked id p (is_owner id p.owner) r) (unlock id p ready)
unfolding unlock
unlock-IsValid id p ready h v = go (is_owner id p.owner) refl h
  where
    go :
        (b : Bool)
        → is_owner id p.owner ≡ b
        → Holds id p
        → Ensures (λ r. IsValid r.0 × Unlocked id p (is_owner id p.owner) r) (unlock id p ready)
    go true e k = rw e (hand_over-IsValid p ready p.waiter_cnt refl v.rising)
    go false e (inl o) = cc
    go false e (inr (place, lt, q)) =
        rw e (left-IsValid id (p.waiter_cnt - 1) place p (sub_ready ready id) (omega arith) lt q v)
