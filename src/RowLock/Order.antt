-- ===== src/RowLock/Order.antt =====
-- WAIT_DIE: the order of the timestamps among those who wait and those for whom they wait.
use veri_txn.Prelude.{
  ℕ, ◌≤◌, ◌<◌, ◌≡◌, ◌≢◌, Bool, true, false, List, [], ◌∷◌, All, Option, none, some, arith,
  Bool-cases, inl, inr, ◌⊎◌, ltb, leb, ◌==◌, ◌||◌, refl, subst, done, Allows, Allows->>=, ◌&&◌,
}
use veri_txn.RowLock.{
  LockType, LockEntry, RowLock, conflict_lock, is_empty, wait_die, Rc, Txn, head_before, conflicts,
  can_wait, insert_waiter, queue_up, lock_get, remove, drop_owner, drop_waiter, drop_entry, admit,
  promote, checked, lock_release, init,
}
use veri_txn.RowLock.Spec.{
  IsFalling, IsOlder, IsOrdered, OnSome, remove-All, remove-IsFalling, All-mono,
}
use veri_txn.RowLock.Waiters.{insert_waiter-All}

can_wait-IsOlder : (e : LockEntry) (l : List LockEntry) → can_wait e.txn.ts l ≡ true → IsOlder l e
unfolding can_wait
can_wait-IsOlder e [] c = tt
can_wait-IsOlder e (o ∷ r) c = (ground arith, can_wait-IsOlder e r (ground arith))

insert_waiter-IsFalling :
    (e : LockEntry) (l : List LockEntry) → IsFalling l → IsFalling (insert_waiter e l)
unfolding insert_waiter
insert_waiter-IsFalling e [] f = (tt, tt)
insert_waiter-IsFalling e (w ∷ r) f = elim (Bool-cases (ltb e.txn.ts w.txn.ts)) [
  | inl on ↦ rw on (insert_waiter-All _ e r (ground arith) f.0, insert_waiter-IsFalling e r f.1)
  | inr here ↦
      let le : w.txn.ts ≤ e.txn.ts = ground arith in
      rw here ((le, All-mono r (λ v h. omega arith) f.0), f)
]

-- Whoever is granted the lock is at least as young as all waiters.
granted-younger :
    (ts : ℕ) (l : List LockEntry)
    → head_before ts l ≡ false
    → IsFalling l
    → All (λ w. w.txn.ts ≤ ts) l
granted-younger ts [] h f = tt
granted-younger ts (w ∷ r) h f =
    let le : w.txn.ts ≤ ts = ground arith in (le, All-mono r (λ v k. omega arith) f.0)

add_owner :
    (o : LockEntry) (owners l : List LockEntry)
    → All (λ w. w.txn.ts ≤ o.txn.ts) l
    → All (IsOlder owners) l
    → All (IsOlder (o ∷ owners)) l
add_owner o owners [] h k = tt
add_owner o owners (w ∷ r) h k = ((h.0, k.0), add_owner o owners r h.1 k.1)

get-IsOrdered :
    (thread_cnt : ℕ) (type : LockType) (txn : Txn) (s : RowLock)
    → IsOrdered s
    → Allows (λ r. IsOrdered r.0) (lock_get wait_die thread_cnt type txn s)
unfolding lock_get conflicts
get-IsOrdered thread_cnt type txn s v =
    elim (Bool-cases (leb s.owner_cnt thread_cnt && ltb s.waiter_cnt thread_cnt)) [
      | inr over ↦ rw over tt
      | inl room ↦
          rw room
            (elim (Bool-cases (conflict_lock s.lock_type type || head_before txn.ts s.waiters)) [
              | inl clash ↦ rw clash (waits (can_wait txn.ts s.owners) refl)
              | inr free ↦ rw free (record {
                falling = v.falling;
                older =
                    add_owner entry s.owners s.waiters
                      (granted-younger txn.ts s.waiters (ground arith) v.falling) v.older;
              })
            ])
    ]
  where
    entry : LockEntry
    entry = record { type = type; txn = txn }

    waits :
        (b : Bool)
        → can_wait txn.ts s.owners ≡ b
        → Allows (λ r. IsOrdered r.0) (queue_up wait_die type txn s)
    waits true e = rw e (record {
      falling = insert_waiter-IsFalling entry s.waiters v.falling;
      older = insert_waiter-All _ entry s.waiters (can_wait-IsOlder entry s.owners e) v.older;
    })
    waits false e = rw e v

OnSome-both :
    (P Q : List LockEntry → Type 0) (o : Option (List LockEntry))
    → OnSome P o
    → OnSome Q o
    → OnSome (λ l. P l × Q l) o
OnSome-both P Q none h k = tt
OnSome-both P Q (some l) h k = (h, k)

OnSome-unit : (o : Option (List LockEntry)) → OnSome (λ l. Unit {0}) o
OnSome-unit none = tt
OnSome-unit (some l) = tt

remove-older :
    (id : ℕ) (owners l : List LockEntry)
    → All (IsOlder owners) l
    → OnSome (λ r. All (IsOlder r) l) (remove id owners)
remove-older id owners [] h = OnSome-unit (remove id owners)
remove-older id owners (w ∷ r) h =
    OnSome-both _ _ (remove id owners) (remove-All (λ o. w.txn.ts ≤ o.txn.ts) id owners h.0)
      (remove-older id owners r h.1)

drop-IsOrdered :
    (s : RowLock) (o w : Option (List LockEntry))
    → IsOrdered s
    → OnSome (λ r. All (IsOlder r) s.waiters) o
    → OnSome (All (IsOlder s.owners)) w
    → OnSome IsFalling w
    → Allows IsOrdered (drop_owner s o (drop_waiter s w))
drop-IsOrdered s none none v a b c = tt
drop-IsOrdered s none (some l) v a b c = record { falling = c; older = b }
drop-IsOrdered s (some l) w v a b c = record { falling = v.falling; older = a }

promote-IsOrdered :
    (l : List LockEntry) (s : RowLock)
    → s.waiters ≡ l
    → IsOrdered s
    → Allows IsOrdered (promote s l)
unfolding promote
promote-IsOrdered [] s e v = v
promote-IsOrdered (w ∷ rest) s e v =
    let falling : IsFalling (w ∷ rest) = subst IsFalling e v.falling in
    let older : All (IsOlder s.owners) (w ∷ rest) = subst (All (IsOlder s.owners)) e v.older in
    elim (Bool-cases (conflict_lock s.lock_type w.type)) [
      | inl clash ↦ rw clash v
      | inr free ↦ rw free (elim (Bool-cases (s.lock_ready w.txn.id)) [
        | inl told ↦ rw told tt
        | inr waits ↦ rw waits (
            promote-IsOrdered rest (admit s w rest) refl
              (record { falling = falling.1; older = add_owner w s.owners rest falling.0 older.1 }))
      ])
    ]

checked-IsOrdered : (s : RowLock) → IsOrdered s → Allows IsOrdered (checked s)
checked-IsOrdered s v = elim (Bool-cases (is_empty s.owners)) [
  | inl e ↦ rw e (elim (Bool-cases (s.owner_cnt == 0)) [ inl z ↦ rw z v | inr z ↦ rw z tt ])
  | inr e ↦ rw e (elim (Bool-cases (s.owner_cnt == 0)) [ inl z ↦ rw z tt | inr z ↦ rw z v ])
]

release-IsOrdered : (id : ℕ) (s : RowLock) → IsOrdered s → Allows IsOrdered (lock_release id s)
unfolding lock_release
release-IsOrdered id s v =
    Allows->>= IsOrdered IsOrdered (drop_entry id s) _
      (drop-IsOrdered s (remove id s.owners) (remove id s.waiters) v
        (remove-older id s.owners s.waiters v.older) (remove-All _ id s.waiters v.older)
        (remove-IsFalling id s.waiters v.falling))
      λ s' v'.
        Allows->>= IsOrdered IsOrdered (promote s' s'.waiters) _
          (promote-IsOrdered s'.waiters s' refl v') (λ s'' v''. checked-IsOrdered s'' v'')

-- One call, or a change of `lock_ready` elsewhere, which leaves the waiters of this row unready.
pub data Step (thread_cnt : ℕ) (s : RowLock) : RowLock → Type 0 where
  gets :
      {s' : RowLock} (type : LockType) (txn : Txn) (rc : Rc) (ids : List ℕ)
      → lock_get wait_die thread_cnt type txn s ≡ done (s', rc, ids)
      → Step thread_cnt s s'
  releases : {s' : RowLock} (id : ℕ) → lock_release id s ≡ done s' → Step thread_cnt s s'
  elsewhere :
      (ready : ℕ → Bool)
      → All (λ w. ready w.txn.id ≡ false) s.waiters
      → Step thread_cnt s (record s { lock_ready = ready })

pub data Reach (thread_cnt : ℕ) : RowLock → Type 0 where
  start : (ready : ℕ → Bool) → Reach thread_cnt (init ready)
  next : {s s' : RowLock} → Reach thread_cnt s → Step thread_cnt s s' → Reach thread_cnt s'

Reach-IsOrdered : {n : ℕ} {s : RowLock} → Reach n s → IsOrdered s
unfolding init
Reach-IsOrdered (start ready) = record { falling = tt; older = tt }
Reach-IsOrdered {n} (next {s} r (gets type txn rc ids e)) =
    subst (Allows (λ r. IsOrdered r.0)) e (get-IsOrdered n type txn s (Reach-IsOrdered r))
Reach-IsOrdered (next {s} r (releases id e)) =
    subst (Allows IsOrdered) e (release-IsOrdered id s (Reach-IsOrdered r))
Reach-IsOrdered (next r (elsewhere ready w)) =
    let v = Reach-IsOrdered r in record { falling = v.falling; older = v.older }

-- The transaction has an entry in the list.
abbrev pub Among : Txn → List LockEntry → Type 0
Among a [] = ⊥
Among a (w ∷ r) = (w.txn ≡ a) ⊎ Among a r

-- `b` stands ahead of `a` in the list.
abbrev pub Behind : Txn → Txn → List LockEntry → Type 0
Behind a b [] = ⊥
Behind a b (w ∷ r) = ((w.txn ≡ b) × Among a r) ⊎ Behind a b r

-- `a` waits for `b`: an owner, or a waiter ahead of it.
abbrev pub WaitsFor : RowLock → Txn → Txn → Type 0
WaitsFor s a b = (Among a s.waiters × Among b s.owners) ⊎ Behind a b s.waiters

-- A chain of transactions, each of which waits for another one on some row.
pub data Chain (rows : ℕ → RowLock) (a : Txn) : Txn → Type 0 where
  link : {b : Txn} (row : ℕ) → WaitsFor (rows row) a b → a.ts ≢ b.ts → Chain rows a b
  more :
      {b c : Txn} (row : ℕ)
      → Chain rows a b
      → WaitsFor (rows row) b c
      → b.ts ≢ c.ts
      → Chain rows a c

Among-le : (n : ℕ) (a : Txn) (l : List LockEntry) → All (λ w. w.txn.ts ≤ n) l → Among a l → a.ts ≤ n
Among-le n a [] h m = absurd m
Among-le n a (w ∷ r) h (inl e) = subst (λ t. t.ts ≤ n) e h.0
Among-le n a (w ∷ r) h (inr m) = Among-le n a r h.1 m

Among-ge : (n : ℕ) (a : Txn) (l : List LockEntry) → All (λ w. n ≤ w.txn.ts) l → Among a l → n ≤ a.ts
Among-ge n a [] h m = absurd m
Among-ge n a (w ∷ r) h (inl e) = subst (λ t. n ≤ t.ts) e h.0
Among-ge n a (w ∷ r) h (inr m) = Among-ge n a r h.1 m

owner-le :
    (a b : Txn) (owners l : List LockEntry)
    → All (IsOlder owners) l
    → Among a l
    → Among b owners
    → a.ts ≤ b.ts
owner-le a b owners [] h m o = absurd m
owner-le a b owners (w ∷ r) h (inl e) o =
    subst (λ t. t.ts ≤ b.ts) e (Among-ge w.txn.ts b owners h.0 o)
owner-le a b owners (w ∷ r) h (inr m) o = owner-le a b owners r h.1 m o

Behind-le : (a b : Txn) (l : List LockEntry) → IsFalling l → Behind a b l → a.ts ≤ b.ts
Behind-le a b [] f m = absurd m
Behind-le a b (w ∷ r) f (inl (e, m)) = subst (λ t. a.ts ≤ t.ts) e (Among-le w.txn.ts a r f.0 m)
Behind-le a b (w ∷ r) f (inr m) = Behind-le a b r f.1 m

WaitsFor-le : (s : RowLock) (a b : Txn) → IsOrdered s → WaitsFor s a b → a.ts ≤ b.ts
WaitsFor-le s a b v (inl (m, o)) = owner-le a b s.owners s.waiters v.older m o
WaitsFor-le s a b v (inr m) = Behind-le a b s.waiters v.falling m

Chain-lt :
    {n : ℕ} {rows : ℕ → RowLock} {a b : Txn}
    → ((row : ℕ) → Reach n (rows row))
    → Chain rows a b
    → a.ts < b.ts
Chain-lt {rows} {a} {b} reach (link row w d) =
    omega (arith, WaitsFor-le (rows row) a b (Reach-IsOrdered (reach row)) w)
Chain-lt {rows} {a} {b = c} reach (more {b} row ch w d) =
    omega (arith, Chain-lt reach ch, WaitsFor-le (rows row) b c (Reach-IsOrdered (reach row)) w)

-- WAIT_DIE has no deadlock: whatever calls each row's lock has seen, no chain of transactions of which
-- each waits for the next, an owner or a waiter ahead on some row, with another timestamp than its own,
-- comes back to where it began.
pub wait_die-no_deadlock :
    {n : ℕ} {rows : ℕ → RowLock} (a : Txn) → ((row : ℕ) → Reach n (rows row)) → ¬ Chain rows a a
wait_die-no_deadlock a reach ch = absurd (omega (arith, Chain-lt reach ch))
