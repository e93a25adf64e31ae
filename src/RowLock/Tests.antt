-- ===== src/RowLock/Tests.antt =====
-- Two transactions on one row under WAIT_DIE: the younger one owns the lock, the older one waits.
use veri_txn.Prelude.{ℕ, ◌≡◌, refl, false, Bool, [], ◌∷◌, arith, done, Ensures, inl}
use veri_txn.RowLock.{
  lock_ex, lock_sh, wait_die, rcok, wait, abort, Txn, RowLock, set_ready, init, lock_get,
  lock_release,
}
use veri_txn.RowLock.Spec.{IsValid}
use veri_txn.RowLock.Get.{lock_get-IsValid, Answers}
use veri_txn.RowLock.Release.{lock_release-IsValid}
use veri_txn.RowLock.Order.{Reach, start, next, gets, Chain, link, wait_die-no_deadlock}

abbrev older : Txn
older = record { id = 1; ts = 10 }

abbrev younger : Txn
younger = record { id = 2; ts = 20 }

abbrev nobody_ready : ℕ → Bool
nobody_ready i = false

abbrev owned : RowLock
owned = record {
  lock_type = lock_ex;
  owner_cnt = 1;
  waiter_cnt = 0;
  owners = record { type = lock_ex; txn = younger } ∷ [];
  waiters = [];
  lock_ready = nobody_ready;
}

owned-Reach : Reach 4 owned
unfolding init lock_get
owned-Reach = next (start nobody_ready) (gets lock_ex younger rcok [] refl)

owned-IsValid : IsValid owned
owned-IsValid = record {
  sound = record {
    owners_counted = refl;
    waiters_counted = refl;
    fits = refl;
    waiting = tt;
    distinct = tt;
  };
  blocked = tt;
}

-- The older transaction may wait for the younger one, and the other way round it may not.
abbrev waited : RowLock
waited = record owned {
  waiter_cnt = 1;
  waiters = record { type = lock_sh; txn = older } ∷ [];
  lock_ready = set_ready nobody_ready 1 false;
}

older_waits : lock_get wait_die 4 lock_sh older owned ≡ done (waited, wait, [])
unfolding lock_get
older_waits = refl

younger_aborts :
    lock_get wait_die 4 lock_sh (record { id = 3; ts = 30 }) owned ≡ done (owned, abort, [])
unfolding lock_get
younger_aborts = refl

waited-IsValid : IsValid waited
waited-IsValid = record {
  sound = record {
    owners_counted = refl;
    waiters_counted = refl;
    fits = refl;
    waiting = ((λ e. cc, refl), tt);
    distinct = (tt, tt);
  };
  blocked = refl;
}

waited-Reach : Reach 4 waited
waited-Reach = next owned-Reach (gets lock_sh older wait [] older_waits)

lock_get-IsValid_example :
    Ensures
      (λ r. IsValid r.0 × Answers lock_sh older owned r)
      (lock_get wait_die 4 lock_sh older owned)
lock_get-IsValid_example =
    lock_get-IsValid wait_die 4 lock_sh older owned (omega arith) (omega arith) (λ e. cc) tt
      owned-IsValid

lock_release-IsValid_example : Ensures IsValid (lock_release 2 waited)
lock_release-IsValid_example = lock_release-IsValid 2 waited (inl (inl refl)) waited-IsValid

wait_die-no_deadlock_example : ¬ Chain (λ row. waited) older older
wait_die-no_deadlock_example = wait_die-no_deadlock older (λ row. waited-Reach)

-- The older transaction does wait for the younger one.
older-Chain : Chain (λ row. waited) older younger
older-Chain = link 0 (inl (inl refl, inl refl)) (omega arith)
