-- ===== src/Central/Tests.antt =====
-- A transaction that reads row 1 and writes row 2, after a commit that wrote row 3.
use veri_txn.Prelude.{ℕ, ◌≡◌, refl, [], ◌∷◌, List, Ensures, Outcome, done, blocked, fault, arith}
use veri_txn.Occ.{Access, rd, wr, Rc, rcok, abort}
use veri_txn.Central.{OptCc, central_validate}
use veri_txn.Central.Decide.{IsValid, Decided, central_validate-Decided}

abbrev accesses : List Access
accesses =
    record { type = rd; row = 1; local = 0 } ∷ (record { type = wr; row = 2; local = 20 } ∷ [])

abbrev state : OptCc
state = record {
  tnc = 6;
  history = record { tn = 6; txn = 8; rows = 3 ∷ [] } ∷ [];
  his_len = 1;
  active = record { tn = 0; txn = 4; rows = 5 ∷ [] } ∷ [];
  active_len = 1;
}

state-IsValid : IsValid state
state-IsValid = record { ordered = (omega arith, tt); fits = refl }

central_validate-Decided_example :
    Ensures (Decided 9 5 accesses state) (central_validate 9 5 accesses state)
central_validate-Decided_example =
    central_validate-Decided 9 5 accesses state state-IsValid (omega arith) (omega arith)

abbrev answer : Outcome (OptCc × Rc) → ℕ × Rc
answer (done r) = (r.0.tnc, r.1)
answer blocked = (0, abort)
answer fault = (0, abort)

commits : answer (central_validate 9 5 accesses state) ≡ (7, rcok)
unfolding central_validate
commits = refl
