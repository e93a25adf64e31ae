-- ===== src/Central.antt =====
-- The central validation of trusted/concurrency_control/occ.cpp: `central_validate`, `get_rw_set` and
-- `test_valid`. The two parts under the latch are `enter` and `leave`; a run is that of one thread.
-- A row is a number, a set of rows a list.
pub mod Decide
mod Tests
use veri_txn.Prelude.{
  ℕ, ◌+◌, ◌-◌, ◌^◌, ◌%◌, Bool, true, false, not, ◌&&◌, List, [], ◌∷◌, ltb, ◌==◌, if◌then◌else◌,
  length, Outcome, done, fault, ◌>>=◌,
}
use veri_txn.Occ.{Access, is_wr, Rc, rcok, abort}

pub record SetEnt : Type 0 where
  pub tn : ℕ
  pub txn : ℕ
  pub rows : List ℕ

pub record OptCc : Type 0 where
  pub tnc : ℕ
  pub history : List SetEnt
  pub his_len : ℕ
  pub active : List SetEnt
  pub active_len : ℕ

pub init : OptCc
init = record { tnc = 0; history = []; his_len = 0; active = []; active_len = 0 }

-- The rows written, and the others.
pub written_rows : List Access → List ℕ
written_rows [] = []
written_rows (a ∷ l) = let rest = written_rows l in if is_wr a.type then a.row ∷ rest else rest

pub read_rows : List Access → List ℕ
read_rows [] = []
read_rows (a ∷ l) = let rest = read_rows l in if is_wr a.type then rest else a.row ∷ rest

pub meets : ℕ → List ℕ → Bool
meets r [] = false
meets r (x ∷ l) = let rest = meets r l in if r == x then true else rest

pub test_valid : List ℕ → List ℕ → Bool
unfolding meets
test_valid [] set2 = true
test_valid (r ∷ set1) set2 = let rest = test_valid set1 set2 in if meets r set2 then false else rest

-- The loop that skips what was committed after `finish_tn`.
pub skip_new : ℕ → List SetEnt → List SetEnt
skip_new finish_tn [] = []
skip_new finish_tn (h ∷ his) =
    let rest = skip_new finish_tn his in if ltb finish_tn h.tn then rest else h ∷ his

-- The loop over what was committed after `start_tn`.
pub check_history : ℕ → List ℕ → List SetEnt → Bool
unfolding test_valid
check_history start_tn rset [] = true
check_history start_tn rset (h ∷ his) =
    let rest = check_history start_tn rset his in
    if ltb start_tn h.tn then (if test_valid h.rows rset then rest else false) else true

-- The loop over the transactions that were in validation.
pub check_active : List ℕ → List ℕ → List SetEnt → Bool
unfolding test_valid
check_active rset wset [] = true
check_active rset wset (a ∷ l) =
    let rest = check_active rset wset l in
    if test_valid a.rows rset && test_valid a.rows wset then rest else false

abbrev pub readonly : SetEnt → Bool
readonly wset = length wset.rows == 0

-- The first part under the latch.
pub enter : SetEnt → OptCc → OptCc
enter wset s =
    if readonly wset
    then s
    else record s { active = wset ∷ s.active; active_len = (s.active_len + 1) % 2 ^ 64 }

-- The checks, on what the first part has read.
pub is_valid : ℕ → List ℕ → SetEnt → OptCc → Bool
unfolding skip_new check_history check_active
is_valid start_tn rset wset s =
    (if ltb start_tn s.tnc then check_history start_tn rset (skip_new s.tnc s.history) else true)
    && check_active rset wset.rows s.active

pub remove_active : ℕ → List SetEnt → Outcome (List SetEnt)
remove_active txn [] = fault
remove_active txn (a ∷ l) =
    let rest = (remove_active txn l >>= λ l. done (a ∷ l)) in if a.txn == txn then done l else rest

abbrev pub head_fits : ℕ → List SetEnt → Bool
head_fits tnc [] = true
head_fits tnc (h ∷ his) = h.tn == tnc

-- A transaction that is valid goes into the history.
pub commit : SetEnt → OptCc → Outcome OptCc
commit wset s =
    if head_fits s.tnc s.history
    then done (record s {
      tnc = (s.tnc + 1) % 2 ^ 64;
      history = record wset { tn = (s.tnc + 1) % 2 ^ 64 } ∷ s.history;
      his_len = (s.his_len + 1) % 2 ^ 64;
    })
    else fault

-- The last part under the latch.
pub leave : Bool → SetEnt → OptCc → Outcome OptCc
unfolding remove_active commit
leave valid wset s =
    if readonly wset
    then done s
    else (remove_active wset.txn s.active >>= λ l.
        let s : OptCc = record s {
          active = l;
          active_len = (s.active_len + (2 ^ 64 - 1)) % 2 ^ 64;
        } in
        if valid then commit wset s else done s)

pub central_validate : ℕ → ℕ → List Access → OptCc → Outcome (OptCc × Rc)
unfolding written_rows read_rows enter is_valid leave
central_validate txn start_tn accesses s =
    let wset : SetEnt = record { tn = 0; txn = txn; rows = written_rows accesses } in
    let valid = is_valid start_tn (read_rows accesses) wset s in
    leave valid wset (enter wset s) >>= λ s. done (s, if valid then rcok else abort)
