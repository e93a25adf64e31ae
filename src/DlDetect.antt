-- ===== src/DlDetect.antt =====
-- trusted/concurrency_control/dl_detect.cpp: the graph of the transactions that wait for one another, with one
-- transaction for each thread, and the search for a cycle in it. A detection runs by itself.
pub mod Spec
pub mod Search
mod Tests
use veri_txn.Prelude.{
  set, ℕ, zero, suc, ◌+◌, ◌-◌, ◌%◌, ◌^◌, Bool, true, false, not, ◌&&◌, Option, none, some, List, [],
  ◌∷◌, ◌++◌, ltb, ◌==◌, if◌then◌else◌, Outcome, done, blocked, fault, ◌>>=◌,
}

-- The `txnid` is a word, where -1 is `invalid`.
pub record DepThd : Type 0 where
  pub adj : List ℕ
  pub txnid : ℕ
  pub num_locks : ℕ

abbrev pub invalid : ℕ
invalid = 2 ^ 64 - 1

abbrev pub Graph : Type 0
Graph = ℕ → DepThd

-- `get_thdid_from_txnid`, with the number of threads.
abbrev pub thread_of : ℕ → ℕ → ℕ
thread_of v txnid = txnid % v

-- `add_dep`.
pub add_dep : ℕ → ℕ → List ℕ → ℕ → Graph → Graph
add_dep v txnid1 txnids num_locks dep =
    let thd1 : ℕ = thread_of v txnid1 in
    set dep thd1 (record { adj = (dep thd1).adj ++ txnids; txnid = txnid1; num_locks = num_locks })

-- `clear_dep`.
pub clear_dep : ℕ → ℕ → Graph → Graph
clear_dep v txnid dep =
    set dep (thread_of v txnid) (record { adj = []; txnid = invalid; num_locks = 0 })

pub record DetectData : Type 0 where
  pub visited : ℕ → Bool
  pub rec_stack : ℕ → Bool
  pub loop : Bool
  pub onloop : Bool
  pub loopstart : ℕ
  pub min_lock_num : ℕ
  pub min_txnid : ℕ

-- `(SInt32)` of a word, as a word again.
abbrev pub cut_to_32 : ℕ → ℕ
cut_to_32 n = if ltb (n % 2 ^ 32) (2 ^ 31) then n % 2 ^ 32 else n % 2 ^ 32 + (2 ^ 64 - 2 ^ 32)

abbrev pub after_visit : (DetectData → Outcome DetectData) → DetectData × Bool → Outcome DetectData
after_visit rest (d, true) = done d
after_visit rest (d, false) = rest d

-- The `for` over the transactions waited for; `visit` is nextNode.
pub scan :
    ℕ
    → Graph
    → (ℕ → DetectData → Outcome (DetectData × Bool))
    → List ℕ
    → DetectData
    → Outcome DetectData
scan v dep visit [] d = done d
scan v dep visit (t ∷ r) d =
    let nextthd : ℕ = thread_of v t in
    let rest : DetectData → Outcome DetectData = λ d. scan v dep visit r d in
    if d.rec_stack nextthd && (cut_to_32 t == (dep nextthd).txnid)
    then done (record d { loop = true; onloop = true; loopstart = nextthd })
    else (if not (d.visited nextthd) && ((dep nextthd).txnid == t)
        then (visit t d >>= after_visit rest)
        else rest d)

-- What nextNode does at its end.
pub finish : ℕ → ℕ → ℕ → DetectData → DetectData × Bool
finish thd lock_num txnid d =
    let least : Bool = d.loop && (d.onloop && ltb lock_num d.min_lock_num) in
    (
      record d {
        rec_stack = set d.rec_stack thd false;
        min_lock_num = (if least then lock_num else d.min_lock_num);
        min_txnid = (if least then txnid else d.min_txnid);
        onloop = (if thd == d.loopstart then false else d.onloop);
      },
      d.loop,
    )

-- `nextNode`, where the first number bounds the depth.
pub next_node : ℕ → ℕ → Graph → ℕ → DetectData → Outcome (DetectData × Bool)
unfolding scan finish
next_node zero v dep txnid d = blocked
next_node (suc depth) v dep txnid d =
    let thd : ℕ = thread_of v txnid in
    let entered = record d {
      visited = set d.visited thd true;
      rec_stack = set d.rec_stack thd true;
    } in
    let searched =
      (scan v dep (next_node depth v dep) (dep thd).adj entered >>= λ d.
      done (finish thd (dep thd).num_locks txnid d)) in
    let stale = done (record entered { rec_stack = set entered.rec_stack thd false }, false) in
    if d.visited thd then fault else (if (dep thd).txnid == txnid then searched else stale)

abbrev pub start : ℕ → DetectData
start garbage = record {
  visited = λ j. false;
  rec_stack = λ j. false;
  loop = false;
  onloop = false;
  loopstart = garbage;
  min_lock_num = 1000;
  min_txnid = invalid;
}

-- The answer of `detect_cycle` with the thread whose transaction is told to abort.
abbrev pub victim : ℕ → Graph → DetectData × Bool → Bool × Option ℕ
victim v dep (d, false) = (false, none)
victim v dep (d, true) = (
  true,
  if (dep (thread_of v d.min_txnid)).txnid == d.min_txnid
      then some (thread_of v d.min_txnid)
      else none,
)

-- `detect_cycle`, where `loopstart` has what it finds in fresh memory.
pub detect_cycle : ℕ → ℕ → Graph → ℕ → Outcome (Bool × Option ℕ)
unfolding next_node
detect_cycle garbage v dep txnid =
    next_node v v dep txnid (start garbage) >>= λ r. done (victim v dep r)
