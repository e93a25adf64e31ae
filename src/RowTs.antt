-- ===== src/RowTs.antt =====
-- trusted/concurrency_control/row_ts.cpp without TS_TWR: basic timestamp ordering on one row. A call
-- of `access` runs under the row's latch, as one step. The copies that reading transactions get and
-- their `ts_ready` are part of the state; the contents of a row are one number.
pub mod Buffers
mod Tests
use veri_txn.Prelude.{
  set, ℕ, zero, suc, ◌+◌, ◌-◌, ◌^◌, ◌%◌, Bool, true, false, Option, none, some, List, [], ◌∷◌, ltb,
  leb, ◌==◌, if◌then◌else◌, length, Outcome, done, blocked, fault, ◌>>=◌,
}

pub data TsType : Type 0 where
  r_req w_req p_req xp_req : TsType

pub data Rc : Type 0 where
  rcok wait abort : Rc

-- `TsReqEntry`: the transaction, the copy that a write brings, and the timestamp.
pub record TsReqEntry : Type 0 where
  pub txn : ℕ
  pub row : Option ℕ
  pub ts : ℕ

pub record RowTs : Type 0 where
  pub value : ℕ
  pub wts : ℕ
  pub rts : ℕ
  pub min_wts : ℕ
  pub min_rts : ℕ
  pub min_pts : ℕ
  pub readreq : List TsReqEntry
  pub writereq : List TsReqEntry
  pub prereq : List TsReqEntry
  pub preq_len : ℕ
  pub cur_row : ℕ → ℕ
  pub ts_ready : ℕ → Bool

abbrev pub uint64_max : ℕ
uint64_max = 2 ^ 64 - 1

pub init : ℕ → (ℕ → ℕ) → (ℕ → Bool) → RowTs
init value cur_row ts_ready = record {
  value = value;
  wts = 0;
  rts = 0;
  min_wts = uint64_max;
  min_rts = uint64_max;
  min_pts = uint64_max;
  readreq = [];
  writereq = [];
  prereq = [];
  preq_len = 0;
  cur_row = cur_row;
  ts_ready = ts_ready;
}

abbrev pub lesser : ℕ → ℕ → ℕ
lesser a b = if ltb a b then a else b

abbrev pub greater : ℕ → ℕ → ℕ
greater old ts = if ltb old ts then ts else old

-- A write request without a copy fails its assertion.
pub buffer_req : TsType → TsReqEntry → RowTs → Outcome RowTs
buffer_req r_req e s = done (record s { readreq = e ∷ s.readreq; min_rts = lesser e.ts s.min_rts })
buffer_req w_req e s = elim e.row [
  | none ↦ fault
  | some copy ↦ done (record s { writereq = e ∷ s.writereq; min_wts = lesser e.ts s.min_wts })
]
buffer_req p_req e s = done (record s {
  preq_len = (s.preq_len + 1) % 2 ^ 64;
  prereq = e ∷ s.prereq;
  min_pts = lesser e.ts s.min_pts;
})
buffer_req xp_req e s = done s

-- `debuffer_req` with a transaction: its first request is taken out of the queue.
pub debuffer_txn : ℕ → List TsReqEntry → Outcome (List TsReqEntry)
debuffer_txn txn [] = fault
debuffer_txn txn (r ∷ q) =
    let rest = (debuffer_txn txn q >>= λ q. done (r ∷ q)) in if r.txn == txn then done q else rest

-- `debuffer_req(P_REQ, txn)`.
abbrev pub debuffer_pre : ℕ → RowTs → Outcome RowTs
debuffer_pre txn s = do
  q ← debuffer_txn txn s.prereq
  done (record s { prereq = q; preq_len = (s.preq_len + uint64_max) % 2 ^ 64 })

-- `debuffer_req` with a timestamp: the requests up to it, each put in front of the ones before, and
-- the requests that stay.
pub debuffer_ts : ℕ → List TsReqEntry → List TsReqEntry → List TsReqEntry × List TsReqEntry
debuffer_ts ts [] taken = (taken, [])
debuffer_ts ts (r ∷ q) taken =
    let with_r = debuffer_ts ts q (r ∷ taken) in
    let without = debuffer_ts ts q taken in
    if leb r.ts ts then with_r else (without.0, r ∷ without.1)

-- `cal_min`, from the minimum so far.
pub cal_min : List TsReqEntry → ℕ → ℕ
cal_min [] m = m
cal_min (r ∷ q) m = cal_min q (lesser r.ts m)

-- The loop that performs the reads.
pub perform_reads : List TsReqEntry → RowTs → RowTs
perform_reads [] s = s
perform_reads (r ∷ q) s = perform_reads q (record s {
  cur_row = set s.cur_row r.txn s.value;
  rts = greater s.rts r.ts;
  ts_ready = set s.ts_ready r.txn true;
})

-- The loop over the writes that are ready: it takes their prewrites out of the queue and keeps the
-- request with the least timestamp.
pub settle_writes :
    List TsReqEntry → ℕ → Option TsReqEntry → RowTs → Outcome (Option TsReqEntry × RowTs)
unfolding debuffer_txn
settle_writes [] young_ts young_req s = done (young_req, s)
settle_writes (r ∷ q) young_ts young_req s = do
  s ← debuffer_pre r.txn s
  settle_writes q (lesser r.ts young_ts) (if ltb r.ts young_ts then some r else young_req) s

abbrev pub copy_of : Option TsReqEntry → RowTs → Outcome RowTs
copy_of none s = fault
copy_of (some e) s = elim e.row [
  | none ↦ fault
  | some copy ↦ done (record s { value = copy; wts = greater s.wts e.ts })
]

-- The part of a round of `update_buffer` after the reads; `true` says that there is a next round.
abbrev pub writes_ready : List TsReqEntry → RowTs → Outcome (Bool × RowTs)
writes_ready [] s = done (false, s)
writes_ready (r ∷ q) s = do
  (young, s) ← settle_writes (r ∷ q) uint64_max none s
  s ← copy_of young s
  done (true, s)

abbrev pub reads_ready : List TsReqEntry → RowTs → Outcome (Bool × RowTs)
reads_ready [] s = done (false, s)
reads_ready (r ∷ q) s =
    let s = perform_reads (r ∷ q) s in
    let new_min_rts = cal_min s.readreq uint64_max in
    if ltb s.min_rts new_min_rts
    then (let (ready, kept) = debuffer_ts new_min_rts s.writereq [] in
        writes_ready ready (record s { min_rts = new_min_rts; writereq = kept }))
    else done (false, s)

-- One round of the loop of `update_buffer`.
pub update_round : RowTs → Outcome (Bool × RowTs)
unfolding cal_min debuffer_ts perform_reads settle_writes
update_round s =
    let new_min_pts = cal_min s.prereq uint64_max in
    if ltb new_min_pts s.min_pts
    then fault
    else (if ltb s.min_pts new_min_pts
        then (let (ready, kept) = debuffer_ts new_min_pts s.readreq [] in
            reads_ready ready (record s { min_pts = new_min_pts; readreq = kept }))
        else done (false, s))

-- The loop. A round that is followed by another takes a request out of `readreq`, so the number of
-- requests there bounds the rounds; `blocked` is the answer if they do not suffice.
pub update_loop : ℕ → RowTs → Outcome RowTs
unfolding update_round
update_loop zero s = blocked
update_loop (suc n) s = do (again, s) ← update_round s; if again then update_loop n s else done s

pub update_buffer : RowTs → Outcome RowTs
unfolding update_loop
update_buffer s = update_loop (length s.readreq + 1) s

-- A prewrite is withdrawn.
abbrev pub withdraw : ℕ → RowTs → Outcome RowTs
withdraw txn s = debuffer_pre txn s >>= update_buffer

abbrev pub entry : ℕ → Option ℕ → ℕ → TsReqEntry
entry txn row ts = record { txn = txn; row = row; ts = ts }

-- `access` for a read, a prewrite, and a write with its copy.
pub read_req : ℕ → ℕ → RowTs → Outcome (RowTs × Rc)
unfolding buffer_req
read_req txn ts s =
    if ltb ts s.wts
    then done (s, abort)
    else (if ltb s.min_pts ts
        then (buffer_req r_req (entry txn none ts) s >>= λ s.
            done (record s { ts_ready = set s.ts_ready txn false }, wait))
        else done (record s { cur_row = set s.cur_row txn s.value; rts = greater s.rts ts }, rcok))

pub pre_req : ℕ → ℕ → RowTs → Outcome (RowTs × Rc)
unfolding buffer_req
pre_req txn ts s =
    if ltb ts s.rts
    then done (s, abort)
    else (if ltb ts s.wts
        then done (s, abort)
        else (buffer_req p_req (entry txn none ts) s >>= λ s. done (s, rcok)))

pub write_req : ℕ → ℕ → ℕ → RowTs → Outcome RowTs
unfolding buffer_req debuffer_txn update_buffer
write_req txn ts copy s =
    if ltb s.min_pts ts
    then buffer_req w_req (entry txn (some copy) ts) s
    else (if ltb s.min_rts ts
        then buffer_req w_req (entry txn (some copy) ts) s
        else withdraw txn (record s { value = copy; wts = greater s.wts ts }))

-- `Row_ts::access`; the copy is that of a write.
pub access : ℕ → ℕ → TsType → ℕ → RowTs → Outcome (RowTs × Rc)
unfolding read_req pre_req write_req
access txn ts r_req copy s = read_req txn ts s
access txn ts p_req copy s = pre_req txn ts s
access txn ts w_req copy s = write_req txn ts copy s >>= λ s. done (s, rcok)
access txn ts xp_req copy s = withdraw txn s >>= λ s. done (s, rcok)
