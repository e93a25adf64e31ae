-- ===== src/RowTs/Tests.antt =====
-- A read waits for a prewrite, and gets the value that the write leaves.
use veri_txn.Prelude.{ℕ, ◌≡◌, refl, false, Outcome, done, blocked, fault, ◌>>=◌, none, [], ◌∷◌}
use veri_txn.RowTs.{RowTs, r_req, p_req, w_req, init, access, update_buffer, entry}
use veri_txn.RowTs.Buffers.{Halts, update_buffer-Halts}

abbrev fresh : RowTs
fresh = init 7 (λ i. 0) (λ i. false)

-- The prewrite that transaction 2 waits for is gone.
abbrev one_reader : RowTs
one_reader = record fresh { min_pts = 5; min_rts = 8; readreq = entry 2 none 8 ∷ [] }

update_buffer-Halts_example : Halts (λ _. Unit) (update_buffer one_reader)
update_buffer-Halts_example = update_buffer-Halts one_reader

-- Transaction 1 announces a write at 5, transaction 2 reads at 8, then the write comes.
abbrev run : Outcome RowTs
run = do
  (s, rc) ← access 1 5 p_req 0 fresh
  (s, rc) ← access 2 8 r_req 0 s
  (s, rc) ← access 1 5 w_req 42 s
  done s

abbrev seen : Outcome RowTs → ℕ × ℕ × ℕ
seen (done s) = (s.value, s.cur_row 2, s.rts)
seen blocked = (0, 0, 0)
seen fault = (0, 0, 0)

reader_gets_write : seen run ≡ (42, 42, 8)
unfolding access init
reader_gets_write = refl

-- The writes at 5 and 7 wait behind the read at 4, which waits for the write at 3. When it comes both
-- writes are ready, and the row is left with that of 5.
abbrev two_writes : Outcome RowTs
two_writes = do
  (s, rc) ← access 1 3 p_req 0 fresh
  (s, rc) ← access 2 4 r_req 0 s
  (s, rc) ← access 3 5 p_req 0 s
  (s, rc) ← access 4 7 p_req 0 s
  (s, rc) ← access 3 5 w_req 50 s
  (s, rc) ← access 4 7 w_req 70 s
  (s, rc) ← access 1 3 w_req 30 s
  done s

abbrev left : Outcome RowTs → ℕ × ℕ × ℕ
left (done s) = (s.value, s.wts, s.cur_row 2)
left blocked = (0, 0, 0)
left fault = (0, 0, 0)

least_write_stays : left two_writes ≡ (50, 5, 30)
unfolding access init
least_write_stays = refl
