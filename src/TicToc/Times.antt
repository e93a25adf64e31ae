-- ===== src/TicToc/Times.antt =====
-- The commit time.
use veri_txn.Prelude.{
  ℕ, ◌+◌, ◌%◌, ◌^◌, ◌<◌, ◌≤◌, ◌≡◌, Bool, true, false, not, ◌&&◌, List, [], ◌∷◌, All, ltb,
  if◌then◌else◌, arith,
}
use mathlib.Core.List.{Permᴰ}
use veri_txn.Accesses.{is_rd, is_wr, map_all, All-chosen, All-chosen_if, All-perm}
use veri_txn.TicToc.{Access, rts_of, raise, commit_times, later_of, write_set, read_set}

-- What an access has seen: times that fit, and a lease that does not end before the version.
abbrev pub IsSmall : Access → Type 0
IsSmall a = (a.wts < 2 ^ 48) × (a.rts + 1 < 2 ^ 48) × (a.wts ≤ a.rts)

-- The time is not before the versions of the rows read, and behind the leases of the rows written.
abbrev pub Behind : ℕ → ℕ → Access → Type 0
Behind r w a = (is_wr a.type ≡ true → a.rts < w) × (is_rd a.type ≡ true → a.wts ≤ r)

record Times (l : List Access) (r w : ℕ) (t : ℕ × ℕ) : Type 0 where
  reads : r ≤ t.0
  writes : w ≤ t.1
  seen : All (Behind t.0 t.1) l
  bound : (t.0 < 2 ^ 48) × (t.1 < 2 ^ 48)

-- A bound that grows if the test holds.
grows_if : (b : Bool) (n v : ℕ) → n ≤ (if b && ltb n v then v else n)
grows_if true n v = ground arith
grows_if false n v = omega arith

reaches_if : (b : Bool) (n v : ℕ) → b ≡ true → v ≤ (if b && ltb n v then v else n)
reaches_if true n v e = ground arith
reaches_if false n v e = ground (arith, e)

stays_if :
    (b : Bool) (n v bound : ℕ) → n < bound → v < bound → (if b && ltb n v then v else n) < bound
stays_if true n v bound h k = ground (arith, h, k)
stays_if false n v bound h k = h

commit_times-Times :
    (l : List Access) (r w : ℕ)
    → All IsSmall l
    → r < 2 ^ 48
    → w < 2 ^ 48
    → Times l r w (commit_times l r w)
unfolding commit_times
commit_times-Times [] r w s h k = record {
  reads = omega arith;
  writes = omega arith;
  seen = tt;
  bound = (h, k);
}
commit_times-Times (a ∷ l) r w s h k =
    let v : ℕ = (a.rts + 1) % 2 ^ 64 in
    let t =
      commit_times-Times l _ _ s.1 (stays_if (is_rd a.type) r a.wts (2 ^ 48) h s.0.0)
        (stays_if (is_wr a.type) w v (2 ^ 48) k (omega (arith, s.0.1))) in
    record {
      reads = omega (arith, grows_if (is_rd a.type) r a.wts, t.reads);
      writes = omega (arith, grows_if (is_wr a.type) w v, t.writes);
      seen = (
        (
          λ e. omega (arith, reaches_if (is_wr a.type) w v e, t.writes, s.0.1),
          λ e. omega (arith, reaches_if (is_rd a.type) r a.wts e, t.reads),
        ),
        t.seen,
      );
      bound = t.bound;
    }

-- The commit time before the locks: not before the version of a row read, behind the leases seen of the rows written.
pub record Start (ws rs : List Access) (time : ℕ) : Type 0 where
  pub after_reads : All (λ a. is_rd a.type ≡ true → a.wts ≤ time) rs
  pub after_writes : All (λ a. a.rts < time) ws
  pub time_small : time < 2 ^ 48

pub later_of-Start :
    (l : List Access)
    → All IsSmall l
    → Start (write_set l) (read_set l) (later_of (commit_times l 0 0))
later_of-Start l s =
    let t : ℕ × ℕ = commit_times l 0 0 in
    let k = commit_times-Times l 0 0 s (omega arith) (omega arith) in
    record {
      after_reads =
          All-chosen (λ a. is_rd a.type ≡ true → a.wts ≤ later_of t) (λ a. not (is_wr a.type)) l
            (map_all l (λ a h e. ground (arith, h.1 e)) k.seen);
      after_writes =
          All-chosen_if (Behind t.0 t.1) (λ a. a.rts < later_of t) (λ a. is_wr a.type) l
            (λ a e h. ground (arith, h.0 e)) k.seen;
      time_small = ground (arith, k.bound.0, k.bound.1);
    }

pub Start-perm :
    {ws vs : List Access} (rs : List Access) (time : ℕ)
    → Permᴰ ws vs
    → Start ws rs time
    → Start vs rs time
Start-perm rs time p s = record {
  after_reads = s.after_reads;
  after_writes = All-perm (λ a. a.rts < time) p s.after_writes;
  time_small = s.time_small;
}

-- The commit time is raised above the leases of the rows written.
pub record Raised (ws : List Access) (f : ℕ → ℕ) (c time : ℕ) : Type 0 where
  pub not_before : c ≤ time
  pub after_leases : All (λ a. rts_of (f a.row) < time) ws
  pub raised_small : time < 2 ^ 48

pub raise-Raised :
    (ws : List Access) (f : ℕ → ℕ) (c : ℕ)
    → ((j : ℕ) → rts_of (f j) + 1 < 2 ^ 48)
    → c < 2 ^ 48
    → Raised ws f c (raise ws f c)
unfolding raise
raise-Raised [] f c h k = record { not_before = omega arith; after_leases = tt; raised_small = k }
raise-Raised (a ∷ l) f c h k =
    let c' : ℕ =
      if ltb c ((rts_of (f a.row) + 1) % 2 ^ 64) then (rts_of (f a.row) + 1) % 2 ^ 64 else c in
    let r = raise-Raised l f c' h (ground (arith, h a.row, k)) in
    record {
      not_before = ground (arith, r.not_before);
      after_leases = (ground (arith, r.not_before, h a.row), r.after_leases);
      raised_small = r.raised_small;
    }

pub Start-Raised :
    (ws rs : List Access) (f : ℕ → ℕ) (c time : ℕ)
    → Start ws rs c
    → Raised ws f c time
    → Start ws rs time
Start-Raised ws rs f c time s r = record {
  after_reads = map_all rs (λ a h e. omega (arith, h e, r.not_before)) s.after_reads;
  after_writes = map_all ws (λ a h. omega (arith, h, r.not_before)) s.after_writes;
  time_small = r.raised_small;
}
