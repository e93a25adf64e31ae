-- ===== src/TicToc/Reads.antt =====
-- The validation of the read set, and the commit time.
use veri_txn.Prelude.{
  set, ℕ, ◌^◌, ◌<◌, ◌≤◌, ◌≡◌, ◌≢◌, ◌⊎◌, refl, sym, subst, ◌∙◌, Bool, true, false, not, ◌&&◌, List,
  [], ◌∷◌, All, ltb, ◌==◌, if◌then◌else◌, arith, Bool-cases, inl, inr,
}
use veri_txn.Accesses.{IsDistinct}
use veri_txn.TicToc.{Access, lock_bit, wts_of, rts_of, try_renew, renew_reads, renew_one}
use veri_txn.TicToc.Renew.{Renewal, try_renew-Renewal}
use veri_txn.TicToc.Lock.{row, FreeOn}

-- The read still holds at `time`: the lease seen lasts until then, or the version is the one seen.
abbrev pub reads_hold : (ℕ → ℕ) → ℕ → List Access → Bool
reads_hold f time [] = true
reads_hold f time (a ∷ l) =
    let rest = reads_hold f time l in
    if ltb a.rts time && not (a.wts == wts_of (f a.row)) then false else rest

-- Nobody can write the row at or before `time` any more: the lease seen lasts until then, or the version
-- is the one seen and is leased until then.
abbrev pub IsCovered : ℕ → Access → ℕ → ℕ → Type 0
IsCovered time a v v' = (time ≤ a.rts) ⊎ ((wts_of v ≡ a.wts) × (time ≤ rts_of v'))

pub record Reads (l : List Access) (time : ℕ) (f : ℕ → ℕ) (r : (ℕ → ℕ) × Bool) : Type 0 where
  pub answer : r.1 ≡ reads_hold f time l
  pub others : (j : ℕ) → All (λ a. a.row ≢ j) l → r.0 j ≡ f j
  pub mine : All (λ a. (r.0 a.row < lock_bit) × (rts_of (f a.row) ≤ rts_of (r.0 a.row))) l
  pub covered : r.1 ≡ true → All (λ a. IsCovered time a (f a.row) (r.0 a.row)) l

-- The round of one read.
pub record OneRead (a : Access) (time : ℕ) (f : ℕ → ℕ) (r : (ℕ → ℕ) × Bool) : Type 0 where
  pub one_answer : r.1 ≡ not (ltb a.rts time && not (a.wts == wts_of (f a.row)))
  pub one_others : (j : ℕ) → a.row ≢ j → r.0 j ≡ f j
  pub one_mine : (r.0 a.row < lock_bit) × (rts_of (f a.row) ≤ rts_of (r.0 a.row))
  pub one_covered : r.1 ≡ true → IsCovered time a (f a.row) (r.0 a.row)

renewed-OneRead :
    (a : Access) (time : ℕ) (f : ℕ → ℕ) (r : ℕ × Bool)
    → ltb a.rts time ≡ true
    → Renewal a.wts time (f a.row) r
    → OneRead a time f (set f a.row r.0, r.1)
renewed-OneRead a time f r e k = record {
  one_answer = k.answer ∙ ground (arith, e);
  one_others = λ j n. ground (arith, n);
  one_mine = (ground (arith, k.free), ground (arith, k.grows));
  one_covered = λ t. inr (ground (arith, t, k.answer), ground (arith, (k.covers t).1));
}

renew_one-OneRead :
    (a : Access) (time : ℕ) (f : ℕ → ℕ)
    → a.wts ≤ a.rts
    → time < 2 ^ 48
    → f a.row < lock_bit
    → OneRead a time f (renew_one a time f)
renew_one-OneRead a time f le small free = elim (Bool-cases (ltb a.rts time)) [
  | inl short ↦ rw short (
      renewed-OneRead a time f (try_renew a.wts time [] (f a.row)) short
        (try_renew-Renewal a.wts time (f a.row) (ground (arith, le, short)) small free))
  | inr long ↦ rw long (record {
    one_answer = rw long refl;
    one_others = λ j n. refl;
    one_mine = (free, omega arith);
    one_covered = λ t. inl (ground (arith, long));
  })
]

abbrev pub Agree : (ℕ → ℕ) → (ℕ → ℕ) → List Access → Type 0
Agree f g l = All (λ b. g b.row ≡ f b.row) l

pub reads_hold-Agree :
    (f g : ℕ → ℕ) (time : ℕ) (l : List Access)
    → Agree f g l
    → reads_hold g time l ≡ reads_hold f time l
reads_hold-Agree f g time [] h = refl
reads_hold-Agree f g time (a ∷ l) h = rw (h.0, reads_hold-Agree f g time l h.1) refl

pub All-Agree :
    (P : Access → ℕ → Type 0) (f g : ℕ → ℕ) (l : List Access)
    → Agree f g l
    → All (λ b. P b (g b.row)) l
    → All (λ b. P b (f b.row)) l
All-Agree P f g [] h k = tt
All-Agree P f g (b ∷ l) h k = (subst (P b) h.0 k.0, All-Agree P f g l h.1 k.1)

aside-Agree :
    (a : Access) (f g : ℕ → ℕ) (l : List Access)
    → ((j : ℕ) → a.row ≢ j → g j ≡ f j)
    → All (λ b. b.row ≢ a.row) l
    → Agree f g l
aside-Agree a f g [] h d = tt
aside-Agree a f g (b ∷ l) h d = (h b.row (λ e. d.0 (sym e)), aside-Agree a f g l h d.1)

still_mine :
    (f g : ℕ → ℕ) (l : List Access)
    → Agree f g l
    → FreeOn l f
    → All (λ b. (g b.row < lock_bit) × (rts_of (f b.row) ≤ rts_of (g b.row))) l
still_mine f g [] h k = tt
still_mine f g (b ∷ l) h k = (rw h.0 (k.0, omega arith), still_mine f g l h.1 k.1)

more-Reads :
    (a : Access) (l : List Access) (time : ℕ) (f : ℕ → ℕ) (one r : (ℕ → ℕ) × Bool)
    → All (λ b. b.row ≢ a.row) l
    → FreeOn l f
    → OneRead a time f one
    → Reads l time one.0 r
    → Reads (a ∷ l) time f (if one.1 then r else (one.0, false))
more-Reads a l time f (g, true) (h, b) d free k rest =
    let agree = aside-Agree a f g l k.one_others d in
    let here = rest.others a.row d in
    record {
      answer = rest.answer ∙ reads_hold-Agree f g time l agree ∙ ground (arith, k.one_answer);
      others = λ j n. rest.others j n.1 ∙ k.one_others j n.0;
      mine = (
        rw here k.one_mine,
        All-Agree (λ b v. (h b.row < lock_bit) × (rts_of v ≤ rts_of (h b.row))) f g l agree
            rest.mine,
      );
      covered = λ t. (
        rw here (k.one_covered refl),
        All-Agree (λ b v. IsCovered time b v (h b.row)) f g l agree (rest.covered t),
      );
    }
more-Reads a l time f (g, false) r d free k rest =
    let agree = aside-Agree a f g l k.one_others d in
    record {
      answer = ground (arith, k.one_answer);
      others = λ j n. k.one_others j n.0;
      mine = (k.one_mine, still_mine f g l agree free);
      covered = λ t. absurd (ground (arith, t));
    }

FreeOn-Agree : (f g : ℕ → ℕ) (l : List Access) → Agree f g l → FreeOn l f → FreeOn l g
FreeOn-Agree f g [] h k = tt
FreeOn-Agree f g (b ∷ l) h k = (rw h.0 k.0, FreeOn-Agree f g l h.1 k.1)

pub renew_reads-Reads :
    (l : List Access) (time : ℕ) (f : ℕ → ℕ)
    → IsDistinct row l
    → All (λ a. a.wts ≤ a.rts) l
    → time < 2 ^ 48
    → FreeOn l f
    → Reads l time f (renew_reads l time f)
unfolding renew_reads
renew_reads-Reads [] time f d le small free = record {
  answer = refl;
  others = λ j n. refl;
  mine = tt;
  covered = λ t. tt;
}
renew_reads-Reads (a ∷ l) time f d le small free =
    let one = renew_one-OneRead a time f le.0 small free.0 in
    more-Reads a l time f (renew_one a time f) (renew_reads l time (renew_one a time f).0) d.0
      free.1 one
      (renew_reads-Reads l time (renew_one a time f).0 d.1 le.1 small (
        FreeOn-Agree f (renew_one a time f).0 l
          (aside-Agree a f (renew_one a time f).0 l one.one_others d.0) free.1))
