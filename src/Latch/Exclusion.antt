-- ===== src/Latch/Exclusion.antt =====
-- Who holds the latch, after any sequence of calls in which only holders release.
use veri_txn.Prelude.{
  ℕ, zero, suc, ◌%◌, ◌+◌, ◌-◌, ◌<◌, ◌^◌, ◌≡◌, ◌≢◌, refl, ap, ◌⊎◌, inl, inr, Bool, true, false, ◌&&◌,
  ◌==◌, if◌then◌else◌, arith, done, Ensures, Ensures-done,
}
use veri_txn.Latch.{
  LatchType, latch_ex, latch_sh, latch_none, Latch, init, latch_node, drop, release_latch,
}

-- The holders: how many share the latch, and how many were given it exclusively.
pub record Holders : Type 0 where
  pub sharing : ℕ
  pub alone : ℕ

abbrev pub added : LatchType → Holders → Holders
added latch_sh h = record h { sharing = h.sharing + 1 }
added latch_ex h = record h { alone = h.alone + 1 }
added latch_none h = h

abbrev pub removed : LatchType → Holders → Holders
removed latch_sh h = record h { sharing = h.sharing - 1 }
removed latch_ex h = record h { alone = h.alone - 1 }
removed latch_none h = h

-- Somebody holds the latch.
abbrev pub Held : Holders → Type 0
Held h = (0 < h.sharing) ⊎ (0 < h.alone)

pub data Step (l : Latch) (h : Holders) : Latch → Holders → Type 0 where
  tries :
      {l' : Latch} (t : LatchType) (ok : Bool)
      → t ≢ latch_none
      → h.sharing + 1 < 2 ^ 32
      → latch_node t l ≡ done (l', ok)
      → Step l h l' (if ok then added t h else h)
  releases :
      {l' : Latch} (t : LatchType)
      → Held h
      → release_latch l ≡ done (l', t)
      → Step l h l' (removed t h)

pub data Reach : Latch → Holders → Type 0 where
  start : Reach init (record { sharing = 0; alone = 0 })
  next : {l l' : Latch} {h h' : Holders} → Reach l h → Step l h l' h' → Reach l' h'

-- What the type and the count of the latch say of its holders.
abbrev FitsAt : LatchType → ℕ → Holders → Type 0
FitsAt latch_none n h = (n ≡ 0) × (h.sharing ≡ 0) × (h.alone ≡ 0)
FitsAt latch_sh n h = (n ≡ h.sharing) × (0 < n) × (n < 2 ^ 32) × (h.alone ≡ 0)
FitsAt latch_ex n h = (n ≡ 0) × (h.sharing ≡ 0) × (h.alone ≡ 1)

abbrev pub Fits : Latch → Holders → Type 0
Fits l h = FitsAt l.latch_type l.share_cnt h

latch_node-FitsAt :
    (t s : LatchType) (n : ℕ) (h : Holders)
    → t ≢ latch_none
    → h.sharing + 1 < 2 ^ 32
    → FitsAt s n h
    → Ensures
        (λ r. Fits r.0 (if r.1 then added t h else h))
        (latch_node t (record { latch_type = s; share_cnt = n }))
unfolding latch_node
latch_node-FitsAt latch_none s n h some small f = absurd (some refl)
latch_node-FitsAt latch_sh latch_none n h some small f =
    rw f.0 (omega (arith, f.1), omega arith, omega arith, f.2)
latch_node-FitsAt latch_ex latch_none n h some small f = rw f.0 (refl, f.1, ap (λ n. n + 1) f.2)
latch_node-FitsAt latch_sh latch_sh n h some small f =
    (omega (arith, f, small), omega (arith, f, small), omega (arith, f, small), f.3)
latch_node-FitsAt latch_ex latch_sh n h some small f = f
latch_node-FitsAt latch_sh latch_ex n h some small f = f
latch_node-FitsAt latch_ex latch_ex n h some small f = f

release_latch-FitsAt :
    (s : LatchType) (n : ℕ) (h : Holders)
    → Held h
    → FitsAt s n h
    → Ensures
        (λ r. Fits r.0 (removed r.1 h))
        (release_latch (record { latch_type = s; share_cnt = n }))
unfolding release_latch drop
release_latch-FitsAt latch_none n h (inl some) f = absurd (omega (arith, some, f.1))
release_latch-FitsAt latch_none n h (inr one) f = absurd (omega (arith, one, f.2))
release_latch-FitsAt latch_ex n h held f = (f.0, f.1, ap (λ n. n - 1) f.2)
release_latch-FitsAt latch_sh n h held f = go ((n + (2 ^ 32 - 1)) % 2 ^ 32) (omega (arith, f))
  where
    go :
        (m : ℕ)
        → m ≡ n - 1
        → FitsAt (if m == 0 then latch_none else latch_sh) m (record h { sharing = h.sharing - 1 })
    go zero e = (refl, omega (arith, e, f), f.3)
    go (suc m) e =
        let some : (suc m == 0) ≡ false = ground arith in
        rw some (omega (arith, e, f), omega arith, omega (arith, e, f), f.3)

Step-Fits : {l l' : Latch} {h h' : Holders} → Step l h l' h' → Fits l h → Fits l' h'
Step-Fits {l} {h} (tries t ok some small e) f =
    Ensures-done (λ r. Fits r.0 (if r.1 then added t h else h)) (latch_node t l) e
      (latch_node-FitsAt t l.latch_type l.share_cnt h some small f)
Step-Fits {l} {h} (releases t held e) f =
    Ensures-done (λ r. Fits r.0 (removed r.1 h)) (release_latch l) e
      (release_latch-FitsAt l.latch_type l.share_cnt h held f)

Reach-Fits : {l : Latch} {h : Holders} → Reach l h → Fits l h
unfolding init
Reach-Fits start = (refl, refl, refl)
Reach-Fits (next r s) = Step-Fits s (Reach-Fits r)

-- Nobody has the latch exclusively, or one holder has it and nobody shares it.
abbrev pub IsExclusive : Holders → Type 0
IsExclusive h = (h.alone ≡ 0) ⊎ ((h.alone ≡ 1) × (h.sharing ≡ 0))

FitsAt-IsExclusive : (s : LatchType) (n : ℕ) (h : Holders) → FitsAt s n h → IsExclusive h
FitsAt-IsExclusive latch_none n h f = inl f.2
FitsAt-IsExclusive latch_ex n h f = inr (f.2, f.1)
FitsAt-IsExclusive latch_sh n h f = inl f.3

abbrev pub nobody : Holders → Bool
nobody h = h.sharing == 0 && h.alone == 0

-- The answer to a call for the latch.
abbrev pub Answers : LatchType → Bool → Latch → Type 0
Answers t ok l = Ensures (λ r. r.1 ≡ ok) (latch_node t l)

latch_node-Answers :
    (s : LatchType) (n : ℕ) (h : Holders)
    → FitsAt s n h
    → Answers latch_ex (nobody h) (record { latch_type = s; share_cnt = n })
      × Answers latch_sh (h.alone == 0) (record { latch_type = s; share_cnt = n })
unfolding latch_node
latch_node-Answers latch_none n h f = rw (f.0, f.1, f.2) (refl, refl)
latch_node-Answers latch_sh n h f = (ground (arith, f), ground (arith, f))
latch_node-Answers latch_ex n h f = (ground (arith, f), ground (arith, f))

release_latch-Fits :
    (s : LatchType) (n : ℕ) (h : Holders)
    → FitsAt s n h
    → (nobody h ≡ true)
      ⊎ Ensures
          (λ r. Fits r.0 (removed r.1 h))
          (release_latch (record { latch_type = s; share_cnt = n }))
release_latch-Fits latch_none n h f = inl (ground (arith, f))
release_latch-Fits latch_sh n h f =
    inr (release_latch-FitsAt latch_sh n h (inl (omega (arith, f))) f)
release_latch-Fits latch_ex n h f =
    inr (release_latch-FitsAt latch_ex n h (inr (omega (arith, f))) f)

-- After any sequence of calls in which only holders release and fewer than 2 ^ 32 share, at most one holder was
-- given the latch exclusively and has not released it, and then nobody shares it. A call that wants the latch
-- exclusively is given it exactly if nobody holds it, and one that wants to share it exactly if nobody has it
-- exclusively. If somebody holds it, the release by a holder returns with no failed assertion and leaves a latch
-- that fits the holders left.
pub latch-Excludes :
    {l : Latch} {h : Holders}
    → Reach l h
    → IsExclusive h
      × Answers latch_ex (nobody h) l
      × Answers latch_sh (h.alone == 0) l
      × ((nobody h ≡ true) ⊎ Ensures (λ r. Fits r.0 (removed r.1 h)) (release_latch l))
latch-Excludes {l} {h} r =
    let f = Reach-Fits r in
    let a = latch_node-Answers l.latch_type l.share_cnt h f in
    (
      FitsAt-IsExclusive l.latch_type l.share_cnt h f,
      a.0,
      a.1,
      release_latch-Fits l.latch_type l.share_cnt h f,
    )
