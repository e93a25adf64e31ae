-- ===== src/TicToc/Renew.antt =====
-- The renewal of a lease, while no other thread changes the word.
use Prim.Native.Nat.{bit_or}
use veri_txn.Prelude.{
  ℕ, ◌+◌, ◌-◌, ◌*◌, ◌%◌, ◌^◌, ◌≤◌, ◌<◌, ◌≡◌, refl, sym, subst, Bool, true, false, [], ltb, leb,
  ◌==◌, arith, Bool-cases, inl, inr,
}
use veri_txn.Prelude.Or.{or_48}
use veri_txn.TicToc.{lock_bit, wts_of, delta_of, rts_of, sub_u64, renewed, cas_renew, try_renew}

-- The two parts of a word that is put together.
parts :
    (a d : ℕ)
    → a < 2 ^ 48
    → d < 2 ^ 15
    → (wts_of (a + d * 2 ^ 48) ≡ a) × (delta_of (a + d * 2 ^ 48) ≡ d) × (a + d * 2 ^ 48 < lock_bit)
parts a d h k = (omega (arith, h, k), omega (arith, h, k), omega (arith, h, k))

-- The word that is stored: it says a lease up to `rts`, from a time not after it.
abbrev pub Covers : ℕ → ℕ → Type 0
Covers rts w = (wts_of w ≤ rts) × (rts_of w ≡ rts) × (w < lock_bit)

put_together :
    (rts a d : ℕ) → rts < 2 ^ 48 → a + d ≡ rts → d < 2 ^ 15 → Covers rts (bit_or a (d * 2 ^ 48))
put_together rts a d h e k =
    let (w, l, small) = parts a d (omega (arith, h, e)) k in
    subst (Covers rts) (sym (or_48 a d (omega (arith, h, e))))
      (omega (arith, w, e), omega (arith, w, l, e), small)

renewed-Covers :
    (wts rts : ℕ) → wts ≤ rts → rts < 2 ^ 48 → Covers rts (renewed wts (sub_u64 rts wts))
unfolding renewed
renewed-Covers wts rts le h =
    let d : sub_u64 rts wts ≡ rts - wts = omega (arith, le, h) in
    rw d (elim (Bool-cases (leb (2 ^ 15) (rts - wts))) [
      | inl long ↦
          let base : (wts + ((rts - wts) - (rts - wts) % 2 ^ 15)) % 2 ^ 64
              ≡ rts - (rts - wts) % 2 ^ 15 =
            omega (arith, le, h) in
          rw (long, base)
            (put_together rts (rts - (rts - wts) % 2 ^ 15) ((rts - wts) % 2 ^ 15) h
              (omega (arith, le)) (omega arith))
      | inr short ↦
          rw short (put_together rts wts (rts - wts) h (omega (arith, le)) (ground (arith, short)))
    ])

-- What a renewal up to `rts` makes of a word that is not locked.
pub record Renewal (wts rts v : ℕ) (r : ℕ × Bool) : Type 0 where
  pub answer : r.1 ≡ (wts == wts_of v)
  pub kept : r.1 ≡ false → r.0 ≡ v
  pub covers : r.1 ≡ true → (wts_of r.0 ≤ rts) × (rts ≤ rts_of r.0)
  pub grows : rts_of v ≤ rts_of r.0
  pub free : r.0 < lock_bit

pub try_renew-Renewal :
    (wts rts v : ℕ)
    → wts ≤ rts
    → rts < 2 ^ 48
    → v < lock_bit
    → Renewal wts rts v (try_renew wts rts [] v)
unfolding try_renew cas_renew
try_renew-Renewal wts rts v le h free =
    let d : sub_u64 rts wts ≡ rts - wts = omega (arith, le, h) in
    let open_word : leb lock_bit v ≡ false = ground (arith, free) in
    elim (Bool-cases (wts_of v == wts)) [
      | inl same ↦
          let same' : (wts == wts_of v) ≡ true = ground (arith, same) in
          let time : wts_of v ≡ wts = ground (arith, same) in
          elim (Bool-cases (leb (rts - wts) (delta_of v))) [
            | inl leased ↦
                rw (same, d, leased)
                  (record {
                    answer = sym same';
                    kept = λ e. refl;
                    covers = λ e. (omega (arith, time, le), ground (arith, time, leased, le));
                    grows = omega arith;
                    free = free;
                  })
            | inr short ↦
                let new = renewed-Covers wts rts le h in
                let behind : ltb (rts - wts) (delta_of v) ≡ false = ground (arith, short) in
                rw (same, d, short, open_word, same', behind)
                  (subst (λ e. Renewal wts rts v (renewed wts e, true)) d
                    (record {
                      answer = sym same';
                      kept = λ e. absurd (ground (arith, e));
                      covers = λ e. (new.0, omega (arith, new.1));
                      grows = ground (arith, time, short, new.1, le);
                      free = new.2;
                    }))
          ]
      | inr other ↦
          let other' : (wts == wts_of v) ≡ false = ground (arith, other) in
          rw (other, open_word, other')
            (record {
              answer = sym other';
              kept = λ e. refl;
              covers = λ e. absurd (ground (arith, e));
              grows = omega arith;
              free = free;
            })
    ]
