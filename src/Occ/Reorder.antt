-- ===== src/Occ/Reorder.antt =====
-- What validation asks of a list of accesses does not depend on their order.
use mathlib.Core.List.{Permᴰ}
use veri_txn.Prelude.{
  ℕ, ◌≡◌, ◌≢◌, refl, sym, ap, ◌∙◌, subst, List, ◌∷◌, All, ◌&&◌, ◌==◌, if◌then◌else◌, arith,
}
use veri_txn.Occ.{Access, is_wr}
use veri_txn.Occ.Latches.{IsDistinct, unchanged}
use veri_txn.Occ.Writes.{written}

pub All-perm : (P : Access → Type 0) {l m : List Access} → Permᴰ l m → All P l → All P m
All-perm P Permᴰ.nil h = tt
All-perm P (Permᴰ.cons e p) h = (subst P e h.0, All-perm P p h.1)
All-perm P (Permᴰ.swap e f) h = (subst P f h.1.0, (subst P e h.0, h.1.1))
All-perm P (Permᴰ.trans p q) h = All-perm P q (All-perm P p h)

pub IsDistinct-perm : {l m : List Access} → Permᴰ l m → IsDistinct l → IsDistinct m
IsDistinct-perm Permᴰ.nil d = tt
IsDistinct-perm (Permᴰ.cons {b = b} {l₂ = l₂} e p) d =
    (subst (λ a. All (λ c. c.row ≢ a.row) l₂) e (All-perm _ p d.0), IsDistinct-perm p d.1)
IsDistinct-perm (Permᴰ.swap {a = a} {b = b} {a' = a'} {b' = b'} {l = l} e f) d =
    subst (λ x. IsDistinct (x ∷ (b' ∷ l))) f
      (subst (λ y. IsDistinct (b ∷ (y ∷ l))) e ((λ s. d.0.0 (sym s), d.1.0), (d.0.1, d.1.1)))
IsDistinct-perm (Permᴰ.trans p q) d = IsDistinct-perm q (IsDistinct-perm p d)

pub unchanged-perm :
    (wts : ℕ → ℕ) (start_ts : ℕ) {l m : List Access}
    → Permᴰ l m
    → unchanged wts start_ts l ≡ unchanged wts start_ts m
unchanged-perm wts start_ts Permᴰ.nil = refl
unchanged-perm wts start_ts (Permᴰ.cons e p) =
    ground (arith, ap (λ a. wts a.row) e, unchanged-perm wts start_ts p)
unchanged-perm wts start_ts (Permᴰ.swap e f) =
    ground (arith, ap (λ a. wts a.row) e, ap (λ a. wts a.row) f)
unchanged-perm wts start_ts (Permᴰ.trans p q) =
    unchanged-perm wts start_ts p ∙ unchanged-perm wts start_ts q

pub written-perm :
    (v : Access → ℕ) (f : ℕ → ℕ) (j : ℕ) {l m : List Access}
    → Permᴰ l m
    → IsDistinct l
    → written v l f j ≡ written v m f j
written-perm v f j Permᴰ.nil d = refl
written-perm v f j (Permᴰ.cons {a = a} {b = b} {l₁ = l₁} {l₂ = l₂} e p) d =
    ap (λ x. written v (x ∷ l₁) f j) e
    ∙ ap (λ w. if is_wr b.type && b.row == j then v b else w) (written-perm v f j p d.1)
written-perm v f j (Permᴰ.swap {a = a} {b = b} {a' = a'} {b' = b'} {l = l} e f') d =
    exchange ∙ ap (λ x. written v (x ∷ (a ∷ l)) f j) f' ∙ ap (λ x. written v (a' ∷ (x ∷ l)) f j) e
  where
    exchange : written v (a ∷ (b ∷ l)) f j ≡ written v (b ∷ (a ∷ l)) f j
    exchange = ground (arith, d.0.0)
written-perm v f j (Permᴰ.trans p q) d =
    written-perm v f j p d ∙ written-perm v f j q (IsDistinct-perm p d)
