-- ===== src/DlDetect/Spec.antt =====
-- Waiting, told without the search.
use veri_txn.Prelude.{
  set, ℕ, zero, suc, ◌+◌, ◌<◌, ◌≤◌, ◌≡◌, ◌⊎◌, inl, inr, subst, sym, Bool, true, false,
  if◌then◌else◌, ◌==◌, arith, Bool-cases,
}
use veri_txn.DlDetect.{Graph, thread_of}
use mathlib.Core.List.{Memᴰ}

-- The number of threads below `v` that are not visited.
abbrev pub unvisited : ℕ → (ℕ → Bool) → ℕ
unvisited zero f = 0
unvisited (suc v) f = if f v then unvisited v f else suc (unvisited v f)

-- `t` waits for `u`.
abbrev pub Waits : ℕ → Graph → ℕ → ℕ → Type 0
Waits v dep t u = ((dep (thread_of v t)).txnid ≡ t) × Memᴰ u (dep (thread_of v t)).adj

-- A chain of waits, of one link or more.
pub data Chain (v : ℕ) (dep : Graph) : ℕ → ℕ → Type 0 where
  link : {t u : ℕ} → Waits v dep t u → Chain v dep t u
  more : {t u w : ℕ} → Waits v dep t u → Chain v dep u w → Chain v dep t w

abbrev pub HasCycle : ℕ → Graph → Type 0
HasCycle v dep = (p : ℕ) × Chain v dep p p

-- `p` is `t`, or a chain leads from it to `t`.
abbrev pub Reaches : ℕ → Graph → ℕ → ℕ → Type 0
Reaches v dep p t = (p ≡ t) ⊎ Chain v dep p t

Chain-then : {v : ℕ} {dep : Graph} {p t u : ℕ} → Chain v dep p t → Waits v dep t u → Chain v dep p u
Chain-then (link w) x = more w (link x)
Chain-then (more w c) x = more w (Chain-then c x)

pub Reaches-then :
    {v : ℕ} {dep : Graph} {p t u : ℕ} → Reaches v dep p t → Waits v dep t u → Chain v dep p u
Reaches-then {v} {dep} {u = u} (inl e) x = subst (λ t. Chain v dep t u) (sym e) (link x)
Reaches-then (inr c) x = Chain-then c x

abbrev pub Grows : (ℕ → Bool) → (ℕ → Bool) → Type 0
Grows f g = (j : ℕ) → f j ≡ true → g j ≡ true

pub unvisited-Grows : (v : ℕ) (f g : ℕ → Bool) → Grows f g → unvisited v g ≤ unvisited v f
unvisited-Grows zero f g h = omega arith
unvisited-Grows (suc v) f g h = elim (Bool-cases (f v)) [
  | inl seen ↦ rw (seen, h v seen) (unvisited-Grows v f g h)
  | inr not_seen ↦ rw not_seen (ground (arith, unvisited-Grows v f g h))
]

pub unvisited-set :
    (v i : ℕ) (f : ℕ → Bool) → i < v → f i ≡ false → unvisited v (set f i true) + 1 ≤ unvisited v f
unvisited-set zero i f h e = absurd (omega (arith, h))
unvisited-set (suc v) i f h e = elim (Bool-cases (i == v)) [
  | inl here ↦
      let last : f v ≡ false = subst (λ k. f k ≡ false) (ground (arith, here)) e in
      rw (here, last)
        (ground (arith, unvisited-Grows v f (set f i true) (λ j k. ground (arith, k))))
  | inr before ↦ rw before (ground (arith, unvisited-set v i f (ground (arith, before, h)) e))
]
