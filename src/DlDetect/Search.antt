-- ===== src/DlDetect/Search.antt =====
-- What a search for a cycle finds.
use mathlib.Core.List.{Memᴰ}
use native.Mathlib.Nat.{mod-lt}
use veri_txn.Prelude.{
  set, ℕ, zero, suc, ◌^◌, ◌<◌, ◌≤◌, ◌≡◌, inl, inr, refl, subst, Bool, true, false, not, ◌&&◌, none,
  List, [], ◌∷◌, ◌==◌, if◌then◌else◌, arith, Outcome, done, Ensures, Ensures->>=, Ensures-mono,
  Bool-cases,
}
use veri_txn.DlDetect.{
  Graph, DetectData, thread_of, cut_to_32, after_visit, scan, finish, next_node, start, victim,
  detect_cycle,
}
use veri_txn.DlDetect.Spec.{
  unvisited, Waits, Chain, HasCycle, Reaches, Reaches-then, Grows, unvisited-Grows, unvisited-set,
}

module _ (v : ℕ) (dep : Graph) (threads : 0 < v)
    (small : (j u : ℕ) → Memᴰ u (dep j).adj → u < 2 ^ 31) where
  thread-small : (t : ℕ) → thread_of v t < v
  thread-small t = mod-lt t threads

  -- What the search knows: a loop was reported only of a cycle.
  abbrev Finds : DetectData → Type 0
  Finds d = d.loop ≡ true → HasCycle v dep

  -- Each thread on the stack has a transaction from which `t` is reached.
  abbrev Stack : (ℕ → Type 0) → DetectData → Type 0
  Stack To d =
      (j : ℕ) → d.rec_stack j ≡ true → (p : ℕ) × (thread_of v p ≡ j) × ((dep j).txnid ≡ p) × To p

  record Post (d d' : DetectData) : Type 0 where
    shrinks : Grows d'.rec_stack d.rec_stack
    grows : Grows d.visited d'.visited
    finds : Finds d'

  record Answer (d : DetectData) (r : DetectData × Bool) : Type 0 where
    post : Post d r.0
    found : r.1 ≡ true → HasCycle v dep

  -- What nextNode promises up to a depth.
  abbrev Visits : ℕ → (ℕ → DetectData → Outcome (DetectData × Bool)) → Type 0
  Visits depth visit =
      (t : ℕ) (d : DetectData)
      → d.visited (thread_of v t) ≡ false
      → unvisited v d.visited ≤ depth
      → Stack (λ p. Chain v dep p t) d
      → Finds d
      → Ensures (Answer d) (visit t d)

  Post-then : (a b c : DetectData) → Post a b → Post b c → Post a c
  Post-then a b c p q = record {
    shrinks = λ j h. p.shrinks j (q.shrinks j h);
    grows = λ j h. q.grows j (p.grows j h);
    finds = q.finds;
  }

  closes :
      (t u : ℕ) (d : DetectData)
      → Waits v dep t u
      → Stack (λ p. Reaches v dep p t) d
      → d.rec_stack (thread_of v u) ≡ true
      → cut_to_32 u ≡ (dep (thread_of v u)).txnid
      → HasCycle v dep
  closes t u d w stack on e =
      let (p, th, alive, reaches) = stack (thread_of v u) on in
      let same : p ≡ u = ground (arith, e, alive, small (thread_of v t) u w.1) in
      (u, subst (λ q. Chain v dep q u) same (Reaches-then reaches w))

  Post-same : (d : DetectData) → Finds d → Post d d
  Post-same d f = record { shrinks = λ j h. h; grows = λ j h. h; finds = f }

  after_visit-Post :
      (d : DetectData) (rest : DetectData → Outcome DetectData) (r : DetectData × Bool)
      → Answer d r
      → ((d' : DetectData) → Post d d' → Ensures (Post d) (rest d'))
      → Ensures (Post d) (after_visit rest r)
  after_visit-Post d rest (d', true) a k = a.post
  after_visit-Post d rest (d', false) a k = k d' a.post

  scan-Post :
      (depth : ℕ) (visit : ℕ → DetectData → Outcome (DetectData × Bool)) (t : ℕ) (r : List ℕ)
      (d : DetectData)
      → Visits depth visit
      → ((u : ℕ) → Memᴰ u r → Waits v dep t u)
      → unvisited v d.visited ≤ depth
      → Stack (λ p. Reaches v dep p t) d
      → Finds d
      → Ensures (Post d) (scan v dep visit r d)
  unfolding scan
  scan-Post depth visit t [] d visits waits enough stack f = Post-same d f
  scan-Post depth visit t (u ∷ r) d visits waits enough stack f =
      let w : Waits v dep t u = waits u (Memᴰ.head refl) in
      let later : (d' : DetectData) → Post d d' → Ensures (Post d) (scan v dep visit r d') = λ d' p.
        Ensures-mono (Post d') (Post d) (scan v dep visit r d') (λ e q. Post-then d d' e p q)
          (scan-Post depth visit t r d' visits (λ x m. waits x (Memᴰ.tail m))
            (omega (arith, enough, unvisited-Grows v d.visited d'.visited p.grows))
            (λ j h. stack j (p.shrinks j h)) p.finds) in
      elim (Bool-cases
        (d.rec_stack (thread_of v u) && (cut_to_32 u == (dep (thread_of v u)).txnid))) [
          | inl closed ↦ rw closed (record {
            shrinks = λ j h. h;
            grows = λ j h. h;
            finds = λ e. closes t u d w stack (ground (arith, closed)) (ground (arith, closed));
          })
          | inr open_end ↦
              elim (Bool-cases
                (not (d.visited (thread_of v u)) && ((dep (thread_of v u)).txnid == u))) [
                  | inl fresh ↦
                      rw (open_end, fresh)
                        (Ensures->>= (Answer d) (Post d) (visit u d)
                          (after_visit (λ d. scan v dep visit r d))
                          (visits u d (ground (arith, fresh)) enough (λ j h. chained (stack j h) w)
                            f)
                          (λ a k. after_visit-Post d (λ d. scan v dep visit r d) a k later))
                  | inr seen ↦ rw (open_end, seen) (later d (Post-same d f))
                ]
        ]
    where
      chained :
          {j u : ℕ}
          → (p : ℕ) × (thread_of v p ≡ j) × ((dep j).txnid ≡ p) × Reaches v dep p t
          → Waits v dep t u
          → (p : ℕ) × (thread_of v p ≡ j) × ((dep j).txnid ≡ p) × Chain v dep p u
      chained (p, th, alive, c) w = (p, th, alive, Reaches-then c w)

  abbrev entered : ℕ → DetectData → DetectData
  entered thd d = record d {
    visited = set d.visited thd true;
    rec_stack = set d.rec_stack thd true;
  }

  entered-Stack :
      (t : ℕ) (d : DetectData)
      → (dep (thread_of v t)).txnid ≡ t
      → Stack (λ p. Chain v dep p t) d
      → Stack (λ p. Reaches v dep p t) (entered (thread_of v t) d)
  entered-Stack t d alive stack j on = elim (Bool-cases (thread_of v t == j)) [
    | inl here ↦
        let same : thread_of v t ≡ j = ground (arith, here) in
        (t, same, subst (λ k. (dep k).txnid ≡ t) same alive, inl refl)
    | inr below ↦ let (p, th, al, c) = stack j (ground (arith, on, below)) in (p, th, al, inr c)
  ]

  finish-Answer :
      (t lock_num : ℕ) (d d' : DetectData)
      → Post (entered (thread_of v t) d) d'
      → Answer d (finish (thread_of v t) lock_num t d')
  unfolding finish
  finish-Answer t lock_num d d' k = record {
    post = record {
      shrinks = λ j h. ground (arith, h, k.shrinks j (ground (arith, h)));
      grows = λ j h. k.grows j (ground (arith, h));
      finds = k.finds;
    };
    found = k.finds;
  }

  stale-Answer :
      (thd : ℕ) (d : DetectData)
      → Finds d
      → Answer d
          (record (entered thd d) { rec_stack = set (entered thd d).rec_stack thd false }, false)
  stale-Answer thd d f = record {
    post = record {
      shrinks = λ j h. ground (arith, h);
      grows = λ j h. ground (arith, h);
      finds = f;
    };
    found = λ e. absurd (ground (arith, e));
  }

  next_node-Visits : (depth : ℕ) → Visits depth (next_node depth v dep)
  unfolding next_node
  next_node-Visits zero t d fresh enough stack f =
      absurd
        (omega (arith, enough, unvisited-set v (thread_of v t) d.visited (thread-small t) fresh))
  next_node-Visits (suc depth) t d fresh enough stack f =
      let thd : ℕ = thread_of v t in
      let inside : DetectData = entered thd d in
      elim (Bool-cases ((dep thd).txnid == t)) [
        | inl same ↦
            let alive : (dep thd).txnid ≡ t = ground (arith, same) in
            rw (fresh, same)
              (Ensures->>= (Post inside) (Answer d)
                (scan v dep (next_node depth v dep) (dep thd).adj inside) _
                (scan-Post depth (next_node depth v dep) t (dep thd).adj inside
                  (next_node-Visits depth) (λ u m. (alive, m))
                  (omega (arith, enough, unvisited-set v thd d.visited (thread-small t) fresh))
                  (entered-Stack t d alive stack) f)
                (λ d' k. finish-Answer t (dep thd).num_locks d d' k))
        | inr other ↦ rw (fresh, other) (stale-Answer thd d f)
      ]

none_visited : (v : ℕ) → unvisited v (λ j. false) ≤ v
none_visited zero = omega arith
none_visited (suc v) = omega (arith, none_visited v)

-- A detection among `v` threads comes to an end with no failed assertion, within `v` levels of recursion, and
-- if it answers that there is a deadlock, then some transaction waits for itself along a chain of waits in
-- which each transaction is the one of its thread; otherwise no transaction is told to abort. The numbers of the transactions waited for are below
-- 2 ^ 31.
pub detect_cycle-finds :
    (v : ℕ) (dep : Graph) (garbage txnid : ℕ)
    → 0 < v
    → ((j u : ℕ) → Memᴰ u (dep j).adj → u < 2 ^ 31)
    → Ensures (λ r. if r.0 then HasCycle v dep else (r.1 ≡ none)) (detect_cycle garbage v dep txnid)
unfolding detect_cycle
detect_cycle-finds v dep garbage txnid threads small =
    Ensures->>= (Answer v dep threads small (start garbage)) _
      (next_node v v dep txnid (start garbage)) _
      (next_node-Visits v dep threads small v txnid (start garbage) refl (none_visited v)
        (λ j e. absurd (ground (arith, e))) (λ e. absurd (ground (arith, e))))
      answer
  where
    answer :
        (r : DetectData × Bool)
        → Answer v dep threads small (start garbage) r
        → Ensures (λ r. if r.0 then HasCycle v dep else (r.1 ≡ none)) (done (victim v dep r))
    answer (d, true) k = k.found refl
    answer (d, false) k = refl
