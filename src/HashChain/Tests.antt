-- ===== src/HashChain/Tests.antt =====
-- A chain of three versions: the calls of HashChain on it, and the theorems applied to it.
use veri_txn.Prelude.{
  ℕ, ◌≤◌, ◌<◌, ◌≡◌, refl, true, false, some, [], ◌∷◌, All, length, leb, if◌then◌else◌, arith, done,
  fault,
}
use veri_txn.HashChain.{HashChain, empty_chain, get, insert, vaccum, get_max_ts, empty, not_loaded}
use veri_txn.HashChain.Spec.{IsValid, floor, newer}
use veri_txn.HashChain.Read.{get-promised, promised, IsNewest, get_max_ts-bound}
use veri_txn.HashChain.Insert.{insert_new, insert_present, made}
use veri_txn.HashChain.Vacuum.{vaccum-floor, rest_of}

abbrev three : HashChain
three = record {
  size = 3;
  items = made 10 100 ∷ (made 20 200 ∷ (made 30 300 ∷ []));
  tail = some (made 30 300);
  latch = false;
}

three-IsValid : IsValid three
three-IsValid = record {
  sorted = omega arith;
  counted = refl;
  small = omega arith;
  tailed = refl;
  free = refl;
}

inserted_twice :
    (insert 20 200 empty_chain)
    ≡ done (record { size = 1; items = made 20 200 ∷ []; tail = some (made 20 200); latch = false })
unfolding insert
inserted_twice = refl

read_between : get false 25 0 0 three ≡ done (three, record { res = 200; length = 3; rts = 20 })
unfolding get
read_between = refl

read_early : get true 5 7 8 three ≡ done (three, record { res = not_loaded; length = 3; rts = 8 })
unfolding get
read_early = refl

not_empty : empty three ≡ done (three, false)
unfolding empty
not_empty = refl

get-promised_example : get false 25 0 0 three ≡ done (three, promised 25 0 0 three)
get-promised_example = get-promised false 25 0 0 three three-IsValid

get_max_ts-bound_example :
    (m : ℕ) × (get_max_ts three ≡ done (three, m))
    × IsNewest m three.items
    × All (λ i. i.commit_ts ≤ m) three.items
get_max_ts-bound_example = get_max_ts-bound three three-IsValid

insert_new_example :
    (c' : HashChain) × (insert 15 150 three ≡ done c')
    × IsValid c'
    × (length c'.items ≡ 4)
    × ((t : ℕ)
        → floor t c'.items
          ≡ (if leb 15 t then newer (made 15 150) (floor t three.items) else floor t three.items))
insert_new_example = insert_new 15 150 three three-IsValid (omega arith) refl

insert_present_example : insert 20 201 three ≡ fault
insert_present_example = insert_present 20 201 200 three three-IsValid refl

vaccum-floor_example :
    (c' : HashChain) × (vaccum 25 three ≡ done c')
    × IsValid c'
    × ((ts : ℕ) → 25 ≤ ts → floor ts c'.items ≡ floor ts three.items)
    × All (λ i. 25 < i.commit_ts) (rest_of c'.items)
vaccum-floor_example = vaccum-floor 25 three three-IsValid
