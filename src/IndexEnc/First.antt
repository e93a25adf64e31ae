-- ===== src/IndexEnc/First.antt =====
-- The first load of a page.
use veri_txn.Prelude.{ℕ, ◌≡◌, refl, sym, ap, ◌∙◌, subst, true, [], leb, arith, Ensures, ◌==◌}
use veri_txn.HashChain.{HashChain}
use veri_txn.HashChain.Spec
use veri_txn.HashChain.Spec.{floor}
use veri_txn.HashChain.Insert.{insert_new}
use veri_txn.HashChain.Read.{empty_lem, promised-res, hash_of}
use veri_txn.Bucket
use veri_txn.Bucket.{Bucket}
use veri_txn.IndexEnc.{Config, IndexEnc, check_page, check_chain}
use veri_txn.IndexEnc.Chain.{hash_at}
use veri_txn.IndexEnc.Load.{update_same}

-- The chain begins with the hash of the page.
abbrev pub Begins : ℕ → ℕ → ℕ → ℕ → IndexEnc → Type 0
Begins now part bkt hash s' =
    Spec.IsValid (s'.verify_hash part bkt) × (hash_at now (s'.verify_hash part bkt) ≡ hash)

-- A page whose chain is empty is accepted with any hash, which its chain then promises.
pub check_page-Begins :
    (cfg : Config) (now part bkt page : ℕ) (s : IndexEnc)
    → Spec.IsValid (s.verify_hash part bkt)
    → (s.verify_hash part bkt).items ≡ []
    → Ensures
        (Begins now part bkt (Bucket.get_hash cfg.catalog (s.pages page)))
        (check_page cfg now part bkt page s)
unfolding check_page check_chain
check_page-Begins cfg now part bkt page s v none_yet =
    let c : HashChain = s.verify_hash part bkt in
    let hash : ℕ = Bucket.get_hash cfg.catalog (s.pages page) in
    let now_seen : leb now now ≡ true = ground arith in
    let nothing : (c.size == 0) ≡ true = ground (arith, v.counted, none_yet) in
    let (c', returns, valid, long, reads) =
      insert_new now hash c v (ground (arith, none_yet)) (rw none_yet refl) in
    rw (empty_lem c v, nothing, returns)
      (subst (λ d. Spec.IsValid d × (hash_at now d ≡ hash))
        (sym (update_same s.verify_hash part bkt c'))
        (valid, promised-res now 0 0 c' ∙ ap hash_of (reads now) ∙ rw (now_seen, none_yet) refl))
