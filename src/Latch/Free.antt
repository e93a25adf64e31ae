-- ===== src/Latch/Free.antt =====
-- A latch that nobody holds is taken at once, and is free again after its one holder.
use veri_txn.Prelude.{◌≡◌, refl, true, done}
use veri_txn.Latch.{latch_ex, latch_sh, init, give, latch_node, release_latch}

pub shared : latch_node latch_sh init ≡ done (give latch_sh init, true)
unfolding latch_node init
shared = refl

pub shared_back : release_latch (give latch_sh init) ≡ done (init, latch_sh)
unfolding release_latch init
shared_back = refl

pub exclusive : latch_node latch_ex init ≡ done (give latch_ex init, true)
unfolding latch_node init
exclusive = refl

pub exclusive_back : release_latch (give latch_ex init) ≡ done (init, latch_ex)
unfolding release_latch init
exclusive_back = refl
