-- ===== src/Mempool/Tests.antt =====
-- The theorems on the memory pool at concrete inputs.
use hello_world.Prelude.{
  ℕ, ◌/◌, ◌%◌, ◌<◌, ◌≡◌, refl, ◌↔◌, Bool, false, Option, none, some, List, [], ◌∷◌, arith, pos,
}
use hello_world.Outcome.{ok, fault}
use hello_world.Mempool.Page.{Page, put}
use hello_world.Mempool.Alloc.{Mempool, memp_init, malloc}
use hello_world.Mempool.Blocks.{member, IsPool}
use hello_world.Mempool.Init.{and-true, memp_init-faults}
use hello_world.Mempool.Clients.{
  Clients, new_clients, Request, serve_all, memp_init-serve_all, want,
}
use hello_world.Mempool.Turns.{Given, malloc-Given}

abbrev nothing : Page
nothing = λ p. none

abbrev unset : Mempool
unset = record { block_size = 0; free_count = 0; mem = 0; ptr = 0; page = nothing }

-- The block size of `main`.
memp_init-faults_example : (memp_init (some unset) 32 80 nothing ≡ fault) ↔ (4096 % 32 < 8)
memp_init-faults_example = memp_init-faults 32 80 unset nothing (omega arith) (omega arith)

abbrev requests : List Request
requests = want 5 ∷ []

memp_init-serve_all_example :
    (mp' : Mempool) × (memp_init (some unset) 40 80 nothing ≡ ok (pos 0, some mp'))
    × (c : Clients) × (serve_all requests (new_clients mp') ≡ ok c)
    × (c.pool.block_size ≡ 40)
    × (c.pool.mem ≡ 80)
    × (free_list : List ℕ) × IsPool c.pool c.owned (4096 / 40) free_list
memp_init-serve_all_example =
    memp_init-serve_all 40 80 unset nothing requests (omega arith) (omega arith) (omega arith)

-- A pool of one block.
abbrev one_block : Mempool
one_block = record {
  block_size = 40;
  free_count = 1;
  mem = 80;
  ptr = 80;
  page = put nothing 80 120;
}

abbrev nobody : ℕ → Bool
nobody p = false

one_block-IsPool : IsPool one_block nobody 1 (80 ∷ [])
one_block-IsPool = record {
  big = omega arith;
  some_page = omega arith;
  fits = omega arith;
  chain = (refl, 120, refl, tt);
  counted = refl;
  distinct = (refl, tt);
  exact = λ p. and-true (member p (80 ∷ []));
  own = λ p h. absurd (cc);
}

malloc-Given_example :
    (out : ℕ × Option Mempool) × (malloc (some one_block) 5 ≡ ok out)
    × Given one_block nobody 1 5 out
malloc-Given_example = malloc-Given one_block nobody 1 5 (80 ∷ []) one_block-IsPool
