-- ===== src/Mempool/Clients.antt =====
-- Clients of the pool of threadpool/src4/mempool/memorypool.cpp: they ask for blocks, write in those
-- they have, and give them back, in any order.
use hello_world.Prelude.{
  ℕ, ◌+◌, ◌-◌, ◌/◌, ◌%◌, ◌≤◌, ◌<◌, ◌≡◌, refl, ◌∙◌, inl, inr, Bool, true, false, ◌&&◌, Option, some,
  List, [], ◌∷◌, arith, leb, ◌==◌, if◌then◌else◌, leb→le, Bool-cases, pos,
}
use hello_world.Outcome.{Outcome, ◌>>=◌, deref, ok}
use hello_world.Mempool.Page.{Page, put, store}
use hello_world.Mempool.Alloc.{Mempool, memp_init, malloc, free}
use hello_world.Mempool.Blocks.{blocks, IsPool}
use hello_world.Mempool.Init.{memp_init-IsPool}
use hello_world.Mempool.Turns.{
  mark, Given, malloc-Given, fill-IsPool, free-IsPool, no_block, a_block,
}

-- `owned` says which addresses the clients have and did not give back.
pub record Clients : Type 0 where
  pub pool : Mempool
  pub owned : ℕ → Bool

abbrev pub new_clients : Mempool → Clients
new_clients pool = record { pool = pool; owned = λ p. false }

-- A client that gives back or writes has the block, and writes a pointer inside it.
pub data Request : Type 0 where
  want : (size : ℕ) → Request
  give_back : (p : ℕ) → Request
  fill : (p offset v : ℕ) → Request

abbrev received : Clients → ℕ × Option Mempool → Outcome Clients
received c (p, mp) = do
  pool ← deref mp
  ok (record { pool = pool; owned = if p == 0 then c.owned else mark c.owned p true })

unfoldable pub serve : Request → Clients → Outcome Clients
unfolding malloc free store
serve (want size) c = do answer ← malloc (some c.pool) size; received c answer
serve (give_back p) c =
    if c.owned p
    then (do
      mp ← free (some c.pool) p
      pool ← deref mp
      ok (record { pool = pool; owned = mark c.owned p false }))
    else ok c
serve (fill p offset v) c =
    if c.owned p && leb (offset + 8) c.pool.block_size
    then (do
      page ← store c.pool.mem c.pool.page (p + offset) v
      ok (record c { pool = record (c.pool) { page = page } }))
    else ok c

unfoldable pub serve_all : List Request → Clients → Outcome Clients
unfolding serve
serve_all [] c = ok c
serve_all (r ∷ rs) c = do c' ← serve r c; serve_all rs c'

-- The pool is still the one of `size` bytes a block at `got`, and in order.
record Served (size got total : ℕ) (c : Clients) : Type 0 where
  same_size : c.pool.block_size ≡ size
  same_mem : c.pool.mem ≡ got
  free_list : List ℕ
  is_pool : IsPool c.pool c.owned total free_list

abbrev Serves : (size got total : ℕ) → Outcome Clients → Type 0
Serves size got total m = (c : Clients) × (m ≡ ok c) × Served size got total c

module _ (size got total : ℕ) (c : Clients) (served : Served size got total c) where
  want-Serves : (wanted : ℕ) → Serves size got total (serve (want wanted) c)
  unfolding serve
  want-Serves wanted =
      let (out, e, given) =
        malloc-Given c.pool c.owned total wanted served.free_list served.is_pool in
      rw e (answered out given)
    where
      answered :
          (out : ℕ × Option Mempool)
          → Given c.pool c.owned total wanted out
          → Serves size got total (received c out)
      answered out (no_block why) = (c, refl, served)
      answered out (a_block p next rest some_p small is_block unowned is_pool) =
          let some_p' : (p == 0) ≡ false = ground (arith, some_p) in
          (
            record {
              pool = record (c.pool) { ptr = next; free_count = c.pool.free_count - 1 };
              owned = mark c.owned p true;
            },
            rw some_p' refl,
            record {
              same_size = served.same_size;
              same_mem = served.same_mem;
              free_list = rest;
              is_pool = is_pool;
            },
          )

  serve-Serves : (r : Request) → Serves size got total (serve r c)
  unfolding serve
  serve-Serves (want wanted) = want-Serves wanted
  serve-Serves (give_back p) = elim (Bool-cases (c.owned p)) [
    | inl have ↦
        let (mp, e, as_mem, as_size, is_pool) =
          free-IsPool c.pool c.owned total served.free_list p served.is_pool have in
        (
          record { pool = mp; owned = mark c.owned p false },
          rw (have, e) refl,
          record {
            same_size = as_size ∙ served.same_size;
            same_mem = as_mem ∙ served.same_mem;
            free_list = p ∷ served.free_list;
            is_pool = is_pool;
          },
        )
    | inr not_mine ↦ (c, rw not_mine refl, served)
  ]
  serve-Serves (fill p offset v) =
      elim (Bool-cases (c.owned p && leb (offset + 8) c.pool.block_size)) [
        | inl inside ↦
            let have : c.owned p ≡ true = ground (arith, inside) in
            let low : leb (offset + 8) c.pool.block_size ≡ true = ground (arith, inside) in
            let (e, is_pool) =
              fill-IsPool c.pool c.owned total served.free_list p (p + offset) v served.is_pool have
                (omega arith) (omega (arith, leb→le _ _ low)) in
            (
              record c { pool = record (c.pool) { page = put c.pool.page (p + offset) v } },
              rw (inside, e) refl,
              record {
                same_size = served.same_size;
                same_mem = served.same_mem;
                free_list = served.free_list;
                is_pool = is_pool;
              },
            )
        | inr outside ↦ (c, rw outside refl, served)
      ]

all-Serves :
    (size got total : ℕ) (rs : List Request) (c : Clients)
    → Served size got total c
    → Serves size got total (serve_all rs c)
unfolding serve_all
all-Serves size got total [] c served = (c, refl, served)
all-Serves size got total (r ∷ rs) c served =
    let (c₁, e₁, served₁) = serve-Serves size got total c served r in
    let (c₂, e₂, served₂) = all-Serves size got total rs c₁ served₁ in (c₂, rw e₁ e₂, served₂)

-- If malloc gives a page, the block size is above 0 and at least 8 bytes of the page are left
-- behind its last block, then memp_init gives a pool, and any sequence of requests of clients, who
-- ask for blocks, write pointers inside the blocks that they have and give blocks back, is served
-- without an access outside the page, and comes to a pool of the same blocks whose free list is a
-- list of different blocks, exactly those that no client has, as many as free_count says
pub memp_init-serve_all :
    (size got : ℕ) (mp : Mempool) (old : Page) (rs : List Request)
    → 0 < size
    → 0 < got
    → 8 ≤ 4096 % size
    → (mp' : Mempool) × (memp_init (some mp) size got old ≡ ok (pos 0, some mp'))
      × (c : Clients) × (serve_all rs (new_clients mp') ≡ ok c)
      × (c.pool.block_size ≡ size)
      × (c.pool.mem ≡ got)
      × (free_list : List ℕ) × IsPool c.pool c.owned (4096 / size) free_list
memp_init-serve_all size got mp old rs some_size some_page spare =
    let (mp', e, as_size, as_mem, is_pool) =
      memp_init-IsPool size got mp old some_size some_page spare in
    let (c, e', served) = all-Serves size got (4096 / size) rs (new_clients mp') (record {
      same_size = as_size;
      same_mem = as_mem;
      free_list = blocks size got (4096 / size);
      is_pool = is_pool;
    }) in
    (mp', e, c, e', served.same_size, served.same_mem, served.free_list, served.is_pool)
