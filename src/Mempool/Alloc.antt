-- ===== src/Mempool/Alloc.antt =====
-- `struct mempool_t` of threadpool/src4/mempool/memorypool.cpp, `memp_init`, `_malloc` and `_free`.
use hello_world.Prelude.{
  ℕ, zero, suc, ◌+◌, ◌-◌, ◌/◌, Option, none, some, ltb, ◌==◌, if◌then◌else◌, ℤ, minus_one, pos,
}
use hello_world.Outcome.{Outcome, ◌>>=◌, ok, fault}
use hello_world.Mempool.Page.{mem_page_size, Page, load, store}

-- `page` is what stands at `mem`.
pub record Mempool : Type 0 where
  pub block_size : ℕ
  pub free_count : ℕ
  pub mem : ℕ
  pub ptr : ℕ
  pub page : Page

-- The loop of `memp_init`: `count` blocks from `ptr2` on, each with the address of the next. It
-- gives the page and the last `ptr2`.
unfoldable pub link_blocks : (mem block_size count ptr2 : ℕ) → Page → Outcome (Page × ℕ)
unfolding store
link_blocks mem block_size zero ptr2 page = ok (page, ptr2)
link_blocks mem block_size (suc count) ptr2 page = do
  page' ← store mem page ptr2 (ptr2 + block_size)
  link_blocks mem block_size count (ptr2 + block_size) page'

-- The write of NULL behind the loop.
abbrev pub end_list : (mem : ℕ) → Page × ℕ → Outcome Page
end_list mem (page, ptr2) = store mem page ptr2 0

-- `old` is the page as `malloc` gives it, at the address `got`, with 0 for NULL.
unfoldable pub memp_init :
    (mp : Option Mempool) (block_size : ℕ) (got : ℕ) (old : Page) → Outcome (ℤ × Option Mempool)
unfolding link_blocks store
memp_init none block_size got old = ok (minus_one, none)
memp_init (some mp) block_size got old =
    let count = mem_page_size / block_size in
    let empty : Mempool = record {
      block_size = block_size;
      free_count = count;
      mem = 0;
      ptr = 0;
      page = old;
    } in
    if block_size == 0 then fault else if got == 0 then ok (minus_one, some empty) else (do
      linked ← link_blocks got block_size count got old
      page ← end_list got linked
      ok (pos 0, some (record empty { mem = got; ptr = got; page = page })))

-- The pointer that `_malloc` gives, with 0 for NULL.
unfoldable pub malloc : (mp : Option Mempool) (size : ℕ) → Outcome (ℕ × Option Mempool)
unfolding load
malloc none size = ok (0, none)
malloc (some mp) size =
    if mp.free_count == 0
    then ok (0, some mp)
    else if ltb mp.block_size size
    then ok (0, some mp)
    else (do
      next ← load mp.mem mp.page mp.ptr
      ok (mp.ptr, some (record mp { ptr = next; free_count = mp.free_count - 1 })))

unfoldable pub free : (mp : Option Mempool) (ptr : ℕ) → Outcome (Option Mempool)
unfolding store
free none ptr = ok none
free (some mp) ptr = do
  page ← store mp.mem mp.page ptr mp.ptr
  ok (some (record mp { page = page; ptr = ptr; free_count = mp.free_count + 1 }))
