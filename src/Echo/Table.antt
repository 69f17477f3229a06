-- ===== src/Echo/Table.antt =====
-- The table of connections of zero_threadpool/reactor/c1000k/server.c: `struct sock_item`,
-- `reactor_resize` and `reactor_lookup`. A block's array is a function of the index, and the chain
-- of blocks a list, which is empty at first.
use hello_world.Prelude.{
  ℕ, zero, suc, ◌+◌, ◌/◌, ◌%◌, Option, none, some, List, [], ◌∷◌, ◌++◌, ltb, ◌==◌, if◌then◌else◌,
  get_elem?, set, ℤ, pos, negsuc,
}
use hello_world.Outcome.{Outcome, ◌>>=◌, deref, ok, hang}
use hello_world.Sys.{Ptr, Call, Log, Kernel}

abbrev pub buffer_length : ℕ
buffer_length = 128

abbrev pub item_length : ℕ
item_length = 1024

-- What a `char *` of an item points to.
pub data Buffer : Type 0 where
  null freed : Buffer
  live : List ℕ → Buffer

-- The fields that the program uses.
pub record SockItem : Type 0 where
  pub fd : ℕ
  pub rbuffer : Buffer
  pub rlength : ℕ
  pub wbuffer : Buffer
  pub wlength : ℕ

abbrev pub zero_item : SockItem
zero_item = record { fd = 0; rbuffer = null; rlength = 0; wbuffer = null; wlength = 0 }

abbrev pub ItemBlock : Type 0
ItemBlock = ℕ → SockItem

pub record Reactor : Type 0 where
  pub epfd : ℤ
  pub blkcnt : ℕ
  pub evblk : List ItemBlock

pub record Echo : Type 0 where
  pub reactor : Reactor
  pub log : Log

abbrev pub log_echo : Call → Echo → Echo
log_echo c s = record s { log = c ∷ s.log }

unfoldable pub reactor_resize : Kernel → Echo → ℤ × Echo
reactor_resize k s =
    let got_items = k.malloc s.log in
    let log₁ = Call.malloc_call got_items ∷ s.log in
    let got_block = k.malloc log₁ in
    let log₂ = Call.malloc_call got_block ∷ log₁ in
    let grown : Reactor = record (s.reactor) {
      blkcnt = s.reactor.blkcnt + 1;
      evblk = s.reactor.evblk ++ (λ i. zero_item) ∷ [];
    } in
    if got_items
    then (if got_block
        then (pos 0, record s { reactor = grown; log = log₂ })
        else (negsuc 4, record s { log = Call.free_call ∷ log₂ }))
    else (negsuc 3, record s { log = log₁ })

-- `while (blkidx >= r->blkcnt) reactor_resize(r);`
unfoldable pub resize_until : Kernel → (fuel blkidx : ℕ) → Echo → Outcome Echo
unfolding reactor_resize
resize_until k zero blkidx s = if ltb blkidx s.reactor.blkcnt then ok s else hang
resize_until k (suc fuel) blkidx s =
    let rest = resize_until k fuel blkidx (reactor_resize k s).1 in
    if ltb blkidx s.reactor.blkcnt then ok s else rest

-- The place of a descriptor's item, which is `NULL` for 0 and below.
unfoldable pub reactor_lookup : Kernel → (fuel : ℕ) → ℤ → Echo → Outcome (Option Ptr × Echo)
unfolding resize_until
reactor_lookup k fuel (negsuc n) s = ok (none, s)
reactor_lookup k fuel (pos zero) s = ok (none, s)
reactor_lookup k fuel (pos (suc n)) s = do
  s₁ ← resize_until k fuel (suc n / item_length) s
  blk ← deref (get_elem? s₁.reactor.evblk (suc n / item_length))
  ok (some (suc n / item_length, suc n % item_length), s₁)

-- `*item` and `*item = value`.
unfoldable pub load_item : Ptr → List ItemBlock → Outcome SockItem
load_item (b, i) blks = do blk ← deref (get_elem? blks b); ok (blk i)

abbrev pub block_with : ItemBlock → ℕ → SockItem → ItemBlock
block_with blk i item j = if i == j then item else blk j

abbrev pub store_at : Option ItemBlock → Ptr → SockItem → List ItemBlock → List ItemBlock
store_at none p item blks = blks
store_at (some blk) (b, i) item blks = set blks b (block_with blk i item)

unfoldable pub store_item : Ptr → SockItem → Echo → Echo
store_item (b, i) item s = record s {
  reactor = record (s.reactor) {
    evblk = store_at (get_elem? s.reactor.evblk b) (b, i) item s.reactor.evblk;
  };
}

-- A lookup whose result the code uses at once.
unfoldable pub lookup_item : Kernel → (fuel fd : ℕ) → Echo → Outcome (Ptr × SockItem × Echo)
unfolding reactor_lookup load_item
lookup_item k fuel fd s = do
  (found, s₁) ← reactor_lookup k fuel (pos fd) s
  p ← deref found
  item ← load_item p s₁.reactor.evblk
  ok (p, item, s₁)
