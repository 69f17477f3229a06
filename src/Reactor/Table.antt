-- ===== src/Reactor/Table.antt =====
-- The table of event cells: blocks of 1024, allocated as descriptors need them.
-- reactor+http/reactor_singlecb_http_c1000k.c and reactor+websocket/reactor_singlecb_c1000k.c.
-- A block's array is a function of the index; the chain of `next` pointers is a list.
use hello_world.Prelude.{
  ℕ, zero, suc, ◌+◌, ◌/◌, ◌%◌, Bool, true, false, not, Option, none, some, List, [], ◌∷◌, ◌++◌, ltb,
  ◌==◌, if◌then◌else◌, get_elem?, set, ℤ, minus_one, is_positive, pos, negsuc,
}
use hello_world.Outcome.{Outcome, ◌>>=◌, deref, ok, fault, hang}
use hello_world.Sys.{Ptr, Call, Log, Kernel, epollin}
use hello_world.Reactor.Event.{Callback, NtyEvent, zero_event, Cell, nty_event_set, nty_event_add}

abbrev pub max_epoll_events : ℕ
max_epoll_events = 1024

-- The array `events` of one block.
abbrev pub EventBlock : Type 0 → Type 0
EventBlock A = ℕ → NtyEvent A

pub record NtyReactor (A : Type 0) : Type 0 where
  pub epfd : ℤ
  pub blkcnt : ℕ
  pub evblks : List (EventBlock A)

-- The reactor, the calls made, and the global `curfds` of the http server.
pub record Server (A : Type 0) : Type 0 where
  pub reactor : NtyReactor A
  pub log : Log
  pub curfds : ℕ

abbrev pub log_server : {A : Type 0} → Call → Server A → Server A
log_server c s = record s { log = c ∷ s.log }

abbrev pub block_set : {A : Type 0} → EventBlock A → ℕ → NtyEvent A → EventBlock A
block_set blk i ev j = if i == j then ev else blk j

module _ {A : Type 0} where
  unfoldable pub is_null : List (EventBlock A) → Bool
  is_null [] = true
  is_null (_ ∷ _) = false

  abbrev pub load_from : Option (EventBlock A) → ℕ → Outcome (NtyEvent A)
  load_from none i = fault
  load_from (some blk) i = if ltb i max_epoll_events then ok (blk i) else fault

  abbrev pub store_into :
      Option (EventBlock A) → Ptr → NtyEvent A → List (EventBlock A) → List (EventBlock A)
  store_into none p ev blks = blks
  store_into (some blk) (b, i) ev blks = set blks b (block_set blk i ev)

  -- `*p` and `*p = ev`.
  unfoldable pub load : Ptr → List (EventBlock A) → Outcome (NtyEvent A)
  load (b, i) blks = load_from (get_elem? blks b) i

  unfoldable pub store : Ptr → NtyEvent A → List (EventBlock A) → List (EventBlock A)
  store (b, i) ev blks = store_into (get_elem? blks b) (b, i) ev blks

-- `zeroed` is the server's own fields after `memset`, `k` the operating system.
module _ {A : Type 0} (zeroed : A) (k : Kernel) where
  abbrev pub zero_block : EventBlock A
  zero_block i = zero_event zeroed

  -- The two allocations of `ntyreactor_alloc`; a block that fails leaves the array allocated.
  unfoldable pub ntyreactor_alloc : Server A → ℤ × Server A
  unfolding is_null
  ntyreactor_alloc s =
      let got_events = k.malloc s.log in
      let log₁ = Call.malloc_call got_events ∷ s.log in
      let got_block = k.malloc log₁ in
      let log₂ = Call.malloc_call got_block ∷ log₁ in
      let grown : NtyReactor A = record (s.reactor) {
        blkcnt = s.reactor.blkcnt + 1;
        evblks = s.reactor.evblks ++ zero_block ∷ [];
      } in
      if is_null s.reactor.evblks
      then (minus_one, s)
      else if got_events
      then (if got_block
          then (pos 0, record s { reactor = grown; log = log₂ })
          else (negsuc 2, record s { log = log₂ }))
      else (negsuc 1, record s { log = log₁ })

  -- `while (blkidx >= reactor->blkcnt) ntyreactor_alloc(reactor);`
  unfoldable pub alloc_until : ℕ → ℕ → Server A → Outcome (Server A)
  alloc_until zero blkidx s = if ltb blkidx s.reactor.blkcnt then ok s else hang
  alloc_until (suc fuel) blkidx s =
      let rest = alloc_until fuel blkidx (ntyreactor_alloc s).1 in
      if ltb blkidx s.reactor.blkcnt then ok s else rest

  -- A negative descriptor has block index 0 and a negative offset, or a negative block index, at
  -- which the walk along the chain only stops at `NULL`. Either way the result is no cell.
  unfoldable pub ntyreactor_idx : ℕ → ℤ → Server A → Outcome (Option Ptr × Server A)
  unfolding alloc_until is_null
  ntyreactor_idx fuel (negsuc n) s = if is_null s.reactor.evblks then ok (none, s) else fault
  ntyreactor_idx fuel (pos fd) s = if is_null s.reactor.evblks then ok (none, s) else do
    s₁ ← alloc_until fuel (fd / max_epoll_events) s
    blk ← deref (get_elem? s₁.reactor.evblks (fd / max_epoll_events))
    ok (some (fd / max_epoll_events, fd % max_epoll_events), s₁)

  -- `ev = ntyreactor_idx(reactor, fd); if (ev == NULL) return -1;` and then `body`, which reads and
  -- writes `*ev` and makes calls.
  unfoldable pub at_cell :
      ℕ → ℤ → (Ptr → Cell A → Outcome (ℤ × Cell A)) → Server A → Outcome (ℤ × Server A)
  unfolding ntyreactor_idx load store
  at_cell fuel fd body s = do
    (found, s₁) ← ntyreactor_idx fuel fd s
    elim found [
      | none ↦ ok (minus_one, s₁)
      | some p ↦ do
        ev ← load p s₁.reactor.evblks
        (r, c) ← body p (record { ev = ev; log = s₁.log })
        ok (
          r,
          record s₁ {
            reactor = record (s₁.reactor) { evblks = store p c.ev s₁.reactor.evblks };
            log = c.log;
          },
        )
    ]

  -- `nty_event_set(ev, fd, callback, reactor); nty_event_add(epfd, events, ev);`
  unfoldable pub watch : ℕ → Callback → ℕ → Ptr → Cell A → Cell A
  unfolding nty_event_set nty_event_add
  watch fd cb events p c = (nty_event_add k p events (nty_event_set fd cb c)).1

  -- The same as a body that returns 0.
  unfoldable pub watch_body : ℕ → Callback → ℕ → Ptr → Cell A → Outcome (ℤ × Cell A)
  unfolding watch
  watch_body fd cb events p c = ok (pos 0, watch fd cb events p c)

  -- A negative descriptor never reaches its body.
  unfoldable pub ntyreactor_addlistener : ℕ → ℤ → Callback → Server A → Outcome (ℤ × Server A)
  unfolding at_cell watch_body
  ntyreactor_addlistener fuel (pos sockfd) handler =
      at_cell fuel (pos sockfd) (watch_body sockfd handler epollin)
  ntyreactor_addlistener fuel (negsuc n) handler = at_cell fuel (negsuc n) (λ p c. fault)

  unfoldable pub ntyreactor_init : Log → ℤ × NtyReactor A × Log
  ntyreactor_init log =
      let epfd = k.epoll_create log in
      let log₁ = Call.epoll_create_call ∷ log in
      let got_events = k.malloc log₁ in
      let log₂ = Call.malloc_call got_events ∷ log₁ in
      let got_block = k.malloc log₂ in
      let log₃ = Call.malloc_call got_block ∷ log₂ in
      let empty : NtyReactor A = record { epfd = epfd; blkcnt = 0; evblks = [] } in
      if not (is_positive epfd)
      then (negsuc 1, empty, log₁)
      else if got_events
      then (if got_block
          then (pos 0, record empty { blkcnt = 1; evblks = zero_block ∷ [] }, log₃)
          else (negsuc 2, empty, Call.close_call epfd ∷ Call.free_call ∷ log₃))
      else (negsuc 2, empty, Call.close_call epfd ∷ log₂)

-- The two `free` calls for each block.
unfoldable pub free_blocks : {A : Type 0} → List (EventBlock A) → Log → Log
free_blocks [] log = log
free_blocks (blk ∷ blks) log = free_blocks blks (Call.free_call ∷ Call.free_call ∷ log)

unfoldable pub ntyreactor_destory : {A : Type 0} → NtyReactor A → Log → ℤ × Log
unfolding free_blocks
ntyreactor_destory r log = (pos 0, free_blocks r.evblks (Call.close_call r.epfd ∷ log))
