-- ===== src/Echo/Back.antt =====
-- What a client of zero_threadpool/reactor/c1000k/server.c gets back.
use hello_world.Prelude.{
  ℕ, zero, suc, ◌/◌, ◌%◌, ◌<◌, ◌≡◌, refl, sym, ap, ◌∙◌, false, some, List, [], ◌∷◌, ◌++◌, arith,
  ◌==◌, if◌then◌else◌, lt→ltb, le→leb, ==_self, length, get_elem?, set, take, drop, length-append,
  length-drop,
}
use hello_world.Outcome.{ok, fault}
use hello_world.CString.{fill, read_array, c_string}
use hello_world.CString.Laws.{NonZero, fill-ok}
use hello_world.Sys.{Call, Log, Kernel, epollin, epollout, ctl_mod, bytes_in}
use hello_world.Echo.Table.{
  SockItem, ItemBlock, Echo, log_echo, resize_until, reactor_lookup, load_item, block_with,
  store_item, lookup_item, live,
}
use hello_world.Echo.Loop.{control, bytes_of, copy_back, received, arrived, on_read, on_write}

-- What was sent to a descriptor, newest first.
abbrev pub sent_to : ℕ → Log → List (List ℕ)
sent_to fd [] = []
sent_to fd (Call.send_call q bytes ∷ log) =
    if q == fd then bytes ∷ sent_to fd log else sent_to fd log
sent_to fd (_ ∷ log) = sent_to fd log

resize_until-done :
    (k : Kernel) (fuel blkidx : ℕ) (s : Echo)
    → blkidx < s.reactor.blkcnt
    → resize_until k fuel blkidx s ≡ ok s
unfolding resize_until
resize_until-done k zero blkidx s h = rw (lt→ltb blkidx s.reactor.blkcnt h) refl
resize_until-done k (suc fuel) blkidx s h = rw (lt→ltb blkidx s.reactor.blkcnt h) refl

-- The item of a descriptor above 0 whose block is there, with its two buffers.
pub record Connected (n : ℕ) (s : Echo) (rbuffer wbuffer : List ℕ) : Type 0 where
  pub block : ItemBlock
  pub counted : suc n / 1024 < s.reactor.blkcnt
  pub is_block : get_elem? s.reactor.evblk (suc n / 1024) ≡ some block
  pub reads : (block (suc n % 1024)).rbuffer ≡ live rbuffer
  pub writes : (block (suc n % 1024)).wbuffer ≡ live wbuffer
  pub room : length rbuffer ≡ 128
  pub room_back : length wbuffer ≡ 128

lookup-Connected :
    (k : Kernel) (fuel n : ℕ) (s : Echo) (r w : List ℕ)
    → (c : Connected n s r w)
    → lookup_item k fuel (suc n) s ≡ ok ((suc n / 1024, suc n % 1024), c.block (suc n % 1024), s)
unfolding lookup_item reactor_lookup load_item
lookup-Connected k fuel n s r w c =
    let loaded : load_item (suc n / 1024, suc n % 1024) s.reactor.evblk
        ≡ ok (c.block (suc n % 1024)) =
      rw c.is_block refl in
    rw (resize_until-done k fuel (suc n / 1024) s c.counted, c.is_block, loaded) refl

take_all : (a : List ℕ) (n : ℕ) → length a ≡ n → take n a ≡ a
take_all [] zero h = refl
take_all [] (suc n) h = refl
take_all (c ∷ a) zero h = absurd (omega arith)
take_all (c ∷ a) (suc n) h = ap (λ t. c ∷ t) (take_all a n (omega arith))

append_drop_all : (t a : List ℕ) (n : ℕ) → length a ≡ n → t ++ drop n a ≡ t
append_drop_all [] [] zero h = refl
append_drop_all [] [] (suc n) h = refl
append_drop_all [] (c ∷ a) zero h = absurd (omega arith)
append_drop_all [] (c ∷ a) (suc n) h = append_drop_all [] a n (omega arith)
append_drop_all (b ∷ t) a n h = ap (λ z. b ∷ z) (append_drop_all t a n h)

read_array-all : (a : List ℕ) (n : ℕ) → length a ≡ n → read_array n a ≡ ok a
unfolding read_array
read_array-all a n h = rw (le→leb n (length a) (omega arith), take_all a n h) refl

fill-all : (t a : List ℕ) → length t ≡ length a → fill t a ≡ ok t
fill-all t a h =
    fill-ok t a (omega arith) ∙ ap (λ z. ok z) (append_drop_all t a (length t) (omega arith))

set-found :
    (blks : List ItemBlock) (i : ℕ) (blk v : ItemBlock)
    → get_elem? blks i ≡ some blk
    → get_elem? (set blks i v) i ≡ some v
set-found [] i blk v h = absurd (cc)
set-found (x ∷ blks) zero blk v h = refl
set-found (x ∷ blks) (suc i) blk v h = set-found blks i blk v h

-- What the item of the descriptor holds after its bytes were read and copied.
abbrev echoed : SockItem → List ℕ → SockItem
echoed item text = record item { rbuffer = live text; wbuffer = live text }

abbrev after_read : Kernel → ℕ → SockItem → List ℕ → Echo → Echo
unfolding control store_item
after_read k n item text s = control k ctl_mod (suc n) epollout (
    store_item (suc n / 1024, suc n % 1024) (echoed item text)
      (log_echo (Call.recv_call (suc n) 128) s))

-- A buffer over which bytes were received: what it held before stands behind them.
abbrev pub refilled : (bytes buffer : List ℕ) → List ℕ
refilled bytes buffer = bytes ++ drop (length bytes) buffer

module _ (k : Kernel) (fuel n : ℕ) (s : Echo) (r w : List ℕ) (c : Connected n s r w) (b : ℕ)
    (bytes : List ℕ) where
  on_read-echoed :
      k.recv s.log (suc n) 128 ≡ bytes_in (b ∷ bytes)
      → length bytes < 128
      → (printed : List ℕ) → c_string (refilled (b ∷ bytes) r) ≡ ok printed
      → on_read k fuel (suc n) s
        ≡ ok (after_read k n (c.block (suc n % 1024)) (refilled (b ∷ bytes) r) s)
  unfolding on_read received copy_back arrived bytes_of after_read
  on_read-echoed got fits printed text =
      let full : length (refilled (b ∷ bytes) r) ≡ 128 = omega (
        arith,
        length-append (b ∷ bytes) (drop (suc (length bytes)) r),
        length-drop (suc (length bytes)) r,
        c.room,
      ) in
      let stored : fill (b ∷ bytes) r ≡ ok (refilled (b ∷ bytes) r) =
        fill-ok (b ∷ bytes) r (omega (arith, c.room)) in
      rw
        (
          lookup-Connected k fuel n s r w c,
          c.reads,
          got,
          stored,
          text,
          c.writes,
          read_array-all (refilled (b ∷ bytes) r) 128 full,
          fill-all (refilled (b ∷ bytes) r) w (full ∙ sym c.room_back),
        )
        refl

  after_read-Connected :
      length (refilled (b ∷ bytes) r) ≡ 128
      → Connected n
          (after_read k n (c.block (suc n % 1024)) (refilled (b ∷ bytes) r) s)
          (refilled (b ∷ bytes) r)
          (refilled (b ∷ bytes) r)
  unfolding after_read
  after_read-Connected full =
      let item = echoed (c.block (suc n % 1024)) (refilled (b ∷ bytes) r) in
      let block = block_with c.block (suc n % 1024) item in
      let here : block (suc n % 1024) ≡ item = rw (==_self (suc n % 1024)) refl in
      record {
        block = block;
        counted = c.counted;
        is_block =
            rw c.is_block (set-found s.reactor.evblk (suc n / 1024) c.block block c.is_block);
        reads = ap (λ (t : SockItem). t.rbuffer) here;
        writes = ap (λ (t : SockItem). t.wbuffer) here;
        room = full;
        room_back = full;
      }

  -- If the block of a descriptor above 0 is in the table, its item has two buffers of 128 places,
  -- recv stores at least one byte and at most 128, and a terminator stands in the read buffer
  -- then, so that printing it reads nothing outside, then the branch for EPOLLIN returns, the
  -- branch for EPOLLOUT after it returns too and sends exactly one message, the received bytes
  -- with the rest of the read buffer behind them, 128 in all, and the descriptor's item is ready
  -- for the next bytes
  pub on_write-on_read :
      k.recv s.log (suc n) 128 ≡ bytes_in (b ∷ bytes)
      → length bytes < 128
      → (printed : List ℕ) → c_string (refilled (b ∷ bytes) r) ≡ ok printed
      → (s₁ s₂ : Echo) × (on_read k fuel (suc n) s ≡ ok s₁)
        × (on_write k fuel (suc n) s₁ ≡ ok s₂)
        × (sent_to (suc n) s₂.log ≡ (refilled (b ∷ bytes) r) ∷ sent_to (suc n) s.log)
        × Connected n s₂ (refilled (b ∷ bytes) r) (refilled (b ∷ bytes) r)
  unfolding on_write bytes_of after_read
  on_write-on_read got fits printed text =
      let full : length (refilled (b ∷ bytes) r) ≡ 128 = omega (
        arith,
        length-append (b ∷ bytes) (drop (suc (length bytes)) r),
        length-drop (suc (length bytes)) r,
        c.room,
      ) in
      let s₁ = after_read k n (c.block (suc n % 1024)) (refilled (b ∷ bytes) r) s in
      let c₁ = after_read-Connected full in
      let written : on_write k fuel (suc n) s₁
          ≡ ok (
              control k ctl_mod (suc n) epollin
                (log_echo (Call.send_call (suc n) (refilled (b ∷ bytes) r)) s₁)) =
        rw
          (
            lookup-Connected k fuel n s₁ (refilled (b ∷ bytes) r) (refilled (b ∷ bytes) r) c₁,
            c₁.writes,
            read_array-all (refilled (b ∷ bytes) r) 128 full,
          )
          refl in
      (
        s₁,
        control k ctl_mod (suc n) epollin
            (log_echo (Call.send_call (suc n) (refilled (b ∷ bytes) r)) s₁),
        on_read-echoed got fits printed text,
        written,
        rw (==_self (suc n)) refl,
        record {
          block = c₁.block;
          counted = c₁.counted;
          is_block = c₁.is_block;
          reads = c₁.reads;
          writes = c₁.writes;
          room = full;
          room_back = full;
        },
      )

c_string-NonZero : (array : List ℕ) → NonZero array → c_string array ≡ fault
unfolding c_string
c_string-NonZero [] all = refl
c_string-NonZero (c ∷ array) (here, rest) =
    let other : (c == 0) ≡ false = ground (arith, here) in
    rw (other, c_string-NonZero array rest) refl

module _ (k : Kernel) (fuel n : ℕ) (s : Echo) (r w : List ℕ) (c : Connected n s r w) (b : ℕ)
    (bytes : List ℕ) where
  -- If the block of a descriptor above 0 is in the table, its item has two buffers of 128 places
  -- and recv stores 128 bytes with no zero among them, the branch for EPOLLIN reads outside the
  -- buffer when it prints it
  pub on_read-overreads :
      k.recv s.log (suc n) 128 ≡ bytes_in (b ∷ bytes)
      → length bytes ≡ 127
      → NonZero (b ∷ bytes)
      → on_read k fuel (suc n) s ≡ fault
  unfolding on_read received arrived bytes_of
  on_read-overreads got full all =
      let stored : fill (b ∷ bytes) r ≡ ok (b ∷ bytes) =
        fill-all (b ∷ bytes) r (omega (arith, c.room)) in
      rw (lookup-Connected k fuel n s r w c, c.reads, got, stored, c_string-NonZero (b ∷ bytes) all)
        refl
