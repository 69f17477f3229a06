-- ===== src/Echo/Loop.antt =====
-- The start and the event loop of zero_threadpool/reactor/c1000k/server.c. Its registrations carry
-- the descriptor itself, `ev.data.fd`: here the pair of 0 and the descriptor. The endless loop is
-- followed for a number of turns.
use hello_world.Prelude.{
  ℕ, zero, suc, ◌+◌, ◌%◌, Bool, true, false, ◌||◌, Option, none, some, List, [], ◌∷◌, ◌==◌,
  if◌then◌else◌, has_flag, ℤ, minus_one, is_negative, pos, negsuc,
}
use hello_world.Outcome.{Outcome, ◌>>=◌, ok, fault}
use hello_world.CString.{zeros, fill, read_array, c_string}
use hello_world.Sys.{
  Ptr, CtlOp, Call, Log, Received, Ready, Kernel, epollin, epollout, ctl_add, ctl_mod, bytes_in,
  peer_closed, recv_error,
}
use hello_world.Echo.Table.{
  buffer_length, Buffer, SockItem, Reactor, Echo, log_echo, store_item, lookup_item, null, freed,
  live,
}

abbrev pub port_count : ℕ
port_count = 100

-- `init_server`; the flags of `fcntl` are set whatever it returns.
unfoldable pub init_server : Kernel → (port : ℕ) → Log → ℤ × Log
init_server k port log =
    let listenfd = k.socket log in
    let log₁ = Call.socket_call ∷ log in
    let bound = k.bind log₁ listenfd (port % 65536) in
    let log₂ = Call.bind_call listenfd (port % 65536) ∷ log₁ in
    if is_negative listenfd
    then (minus_one, log₁)
    else if bound
    then (listenfd, Call.listen_call listenfd 10 ∷ Call.set_nonblocking_call listenfd ∷ log₂)
    else (negsuc 1, log₂)

unfoldable pub is_listenfd : List ℤ → ℕ → Bool
is_listenfd [] connfd = false
is_listenfd (pos fd ∷ fds) connfd = fd == connfd || is_listenfd fds connfd
is_listenfd (negsuc n ∷ fds) connfd = is_listenfd fds connfd

-- `ev.events = events; ev.data.fd = fd; epoll_ctl(r->epfd, op, fd, &ev);`
unfoldable pub control : Kernel → CtlOp → (fd events : ℕ) → Echo → Echo
control k op fd events s =
    log_echo (Call.epoll_ctl_call op fd events (0, fd) (k.epoll_ctl s.log op fd events)) s

-- A descriptor below 0 is refused.
unfoldable pub listen_on : Kernel → ℤ → Echo → Echo
unfolding control
listen_on k (pos fd) s = control k ctl_add fd epollin s
listen_on k (negsuc n) s = s

-- The opening of `n` ports from `port` on.
unfoldable pub open_ports : Kernel → (n port : ℕ) → Echo → List ℤ × Echo
unfolding init_server listen_on
open_ports k zero port s = ([], s)
open_ports k (suc n) port s =
    let (sockfd, log₁) = init_server k port s.log in
    let (fds, s') = open_ports k n (port + 1) (listen_on k sockfd (record s { log = log₁ })) in
    (sockfd ∷ fds, s')

-- `calloc(1, BUFFER_LENGTH)`
unfoldable pub calloc_buffer : Kernel → Echo → Buffer × Echo
calloc_buffer k s = (
  if k.malloc s.log then live (zeros buffer_length) else null,
  log_echo (Call.malloc_call (k.malloc s.log)) s,
)

-- Behind a successful `accept`.
unfoldable pub add_client : Kernel → (fuel connfd : ℕ) → Echo → Outcome Echo
unfolding control lookup_item calloc_buffer store_item
add_client k fuel connfd s =
    let s₁ =
      control k ctl_add connfd epollin (log_echo (Call.set_nonblocking_call (pos connfd)) s) in
    do
      (p, item, s₂) ← lookup_item k fuel connfd s₁
      let (rbuffer, s₃) = calloc_buffer k s₂
      let (wbuffer, s₄) = calloc_buffer k s₃
      ok (
          store_item p
            (record item {
              fd = connfd;
              rbuffer = rbuffer;
              rlength = 0;
              wbuffer = wbuffer;
              wlength = 0;
            })
            s₄)

unfoldable pub bytes_of : Buffer → Outcome (List ℕ)
bytes_of null = fault
bytes_of freed = fault
bytes_of (live bytes) = ok bytes

-- A pointer that is freed twice is undefined behaviour.
unfoldable pub free_buffer : Buffer → Outcome Buffer
free_buffer null = ok null
free_buffer freed = fault
free_buffer (live bytes) = ok freed

-- The end of a connection.
unfoldable pub drop_client : (fd : ℕ) → Ptr → SockItem → Echo → Outcome Echo
unfolding free_buffer store_item
drop_client fd p item s = do
  freed_r ← free_buffer item.rbuffer
  freed_w ← free_buffer item.wbuffer
  let item' = record item { fd = 0; rbuffer = freed_r; wbuffer = freed_w }
  ok (
      store_item p item'
        (log_echo (Call.close_call (pos fd)) (log_echo Call.free_call (log_echo Call.free_call s))))

-- `memcpy(wbuffer, rbuffer, BUFFER_LENGTH)`, and the wait for room to write.
unfoldable pub copy_back :
    Kernel → (fd : ℕ) → (rbuffer : List ℕ) → Ptr → SockItem → Echo → Outcome Echo
unfolding bytes_of read_array fill control store_item
copy_back k fd rbuffer p item s = do
  wbuffer ← bytes_of item.wbuffer
  copied ← read_array buffer_length rbuffer
  filled ← fill copied wbuffer
  ok (
      control k ctl_mod fd epollout
        (store_item p (record item { rbuffer = live rbuffer; wbuffer = live filled }) s))

-- The branches on the result of `recv`, which stored its bytes in `rbuffer`. `printf` reads the
-- buffer up to a terminator.
unfoldable pub received :
    Kernel → (fd : ℕ) → Received → (rbuffer : List ℕ) → Ptr → SockItem → Echo → Outcome Echo
unfolding copy_back drop_client c_string
received k fd (bytes_in []) rbuffer p item s = drop_client fd p item s
received k fd (bytes_in (b ∷ bytes)) rbuffer p item s = do
  printed ← c_string rbuffer
  copy_back k fd rbuffer p item s
received k fd peer_closed rbuffer p item s = drop_client fd p item s
received k fd (recv_error errno) rbuffer p item s = ok s

unfoldable pub arrived : Received → List ℕ
arrived (bytes_in bytes) = bytes
arrived peer_closed = []
arrived (recv_error errno) = []

-- The branch for `EPOLLIN`.
unfoldable pub on_read : Kernel → (fuel fd : ℕ) → Echo → Outcome Echo
unfolding lookup_item bytes_of arrived fill received
on_read k fuel fd s = do
  (p, item, s₁) ← lookup_item k fuel fd s
  rbuffer ← bytes_of item.rbuffer
  let got = k.recv s₁.log fd buffer_length
  filled ← fill (arrived got) rbuffer
  received k fd got filled p item (log_echo (Call.recv_call fd buffer_length) s₁)

-- The branch for `EPOLLOUT`: the whole buffer is sent, and the result of `send` is only printed.
unfoldable pub on_write : Kernel → (fuel fd : ℕ) → Echo → Outcome Echo
unfolding lookup_item bytes_of read_array control
on_write k fuel fd s = do
  (p, item, s₁) ← lookup_item k fuel fd s
  wbuffer ← bytes_of item.wbuffer
  bytes ← read_array buffer_length wbuffer
  ok (control k ctl_mod fd epollin (log_echo (Call.send_call fd bytes) s₁))

-- On a failing `accept` the entries behind it are dropped: `break`.
unfoldable pub accept_one : Kernel → (fuel : ℕ) → Option ℕ → Echo → Outcome (Bool × Echo)
unfolding add_client
accept_one k fuel none s = ok (false, s)
accept_one k fuel (some connfd) s = do s' ← add_client k fuel connfd s; ok (true, s')

-- One entry; the Boolean says whether the loop over the entries goes on.
unfoldable pub on_ready : Kernel → (fuel : ℕ) → List ℤ → Ready → Echo → Outcome (Bool × Echo)
unfolding is_listenfd accept_one on_read on_write
on_ready k fuel fds ready s =
    let clientfd = ready.ptr.1 in
    if is_listenfd fds clientfd
    then accept_one k fuel (k.accept s.log clientfd) (log_echo (Call.accept_call clientfd) s)
    else if has_flag ready.events epollin
    then (do s' ← on_read k fuel clientfd s; ok (true, s'))
    else if has_flag ready.events epollout
    then (do s' ← on_write k fuel clientfd s; ok (true, s'))
    else ok (true, s)

unfoldable pub on_all : Kernel → (fuel : ℕ) → List ℤ → List Ready → Echo → Outcome Echo
unfolding on_ready
on_all k fuel fds [] s = ok s
on_all k fuel fds (ready ∷ rest) s = do
  (more, s') ← on_ready k fuel fds ready s
  let others = on_all k fuel fds rest s'
  if more then others else ok s'

unfoldable pub turn : Kernel → (fuel : ℕ) → List ℤ → Option (List Ready) → Echo → Outcome Echo
unfolding on_all
turn k fuel fds none s = ok s
turn k fuel fds (some ready) s = on_all k fuel fds ready s

unfoldable pub turns : Kernel → (fuel : ℕ) → List ℤ → ℕ → Echo → Outcome Echo
unfolding turn
turns k fuel fds zero s = ok s
turns k fuel fds (suc n) s = do
  s' ← turn k fuel fds (k.epoll_wait s.log) (log_echo Call.epoll_wait_call s)
  turns k fuel fds n s'

-- `main` for `n` turns. Without memory for the reactor it returns at once.
unfoldable pub echo_main : Kernel → (fuel n : ℕ) → Outcome Echo
unfolding open_ports turns
echo_main k fuel n =
    let got = k.malloc [] in
    let log₁ = Call.malloc_call got ∷ [] in
    let empty : Reactor = record { epfd = k.epoll_create log₁; blkcnt = 0; evblk = [] } in
    let (fds, s) =
      open_ports k port_count 9999
        (record { reactor = empty; log = Call.epoll_create_call ∷ log₁ }) in
    if got
    then turns k fuel fds n s
    else ok (record { reactor = record empty { epfd = pos 0 }; log = log₁ })
