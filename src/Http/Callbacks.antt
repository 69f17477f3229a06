-- ===== src/Http/Callbacks.antt =====
-- The callbacks of reactor+http/reactor_singlecb_http_c1000k.c, and its `main`.
use hello_world.Prelude.{
  ℕ, ◌+◌, Option, none, some, List, [], ◌∷◌, ◌==◌, if◌then◌else◌, length, ℤ, minus_one, is_positive,
  pos, negsuc,
}
use hello_world.Outcome.{Outcome, ◌>>=◌, ok, fault}
use hello_world.CString.{crlf, put, fill, read_array}
use hello_world.Sys.{
  Ptr, Call, Received, Kernel, epollin, epollout, bytes_in, peer_closed, recv_error,
}
use hello_world.Reactor.Event.{
  Callback, Cell, log_call, with_app, nty_event_del, null_cb, recv_cb, send_cb, accept_cb,
}
use hello_world.Reactor.Table.{Server, log_server, at_cell, watch, watch_body}
use hello_world.Http.Request.{HttpFields, buffer_length, zeroed_fields, nty_http_request}
use hello_world.Http.Response.{open_resource, nty_http_response}

abbrev pub econnreset : ℕ
econnreset = 104

-- The result of `recv`, and what it stored.
abbrev pub received_length : Received → ℤ
received_length (bytes_in bytes) = pos (length bytes)
received_length peer_closed = pos 0
received_length (recv_error errno) = minus_one

abbrev pub received_bytes : Received → List ℕ
received_bytes (bytes_in bytes) = bytes
received_bytes peer_closed = []
received_bytes (recv_error errno) = []

-- What `open` returns.
abbrev pub descriptor_or : Option ℕ → ℤ
descriptor_or none = minus_one
descriptor_or (some n) = pos n

-- `nty_event_del(reactor->epfd, ev); close(ev->fd);`
unfoldable pub disconnect : {A : Type 0} → Kernel → Ptr → Cell A → Cell A
unfolding nty_event_del
disconnect k p c = let c₁ = (nty_event_del k p c).1 in log_call (Call.close_call (pos c₁.ev.fd)) c₁

-- The file behind the header: blocking while `sendfile` runs, and not afterwards.
unfoldable pub send_file : Kernel → ℕ → Cell HttpFields → Outcome (Cell HttpFields)
unfolding open_resource
send_file k fd c = do
  (found, c₁) ← open_resource k c
  let filefd = descriptor_or found
  let size = k.file_size c₁.log filefd
  let c₂ = log_call (Call.set_blocking_call (pos fd)) (log_call (Call.fstat_call filefd) c₁)
  let c₃ =
      log_call (Call.set_nonblocking_call (pos fd))
        (log_call (Call.sendfile_call fd filefd size) c₂)
  let c₄ = log_call (Call.send_call fd crlf) (log_call (Call.close_call filefd) c₃)
  ok c₄

module _ (k : Kernel) (fd : ℕ) (p : Ptr) where
  -- The branches on `len` in `recv_cb`. `errno == EAGAIN && errno == EWOULDBLOCK` guards an empty
  -- block, and the one other `errno` that is looked at differs from it.
  unfoldable pub after_recv : Received → Cell HttpFields → Outcome (Cell HttpFields)
  unfolding put nty_http_request watch disconnect
  after_recv (bytes_in []) c = ok (disconnect k p c)
  after_recv (bytes_in (b ∷ bytes)) c = do
    buffer ← put c.ev.app.buffer (length (b ∷ bytes)) 0
    app ← nty_http_request (record (c.ev.app) { buffer = buffer; length_in = length (b ∷ bytes) })
    ok (watch zeroed_fields k fd send_cb epollout p (with_app app c))
  after_recv peer_closed c = ok (disconnect k p c)
  after_recv (recv_error errno) c = if errno == econnreset then ok (disconnect k p c) else ok c

  unfoldable pub recv_body : Cell HttpFields → Outcome (ℤ × Cell HttpFields)
  unfolding fill nty_event_del after_recv
  recv_body c =
      let got = k.recv c.log fd buffer_length in
      do
        buffer ← fill (received_bytes got) c.ev.app.buffer
        let c₁ =
            with_app (record (c.ev.app) { buffer = buffer })
              (log_call (Call.recv_call fd buffer_length) c)
        c₂ ← after_recv got (nty_event_del k p c₁).1
        ok (received_length got, c₂)

  unfoldable pub send_body : Cell HttpFields → Outcome (ℤ × Cell HttpFields)
  unfolding nty_http_response read_array send_file nty_event_del watch disconnect
  send_body c = do
    c₁ ← nty_http_response k c
    bytes ← read_array c₁.ev.app.wlength c₁.ev.app.wbuffer
    let len = k.send c₁.log fd bytes
    let c₂ = log_call (Call.send_call fd bytes) c₁
    if is_positive len
        then (do
          c₃ ← send_file k fd c₂
          ok (len, watch zeroed_fields k fd recv_cb epollin p (nty_event_del k p c₃).1))
        else ok (len, disconnect k p c₂)

-- `curfds++` is reached once the client is registered.
abbrev pub count_client : ℤ × Server HttpFields → Outcome (ℤ × Server HttpFields)
count_client (pos n, s) = ok (pos 0, record s { curfds = s.curfds + 1 })
count_client (negsuc n, s) = ok (negsuc n, s)

module _ (k : Kernel) (fuel : ℕ) where
  unfoldable pub recv_callback : ℕ → Server HttpFields → Outcome (ℤ × Server HttpFields)
  unfolding at_cell recv_body
  recv_callback fd = at_cell zeroed_fields k fuel (pos fd) (recv_body k fd)

  unfoldable pub send_callback : ℕ → Server HttpFields → Outcome (ℤ × Server HttpFields)
  unfolding at_cell send_body
  send_callback fd = at_cell zeroed_fields k fuel (pos fd) (send_body k fd)

  unfoldable pub accept_client : ℕ → Server HttpFields → Outcome (ℤ × Server HttpFields)
  unfolding at_cell watch_body
  accept_client clientfd s =
      let s₁ = log_server (Call.set_nonblocking_call (pos clientfd)) s in
      if k.set_nonblocking s.log clientfd
      then (do
        (r, s₂) ←
            at_cell zeroed_fields k fuel (pos clientfd)
              (watch_body zeroed_fields k clientfd recv_cb epollin) s₁
        count_client (r, s₂))
      else ok (minus_one, s₁)

  -- On a failing `accept` both values of `errno` that are looked at lead to the same return.
  unfoldable pub accepted : Option ℕ → Server HttpFields → Outcome (ℤ × Server HttpFields)
  unfolding accept_client
  accepted none s = ok (minus_one, s)
  accepted (some clientfd) s = accept_client clientfd s

  unfoldable pub accept_callback : ℕ → Server HttpFields → Outcome (ℤ × Server HttpFields)
  unfolding accepted
  accept_callback fd s =
      let s₁ = log_server (Call.accept_call fd) s in accepted (k.accept s.log fd) s₁

  -- The call through `ev->callback`; an untouched cell holds a null pointer.
  unfoldable pub call : Callback → ℕ → Server HttpFields → Outcome (ℤ × Server HttpFields)
  unfolding recv_callback send_callback accept_callback
  call null_cb fd s = fault
  call recv_cb fd s = recv_callback fd s
  call send_cb fd s = send_callback fd s
  call accept_cb fd s = accept_callback fd s
