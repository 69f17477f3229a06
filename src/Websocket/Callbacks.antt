-- ===== src/Websocket/Callbacks.antt =====
-- The callbacks of reactor+websocket/reactor_singlecb_c1000k.c, on the reactor that it shares with the
-- HTTP server.
use hello_world.Http.Callbacks.{econnreset, received_length, received_bytes, disconnect}
use hello_world.Prelude.{
  ℕ, Option, none, some, [], ◌∷◌, ◌==◌, if◌then◌else◌, length, ℤ, minus_one, is_positive, pos,
}
use hello_world.Outcome.{Outcome, ◌>>=◌, ok, fault}
use hello_world.CString.{put, fill, read_array}
use hello_world.Sys.{
  Ptr, Call, Received, Kernel, epollin, epollout, bytes_in, peer_closed, recv_error,
}
use hello_world.Reactor.Event.{
  Callback, Cell, log_call, with_app, nty_event_set, nty_event_add, nty_event_del, null_cb, recv_cb,
  send_cb, accept_cb,
}
use hello_world.Reactor.Table.{Server, log_server, at_cell, watch, watch_body}
use hello_world.Websocket.Fields.{WsFields, buffer_length, zeroed_fields, Crypto}
use hello_world.Websocket.Frame.{ws_request, ws_response}

-- The reactor's functions on this server's cells.
unfoldable pub ws_event_set : ℕ → Callback → Cell WsFields → Cell WsFields
unfolding nty_event_set
ws_event_set = nty_event_set

unfoldable pub ws_event_add : Kernel → Ptr → ℕ → Cell WsFields → ℤ × Cell WsFields
unfolding nty_event_add
ws_event_add = nty_event_add

unfoldable pub ws_event_del : Kernel → Ptr → Cell WsFields → ℤ × Cell WsFields
unfolding nty_event_del
ws_event_del = nty_event_del

module _ (crypto : Crypto) (k : Kernel) (fd : ℕ) (p : Ptr) where
  -- The branches on `len` in `recv_cb`; see `after_recv` of the HTTP server for `errno`.
  unfoldable pub after_recv : Received → Cell WsFields → Outcome (Cell WsFields)
  unfolding put ws_request watch disconnect
  after_recv (bytes_in []) c = ok (disconnect k p c)
  after_recv (bytes_in (b ∷ bytes)) c = do
    buffer ← put c.ev.app.buffer (length (b ∷ bytes)) 0
    app ← ws_request crypto (record (c.ev.app) { buffer = buffer; length_in = length (b ∷ bytes) })
    ok (watch zeroed_fields k fd send_cb epollout p (with_app app c))
  after_recv peer_closed c = ok (disconnect k p c)
  after_recv (recv_error errno) c = if errno == econnreset then ok (disconnect k p c) else ok c

  unfoldable pub recv_body : Cell WsFields → Outcome (ℤ × Cell WsFields)
  unfolding fill ws_event_del after_recv
  recv_body c =
      let got = k.recv c.log fd buffer_length in
      do
        buffer ← fill (received_bytes got) c.ev.app.buffer
        let c₁ =
            with_app (record (c.ev.app) { buffer = buffer })
              (log_call (Call.recv_call fd buffer_length) c)
        c₂ ← after_recv got (ws_event_del k p c₁).1
        ok (received_length got, c₂)

  unfoldable pub send_body : Cell WsFields → Outcome (ℤ × Cell WsFields)
  unfolding ws_response read_array ws_event_del watch disconnect
  send_body c = do
    (r, app) ← ws_response c.ev.app
    bytes ← read_array app.wlength app.wbuffer
    let c₁ = with_app app c
    let len = k.send c₁.log fd bytes
    let c₂ = log_call (Call.send_call fd bytes) c₁
    if is_positive len
        then ok (len, watch zeroed_fields k fd recv_cb epollin p (ws_event_del k p c₂).1)
        else ok (len, disconnect k p c₂)

module _ (crypto : Crypto) (k : Kernel) (fuel : ℕ) where
  unfoldable pub recv_callback : ℕ → Server WsFields → Outcome (ℤ × Server WsFields)
  unfolding at_cell recv_body
  recv_callback fd = at_cell zeroed_fields k fuel (pos fd) (recv_body crypto k fd)

  unfoldable pub send_callback : ℕ → Server WsFields → Outcome (ℤ × Server WsFields)
  unfolding at_cell send_body
  send_callback fd = at_cell zeroed_fields k fuel (pos fd) (send_body crypto k fd)

  -- Behind a successful `accept`. The cell keeps the `wsstatus` of the descriptor's last client.
  unfoldable pub accept_client : ℕ → Server WsFields → Outcome (ℤ × Server WsFields)
  unfolding at_cell watch_body
  accept_client clientfd s =
      let s₁ = log_server (Call.set_nonblocking_call (pos clientfd)) s in
      if k.set_nonblocking s.log clientfd
      then at_cell zeroed_fields k fuel (pos clientfd)
          (watch_body zeroed_fields k clientfd recv_cb epollin) s₁
      else ok (minus_one, s₁)

  unfoldable pub accepted : Option ℕ → Server WsFields → Outcome (ℤ × Server WsFields)
  unfolding accept_client
  accepted none s = ok (minus_one, s)
  accepted (some clientfd) s = accept_client clientfd s

  unfoldable pub accept_callback : ℕ → Server WsFields → Outcome (ℤ × Server WsFields)
  unfolding accepted
  accept_callback fd s =
      let s₁ = log_server (Call.accept_call fd) s in accepted (k.accept s.log fd) s₁

  unfoldable pub call : Callback → ℕ → Server WsFields → Outcome (ℤ × Server WsFields)
  unfolding recv_callback send_callback accept_callback
  call null_cb fd s = fault
  call recv_cb fd s = recv_callback fd s
  call send_cb fd s = send_callback fd s
  call accept_cb fd s = accept_callback fd s
