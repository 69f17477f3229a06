-- ===== src/Websocket/Keeps.antt =====
-- The callbacks of reactor+websocket/reactor_singlecb_c1000k.c and the registration of cells, branch
-- by branch.
use hello_world.Http.Callbacks.{econnreset, received_bytes}
use hello_world.Http.Keeps.{disconnect-Keeps}
use mathlib.Core.Path.{subst}
use hello_world.Prelude.{
  ℕ, ◌≡◌, refl, ◌∙◌, inl, inr, [], ◌∷◌, ◌==◌, Bool-cases, length, ℤ, is_positive,
}
use hello_world.Outcome.{>>=-eq-ok, ok-injective, ok-second, ok}
use hello_world.CString.{put, fill, read_array}
use hello_world.Sys.{Call, Received, Kernel, epollin, epollout, bytes_in, peer_closed, recv_error}
use hello_world.Reactor.Event.{Cell, log_call, with_app, nty_event_del, recv_cb, send_cb}
use hello_world.Reactor.Address.{address}
use hello_world.Reactor.Registration.{
  EpollWorks, Registered, Keeps, Keeps-trans, Keeps-app, del-Deleted, Keeps-watch,
}
use hello_world.Reactor.Quiet.{Quiet, Quiet-trans, Quiet-app, Quiet-call, Keeps-Quiet}
use hello_world.Websocket.Fields.{WsFields, buffer_length, zeroed_fields, Crypto}
use hello_world.Websocket.Frame.{ws_request, ws_response}
use hello_world.Websocket.Callbacks.{ws_event_del, after_recv, recv_body, send_body}

module _ (crypto : Crypto) (k : Kernel) (works : EpollWorks k) (fd : ℕ) where
  after_recv-Keeps :
      (got : Received) {c c' : Cell WsFields}
      → Registered fd c
      → c.ev.fd ≡ fd
      → after_recv crypto k fd (address fd) got c ≡ ok c'
      → Keeps fd c c'
  unfolding after_recv
  after_recv-Keeps (bytes_in []) {c} r own h =
      subst (λ t. Keeps fd c t) (ok-injective h) (disconnect-Keeps k works fd r own)
  after_recv-Keeps (bytes_in (b ∷ bytes)) {c} r own h =
      let (buffer, e₁, h₁) = >>=-eq-ok (put c.ev.app.buffer (length (b ∷ bytes)) 0) _ h in
      let (app, e₂, h₂) =
        >>=-eq-ok
          (ws_request crypto
            (record (c.ev.app) { buffer = buffer; length_in = length (b ∷ bytes) }))
          _ h₁ in
      let a = Keeps-app fd app r in
      let w =
        Keeps-watch fd k works zeroed_fields send_cb epollout (inr (refl, refl)) a.registered in
      subst (λ t. Keeps fd c t) (ok-injective h₂) (Keeps-trans fd a w)
  after_recv-Keeps peer_closed {c} r own h =
      subst (λ t. Keeps fd c t) (ok-injective h) (disconnect-Keeps k works fd r own)
  after_recv-Keeps (recv_error errno) {c} r own h = elim (Bool-cases (errno == econnreset)) [
    | inl e ↦
        subst (λ t. Keeps fd c t) (ok-injective (rw e at h)) (disconnect-Keeps k works fd r own)
    | inr e ↦
        subst (λ t. Keeps fd c t) (ok-injective (rw e at h))
          (record { registered = r; others = λ q ne. refl })
  ]

  -- `recv_cb` on the cell of its descriptor.
  pub recv_body-Keeps :
      (r : ℤ) {c c' : Cell WsFields}
      → Registered fd c
      → c.ev.fd ≡ fd
      → recv_body crypto k fd (address fd) c ≡ ok (r, c')
      → Keeps fd c c'
  unfolding recv_body ws_event_del
  recv_body-Keeps r {c} reg own h =
      let got = k.recv c.log fd buffer_length in
      let (buffer, e₁, h₁) = >>=-eq-ok (fill (received_bytes got) c.ev.app.buffer) _ h in
      let c₁ =
        with_app (record (c.ev.app) { buffer = buffer })
          (log_call (Call.recv_call fd buffer_length) c) in
      let g =
        Quiet-trans (Quiet-call (Call.recv_call fd buffer_length) c (λ q w. refl) (λ log. tt))
          (Quiet-app (record (c.ev.app) { buffer = buffer }) _) in
      let a : Keeps fd c c₁ = Keeps-Quiet fd g reg in
      let d = del-Deleted fd k works a.registered in
      let (c₂, e₂, h₂) =
        >>=-eq-ok (after_recv crypto k fd (address fd) got (nty_event_del k (address fd) c₁).1) _
          h₁ in
      let f = after_recv-Keeps got d.keeps.registered (d.same_fd ∙ own) e₂ in
      subst (λ t. Keeps fd c t) (ok-second h₂) (Keeps-trans fd a (Keeps-trans fd d.keeps f))

  -- `send_cb` on the cell of its descriptor.
  pub send_body-Keeps :
      (r : ℤ) {c c' : Cell WsFields}
      → Registered fd c
      → c.ev.fd ≡ fd
      → send_body crypto k fd (address fd) c ≡ ok (r, c')
      → Keeps fd c c'
  unfolding send_body ws_event_del
  send_body-Keeps r {c} {c'} reg own h =
      let ((r₀, app), e₁, h₁) = >>=-eq-ok (ws_response c.ev.app) _ h in
      let (bytes, e₂, h₂) = >>=-eq-ok (read_array app.wlength app.wbuffer) _ h₁ in
      let c₁ = with_app app c in
      let c₂ = log_call (Call.send_call fd bytes) c₁ in
      let g : Quiet c c₂ =
        Quiet-trans (Quiet-app app c)
          (Quiet-call (Call.send_call fd bytes) c₁ (λ q w. refl) (λ log. tt)) in
      let g' = Keeps-Quiet fd g reg in
      elim (Bool-cases (is_positive (k.send c.log fd bytes))) [
        | inl e ↦
            let d = del-Deleted fd k works g'.registered in
            subst (λ t. Keeps fd c t) (ok-second (rw e at h₂))
              (Keeps-trans fd g' (
                Keeps-trans fd d.keeps (
                  Keeps-watch fd k works zeroed_fields recv_cb epollin (inl (refl, inl refl))
                    d.keeps.registered)))
        | inr e ↦
            subst (λ t. Keeps fd c t) (ok-second (rw e at h₂))
              (Keeps-trans fd g' (disconnect-Keeps k works fd g'.registered own))
      ]
