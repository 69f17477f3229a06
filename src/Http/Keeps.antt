-- ===== src/Http/Keeps.antt =====
-- `recv_cb` of reactor+http/reactor_singlecb_http_c1000k.c and the registration of cells, branch by
-- branch.
use mathlib.Core.Path.{subst}
use hello_world.Prelude.{ℕ, ◌≡◌, refl, ◌∙◌, inl, inr, [], ◌∷◌, ◌==◌, Bool-cases, length, ℤ}
use hello_world.Outcome.{>>=-eq-ok, ok}
use hello_world.Sys.{Call, Received, Kernel, epollout, bytes_in, peer_closed, recv_error}
use hello_world.Reactor.Event.{Cell, log_call, with_app, nty_event_del, send_cb}
use hello_world.Reactor.Address.{address}
use hello_world.Reactor.Registration.{
  EpollWorks, Registered, Keeps, Keeps-trans, Keeps-app, Keeps-close, del-Deleted, Keeps-watch,
}
use hello_world.CString.{put, fill}
use hello_world.Http.Request.{HttpFields, buffer_length, zeroed_fields, nty_http_request}
use hello_world.Http.Callbacks.{econnreset, received_bytes, disconnect, after_recv, recv_body}

module _ (k : Kernel) (works : EpollWorks k) (fd : ℕ) where
  pub disconnect-Keeps :
      {A : Type 0} {c : Cell A}
      → Registered fd c
      → c.ev.fd ≡ fd
      → Keeps fd c (disconnect k (address fd) c)
  unfolding disconnect
  disconnect-Keeps {c} r own =
      let d = del-Deleted fd k works r in
      Keeps-trans fd d.keeps (Keeps-close fd d.keeps.registered d.status (d.same_fd ∙ own))

  after_recv-Keeps :
      (got : Received) {c c' : Cell HttpFields}
      → Registered fd c
      → c.ev.fd ≡ fd
      → after_recv k fd (address fd) got c ≡ ok c'
      → Keeps fd c c'
  unfolding after_recv
  after_recv-Keeps (bytes_in []) {c} r own h =
      subst (λ t. Keeps fd c t) (cc) (disconnect-Keeps r own)
  after_recv-Keeps (bytes_in (b ∷ bytes)) {c} r own h =
      let (buffer, e₁, h₁) = >>=-eq-ok (put c.ev.app.buffer (length (b ∷ bytes)) 0) _ h in
      let (app, e₂, h₂) =
        >>=-eq-ok
          (nty_http_request (record (c.ev.app) { buffer = buffer; length_in = length (b ∷ bytes) }))
          _ h₁ in
      let a = Keeps-app fd app r in
      let w =
        Keeps-watch fd k works zeroed_fields send_cb epollout (inr (refl, refl)) a.registered in
      subst (λ t. Keeps fd c t) (cc) (Keeps-trans fd a w)
  after_recv-Keeps peer_closed {c} r own h = subst (λ t. Keeps fd c t) (cc) (disconnect-Keeps r own)
  after_recv-Keeps (recv_error errno) {c} r own h = elim (Bool-cases (errno == econnreset)) [
    | inl e ↦ let h' = rw e at h in subst (λ t. Keeps fd c t) (cc) (disconnect-Keeps r own)
    | inr e ↦
        let h' = rw e at h in
        subst (λ t. Keeps fd c t) (cc) (record { registered = r; others = λ q ne. refl })
  ]

  -- `recv_cb` on the cell of its descriptor.
  pub recv_body-Keeps :
      (r : ℤ) {c c' : Cell HttpFields}
      → Registered fd c
      → c.ev.fd ≡ fd
      → recv_body k fd (address fd) c ≡ ok (r, c')
      → Keeps fd c c'
  unfolding recv_body
  recv_body-Keeps r {c} reg own h =
      let got = k.recv c.log fd buffer_length in
      let (buffer, e₁, h₁) = >>=-eq-ok (fill (received_bytes got) c.ev.app.buffer) _ h in
      let c₁ =
        with_app (record (c.ev.app) { buffer = buffer })
          (log_call (Call.recv_call fd buffer_length) c) in
      let a : Keeps fd c c₁ = record {
        registered = record {
          armed = reg.armed;
          status = reg.status;
          synced = reg.synced;
          lawful = (tt, reg.lawful);
        };
        others = λ q ne. refl;
      } in
      let d = del-Deleted fd k works a.registered in
      let (c₂, e₂, h₂) =
        >>=-eq-ok (after_recv k fd (address fd) got (nty_event_del k (address fd) c₁).1) _ h₁ in
      let f = after_recv-Keeps got d.keeps.registered (d.same_fd ∙ own) e₂ in
      subst (λ t. Keeps fd c t) (cc) (Keeps-trans fd a (Keeps-trans fd d.keeps f))
