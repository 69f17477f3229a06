-- ===== src/Websocket/Reuse.antt =====
-- A new client of reactor+websocket/reactor_singlecb_c1000k.c on a descriptor that was used before.
use mathlib.Core.Path.{subst}
use hello_world.Http.Callbacks.{received_length, received_bytes, disconnect}
use hello_world.Prelude.{
  ℕ, suc, ◌≡◌, refl, sym, ap, ◌∙◌, inl, inr, [], ◌∷◌, arith, ◌==◌, if◌then◌else◌, ==→eq, Bool-cases,
  Option-cases, length, ℤ, pos,
}
use hello_world.Outcome.{>>=-eq-ok, ok-injective, ok-second, ok}
use hello_world.Sys.{Ptr, Call, Received, Kernel, epollin, bytes_in, peer_closed, recv_error}
use hello_world.Reactor.Event.{
  NtyEvent, Cell, log_call, with_app, nty_event_set, nty_event_add, nty_event_del, recv_cb,
}
use hello_world.Reactor.Table.{Server, log_server, watch, watch_body}
use hello_world.Reactor.Address.{address, view}
use hello_world.Reactor.Cells.{IsTable, at_cell-Ran}
use hello_world.Websocket.Fields.{WsFields, buffer_length, zeroed_fields, Crypto}
use hello_world.Websocket.Callbacks.{
  ws_event_del, after_recv, recv_body, recv_callback, accept_client, accepted, accept_callback,
}
use hello_world.CString.{fill}
use hello_world.CString.Laws.{fill-ok}
use hello_world.Sys.{Ptr, Call, Received, Kernel, epollin, bytes_in, peer_closed, recv_error}

del-app : (k : Kernel) (p : Ptr) (c : Cell WsFields) → (nty_event_del k p c).1.ev.app ≡ c.ev.app
unfolding nty_event_del
del-app k p c = elim (Bool-cases (c.ev.status == 1)) [ inl e ↦ rw e refl | inr e ↦ rw e refl ]

disconnect-app : (k : Kernel) (p : Ptr) (c : Cell WsFields) → (disconnect k p c).ev.app ≡ c.ev.app
unfolding disconnect
disconnect-app k p c = del-app k p c

-- What `recv_cb` does when it gets no bytes.
record Closes (crypto : Crypto) (k : Kernel) (fd : ℕ) (p : Ptr) (got : Received) : Type 0 where
  no_bytes : received_bytes got ≡ []
  closes : (c : Cell WsFields) → after_recv crypto k fd p got c ≡ ok (disconnect k p c)

zero-Closes :
    (crypto : Crypto) (k : Kernel) (fd : ℕ) (p : Ptr) (got : Received)
    → received_length got ≡ pos 0
    → Closes crypto k fd p got
unfolding after_recv
zero-Closes crypto k fd p (bytes_in []) e = record { no_bytes = refl; closes = λ c. refl }
zero-Closes crypto k fd p (bytes_in (b ∷ bytes)) e =
    absurd (let h : suc (length bytes) ≡ 0 = cc in omega (arith, h))
zero-Closes crypto k fd p peer_closed e = record { no_bytes = refl; closes = λ c. refl }
zero-Closes crypto k fd p (recv_error errno) e = absurd (cc)

module _ (crypto : Crypto) (k : Kernel) (fuel : ℕ) where
  recv_body-app :
      (fd : ℕ) (p : Ptr) (c c' : Cell WsFields)
      → recv_body crypto k fd p c ≡ ok (pos 0, c')
      → c'.ev.app ≡ c.ev.app
  unfolding recv_body ws_event_del
  recv_body-app fd p c c' h =
      let got = k.recv c.log fd buffer_length in
      let (buffer, e₁, h₁) = >>=-eq-ok (fill (received_bytes got) c.ev.app.buffer) _ h in
      let c₁ =
        with_app (record (c.ev.app) { buffer = buffer })
          (log_call (Call.recv_call fd buffer_length) c) in
      let (c₂, e₂, h₂) = >>=-eq-ok (after_recv crypto k fd p got (nty_event_del k p c₁).1) _ h₁ in
      let none_got = zero-Closes crypto k fd p got (ap (λ out. out.0) (ok-injective h₂)) in
      let kept : c.ev.app.buffer ≡ buffer = ok-injective (
        sym (fill-ok [] c.ev.app.buffer (omega arith))
        ∙ ap (λ text. fill text c.ev.app.buffer) (sym none_got.no_bytes)
        ∙ e₁) in
      let gone : disconnect k p (nty_event_del k p c₁).1 ≡ c' =
        ok-injective (sym (none_got.closes (nty_event_del k p c₁).1) ∙ e₂) ∙ ok-second h₂ in
      ap (λ (t : Cell WsFields). t.ev.app) (sym gone)
      ∙ disconnect-app k p (nty_event_del k p c₁).1
      ∙ del-app k p c₁
      ∙ ap (λ b. record (c.ev.app) { buffer = b }) (sym kept)

  app-store :
      (fd q : ℕ) (ev : NtyEvent WsFields) (old : ℕ → NtyEvent WsFields)
      → ev.app ≡ (old fd).app
      → (if fd == q then ev else old q).app ≡ (old q).app
  app-store fd q ev old h = elim (Bool-cases (fd == q)) [
    | inl e ↦ let same : fd ≡ q = ==→eq fd q e in rw e (h ∙ ap (λ j. (old j).app) same)
    | inr e ↦ rw e refl
  ]

  watch_body-app :
      (clientfd : ℕ) (p : Ptr) (c c' : Cell WsFields) (r : ℤ)
      → watch_body zeroed_fields k clientfd recv_cb epollin p c ≡ ok (r, c')
      → c'.ev.app ≡ c.ev.app
  unfolding watch_body watch nty_event_set nty_event_add
  watch_body-app clientfd p c c' r h =
      subst (λ (t : Cell WsFields). t.ev.app ≡ c.ev.app) (ok-second h) refl

  accept_client-app :
      (clientfd : ℕ) (s s' : Server WsFields) (r : ℤ)
      → IsTable s.reactor
      → accept_client crypto k fuel clientfd s ≡ ok (r, s')
      → (q : ℕ)
      → (view zeroed_fields s'.reactor.evblks q).app ≡ (view zeroed_fields s.reactor.evblks q).app
  unfolding accept_client
  accept_client-app clientfd s s' r table h q =
      let s₁ = log_server (Call.set_nonblocking_call (pos clientfd)) s in
      elim (Bool-cases (k.set_nonblocking s.log clientfd)) [
        | inl e ↦
            let ran =
              at_cell-Ran zeroed_fields k (watch_body zeroed_fields k clientfd recv_cb epollin) fuel
                clientfd s₁ s' r table (rw e at h) in
            ap (λ (t : NtyEvent WsFields). t.app) (ran.view_after q)
            ∙ app-store clientfd q ran.cell.ev (view zeroed_fields s.reactor.evblks) (
                watch_body-app clientfd (address clientfd)
                  (record { ev = view zeroed_fields s₁.reactor.evblks clientfd; log = ran.log₁ })
                  ran.cell r ran.ran)
        | inr e ↦
            subst
              (λ (t : Server WsFields).
                (view zeroed_fields t.reactor.evblks q).app
                ≡ (view zeroed_fields s.reactor.evblks q).app)
              (ok-second (rw e at h)) refl
      ]

  accept_callback-app :
      (fd : ℕ) (s s' : Server WsFields) (r : ℤ)
      → IsTable s.reactor
      → accept_callback crypto k fuel fd s ≡ ok (r, s')
      → (q : ℕ)
      → (view zeroed_fields s'.reactor.evblks q).app ≡ (view zeroed_fields s.reactor.evblks q).app
  unfolding accept_callback
  accept_callback-app fd s s' r table h q = elim (Option-cases (k.accept s.log fd)) [
    | inl e ↦
        subst
          (λ (t : Server WsFields).
            (view zeroed_fields t.reactor.evblks q).app
            ≡ (view zeroed_fields s.reactor.evblks q).app)
          (ok-second (rw (e, accepted) at h)) refl
    | inr (clientfd, e) ↦
        accept_client-app clientfd (log_server (Call.accept_call fd) s) s' r table
          (rw (e, accepted) at h) q
  ]

  recv_callback-app :
      (fd : ℕ) (s s' : Server WsFields)
      → IsTable s.reactor
      → recv_callback crypto k fuel fd s ≡ ok (pos 0, s')
      → IsTable s'.reactor
        × ((q : ℕ)
            → (view zeroed_fields s'.reactor.evblks q).app
              ≡ (view zeroed_fields s.reactor.evblks q).app)
  unfolding recv_callback
  recv_callback-app fd s s' table h =
      let ran = at_cell-Ran zeroed_fields k (recv_body crypto k fd) fuel fd s s' (pos 0) table h in
      (
        ran.table,
        λ q.
            ap (λ (t : NtyEvent WsFields). t.app) (ran.view_after q)
            ∙ app-store fd q ran.cell.ev (view zeroed_fields s.reactor.evblks) (
                recv_body-app fd (address fd)
                  (record { ev = view zeroed_fields s.reactor.evblks fd; log = ran.log₁ }) ran.cell
                  ran.ran),
      )

  -- If the table is as the reactor keeps it, recv_cb of the websocket server returns 0, and so
  -- closes the connection, and accept_cb returns after it, then every cell has the buffers,
  -- lengths, key and wsstatus that it had before both, the closed client's cell and the new
  -- client's among them
  pub accept_callback-recv_callback :
      (listenfd fd : ℕ) (s s₁ s₂ : Server WsFields) (r : ℤ)
      → IsTable s.reactor
      → recv_callback crypto k fuel fd s ≡ ok (pos 0, s₁)
      → accept_callback crypto k fuel listenfd s₁ ≡ ok (r, s₂)
      → (q : ℕ)
      → (view zeroed_fields s₂.reactor.evblks q).app ≡ (view zeroed_fields s.reactor.evblks q).app
  accept_callback-recv_callback listenfd fd s s₁ s₂ r table closed got q =
      let (table₁, same) = recv_callback-app fd s s₁ table closed in
      accept_callback-app listenfd s₁ s₂ r table₁ got q ∙ same q
