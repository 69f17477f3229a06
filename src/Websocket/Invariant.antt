-- ===== src/Websocket/Invariant.antt =====
-- The whole websocket server, reactor+websocket/reactor_singlecb_c1000k.c: the registration of cells
-- through its callbacks and `main`.
use mathlib.Core.Path.{subst}
use hello_world.Http.Main.{init_sock}
use hello_world.Prelude.{
  ℕ, ◌≡◌, refl, ap, ◌∙◌, inl, inr, true, false, [], ◌∷◌, arith, Bool-cases, Option-cases, ℤ,
  is_negative, pos,
}
use hello_world.Outcome.{◌>>=◌, >>=-eq-ok, ok-injective, ok-second, ok}
use hello_world.Sys.{Call, Log, Kernel, epollin}
use hello_world.Reactor.Event.{null_cb, recv_cb, send_cb, accept_cb}
use hello_world.Reactor.Table.{Server, log_server, zero_block, ntyreactor_addlistener}
use hello_world.Reactor.Address.{view}
use hello_world.Reactor.Registration.{EpollWorks}
use hello_world.Reactor.Cells.{at_cell-Ran}
use hello_world.Reactor.Invariant.{
  IsSynced, IsSynced-log, Registered-start, IsSynced-Ran, watch-IsSynced, addlistener-IsSynced,
  fresh-IsSynced,
}
use hello_world.Reactor.Loop.{rounds, ntyreactor_run}
use hello_world.Reactor.Start.{Starts, not_negative, log_booted, init-fresh}
use hello_world.Websocket.Fields.{WsFields, zeroed_fields, Crypto}
use hello_world.Websocket.Callbacks.{
  recv_body, send_body, recv_callback, send_callback, accept_client, accepted, accept_callback,
  call,
}
use hello_world.Websocket.Keeps.{recv_body-Keeps, send_body-Keeps}
use hello_world.Websocket.Main.{
  ws_init, ws_addlistener, ws_run, ws_init_sock, after_run, open_port, boot, main,
}
use hello_world.Reactor.Turns.{CallKeeps, rounds-IsSynced}

module _ (crypto : Crypto) (k : Kernel) (works : EpollWorks k) (fuel : ℕ) where
  recv-IsSynced :
      (fd : ℕ) (s s' : Server WsFields) (r : ℤ)
      → IsSynced zeroed_fields s
      → (view zeroed_fields s.reactor.evblks fd).fd ≡ fd
      → recv_callback crypto k fuel fd s ≡ ok (r, s')
      → IsSynced zeroed_fields s'
  unfolding recv_callback
  recv-IsSynced fd s s' r i own h =
      let ran = at_cell-Ran zeroed_fields k (recv_body crypto k fd) fuel fd s s' r i.table h in
      IsSynced-Ran zeroed_fields k ran i
        (recv_body-Keeps crypto k works fd r (Registered-start zeroed_fields k ran i) own ran.ran)

  send-IsSynced :
      (fd : ℕ) (s s' : Server WsFields) (r : ℤ)
      → IsSynced zeroed_fields s
      → (view zeroed_fields s.reactor.evblks fd).fd ≡ fd
      → send_callback crypto k fuel fd s ≡ ok (r, s')
      → IsSynced zeroed_fields s'
  unfolding send_callback
  send-IsSynced fd s s' r i own h =
      let ran = at_cell-Ran zeroed_fields k (send_body crypto k fd) fuel fd s s' r i.table h in
      IsSynced-Ran zeroed_fields k ran i
        (send_body-Keeps crypto k works fd r (Registered-start zeroed_fields k ran i) own ran.ran)

  accept_client-IsSynced :
      (clientfd : ℕ) (s s' : Server WsFields) (r : ℤ)
      → IsSynced zeroed_fields s
      → accept_client crypto k fuel clientfd s ≡ ok (r, s')
      → IsSynced zeroed_fields s'
  unfolding accept_client
  accept_client-IsSynced clientfd s s' r i h =
      let s₁ = log_server (Call.set_nonblocking_call (pos clientfd)) s in
      let i₁ =
        IsSynced-log zeroed_fields k (Call.set_nonblocking_call (pos clientfd)) (λ q w. refl)
          (λ log. tt) i in
      elim (Bool-cases (k.set_nonblocking s.log clientfd)) [
        | inl e ↦
            let (i₂, _) =
              watch-IsSynced zeroed_fields k works fuel clientfd recv_cb epollin s₁ s' r
                (inl (refl, inl refl)) i₁ (rw e at h) in
            i₂
        | inr e ↦ subst (λ t. IsSynced zeroed_fields t) (ok-second (rw e at h)) i₁
      ]

  accept-IsSynced :
      (fd : ℕ) (s s' : Server WsFields) (r : ℤ)
      → IsSynced zeroed_fields s
      → accept_callback crypto k fuel fd s ≡ ok (r, s')
      → IsSynced zeroed_fields s'
  unfolding accept_callback
  accept-IsSynced fd s s' r i h =
      let i₁ = IsSynced-log zeroed_fields k (Call.accept_call fd) (λ q w. refl) (λ log. tt) i in
      elim (Option-cases (k.accept s.log fd)) [
        | inl e ↦ subst (λ t. IsSynced zeroed_fields t) (ok-second (rw (e, accepted) at h)) i₁
        | inr (clientfd, e) ↦
            accept_client-IsSynced clientfd (log_server (Call.accept_call fd) s) s' r i₁
              (rw (e, accepted) at h)
      ]

  -- Each callback, called through the cell of its descriptor, keeps the invariant.
  pub call-IsSynced : CallKeeps zeroed_fields (call crypto k fuel)
  unfolding call
  call-IsSynced null_cb fd s s' r i own h = absurd (cc)
  call-IsSynced recv_cb fd s s' r i own h = recv-IsSynced fd s s' r i own h
  call-IsSynced send_cb fd s s' r i own h = send-IsSynced fd s s' r i own h
  call-IsSynced accept_cb fd s s' r i own h = accept-IsSynced fd s s' r i h

module _ (crypto : Crypto) (k : Kernel) (works : EpollWorks k) (starts : Starts k) (fuel : ℕ) where
  boot-IsSynced :
      (port : ℕ) (sockfd : ℤ) (s : Server WsFields)
      → boot k fuel port ≡ ok (sockfd, s)
      → IsSynced zeroed_fields s × (is_negative s.reactor.epfd ≡ false)
  unfolding boot open_port ws_init ws_init_sock ws_addlistener init_sock
  boot-IsSynced port sockfd s h =
      let log₀ : Log = Call.malloc_call true ∷ [] in
      let h₀ = rw (init-fresh zeroed_fields k log₀ starts) at h in
      let fresh : Server WsFields = record {
        reactor = record {
          epfd = k.epoll_create log₀;
          blkcnt = 1;
          evblks = zero_block zeroed_fields k ∷ [];
        };
        log = (init_sock k port (log_booted log₀ k)).1;
        curfds = 0;
      } in
      let i : IsSynced zeroed_fields fresh =
        fresh-IsSynced zeroed_fields k _ _ (λ fd. refl) (omega arith) in
      let ((r, s₁), e₁, h₁) =
        >>=-eq-ok
          (ntyreactor_addlistener zeroed_fields k fuel (init_sock k port (log_booted log₀ k)).0
            accept_cb fresh)
          _ h₀ in
      let (i₁, same) =
        addlistener-IsSynced zeroed_fields k works fuel (init_sock k port (log_booted log₀ k)).0
          fresh s₁ r i e₁ in
      subst (λ t. IsSynced zeroed_fields t × (is_negative t.reactor.epfd ≡ false)) (ok-second h₁)
        (i₁, rw same (not_negative _ (starts.epoll_create_works log₀)))

  -- If epoll_ctl fails only where it adds a watched descriptor, or modifies or deletes one that is
  -- not watched (so memory, room for the watch and an open descriptor that can be watched are
  -- assumed), malloc works and epoll_create succeeds, then after any number of turns of the
  -- websocket server's event loop that main reaches, epoll watches each descriptor with the
  -- pointer and the events that its cell says and no others, no cell is registered for an event
  -- that its callback does not serve, and every epoll_ctl call so far added an unwatched
  -- descriptor or modified or deleted a watched one
  pub ws_main-IsSynced :
      (n port : ℕ) (s : Server WsFields)
      → main crypto k fuel n port ≡ ok s
      → IsSynced zeroed_fields s
  unfolding main ws_run ntyreactor_run
  ws_main-IsSynced n port s h = elim (Bool-cases (k.malloc [])) [
    | inr none_got ↦ absurd (let h' = rw none_got at h in cc)
    | inl got ↦
        let ((sockfd, s₀), e₀, h₀) = >>=-eq-ok (boot k fuel port) _ (rw got at h) in
        let (i, live) = boot-IsSynced port sockfd s₀ e₀ in
        let h₁ = rw (live, i.table.live) at h₀ in
        let (ended, e₁, h₂) =
          >>=-eq-ok (do s₁ ← rounds k (call crypto k fuel) n s₀; ok (pos 0, s₁)) _ h₁ in
        let (s₁, e₂, h₃) = >>=-eq-ok (rounds k (call crypto k fuel) n s₀) _ e₁ in
        let i₁ =
          rounds-IsSynced zeroed_fields k (call crypto k fuel) (call-IsSynced crypto k works fuel) n
            i e₂ in
        subst (λ t. IsSynced zeroed_fields t)
          (ap (after_run sockfd) (ok-injective h₃) ∙ ok-injective h₂) i₁
  ]
