-- ===== src/Websocket/Main.antt =====
-- The start of the websocket server: the reactor's operations on its cells, and `main` of
-- reactor+websocket/reactor_singlecb_c1000k.c.
use hello_world.Http.Main.{init_sock}
use hello_world.Websocket.Callbacks.{call}
use hello_world.Prelude.{ℕ, true, Option, [], ◌∷◌, if◌then◌else◌, ℤ, pos, negsuc}
use hello_world.Outcome.{Outcome, ◌>>=◌, ok, fault}
use hello_world.Sys.{Ptr, Call, Log, Kernel}
use hello_world.Reactor.Event.{Callback, accept_cb}
use hello_world.Reactor.Table.{
  NtyReactor, Server, ntyreactor_alloc, ntyreactor_idx, ntyreactor_addlistener, ntyreactor_init,
  ntyreactor_destory,
}
use hello_world.Reactor.Loop.{ntyreactor_run}
use hello_world.Websocket.Fields.{WsFields, zeroed_fields, Crypto}

abbrev pub server_port : ℕ
server_port = 8888

module _ (k : Kernel) where
  unfoldable pub ws_alloc : Server WsFields → ℤ × Server WsFields
  unfolding ntyreactor_alloc
  ws_alloc = ntyreactor_alloc zeroed_fields k

  unfoldable pub ws_idx : (fuel : ℕ) → ℤ → Server WsFields → Outcome (Option Ptr × Server WsFields)
  unfolding ntyreactor_idx
  ws_idx = ntyreactor_idx zeroed_fields k

  unfoldable pub ws_init : Log → ℤ × NtyReactor WsFields × Log
  unfolding ntyreactor_init
  ws_init = ntyreactor_init zeroed_fields k

  unfoldable pub ws_addlistener :
      (fuel : ℕ) → ℤ → Callback → Server WsFields → Outcome (ℤ × Server WsFields)
  unfolding ntyreactor_addlistener
  ws_addlistener = ntyreactor_addlistener zeroed_fields k

  unfoldable pub ws_run : Crypto → (fuel n : ℕ) → Server WsFields → Outcome (ℤ × Server WsFields)
  unfolding ntyreactor_run call
  ws_run crypto fuel = ntyreactor_run k (call crypto k fuel)

  unfoldable pub ws_init_sock : ℕ → Log → ℤ × Log
  unfolding init_sock
  ws_init_sock = init_sock k

unfoldable pub ws_destory : NtyReactor WsFields → Log → ℤ × Log
unfolding ntyreactor_destory
ws_destory = ntyreactor_destory

abbrev pub after_run : ℤ → ℤ × Server WsFields → Server WsFields
unfolding ws_destory
after_run sockfd (pos n, s) = s
after_run sockfd (negsuc n, s) = record s {
  log = Call.free_call ∷ Call.close_call sockfd ∷ (ws_destory s.reactor s.log).1;
}

unfoldable pub open_port :
    Kernel → (fuel port : ℕ) → ℤ × NtyReactor WsFields × Log → Outcome (ℤ × Server WsFields)
unfolding ws_init_sock ws_addlistener
open_port k fuel port (started, reactor, log) =
    let (sockfd, log₁) = ws_init_sock k port log in
    do
      (added, s) ←
          ws_addlistener k fuel sockfd accept_cb
            (record { reactor = reactor; log = log₁; curfds = 0 })
      ok (sockfd, s)

unfoldable pub boot : Kernel → (fuel port : ℕ) → Outcome (ℤ × Server WsFields)
unfolding ws_init open_port zeroed_fields
boot k fuel port = open_port k fuel port (ws_init k (Call.malloc_call true ∷ []))

-- `main` with `n` turns of the event loop. Without memory for the reactor, `ntyreactor_destory` reads
-- through NULL in the end.
unfoldable pub main : Crypto → Kernel → (fuel n port : ℕ) → Outcome (Server WsFields)
unfolding boot ws_run after_run
main crypto k fuel n port =
    if k.malloc []
    then (do
      (sockfd, s) ← boot k fuel port
      ended ← ws_run k crypto fuel n s
      ok (after_run sockfd ended))
    else fault
