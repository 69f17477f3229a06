-- ===== src/Http/Main.antt =====
-- The start of the HTTP server: `init_sock` and `main` of
-- reactor+http/reactor_singlecb_http_c1000k.c.
use hello_world.Prelude.{ℕ, ◌%◌, true, [], ◌∷◌, if◌then◌else◌, ℤ, minus_one, pos, negsuc}
use hello_world.Outcome.{Outcome, ◌>>=◌, ok, fault}
use hello_world.Sys.{Call, Log, Kernel}
use hello_world.Reactor.Event.{accept_cb}
use hello_world.Reactor.Table.{
  NtyReactor, Server, ntyreactor_addlistener, ntyreactor_init, ntyreactor_destory,
}
use hello_world.Reactor.Loop.{ntyreactor_run}
use hello_world.Http.Request.{HttpFields, zeroed_fields}
use hello_world.Http.Callbacks.{call}

abbrev pub server_port : ℕ
server_port = 8885

abbrev pub backlog : ℕ
backlog = 20

-- `bind` is called for its effect alone; only a failing `listen` is seen.
unfoldable pub init_sock : Kernel → ℕ → Log → ℤ × Log
init_sock k port log =
    let fd = k.socket log in
    let log₁ = Call.set_nonblocking_call fd ∷ Call.socket_call ∷ log in
    let log₂ = Call.bind_call fd (port % 65536) ∷ log₁ in
    (if k.listen log₂ fd then fd else minus_one, Call.listen_call fd backlog ∷ log₂)

-- Behind the loop, which only its guards leave.
unfoldable pub shut_down : ℤ → Server HttpFields → Log
unfolding ntyreactor_destory
shut_down sockfd s =
    Call.free_call ∷ Call.close_call sockfd ∷ (ntyreactor_destory s.reactor s.log).1

abbrev pub after_run : ℤ → ℤ × Server HttpFields → Server HttpFields
after_run sockfd (pos n, s) = s
after_run sockfd (negsuc n, s) = record s { log = shut_down sockfd s }

-- The opening of the port, and the registration of the listener.
unfoldable pub open_port :
    Kernel → (fuel port : ℕ) → ℤ × NtyReactor HttpFields × Log → Outcome (ℤ × Server HttpFields)
unfolding init_sock ntyreactor_addlistener
open_port k fuel port (started, reactor, log) =
    let (sockfd, log₁) = init_sock k port log in
    do
      (added, s) ←
          ntyreactor_addlistener zeroed_fields k fuel sockfd accept_cb
            (record { reactor = reactor; log = log₁; curfds = 0 })
      ok (sockfd, s)

-- `main` up to the loop, with memory for the reactor; the result of `ntyreactor_init` is not looked at.
unfoldable pub boot : Kernel → (fuel port : ℕ) → Outcome (ℤ × Server HttpFields)
unfolding ntyreactor_init open_port zeroed_fields
boot k fuel port =
    open_port k fuel port (ntyreactor_init zeroed_fields k (Call.malloc_call true ∷ []))

-- `main` with `n` turns of the event loop. Without memory for the reactor, `ntyreactor_destory` reads
-- through NULL in the end.
unfoldable pub main : Kernel → (fuel n port : ℕ) → Outcome (Server HttpFields)
unfolding boot ntyreactor_run call shut_down
main k fuel n port =
    if k.malloc []
    then (do
      (sockfd, s) ← boot k fuel port
      ended ← ntyreactor_run k (call k fuel) n s
      ok (after_run sockfd ended))
    else fault
