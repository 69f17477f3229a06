-- ===== src/Websocket/Tests.antt =====
-- The websocket server's theorems at concrete inputs.
use hello_world.Prelude.{◌≡◌, refl, ◌≢◌, some, [], ◌∷◌, ◌++◌, arith, leb→le, length, minus_one, pos}
use hello_world.Outcome.{Outcome, ok, fault, hang}
use hello_world.CString.{codes, crlf}
use hello_world.Sys.{Kernel, epollin, peer_closed}
use hello_world.Sys.Interest.{interest}
use hello_world.Sys.Scenario.{demo}
use hello_world.Reactor.Event.{zero_event}
use hello_world.Reactor.Table.{Server}
use hello_world.Reactor.Address.{view}
use hello_world.Reactor.Registration.{EpollWorks}
use hello_world.Reactor.Invariant.{IsSynced}
use hello_world.Reactor.Start.{Starts}
use hello_world.Websocket.Fields.{WsFields, zeroed_fields, Crypto}
use hello_world.Websocket.Handshake.{ws_handshark}
use hello_world.Websocket.Frame.{umask, ws_tranmission}
use hello_world.Websocket.Callbacks.{recv_callback, accept_callback}
use hello_world.Websocket.Main.{main}
use hello_world.Websocket.Invariant.{ws_main-IsSynced}
use hello_world.Websocket.Unmask.{client_mask, frame, ws_tranmission-frame}
use hello_world.Websocket.Looping.{ws_handshark-ends}
use hello_world.Websocket.Reuse.{accept_callback-recv_callback}

-- A digest without zeros, and the text of one for base64.
abbrev crypto : Crypto
crypto = record { sha1 = λ text. 1 ∷ 2 ∷ 3 ∷ []; base64 = λ digest. codes "AQID" ++ 10 ∷ [] }

demo-works : EpollWorks demo
demo-works log op fd events proper = refl

demo-Starts : Starts demo
demo-Starts = record { malloc_works = λ log. refl; epoll_create_works = λ log. refl }

abbrev empty_server : Server WsFields
empty_server = record {
  reactor = record { epfd = minus_one; blkcnt = 0; evblks = [] };
  log = [];
  curfds = 0;
}

abbrev result_or {ℓ} : {A : Type ℓ} → A → Outcome A → A
result_or d (ok a) = a
result_or d fault = d
result_or d hang = d

-- After one turn the client is accepted.
abbrev served : Server WsFields
unfolding main
served = result_or empty_server (main crypto demo 1 1 8888)

served-ends : main crypto demo 1 1 8888 ≡ ok served
unfolding main
served-ends = refl

served-lists : interest served.log 5 ≡ some ((0, 5), epollin)
unfolding main
served-lists = refl

ws_main-IsSynced_example : IsSynced zeroed_fields served
ws_main-IsSynced_example =
    ws_main-IsSynced crypto demo demo-works demo-Starts 1 1 8888 served served-ends

-- A masked frame with "Hi".
abbrev masked_frame : WsFields
unfolding zeroed_fields umask
masked_frame = record zeroed_fields {
  buffer = frame 129 1 2 3 255 (client_mask 1 2 3 255 (codes "Hi")) [];
  wsstatus = 1;
}

ws_tranmission-frame_example :
    ws_tranmission masked_frame
    ≡ ok (record masked_frame { buffer = frame 129 1 2 3 255 (codes "Hi") [] })
unfolding masked_frame
ws_tranmission-frame_example =
    ws_tranmission-frame 129 1 2 3 255 (codes "Hi") [] (omega arith, (omega arith, tt)) masked_frame
      refl (omega arith)

-- A request for an upgrade.
abbrev upgrade : WsFields
unfolding zeroed_fields
upgrade = record zeroed_fields {
  buffer =
      codes "GET /chat HTTP/1.1"
      ++ (crlf ++ (codes "Sec-WebSocket-Key: dGhlIHNhbXBsZQ==" ++ (crlf ++ (crlf ++ 0 ∷ []))));
}

ws_handshark-ends_example : ws_handshark crypto upgrade ≢ hang
unfolding upgrade
ws_handshark-ends_example =
    ws_handshark-ends crypto upgrade (leb→le (length upgrade.buffer) 1024 refl)

-- Descriptor 5 is accepted where the last client had finished its handshake.
abbrev reused : Server WsFields
unfolding zeroed_fields
reused = record empty_server {
  reactor = record {
    epfd = pos 4;
    blkcnt = 1;
    evblks = (λ i. zero_event (record zeroed_fields { wsstatus = 1 })) ∷ [];
  };
}

-- The last client closes its connection, and a new one comes.
abbrev leaver : Kernel
leaver = record demo { recv = λ log fd room. peer_closed }

abbrev closed : Server WsFields
unfolding recv_callback
closed = (result_or (minus_one, empty_server) (recv_callback crypto leaver 0 5 reused)).1

abbrev after_reuse : Server WsFields
unfolding accept_callback
after_reuse = (result_or (minus_one, empty_server) (accept_callback crypto leaver 0 3 closed)).1

accept_callback-recv_callback_example :
    (view zeroed_fields after_reuse.reactor.evblks 5).app
    ≡ (view zeroed_fields reused.reactor.evblks 5).app
unfolding accept_callback recv_callback reused closed
accept_callback-recv_callback_example =
    accept_callback-recv_callback crypto leaver 0 3 5 reused closed after_reuse (pos 0)
      (record { counted = refl; live = refl }) refl refl 5
