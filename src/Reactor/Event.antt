-- ===== src/Reactor/Event.antt =====
-- `struct ntyevent` and the functions that register and unregister it with epoll, in
-- reactor+http/reactor_singlecb_http_c1000k.c and, word for word, in
-- reactor+websocket/reactor_singlecb_c1000k.c. The fields that only one of the two servers has are
-- the parameter `A`. The field `arg` always holds the one reactor, so it is left out.
use hello_world.Prelude.{ℕ, not, ◌∷◌, ℤ, pos, minus_one, ◌==◌, if◌then◌else◌}
use hello_world.Sys.{Ptr, CtlOp, ctl_add, ctl_mod, ctl_del, Call, Log, Kernel}

pub data Callback : Type 0 where
  null_cb recv_cb send_cb accept_cb : Callback

pub record NtyEvent (A : Type 0) : Type 0 where
  pub fd : ℕ
  pub events : ℕ
  pub callback : Callback
  pub status : ℕ
  pub app : A

-- What `memset` to 0 leaves, where `app` is the zeroed fields of the server.
abbrev pub zero_event : {A : Type 0} → A → NtyEvent A
zero_event app = record { fd = 0; events = 0; callback = null_cb; status = 0; app = app }

-- What a callback works on: the cell of its descriptor, and the calls made so far.
pub record Cell (A : Type 0) : Type 0 where
  pub ev : NtyEvent A
  pub log : Log

abbrev pub log_call : {A : Type 0} → Call → Cell A → Cell A
log_call c s = record s { log = c ∷ s.log }

abbrev pub with_app : {A : Type 0} → A → Cell A → Cell A
with_app a s = record s { ev = record (s.ev) { app = a } }

abbrev pub add_op : ℕ → CtlOp
add_op status = if status == 1 then ctl_mod else ctl_add

module _ {A : Type 0} where
  unfoldable pub nty_event_set : ℕ → Callback → Cell A → Cell A
  nty_event_set fd cb s = record s { ev = record (s.ev) { fd = fd; callback = cb; events = 0 } }

  unfoldable pub nty_event_add : Kernel → Ptr → ℕ → Cell A → ℤ × Cell A
  nty_event_add k p events s =
      let op = add_op s.ev.status in
      let success = k.epoll_ctl s.log op s.ev.fd events in
      (
        if success then pos 0 else minus_one,
        record {
          ev = record (s.ev) { events = events; status = 1 };
          log = Call.epoll_ctl_call op s.ev.fd events p success ∷ s.log;
        },
      )

  unfoldable pub nty_event_del : Kernel → Ptr → Cell A → ℤ × Cell A
  nty_event_del k p s =
      let success = k.epoll_ctl s.log ctl_del s.ev.fd 0 in
      if not (s.ev.status == 1) then (minus_one, s) else (
        pos 0,
        record {
          ev = record (s.ev) { status = 0 };
          log = Call.epoll_ctl_call ctl_del s.ev.fd 0 p success ∷ s.log;
        },
      )
