-- ===== src/Sys/Scenario.antt =====
-- A concrete system for tests: one client that asks for a page. The listener is 3, the client 5, the
-- file 7.
use hello_world.Prelude.{
  ℕ, zero, suc, true, false, Option, none, some, List, [], ◌∷◌, ◌++◌, length, pos,
}
use hello_world.CString.{codes, crlf}
use hello_world.Sys.{Call, Log, Ready, Kernel, epollin, epollout, bytes_in}
use hello_world.Sys.Interest.{Watch, interest}

abbrev pub request : List ℕ
request = codes "GET /index.html HTTP/1.1" ++ (crlf ++ crlf)

abbrev count_waits : Log → ℕ
count_waits [] = 0
count_waits (Call.epoll_wait_call ∷ log) = suc (count_waits log)
count_waits (_ ∷ log) = count_waits log

abbrev ready_at : ℕ → Option (List Ready)
ready_at zero = some (record { ptr = (0, 3); events = epollin } ∷ [])
ready_at (suc zero) = some (record { ptr = (0, 5); events = epollin } ∷ [])
ready_at (suc (suc zero)) = some (record { ptr = (0, 5); events = epollout } ∷ [])
ready_at (suc (suc (suc n))) = none

abbrev pub if_unwatched : Watch → Option ℕ
if_unwatched none = some 7
if_unwatched (some w) = none

abbrev pub demo : Kernel
demo = record {
  epoll_ctl = λ log op fd events. true;
  epoll_wait = λ log. ready_at (count_waits log);
  recv = λ log fd room. bytes_in request;
  send = λ log fd bytes. pos (length bytes);
  accept = λ log fd. some 5;
  set_nonblocking = λ log fd. true;
  open_file = λ log path. if_unwatched (interest log 7);
  file_size = λ log file. 1234;
  socket = λ log. pos 3;
  bind = λ log fd port. true;
  listen = λ log fd. true;
  epoll_create = λ log. pos 4;
  malloc = λ log. true;
}

-- The same with no memory.
abbrev pub no_memory : Kernel
no_memory = record demo { malloc = λ log. false }
