-- ===== src/Sys.antt =====
-- The operating system as the programs meet it: the calls that they make, and its answers.
-- None of it is code of the repository. An answer is an unknown function of the calls made so far,
-- so it may differ from one call to the next; each theorem names what it needs of the answers.
pub mod Interest
pub mod Scenario
use hello_world.Prelude.{ℕ, Bool, true, false, ℤ, Option, List}

-- A cell of the event table: the index of its block, and its place in the block.
abbrev pub Ptr : Type 0
Ptr = ℕ × ℕ

pub data CtlOp : Type 0 where
  ctl_add ctl_mod ctl_del : CtlOp

pub data Call : Type 0 where
  epoll_ctl_call : CtlOp → (fd events : ℕ) → Ptr → (success : Bool) → Call
  epoll_wait_call : Call
  recv_call : (fd room : ℕ) → Call
  send_call : (fd : ℕ) (bytes : List ℕ) → Call
  sendfile_call : (fd : ℕ) (file : ℤ) (count : ℕ) → Call
  accept_call : (fd : ℕ) → Call
  close_call : ℤ → Call
  set_nonblocking_call : (fd : ℤ) → Call
  set_blocking_call : (fd : ℤ) → Call
  open_call : (path : List ℕ) → Call
  fstat_call : (file : ℤ) → Call
  socket_call : Call
  bind_call : (fd : ℤ) (port : ℕ) → Call
  listen_call : (fd : ℤ) (backlog : ℕ) → Call
  epoll_create_call : Call
  malloc_call : (success : Bool) → Call
  free_call : Call

-- Newest first.
abbrev pub Log : Type 0
Log = List Call

-- `recv` returned a positive count with these bytes, 0, or -1 with this `errno`.
pub data Received : Type 0 where
  bytes_in : List ℕ → Received
  peer_closed : Received
  recv_error : (errno : ℕ) → Received

-- An entry of the array that `epoll_wait` fills.
pub record Ready : Type 0 where
  pub ptr : Ptr
  pub events : ℕ

pub record Kernel : Type 0 where
  pub epoll_ctl : Log → CtlOp → (fd events : ℕ) → Bool
  pub epoll_wait : Log → Option (List Ready)
  pub recv : Log → (fd room : ℕ) → Received
  pub send : Log → (fd : ℕ) → List ℕ → ℤ
  pub accept : Log → (fd : ℕ) → Option ℕ
  pub set_nonblocking : Log → (fd : ℕ) → Bool
  pub open_file : Log → (path : List ℕ) → Option ℕ
  pub file_size : Log → (file : ℤ) → ℕ
  pub socket : Log → ℤ
  pub bind : Log → ℤ → (port : ℕ) → Bool
  pub listen : Log → ℤ → Bool
  pub epoll_create : Log → ℤ
  pub malloc : Log → Bool

abbrev pub epollin : ℕ
epollin = 1

abbrev pub epollout : ℕ
epollout = 4
