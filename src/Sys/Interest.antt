-- ===== src/Sys/Interest.antt =====
-- What an epoll instance watches, as the log of the calls tells it: an independent reading of
-- epoll's documentation, against which the reactors' own book-keeping is compared.
use hello_world.Prelude.{
  ℕ, ◌≡◌, ◌≢◌, true, false, pos, negsuc, Option, none, some, [], ◌∷◌, ◌==◌, if◌then◌else◌,
}
use hello_world.Sys.{Ptr, CtlOp, ctl_add, ctl_mod, ctl_del, Call, Log}

-- One descriptor's registration: the pointer given as `data.ptr`, and the event mask.
abbrev pub Watch : Type 0
Watch = Option (Ptr × ℕ)

-- EPOLL_CTL_ADD and EPOLL_CTL_MOD register, EPOLL_CTL_DEL and the closing of the descriptor end it.
abbrev pub after_call : Call → ℕ → Watch → Watch
after_call (Call.epoll_ctl_call ctl_add q e p true) fd w = if q == fd then some (p, e) else w
after_call (Call.epoll_ctl_call ctl_mod q e p true) fd w = if q == fd then some (p, e) else w
after_call (Call.epoll_ctl_call ctl_del q e p true) fd w = if q == fd then none else w
after_call (Call.epoll_ctl_call ctl_add q e p false) fd w = w
after_call (Call.epoll_ctl_call ctl_mod q e p false) fd w = w
after_call (Call.epoll_ctl_call ctl_del q e p false) fd w = w
after_call (Call.close_call (pos q)) fd w = if q == fd then none else w
after_call (Call.close_call (negsuc q)) fd w = w
after_call _ fd w = w

abbrev pub interest : Log → ℕ → Watch
interest [] fd = none
interest (c ∷ log) fd = after_call c fd (interest log fd)

-- epoll refuses to add what it watches (EEXIST), to modify or delete what it does not (ENOENT).
abbrev pub Proper : CtlOp → Watch → Type 0
Proper ctl_add w = w ≡ none
Proper ctl_mod w = w ≢ none
Proper ctl_del w = w ≢ none

abbrev pub ProperCall : Call → Log → Type 0
ProperCall (Call.epoll_ctl_call op q e p b) log = Proper op (interest log q)
ProperCall _ log = Unit

-- No call of the log is refused for either reason.
abbrev pub Lawful : Log → Type 0
Lawful [] = Unit
Lawful (c ∷ log) = ProperCall c log × Lawful log
