-- ===== src/Reactor/Loop.antt =====
-- `ntyreactor_run` of both servers: wait for events, and call the callback of each ready cell.
-- The endless loop is followed for a number of rounds.
use hello_world.Prelude.{
  ℕ, zero, suc, ◌&&◌, ◌||◌, Option, none, some, List, [], ◌∷◌, if◌then◌else◌, has_flag, ℤ,
  minus_one, is_negative, pos,
}
use hello_world.Outcome.{Outcome, ◌>>=◌, ok}
use hello_world.Sys.{Call, Ready, Kernel, epollin, epollout}
use hello_world.Reactor.Event.{Callback}
use hello_world.Reactor.Table.{Server, is_null, load}

-- `call cb fd` is the call through the function pointer.
module _ {A : Type 0} (k : Kernel) (call : Callback → ℕ → Server A → Outcome (ℤ × Server A)) where
  -- One of the two tests of an entry, with the call that it guards.
  unfoldable pub dispatch_flag : ℕ → Ready → Server A → Outcome (Server A)
  unfolding load
  dispatch_flag flag ready s = do
    ev ← load ready.ptr s.reactor.evblks
    if has_flag ready.events flag && has_flag ev.events flag
        then (do (_, s') ← call ev.callback ev.fd s; ok s')
        else ok s

  unfoldable pub dispatch : Ready → Server A → Outcome (Server A)
  unfolding dispatch_flag
  dispatch ready s = do s₁ ← dispatch_flag epollin ready s; dispatch_flag epollout ready s₁

  unfoldable pub dispatch_all : List Ready → Server A → Outcome (Server A)
  unfolding dispatch
  dispatch_all [] s = ok s
  dispatch_all (ready ∷ rest) s = do s₁ ← dispatch ready s; dispatch_all rest s₁

  -- `nready < 0` goes on to the next turn.
  unfoldable pub serve : Option (List Ready) → Server A → Outcome (Server A)
  unfolding dispatch_all
  serve none s = ok s
  serve (some ready) s = dispatch_all ready s

  unfoldable pub round : Server A → Outcome (Server A)
  unfolding serve
  round s =
      let s₁ : Server A = record s { log = Call.epoll_wait_call ∷ s.log } in
      serve (k.epoll_wait s.log) s₁

  unfoldable pub rounds : ℕ → Server A → Outcome (Server A)
  unfolding round
  rounds zero s = ok s
  rounds (suc n) s = do s₁ ← round s; rounds n s₁

  -- The guards of `ntyreactor_run`; the endless loop is followed for `n` rounds.
  unfoldable pub ntyreactor_run : ℕ → Server A → Outcome (ℤ × Server A)
  unfolding rounds
  ntyreactor_run n s =
      if is_negative s.reactor.epfd || is_null s.reactor.evblks
      then ok (minus_one, s)
      else (do s₁ ← rounds n s; ok (pos 0, s₁))
