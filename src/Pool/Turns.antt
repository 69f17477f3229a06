-- ===== src/Pool/Turns.antt =====
-- The turns of the workers of threadpool/src3/pthreadpool2.cpp, and what one step must keep.
use hello_world.Prelude.{
  ℕ, ◌+◌, ◌-◌, ◌≤◌, ◌<◌, ◌≡◌, refl, sym, ap, ◌∙◌, ◌≢◌, inl, inr, Bool, false, List, ◌++◌, arith,
  ltb, ltb→lt, Bool-cases, length,
}
use hello_world.Outcome.{Outcome, ◌>>=◌, ok}
use hello_world.Pool.State.{Task, ThreadPool}
use hello_world.Pool.Workers.{
  WorkerTurn, worker_turn, after_wake, turn_waits, turn_leaves, turn_takes,
}
use hello_world.Pool.System.{
  WorkerPc, ManagerPc, System, move_worker, after_turn, woken, absent, at_lock, waiting, working,
  leaving,
}
use hello_world.Pool.Count.{tally-put_at}
use hello_world.Pool.Cases.{worker_turn-Turned, others, IsQueue-others, pending-others}
use hello_world.Pool.Invariant.{is_live, is_busy, Inv, Follows, is_created, Follows-Inv, Turned-Inv}

pub record Good (s : System) : Type 0 where
  pub inv : Inv s
  pub kept : s.freed ≡ false

-- What a step comes to: it returns a state that is again a good one.
abbrev pub Steps : Outcome System → Type 0
Steps m = (s' : System) × (m ≡ ok s') × Good s'

freed_turn :
    (i : ℕ) (s : System) (out : WorkerTurn × ThreadPool) → (after_turn i s out).freed ≡ s.freed
freed_turn i s (turn_waits, pool) = refl
freed_turn i s (turn_leaves, pool) = refl
freed_turn i s (turn_takes task, pool) = refl

-- A change of the manager's place and of the two flags.
pub Good-quiet :
    (s : System) (exit : ℕ) (shutdown : Bool) (m : ManagerPc)
    → Good s
    → Good
        (record s { pool = record (s.pool) { exit_num = exit; shutdown = shutdown }; manager = m })
Good-quiet s exit shutdown m g = record {
  inv = record {
    queue = IsQueue-others s.pool _ _ _ _ _ g.inv.queue;
    fifo = g.inv.fifo ∙ ap (λ l. s.taken ++ l) (sym (pending-others s.pool _ _ _ _ _));
    live = g.inv.live;
    busy = g.inv.busy;
    least = g.inv.least;
    most = g.inv.most;
    slots = g.inv.slots;
    created = g.inv.created;
  };
  kept = g.kept;
}

module _ (s : System) (g : Good s) where
  abbrev inv : Inv s
  inv = g.inv

  pub turn_of :
      (current : Bool) (i : ℕ) (pc : WorkerPc)
      → s.workers i ≡ pc
      → pc ≢ absent
      → is_live pc ≡ 1
      → is_busy pc ≡ 0
      → Steps (do turn ← worker_turn current s.pool; ok (after_turn i s turn))
  turn_of current i pc here some_pc live idle =
      let (out, e, t) = worker_turn-Turned current s.pool inv.queue in
      (
        after_turn i s out,
        rw e refl,
        record {
          inv = Turned-Inv s inv i current out here some_pc live idle t;
          kept = freed_turn i s out ∙ g.kept;
        },
      )

  -- The fields that the counters and the table of identifiers do not touch.
  pub Follows-others :
      (ids : List ℕ) (busy live exit : ℕ) (pc pc' : WorkerPc)
      → live + is_live pc ≡ s.pool.live_num + is_live pc'
      → busy + is_busy pc ≡ s.pool.busy_num + is_busy pc'
      → s.pool.min_num ≤ live
      → live ≤ s.pool.max_num
      → length ids ≡ s.pool.max_num
      → Follows s (others s.pool ids busy live exit s.pool.shutdown) s.taken pc pc'
  Follows-others ids busy live exit pc pc' count_live count_busy least most slots = record {
    queue = IsQueue-others s.pool ids busy live exit s.pool.shutdown inv.queue;
    fifo =
        inv.fifo
        ∙ ap (λ l. s.taken ++ l) (sym (pending-others s.pool ids busy live exit s.pool.shutdown));
    live = count_live;
    busy = count_busy;
    least = least;
    most = most;
    slots = slots;
  }

  pub busy_positive : (i : ℕ) (task : Task) → s.workers i ≡ working task → 0 < s.pool.busy_num
  busy_positive i task here =
      let lt = is_created s inv i here (λ e. absurd (cc)) in
      omega (arith, inv.busy, tally-put_at is_busy s.next i s.workers at_lock lt, ap is_busy here)

  leaves_uncounted :
      (i : ℕ)
      → s.workers i ≡ waiting
      → s.pool.min_num < s.pool.live_num
      → Good (
          move_worker i (leaving false 0) (record s {
            pool = record (s.pool) {
              exit_num = s.pool.exit_num - 1;
              live_num = s.pool.live_num - 1;
            };
          }))
  leaves_uncounted i here spare = record {
    inv =
        Follows-Inv s inv i (leaving false 0) here (λ e. absurd (cc))
          (Follows-others s.pool.thread_ids s.pool.busy_num (s.pool.live_num - 1)
            (s.pool.exit_num - 1) _ _ (omega arith) refl (omega arith) (omega (arith, inv.most))
            inv.slots);
    kept = g.kept;
  }

pub wakes-Steps :
    (s : System) (g : Good s) (current : Bool) (i : ℕ)
    → s.workers i ≡ waiting
    → Steps (woken current i s (after_wake s.pool))
unfolding woken after_wake
wakes-Steps s g current i here = elim (Bool-cases (ltb 0 s.pool.exit_num)) [
  | inr none_asked ↦ rw none_asked (turn_of s g current i waiting here (λ e. absurd (cc)) refl refl)
  | inl asked ↦ elim (Bool-cases (ltb s.pool.min_num s.pool.live_num)) [
    | inl spare ↦ rw (asked, spare) (_, refl, leaves_uncounted s g i here (ltb→lt _ _ spare))
    | inr needed ↦
        rw (asked, needed)
          (turn_of (record s { pool = record (s.pool) { exit_num = s.pool.exit_num - 1 } })
            (Good-quiet s (s.pool.exit_num - 1) s.pool.shutdown s.manager g) current i waiting here
            (λ e. absurd (cc)) refl refl)
  ]
]
