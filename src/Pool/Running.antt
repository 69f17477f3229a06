-- ===== src/Pool/Running.antt =====
-- Every step of the threads of threadpool/src3/pthreadpool2.cpp, and with them every schedule.
use hello_world.Prelude.{
  ℕ, suc, ◌+◌, ◌-◌, ◌*◌, ◌≡◌, refl, sym, ap, ◌∙◌, ◌≢◌, inl, inr, Bool, true, false, ◌&&◌, List, [],
  ◌∷◌, ◌++◌, arith, ltb, ◌==◌, if◌then◌else◌, ltb→lt, Bool-cases, length, set, length-set,
  get_elem?-within,
}
use hello_world.Outcome.{Outcome, ◌>>=◌, ok, fault}
use hello_world.Pool.State.{
  Task, ThreadPool, AddTurn, thread_pool_add, add_waits, add_refused, add_stored,
}
use hello_world.Pool.Workers.{begin_work, end_work, thread_exit}
use hello_world.Pool.Manager.{number, add_threads, with_filled, ask_to_go}
use hello_world.Pool.System.{
  WorkerPc, ManagerPc, System, Actor, move_worker, after_add, after_exit, step_worker, grow_by,
  step_manager, touches, step, run, absent, unborn, at_lock, waiting, holding, working, leaving,
  gone, at_test, asleep, sampled, judging, grown, finished, caller, worker, manager_thread,
  destroyer, freer,
}
use hello_world.Pool.Cases.{thread_pool_add-Added, IsQueue-others, pending-others}
use hello_world.Pool.Growing.{add_threads-Grew, spawn-beyond, tally-spawn_one, tally-spawn_zero}
use hello_world.Pool.Invariant.{
  is_live, is_busy, is_live-newborn, is_busy-newborn, Inv, caller-Inv, Follows-Inv,
}
use hello_world.Pool.Turns.{
  Good, Steps, Good-quiet, turn_of, Follows-others, busy_positive, wakes-Steps,
}

module _ (s : System) (g : Good s) where
  moves-Good :
      (i : ℕ) (pc pc' : WorkerPc) (ids : List ℕ)
      → s.workers i ≡ pc
      → pc ≢ absent
      → is_live pc ≡ is_live pc'
      → is_busy pc ≡ is_busy pc'
      → length ids ≡ s.pool.max_num
      → Good (move_worker i pc' (record s { pool = record (s.pool) { thread_ids = ids } }))
  moves-Good i pc pc' ids here some_pc same_live same_busy slots = record {
    inv = Follows-Inv s g.inv i pc' here some_pc (
        Follows-others s g ids s.pool.busy_num s.pool.live_num s.pool.exit_num pc pc' (omega arith)
          (omega arith) g.inv.least g.inv.most slots);
    kept = g.kept;
  }

  exits-Steps :
      (i : ℕ) (counted : Bool) (place : ℕ)
      → s.workers i ≡ leaving counted place
      → Steps (do out ← thread_exit (suc i) place s.pool; ok (after_exit i counted place s out))
  unfolding thread_exit
  exits-Steps i counted place here =
      let ids = s.pool.thread_ids in
      let some_pc : leaving counted place ≢ absent = λ e. absurd (cc) in
      elim (Bool-cases (ltb place s.pool.max_num)) [
        | inr e ↦ rw e (
          _,
          refl,
          moves-Good i (leaving counted place) (gone counted) ids here some_pc refl refl
              g.inv.slots,
        )
        | inl e ↦
            let (id, found) =
              get_elem?-within ids place (omega (arith, g.inv.slots, ltb→lt _ _ e)) in
            elim (Bool-cases (id == suc i)) [
              | inl own ↦
                  rw (e, found, own)
                    (
                      _,
                      refl,
                      moves-Good i (leaving counted place) (gone counted) (set ids place 0) here
                          some_pc refl refl (length-set ids place 0 ∙ g.inv.slots),
                    )
              | inr other ↦
                  rw (e, found, other)
                    (
                      _,
                      refl,
                      moves-Good i (leaving counted place) (leaving counted (place + 1)) ids here
                          some_pc refl refl g.inv.slots,
                    )
            ]
      ]

  -- The step of a worker that stands at `pc`.
  worker-Steps :
      (current : Bool) (i : ℕ) (pc : WorkerPc)
      → s.workers i ≡ pc
      → Steps (step_worker current i pc s)
  unfolding step_worker begin_work end_work thread_exit
  worker-Steps current i absent here = (s, refl, g)
  worker-Steps current i unborn here = (s, refl, g)
  worker-Steps current i at_lock here =
      turn_of s g current i at_lock here (λ e. absurd (cc)) refl refl
  worker-Steps current i waiting here = wakes-Steps s g current i here
  worker-Steps current i (holding task) here = (
    _,
    refl,
    record {
      inv =
          Follows-Inv s g.inv i (working task) here (λ e. absurd (cc))
            (Follows-others s g s.pool.thread_ids (s.pool.busy_num + 1) s.pool.live_num
              s.pool.exit_num _ _ refl (omega arith) g.inv.least g.inv.most g.inv.slots);
      kept = g.kept;
    },
  )
  worker-Steps current i (working task) here = (
    _,
    refl,
    record {
      inv =
          Follows-Inv s g.inv i at_lock here (λ e. absurd (cc))
            (Follows-others s g s.pool.thread_ids (s.pool.busy_num - 1) s.pool.live_num
              s.pool.exit_num _ _ refl (omega (arith, busy_positive s g i task here)) g.inv.least
              g.inv.most g.inv.slots);
      kept = g.kept;
    },
  )
  worker-Steps current i (leaving counted place) here = exits-Steps i counted place here
  worker-Steps current i (gone counted) here = (s, refl, g)

  grow-Good : (q l : ℕ) → Good (grow_by (add_threads s.creates q l s.next s.pool) s)
  unfolding with_filled
  grow-Good q l =
      let f = add_threads s.creates q l s.next s.pool in
      let grew = add_threads-Grew s.creates q l s.next s.pool g.inv.most in
      record {
        inv = record {
          queue = IsQueue-others s.pool _ _ _ _ _ g.inv.queue;
          fifo = g.inv.fifo ∙ ap (λ t. s.taken ++ t) (sym (pending-others s.pool _ _ _ _ _));
          live = omega (
            arith,
            grew.same,
            g.inv.live,
            tally-spawn_one s.creates is_live s.next f.next s.workers f.next
                (is_live-newborn s.creates) grew.more (omega arith),
          );
          busy =
              g.inv.busy
              ∙ sym (
                  tally-spawn_zero s.creates is_busy s.next f.next s.workers f.next
                    (is_busy-newborn s.creates) grew.more (omega arith));
          least = omega (arith, g.inv.least, grew.same, grew.more);
          most = grew.most;
          slots = grew.slots ∙ g.inv.slots;
          created = λ i h.
              spawn-beyond s.creates s.next f.next i s.workers h
              ∙ g.inv.created i (omega (arith, grew.more));
        };
        kept = g.kept;
      }

ask_to_go-Good :
    (l b : ℕ) (s : System)
    → Good s
    → Good (record s { pool = ask_to_go l b s.pool; manager = at_test })
unfolding ask_to_go
ask_to_go-Good l b s g = elim (Bool-cases (ltb (b * 2) l && ltb s.pool.min_num l)) [
  | inl e ↦ rw e (Good-quiet s number s.pool.shutdown at_test g)
  | inr e ↦ rw e (Good-quiet s s.pool.exit_num s.pool.shutdown at_test g)
]

manager-Good : (pc : ManagerPc) (s : System) → Good s → Good (step_manager pc s)
unfolding step_manager
manager-Good at_test s g =
    Good-quiet s s.pool.exit_num s.pool.shutdown (if s.pool.shutdown then finished else asleep) g
manager-Good asleep s g =
    Good-quiet s s.pool.exit_num s.pool.shutdown (sampled s.pool.queue_size s.pool.live_num) g
manager-Good (sampled q l) s g =
    Good-quiet s s.pool.exit_num s.pool.shutdown (judging q l s.pool.busy_num) g
manager-Good (judging q l b) s g =
    let s₁ = grow_by (add_threads s.creates q l s.next s.pool) s in
    Good-quiet s₁ s₁.pool.exit_num s₁.pool.shutdown (grown l b) (grow-Good s g q l)
manager-Good (grown l b) s g = ask_to_go-Good l b s g
manager-Good finished s g = g

freed_add :
    (task : Task) (s : System) (out : AddTurn × ThreadPool) → (after_add task s out).freed ≡ s.freed
freed_add task s (add_waits, pool) = refl
freed_add task s (add_refused, pool) = refl
freed_add task s (add_stored, pool) = refl

-- Every step but the last of the destruction.
step-Steps : (a : Actor) (s : System) → a ≢ freer → Good s → Steps (step a s)
unfolding step
step-Steps (caller current task) s using g =
    let (out, e, t) = thread_pool_add-Added current task s.pool g.inv.queue in
    let turn : Outcome System = (do
      turn ← thread_pool_add current task s.pool
      ok (after_add task s turn)) in
    let alive : step (caller current task) s ≡ turn =
      ap (λ (b : Bool). if b then fault else turn) g.kept in
    let returns : turn ≡ ok (after_add task s out) = rw e refl in
    (
      after_add task s out,
      alive ∙ returns,
      record { inv = caller-Inv s current task out g.inv t; kept = freed_add task s out ∙ g.kept },
    )
step-Steps (worker current i) s using g =
    let (s', e, g') = worker-Steps s g current i (s.workers i) refl in
    let turn = step_worker current i (s.workers i) s in
    let alive : step (worker current i) s ≡ turn =
      ap (λ (b : Bool). if b && touches (s.workers i) then fault else turn) g.kept in
    (s', alive ∙ e, g')
step-Steps manager_thread s using g = (_, refl, manager-Good s.manager s g)
step-Steps destroyer s using g = (_, refl, Good-quiet s s.pool.exit_num true s.manager g)
step-Steps freer s using g = absurd (using refl)

-- A schedule in which the pool is not freed.
abbrev pub NoFree : List Actor → Type 0
NoFree [] = Unit
NoFree (a ∷ rest) = (a ≢ freer) × NoFree rest

run-Steps : (schedule : List Actor) (s : System) → NoFree schedule → Good s → Steps (run schedule s)
unfolding run
run-Steps [] s using g = (s, refl, g)
run-Steps (a ∷ rest) s using g =
    let (s₁, e₁, g₁) = step-Steps a s using.0 g in
    let (s₂, e₂, g₂) = run-Steps rest s₁ using.1 g₁ in (s₂, rw e₁ e₂, g₂)

pub run-Inv :
    (schedule : List Actor) (s : System)
    → NoFree schedule
    → s.freed ≡ false
    → Inv s
    → (s' : System) × (run schedule s ≡ ok s') × Inv s'
run-Inv schedule s using kept inv =
    let (s', e, g) = run-Steps schedule s using (record { inv = inv; kept = kept }) in
    (s', e, g.inv)
