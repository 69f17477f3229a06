-- ===== src/Pool/System.antt =====
-- The threads of threadpool/src3/pthreadpool2.cpp, interleaved in any order: any number of callers of
-- `threadPoolAdd`, the workers, the manager, and a caller of `threadPoolDestroy`. A thread that
-- waits on a condition may wake up at any time, as POSIX allows. Each access to memory takes effect at
-- once: that `shutdown` and `threadIDs` are also accessed without a lock counts as no fault.
use hello_world.Prelude.{
  ℕ, suc, ◌+◌, Bool, true, false, ◌&&◌, Option, none, some, List, [], ◌∷◌, ◌++◌, ltb, leb, ◌==◌,
  if◌then◌else◌,
}
use hello_world.Outcome.{Outcome, ◌>>=◌, ok, fault}
use hello_world.Pool.State.{
  Task, ThreadPool, Creations, AddTurn, thread_pool_add, add_waits, add_refused, add_stored,
}
use hello_world.Pool.Workers.{
  WorkerTurn, worker_turn, after_wake, begin_work, end_work, thread_exit, turn_waits, turn_leaves,
  turn_takes,
}
use hello_world.Pool.Manager.{Filled, add_threads, with_filled, ask_to_go}

-- Where a worker stands. `leaving` and `gone` say whether `liveNum` still counts the thread.
pub data WorkerPc : Type 0 where
  absent : WorkerPc  -- not created yet
  unborn : WorkerPc  -- `pthread_create` failed, and `liveNum` counts the thread
  at_lock : WorkerPc  -- at the head of the outer loop
  waiting : WorkerPc  -- in `pthread_cond_wait`
  holding : Task → WorkerPc  -- behind the unlocking
  working : Task → WorkerPc  -- counted in `busyNum`
  leaving : (counted : Bool) → (place : ℕ) → WorkerPc  -- in `threadExit`, at this place
  gone : (counted : Bool) → WorkerPc

-- Where the manager stands, with what it has read.
pub data ManagerPc : Type 0 where
  at_test : ManagerPc
  asleep : ManagerPc
  sampled : (queue_size live_num : ℕ) → ManagerPc
  judging : (queue_size live_num busy_num : ℕ) → ManagerPc
  grown : (live_num busy_num : ℕ) → ManagerPc
  finished : ManagerPc

abbrev pub is_finished : ManagerPc → Bool
is_finished finished = true
is_finished _ = false

-- Worker `i` has the identifier `i + 1`. The two histories are no part of the program.
pub record System : Type 0 where
  pub pool : ThreadPool
  pub creates : Creations
  pub workers : ℕ → WorkerPc
  pub manager : ManagerPc
  pub next : ℕ
  pub freed : Bool
  pub added : List Task
  pub taken : List Task

pub data Actor : Type 0 where
  caller : (current : Bool) → Task → Actor  -- whether it reads the current `shutdown`
  worker : (current : Bool) → ℕ → Actor
  manager_thread : Actor
  destroyer : Actor  -- `threadPoolDestroy` up to the joining of the manager
  freer : Actor  -- and behind it

abbrev pub put_at {ℓ} : {A : Type ℓ} → (ℕ → A) → ℕ → A → ℕ → A
put_at f i a j = if i == j then a else f j

abbrev pub move_worker : ℕ → WorkerPc → System → System
move_worker i pc s = record s { workers = put_at s.workers i pc }

-- The result of a caller's turn.
abbrev pub after_add : Task → System → AddTurn × ThreadPool → System
after_add task s (add_stored, pool) = record s { pool = pool; added = s.added ++ task ∷ [] }
after_add task s (add_waits, pool) = record s { pool = pool }
after_add task s (add_refused, pool) = record s { pool = pool }

-- The result of a worker's turn.
abbrev pub after_turn : ℕ → System → WorkerTurn × ThreadPool → System
after_turn i s (turn_waits, pool) = move_worker i waiting (record s { pool = pool })
after_turn i s (turn_leaves, pool) = move_worker i (leaving true 0) (record s { pool = pool })
after_turn i s (turn_takes task, pool) =
    move_worker i (holding task) (record s { pool = pool; taken = s.taken ++ task ∷ [] })

-- The result of a round of `threadExit`.
abbrev pub after_exit : ℕ → (counted : Bool) → (place : ℕ) → System → Bool × ThreadPool → System
after_exit i counted place s (true, pool) = move_worker i (gone counted) (record s { pool = pool })
after_exit i counted place s (false, pool) =
    move_worker i (leaving counted (place + 1)) (record s { pool = pool })

unfoldable pub woken : (current : Bool) → ℕ → System → Bool × ThreadPool → Outcome System
unfolding worker_turn
woken current i s (true, pool) = ok (move_worker i (leaving false 0) (record s { pool = pool }))
woken current i s (false, pool) = do
  turn ← worker_turn current pool
  ok (after_turn i (record s { pool = pool }) turn)

-- One step of worker `i`, by where it stands.
unfoldable pub step_worker : (current : Bool) → ℕ → WorkerPc → System → Outcome System
unfolding worker_turn after_wake woken begin_work end_work thread_exit
step_worker current i absent s = ok s
step_worker current i unborn s = ok s
step_worker current i at_lock s = do turn ← worker_turn current s.pool; ok (after_turn i s turn)
step_worker current i waiting s = woken current i s (after_wake s.pool)
step_worker current i (holding task) s =
    ok (move_worker i (working task) (record s { pool = begin_work s.pool }))
step_worker current i (working task) s =
    ok (move_worker i at_lock (record s { pool = end_work s.pool }))
step_worker current i (leaving counted place) s = do
  out ← thread_exit (suc i) place s.pool
  ok (after_exit i counted place s out)
step_worker current i (gone counted) s = ok s

-- The worker of a call of `pthread_create`.
abbrev pub newborn : Option ℕ → WorkerPc
newborn none = at_lock
newborn (some left) = unborn

-- The workers that the manager has started.
abbrev pub spawn : Creations → (next next' : ℕ) → (ℕ → WorkerPc) → ℕ → WorkerPc
spawn creates next next' workers i =
    if leb next i && ltb i next' then newborn (creates i) else workers i

abbrev pub grow_by : Filled → System → System
grow_by f s = record s {
  pool = with_filled f s.pool;
  workers = spawn s.creates s.next f.next s.workers;
  next = f.next;
}

unfoldable pub step_manager : ManagerPc → System → System
unfolding add_threads with_filled ask_to_go
step_manager at_test s = record s { manager = if s.pool.shutdown then finished else asleep }
step_manager asleep s = record s { manager = sampled s.pool.queue_size s.pool.live_num }
step_manager (sampled q l) s = record s { manager = judging q l s.pool.busy_num }
step_manager (judging q l b) s = record (grow_by (add_threads s.creates q l s.next s.pool) s) {
  manager = grown l b;
}
step_manager (grown l b) s = record s { pool = ask_to_go l b s.pool; manager = at_test }
step_manager finished s = s

-- Whether the next step of a worker reads or writes the pool.
abbrev pub touches : WorkerPc → Bool
touches absent = false
touches unborn = false
touches (gone counted) = false
touches _ = true

-- `threadPoolDestroy` behind the joining of the manager: it frees the pool, and waits for no worker.
unfoldable pub free_pool : System → System
free_pool s = if s.pool.shutdown && is_finished s.manager then record s { freed = true } else s

-- A step on a pool that was freed is undefined behaviour.
unfoldable pub step : Actor → System → Outcome System
unfolding thread_pool_add step_worker step_manager free_pool
step (caller current task) s =
    if s.freed
    then fault
    else (do turn ← thread_pool_add current task s.pool; ok (after_add task s turn))
step (worker current i) s =
    if s.freed && touches (s.workers i) then fault else step_worker current i (s.workers i) s
step manager_thread s = ok (step_manager s.manager s)
step destroyer s = ok (record s { pool = record (s.pool) { shutdown = true } })
step freer s = ok (free_pool s)

-- A schedule is the list of the threads that take the next steps.
unfoldable pub run : List Actor → System → Outcome System
unfolding step
run [] s = ok s
run (a ∷ rest) s = do s' ← step a s; run rest s'

-- Behind `threadPoolCreate`: `min` workers and the manager are started.
unfoldable pub started : Creations → ThreadPool → System
started creates pool = record {
  creates = creates;
  pool = pool;
  workers = spawn creates 0 pool.live_num (λ i. absent);
  manager = at_test;
  next = pool.live_num;
  freed = false;
  added = [];
  taken = [];
}
