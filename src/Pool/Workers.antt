-- ===== src/Pool/Workers.antt =====
-- `worker` and `threadExit` of threadpool/src3/pthreadpool2.cpp.
use hello_world.Prelude.{
  ℕ, ◌+◌, ◌-◌, ◌%◌, Bool, true, false, not, ◌&&◌, ltb, ◌==◌, if◌then◌else◌, get_elem?, set,
}
use hello_world.Outcome.{Outcome, ◌>>=◌, deref, ok}
use hello_world.Pool.State.{Task, ThreadPool, read_shutdown}

-- The task at `queueFront` is taken.
unfoldable pub take_task : ThreadPool → Outcome (Task × ThreadPool)
take_task pool = do
  task ← deref (get_elem? pool.task_q pool.queue_front)
  ok (
    task,
    record pool {
      queue_front = (pool.queue_front + 1) % pool.queue_capacity;
      queue_size = pool.queue_size - 1;
    },
  )

-- What a worker that holds the mutex does next: it waits on `notEmpty`, it goes to `threadExit`, or
-- it has a task.
pub data WorkerTurn : Type 0 where
  turn_waits turn_leaves : WorkerTurn
  turn_takes : Task → WorkerTurn

abbrev pub with_task : Task × ThreadPool → WorkerTurn × ThreadPool
with_task (task, pool) = (turn_takes task, pool)

-- From the test of the inner loop on.
unfoldable pub worker_turn : (current : Bool) → ThreadPool → Outcome (WorkerTurn × ThreadPool)
unfolding take_task
worker_turn current pool =
    if pool.queue_size == 0 && not (read_shutdown current pool)
    then ok (turn_waits, pool)
    else if read_shutdown current pool
    then ok (turn_leaves, pool)
    else (do taken ← take_task pool; ok (with_task taken))

-- Whether a worker that woke up is one of those to go, and the pool after that test.
unfoldable pub after_wake : ThreadPool → Bool × ThreadPool
after_wake pool =
    let asked = record pool { exit_num = pool.exit_num - 1 } in
    if ltb 0 pool.exit_num
    then (if ltb pool.min_num pool.live_num
        then (true, record asked { live_num = pool.live_num - 1 })
        else (false, asked))
    else (false, pool)

unfoldable pub begin_work : ThreadPool → ThreadPool
begin_work pool = record pool { busy_num = pool.busy_num + 1 }

unfoldable pub end_work : ThreadPool → ThreadPool
end_work pool = record pool { busy_num = pool.busy_num - 1 }

-- One round of the loop of `threadExit`, which takes no lock, and whether it was the last. Nothing
-- else writes a place that holds the identifier of a living thread, so the test and the write are
-- one.
unfoldable pub thread_exit : (tid place : ℕ) → ThreadPool → Outcome (Bool × ThreadPool)
thread_exit tid place pool =
    if ltb place pool.max_num
    then (do
      id ← deref (get_elem? pool.thread_ids place)
      ok (
          if id == tid
          then (true, record pool { thread_ids = set pool.thread_ids place 0 })
          else (false, pool)))
    else ok (true, pool)
