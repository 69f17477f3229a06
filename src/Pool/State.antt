-- ===== src/Pool/State.antt =====
-- `struct ThreadPool` of threadpool/src3/pthreadpool2.cpp and the operations of its callers:
-- `threadPoolCreate`, `threadPoolAdd`, `threadPoolBusyNum` and `threadPoolAliveNum`. What stands
-- between the locking and the unlocking of a mutex is one function.
use hello_world.Prelude.{
  ℕ, zero, suc, ◌+◌, ◌-◌, ◌%◌, max, min, Bool, false, not, ◌&&◌, Option, none, some, List, [], ◌∷◌,
  ◌++◌, ltb, leb, ◌==◌, if◌then◌else◌, length, set, replicate,
}
use hello_world.Outcome.{Outcome, ◌>>=◌, ok, fault}

-- A function pointer and its argument, as codes: the pool only moves them.
pub record Task : Type 0 where
  pub function : ℕ
  pub arg : ℕ

abbrev pub blank_task : Task
blank_task = record { function = 0; arg = 0 }

pub record ThreadPool : Type 0 where
  pub task_q : List Task
  pub queue_capacity : ℕ
  pub queue_size : ℕ
  pub queue_front : ℕ
  pub queue_rear : ℕ
  pub thread_ids : List ℕ  -- 0 marks a free place
  pub min_num : ℕ
  pub max_num : ℕ
  pub busy_num : ℕ
  pub live_num : ℕ
  pub exit_num : ℕ
  pub shutdown : Bool

-- What `pthread_create` does for each thread in turn: `none` where it starts the thread, and else what
-- it leaves in the place of the identifier, which POSIX does not say. The code never looks at its
-- result.
abbrev pub Creations : Type 0
Creations = ℕ → Option ℕ

-- The identifier of thread `i` is `i + 1`.
abbrev pub id_left : ℕ → Option ℕ → ℕ
id_left i none = suc i
id_left i (some left) = left

-- What the calls for the threads from `next` on, `n` of them, leave.
unfoldable pub new_ids : Creations → (next n : ℕ) → List ℕ
new_ids creates next zero = []
new_ids creates next (suc n) = id_left next (creates next) ∷ new_ids creates (next + 1) n

-- `pthread_create(&pool->threadIDs[i], ...)` for each `i < min`: past `max` it writes outside.
unfoldable pub start_threads : Creations → (min max : ℕ) → Outcome (List ℕ)
unfolding new_ids replicate
start_threads creates min max =
    if leb min max then ok (new_ids creates 0 min ++ replicate (max - min) 0) else fault

unfoldable pub fresh_pool :
    (min max queue_size : ℕ) → (task_q : List Task) → (thread_ids : List ℕ) → ThreadPool
fresh_pool min max queue_size task_q thread_ids = record {
  task_q = task_q;
  queue_capacity = queue_size;
  queue_size = 0;
  queue_front = 0;
  queue_rear = 0;
  thread_ids = thread_ids;
  min_num = min;
  max_num = max;
  busy_num = 0;
  live_num = min;
  exit_num = 0;
  shutdown = false;
}

-- The answers of the three `malloc`s and of the four initialisations. The path of failure reads
-- `pool->taskQ`, which nothing has set there. A queue for which there is no memory is not noticed:
-- it has no place.
unfoldable pub thread_pool_create :
    Creations
    → (got_pool got_ids inits got_queue : Bool) (min max queue_size : ℕ)
    → Outcome (Option ThreadPool)
unfolding start_threads fresh_pool replicate
thread_pool_create creates got_pool got_ids inits got_queue min max queue_size =
    let task_q = if got_queue then replicate queue_size blank_task else [] in
    if not got_pool
    then ok none
    else if not got_ids
    then fault
    else if not inits
    then fault
    else (do
      thread_ids ← start_threads creates min max
      ok (some (fresh_pool min max queue_size task_q thread_ids)))

-- The task is written at `queueRear`.
unfoldable pub store_task : Task → ThreadPool → Outcome ThreadPool
store_task task pool =
    if ltb pool.queue_rear (length pool.task_q)
    then ok (record pool {
      task_q = set pool.task_q pool.queue_rear task;
      queue_rear = (pool.queue_rear + 1) % pool.queue_capacity;
      queue_size = pool.queue_size + 1;
    })
    else fault

-- What a caller of `threadPoolAdd` that holds the mutex does next: it waits on `notFull`, it returns
-- without adding, or it has added.
pub data AddTurn : Type 0 where
  add_waits add_refused add_stored : AddTurn

-- `threadPoolDestroy` writes `shutdown` without the mutex, so a thread that holds it may have read the
-- value of before. A turn acts on one such read: of the two tests, the second is reached with the
-- same value or without a first read.
abbrev pub read_shutdown : (current : Bool) → ThreadPool → Bool
read_shutdown current pool = current && pool.shutdown

unfoldable pub thread_pool_add :
    (current : Bool) → Task → ThreadPool → Outcome (AddTurn × ThreadPool)
unfolding store_task
thread_pool_add current task pool =
    if pool.queue_size == pool.queue_capacity && not (read_shutdown current pool)
    then ok (add_waits, pool)
    else if read_shutdown current pool
    then ok (add_refused, pool)
    else (do pool' ← store_task task pool; ok (add_stored, pool'))

unfoldable pub thread_pool_busy_num : ThreadPool → ℕ
thread_pool_busy_num pool = pool.busy_num

unfoldable pub thread_pool_alive_num : ThreadPool → ℕ
thread_pool_alive_num pool = pool.live_num
