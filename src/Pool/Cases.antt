-- ===== src/Pool/Cases.antt =====
-- The turns of a caller and of a worker of threadpool/src3/pthreadpool2.cpp, case by case.
use hello_world.Prelude.{
  ℕ, zero, suc, ◌+◌, ◌<◌, ◌≡◌, refl, ap, ◌∙◌, inl, inr, Bool, true, false, List, [], ◌∷◌, ◌++◌,
  arith, ◌==◌, ==→eq, Bool-cases, length,
}
use hello_world.Outcome.{ok}
use hello_world.Pool.State.{
  Task, ThreadPool, AddTurn, read_shutdown, thread_pool_add, add_waits, add_refused, add_stored,
}
use hello_world.Pool.Workers.{WorkerTurn, worker_turn, turn_waits, turn_leaves, turn_takes}
use hello_world.Pool.Ring.{
  entries, pending, IsQueue, stored, store_task-stored, popped, take_task-popped,
}

entries-length :
    (q : List Task) (capacity front k n : ℕ) → length (entries q capacity front k n) ≡ n
unfolding entries
entries-length q capacity front k zero = refl
entries-length q capacity front k (suc n) = ap suc (entries-length q capacity front (k + 1) n)

pending-length : (pool : ThreadPool) → length (pending pool) ≡ pool.queue_size
unfolding pending
pending-length pool =
    entries-length pool.task_q pool.queue_capacity pool.queue_front 0 pool.queue_size

pending-none : (pool : ThreadPool) → pool.queue_size ≡ 0 → pending pool ≡ []
unfolding pending entries
pending-none pool e = rw e refl

room_left :
    (pool : ThreadPool)
    → IsQueue pool
    → (pool.queue_size == pool.queue_capacity) ≡ false
    → length (pending pool) < pool.queue_capacity
room_left pool v space =
    let fits = v.fits in let same = pending-length pool in ground (arith, fits, same, space)

-- What a caller's turn comes to.
pub data Added (current : Bool) (task : Task) (pool : ThreadPool)
    : AddTurn × ThreadPool → Type 0 where
  still_full :
      length (pending pool) ≡ pool.queue_capacity
      → read_shutdown current pool ≡ false
      → Added current task pool (add_waits, pool)
  shut_down : read_shutdown current pool ≡ true → Added current task pool (add_refused, pool)
  has_stored :
      length (pending pool) < pool.queue_capacity
      → IsQueue (stored task pool)
      → pending (stored task pool) ≡ pending pool ++ task ∷ []
      → read_shutdown current pool ≡ false
      → Added current task pool (add_stored, stored task pool)

-- If the ring of the queue is in order, a turn of threadPoolAdd returns, and one of three things
-- happens: it leaves the pool as it is and waits, where the tasks that wait are as many as the
-- capacity and shutdown was read as unset; or it leaves the pool as it is and refuses, where
-- shutdown was read as set; or it stores the task, where fewer tasks wait than the capacity and
-- shutdown was read as unset, the ring stays in order and the tasks that wait are those of before
-- with the new one behind them
pub thread_pool_add-Added :
    (current : Bool) (task : Task) (pool : ThreadPool)
    → IsQueue pool
    → (out : AddTurn × ThreadPool) × (thread_pool_add current task pool ≡ ok out)
      × Added current task pool out
unfolding thread_pool_add
thread_pool_add-Added current task pool v =
    elim (Bool-cases (pool.queue_size == pool.queue_capacity)) [
      | inl full ↦ elim (Bool-cases (read_shutdown current pool)) [
        | inl shut ↦ ((add_refused, pool), rw (full, shut) refl, shut_down shut)
        | inr live ↦ (
          (add_waits, pool),
          rw (full, live) refl,
          still_full (pending-length pool ∙ ==→eq _ _ full) live,
        )
      ]
      | inr space ↦ elim (Bool-cases (read_shutdown current pool)) [
        | inl shut ↦ ((add_refused, pool), rw (space, shut) refl, shut_down shut)
        | inr live ↦
            let (e, q, p) = store_task-stored task pool v (λ h. absurd (ground arith)) in
            (
              (add_stored, stored task pool),
              rw (space, e, live) refl,
              has_stored (room_left pool v space) q p live,
            )
      ]
    ]

-- What a worker's turn comes to.
pub data Turned (current : Bool) (pool : ThreadPool) : WorkerTurn × ThreadPool → Type 0 where
  nothing_waits :
      pending pool ≡ []
      → read_shutdown current pool ≡ false
      → Turned current pool (turn_waits, pool)
  must_leave : read_shutdown current pool ≡ true → Turned current pool (turn_leaves, pool)
  has_taken :
      (task : Task)
      → IsQueue (popped pool)
      → pending pool ≡ task ∷ pending (popped pool)
      → read_shutdown current pool ≡ false
      → Turned current pool (turn_takes task, popped pool)

-- If the ring of the queue is in order, a worker's turn at the lock returns, and one of three
-- things happens: it leaves the pool as it is and waits, where no task waits and shutdown was read
-- as unset; or it leaves the pool as it is and goes to leave, where shutdown was read as set; or
-- it takes a task, where shutdown was read as unset, the ring stays in order and the tasks that
-- waited are the one taken with those that still wait behind it
pub worker_turn-Turned :
    (current : Bool) (pool : ThreadPool)
    → IsQueue pool
    → (out : WorkerTurn × ThreadPool) × (worker_turn current pool ≡ ok out)
      × Turned current pool out
unfolding worker_turn
worker_turn-Turned current pool v = elim (Bool-cases (pool.queue_size == 0)) [
  | inl empty ↦ elim (Bool-cases (read_shutdown current pool)) [
    | inl shut ↦ ((turn_leaves, pool), rw (empty, shut) refl, must_leave shut)
    | inr live ↦ (
      (turn_waits, pool),
      rw (empty, live) refl,
      nothing_waits (pending-none pool (==→eq _ _ empty)) live,
    )
  ]
  | inr some_wait ↦ elim (Bool-cases (read_shutdown current pool)) [
    | inl shut ↦ ((turn_leaves, pool), rw (some_wait, shut) refl, must_leave shut)
    | inr live ↦
        let (task, e, q, p) = take_task-popped pool v (λ h. absurd (ground arith)) in
        ((turn_takes task, popped pool), rw (some_wait, e, live) refl, has_taken task q p live)
  ]
]

-- A change of the other fields.
abbrev pub others : ThreadPool → (ids : List ℕ) (busy live exit : ℕ) (shutdown : Bool) → ThreadPool
others pool ids busy live exit shutdown = record pool {
  thread_ids = ids;
  busy_num = busy;
  live_num = live;
  exit_num = exit;
  shutdown = shutdown;
}

pub IsQueue-others :
    (pool : ThreadPool) (ids : List ℕ) (busy live exit : ℕ) (shutdown : Bool)
    → IsQueue pool
    → IsQueue (others pool ids busy live exit shutdown)
IsQueue-others pool ids busy live exit shutdown v = record {
  room = v.room;
  fits = v.fits;
  front_in = v.front_in;
  rear_at = v.rear_at;
}

pub pending-others :
    (pool : ThreadPool) (ids : List ℕ) (busy live exit : ℕ) (shutdown : Bool)
    → pending (others pool ids busy live exit shutdown) ≡ pending pool
unfolding pending
pending-others pool ids busy live exit shutdown = refl
