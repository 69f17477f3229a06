-- ===== src/Pool/Tests.antt =====
-- The theorems on the pool at concrete inputs.
use hello_world.Prelude.{
  ℕ, ◌≡◌, refl, true, false, none, some, List, [], ◌∷◌, arith, ◌==◌, if◌then◌else◌,
}
use hello_world.Outcome.{ok, fault}
use hello_world.Pool.State.{
  Task, ThreadPool, Creations, fresh_pool, thread_pool_create, AddTurn, thread_pool_add,
}
use hello_world.Pool.Workers.{WorkerTurn, worker_turn}
use hello_world.Pool.System.{System, Actor, run, started, caller, worker, manager_thread, destroyer}
use hello_world.Pool.Ring.{IsQueue}
use hello_world.Pool.Cases.{Added, thread_pool_add-Added, Turned, worker_turn-Turned}
use hello_world.Pool.Invariant.{Inv}
use hello_world.Pool.Running.{NoFree}
use hello_world.Pool.Start.{made_pool, create-ok, create-run-Inv, early_free, destroy-faults}

-- Two tasks run on a pool of one to two workers with a queue of two places.
abbrev job : ℕ → Task
job k = record { function = 7; arg = k }

-- The third thread is not started.
abbrev creates : Creations
creates i = if i == 2 then some 0 else none

abbrev schedule : List Actor
schedule =
    worker true 0
    ∷ caller false (job 1)
    ∷ caller false (job 2)
    ∷ caller false (job 3)
    ∷ worker true 0
    ∷ destroyer
    ∷ worker false 0
    ∷ manager_thread
    ∷ []

schedule-NoFree : NoFree schedule
schedule-NoFree = (
  (λ e. absurd (cc)),
  (
    (λ e. absurd (cc)),
    (
      (λ e. absurd (cc)),
      (
        (λ e. absurd (cc)),
        ((λ e. absurd (cc)), ((λ e. absurd (cc)), ((λ e. absurd (cc)), ((λ e. absurd (cc)), tt)))),
      ),
    ),
  ),
)

create-run-Inv_example :
    (pool : ThreadPool) × (thread_pool_create creates true true true true 1 2 2 ≡ ok (some pool))
    × (s : System) × (run schedule (started creates pool) ≡ ok s)
    × Inv s
create-run-Inv_example =
    create-run-Inv creates 1 2 2 schedule (omega arith) (omega arith) schedule-NoFree

destroy-faults_example : run early_free (started creates (made_pool creates 1 2 2)) ≡ fault
destroy-faults_example =
    destroy-faults creates 1 2 2 (made_pool creates 1 2 2) refl (omega arith)
      (create-ok creates 1 2 2 (omega arith))

-- A ring of two places with one task, at its last place.
abbrev one_waits : ThreadPool
one_waits = record (made_pool creates 1 2 2) {
  task_q = job 1 ∷ job 2 ∷ [];
  queue_size = 1;
  queue_front = 1;
}

one_waits-IsQueue : IsQueue one_waits
unfolding fresh_pool
one_waits-IsQueue = record {
  room = refl;
  fits = omega arith;
  front_in = omega arith;
  rear_at = refl;
}

thread_pool_add-Added_example :
    (out : AddTurn × ThreadPool) × (thread_pool_add true (job 3) one_waits ≡ ok out)
    × Added true (job 3) one_waits out
thread_pool_add-Added_example = thread_pool_add-Added true (job 3) one_waits one_waits-IsQueue

worker_turn-Turned_example :
    (out : WorkerTurn × ThreadPool) × (worker_turn true one_waits ≡ ok out)
    × Turned true one_waits out
worker_turn-Turned_example = worker_turn-Turned true one_waits one_waits-IsQueue
