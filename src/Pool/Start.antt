-- ===== src/Pool/Start.antt =====
-- A pool from `threadPoolCreate` of threadpool/src3/pthreadpool2.cpp on, until it is destroyed.
use mathlib.Core.Path.{subst}
use native.Mathlib.Nat.{mod-eq_of_lt}
use hello_world.Prelude.{
  ℕ, zero, suc, ◌+◌, ◌-◌, ◌≤◌, ◌<◌, max, min, ◌≡◌, refl, sym, ap, ◌∙◌, inl, inr, true, false, none,
  some, List, [], ◌∷◌, ◌++◌, arith, ltb, leb, lt→ltb, le→leb, Bool-cases, length, replicate,
  length-append, length-replicate,
}
use hello_world.Outcome.{ok-injective, ok, fault}
use hello_world.Pool.State.{
  blank_task, ThreadPool, Creations, new_ids, start_threads, fresh_pool, thread_pool_create,
}
use hello_world.Pool.System.{
  WorkerPc, System, Actor, step_manager, free_pool, step, run, started, absent, at_test, worker,
  manager_thread, destroyer, freer,
}
use hello_world.Pool.Count.{tally}
use hello_world.Pool.Ring.{entries, pending}
use hello_world.Pool.Growing.{spawn-beyond, tally-spawn_one, tally-spawn_zero}
use hello_world.Pool.Invariant.{is_live, is_busy, is_live-newborn, is_busy-newborn, Inv}
use hello_world.Pool.Running.{NoFree, run-Inv}

blank : Creations → ThreadPool → ℕ → System
blank creates pool n = record {
  creates = creates;
  pool = pool;
  workers = λ i. absent;
  manager = at_test;
  next = n;
  freed = false;
  added = [];
  taken = [];
}

tally_absent : (w : WorkerPc → ℕ) → w absent ≡ 0 → (n : ℕ) → tally w n (λ i. absent) ≡ 0
unfolding tally
tally_absent w weightless zero = refl
tally_absent w weightless (suc n) = omega (arith, weightless, tally_absent w weightless n)

-- The pool that `threadPoolCreate` makes.
abbrev pub made_pool : Creations → (min max size : ℕ) → ThreadPool
made_pool creates min max size =
    fresh_pool min max size (replicate size blank_task)
      (new_ids creates 0 min ++ replicate (max - min) 0)

pub create-ok :
    (creates : Creations) (min max size : ℕ)
    → min ≤ max
    → thread_pool_create creates true true true true min max size
      ≡ ok (some (made_pool creates min max size))
unfolding thread_pool_create start_threads
create-ok creates min max size h = rw (le→leb min max h) refl

fresh-Inv :
    (creates : Creations) (min max size : ℕ) (ids : List ℕ)
    → min ≤ max
    → 0 < size
    → length ids ≡ max
    → Inv (started creates (fresh_pool min max size (replicate size blank_task) ids))
unfolding started fresh_pool pending entries
fresh-Inv creates min max size ids h room slots = record {
  queue = record {
    room = length-replicate size blank_task;
    fits = omega arith;
    front_in = room;
    rear_at = sym (mod-eq_of_lt {n = 0 + 0} {m = size} room);
  };
  fifo = refl;
  live = omega (
    arith,
    tally-spawn_one creates is_live 0 min (λ i. absent) min (is_live-newborn creates) (omega arith)
        (omega arith),
    tally_absent is_live refl 0,
  );
  busy = sym (
      tally-spawn_zero creates is_busy 0 min (λ i. absent) min (is_busy-newborn creates)
        (omega arith) (omega arith)
      ∙ tally_absent is_busy refl 0);
  least = omega arith;
  most = h;
  slots = slots;
  created = λ i low. spawn-beyond creates 0 min i (λ i. absent) low;
}

length-new_ids : (creates : Creations) (next n : ℕ) → length (new_ids creates next n) ≡ n
unfolding new_ids
length-new_ids creates next zero = refl
length-new_ids creates next (suc n) = ap suc (length-new_ids creates (next + 1) n)

length-ids :
    (creates : Creations) (min max : ℕ)
    → min ≤ max
    → length (new_ids creates 0 min ++ replicate (max - min) 0) ≡ max
length-ids creates min max h = omega (
  arith,
  length-append (new_ids creates 0 min) (replicate (max - min) 0),
  length-new_ids creates 0 min,
  length-replicate {A = ℕ} (max - min) 0,
)

pub made-run-Inv :
    (creates : Creations) (min max size : ℕ) (schedule : List Actor)
    → min ≤ max
    → 0 < size
    → NoFree schedule
    → (s : System) × (run schedule (started creates (made_pool creates min max size)) ≡ ok s)
      × Inv s
unfolding started
made-run-Inv creates min max size schedule h room using =
    run-Inv schedule (started creates (made_pool creates min max size)) using refl
      (fresh-Inv creates min max size _ h room (length-ids creates min max h))

-- If threadPoolCreate gets its memory and its locks, its minimum is at most its maximum and the
-- queue has a place, then whichever calls of pthread_create fail, and whether the turns of callers
-- and workers read the value of shutdown of now or of before, every schedule of callers, workers,
-- the manager and the start of the destruction, each access of which takes effect at once, runs
-- without an access outside the queue or the array of identifiers, and in the state that it
-- reaches the tasks added so far are those taken so far, in the same order, followed by those in
-- the queue; liveNum counts every worker created so far but those that went at a request of the
-- manager, those that pthread_create did not start included; busyNum counts the workers that run a
-- task; liveNum is between the minimum and the maximum; and threadIDs has as many places as the
-- maximum
pub create-run-Inv :
    (creates : Creations) (min max size : ℕ) (schedule : List Actor)
    → min ≤ max
    → 0 < size
    → NoFree schedule
    → (pool : ThreadPool) × (thread_pool_create creates true true true true min max size
        ≡ ok (some pool))
      × (s : System) × (run schedule (started creates pool) ≡ ok s)
      × Inv s
create-run-Inv creates min max size schedule h room using =
    let (s, e, i) = made-run-Inv creates min max size schedule h room using in
    (made_pool creates min max size, create-ok creates min max size h, s, e, i)

-- A schedule that destroys the pool while worker 0 stands before its lock.
abbrev pub early_free : List Actor
early_free = destroyer ∷ manager_thread ∷ freer ∷ worker true 0 ∷ []

early_free-faults :
    (creates : Creations) (pool : ThreadPool)
    → creates 0 ≡ none
    → 0 < pool.live_num
    → run early_free (started creates pool) ≡ fault
unfolding run step started free_pool step_manager
early_free-faults creates pool made some_workers =
    let live : ltb 0 pool.live_num ≡ true = lt→ltb 0 pool.live_num some_workers in
    rw (live, made) refl

-- If the pool has a minimum of at least one worker, the first worker is started and
-- threadPoolCreate returns the pool, the schedule in which threadPoolDestroy sets shutdown, the
-- manager ends, threadPoolDestroy frees the pool and the first worker then takes its lock is
-- undefined behaviour
pub destroy-faults :
    (creates : Creations) (min max size : ℕ) (pool : ThreadPool)
    → creates 0 ≡ none
    → 0 < min
    → thread_pool_create creates true true true true min max size ≡ ok (some pool)
    → run early_free (started creates pool) ≡ fault
unfolding thread_pool_create start_threads fresh_pool
destroy-faults creates min max size pool first some_workers h = elim (Bool-cases (leb min max)) [
  | inl e ↦
      let got = ok-injective (rw e at h) in
      let made : made_pool creates min max size ≡ pool = cc (got) in
      early_free-faults creates pool first
        (subst (λ n. 0 < n) (ap (λ p. p.live_num) made) some_workers)
  | inr e ↦ absurd (let h' = rw e at h in cc)
]
