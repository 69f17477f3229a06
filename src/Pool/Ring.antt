-- ===== src/Pool/Ring.antt =====
-- The queue of threadpool/src3/pthreadpool2.cpp as a list: what `threadPoolAdd` and `worker` do to
-- the tasks that wait.
use native.Mathlib.Nat.{mod-add-mod, mod-eq_of_lt, mod-eq-sub-mod}
use native.Mathlib.Decide.{dec_lt}
use mathlib.Core.Path.{ap₂}
use hello_world.Prelude.{
  ℕ, zero, suc, ◌+◌, ◌-◌, ◌%◌, ◌≤◌, ◌<◌, ◌≡◌, refl, sym, ap, ◌∙◌, ◌≢◌, true, some, List, [], ◌∷◌,
  ◌++◌, arith, ltb, lt→ltb, length, get_elem?, set, get_or, length-set,
}
use hello_world.Outcome.{ok}
use hello_world.Pool.State.{Task, blank_task, ThreadPool, store_task}
use hello_world.Pool.Workers.{take_task}

-- The place `k` behind the front.
abbrev place : (cap front k : ℕ) → ℕ
place cap front k = (front + k) % cap

-- The `n` tasks from the place `k` behind the front on.
unfoldable pub entries : (q : List Task) (cap front k n : ℕ) → List Task
entries q cap front k zero = []
entries q cap front k (suc n) =
    get_or q (place cap front k) blank_task ∷ entries q cap front (k + 1) n

-- The tasks that wait, the oldest first.
unfoldable pub pending : ThreadPool → List Task
unfolding entries
pending pool = entries pool.task_q pool.queue_capacity pool.queue_front 0 pool.queue_size

pub record IsQueue (pool : ThreadPool) : Type 0 where
  pub room : length pool.task_q ≡ pool.queue_capacity
  pub fits : pool.queue_size ≤ pool.queue_capacity
  pub front_in : pool.queue_front < pool.queue_capacity
  pub rear_at : pool.queue_rear ≡ place pool.queue_capacity pool.queue_front pool.queue_size

place-lt : (cap front k : ℕ) → front < cap → place cap front k < cap
place-lt cap front k h = omega arith

-- Going on by less than the capacity does not come back.
place-ne :
    (cap front j k : ℕ) → front < cap → j < k → k < cap → place cap front j ≢ place cap front k
place-ne cap front j k hf hj hk = elim (dec_lt (front + j) cap) [
  | yes p ↦ elim (dec_lt (front + k) cap) [
    | yes q ↦ omega (arith, mod-eq_of_lt p, mod-eq_of_lt q)
    | no q ↦ omega (
      arith,
      mod-eq_of_lt p,
      mod-eq-sub-mod {n = front + k} {m = cap} (omega arith),
      mod-eq_of_lt {n = front + k - cap} {m = cap} (omega arith),
    )
  ]
  | no p ↦ omega (
    arith,
    mod-eq-sub-mod {n = front + j} {m = cap} (omega arith),
    mod-eq_of_lt {n = front + j - cap} {m = cap} (omega arith),
    mod-eq-sub-mod {n = front + k} {m = cap} (omega arith),
    mod-eq_of_lt {n = front + k - cap} {m = cap} (omega arith),
  )
]

place-suc : (cap front k : ℕ) → place cap ((front + 1) % cap) k ≡ place cap front (k + 1)
place-suc cap front k = rw mod-add-mod (ap (λ n. n % cap) (omega arith))

place-rear : (cap front k : ℕ) → (place cap front k + 1) % cap ≡ place cap front (k + 1)
place-rear cap front k = rw mod-add-mod (ap (λ n. n % cap) (omega arith))

get_or-set_self : (q : List Task) (i : ℕ) (t d : Task) → i < length q → get_or (set q i t) i d ≡ t
get_or-set_self [] i t d h = absurd (omega arith)
get_or-set_self (x ∷ q) zero t d h = refl
get_or-set_self (x ∷ q) (suc i) t d h = get_or-set_self q i t d (omega arith)

get_or-set_ne :
    (q : List Task) (i j : ℕ) (t d : Task) → i ≢ j → get_or (set q i t) j d ≡ get_or q j d
get_or-set_ne [] i j t d h = refl
get_or-set_ne (x ∷ q) zero zero t d h = absurd (h refl)
get_or-set_ne (x ∷ q) zero (suc j) t d h = refl
get_or-set_ne (x ∷ q) (suc i) zero t d h = refl
get_or-set_ne (x ∷ q) (suc i) (suc j) t d h = get_or-set_ne q i j t d (λ e. h (ap suc e))

get_elem?-get_or :
    (q : List Task) (i : ℕ) (d : Task) → i < length q → get_elem? q i ≡ some (get_or q i d)
get_elem?-get_or [] i d h = absurd (omega arith)
get_elem?-get_or (x ∷ q) zero d h = refl
get_elem?-get_or (x ∷ q) (suc i) d h = get_elem?-get_or q i d (omega arith)

-- Writing behind the last entry adds one.
entries-set :
    (q : List Task) (cap front k n i : ℕ) (t : Task)
    → length q ≡ cap
    → front < cap
    → k + n < cap
    → i ≡ place cap front (k + n)
    → entries (set q i t) cap front k (suc n) ≡ entries q cap front k n ++ t ∷ []
unfolding entries
entries-set q cap front k zero i t room hf hk e =
    let same : i ≡ place cap front k = e ∙ ap (λ m. place cap front m) (omega arith) in
    rw
      (
        same,
        get_or-set_self q (place cap front k) t blank_task (omega (arith, place-lt cap front k hf)),
      )
      refl
entries-set q cap front k (suc n) i t room hf hk e =
    let apart : i ≢ place cap front k =
      λ h. place-ne cap front k (k + suc n) hf (omega arith) (omega arith) (sym h ∙ e) in
    ap₂ ◌∷◌ (get_or-set_ne q i (place cap front k) t blank_task apart) (
      entries-set q cap front (k + 1) n i t room hf (omega arith)
        (e ∙ ap (λ m. place cap front m) (omega arith)))

entries-suc :
    (q : List Task) (cap front k n : ℕ)
    → entries q cap ((front + 1) % cap) k n ≡ entries q cap front (k + 1) n
unfolding entries
entries-suc q cap front k zero = refl
entries-suc q cap front k (suc n) =
    rw (place-suc cap front k, entries-suc q cap front (k + 1) n) refl

abbrev pub stored : Task → ThreadPool → ThreadPool
stored task pool = record pool {
  task_q = set pool.task_q pool.queue_rear task;
  queue_rear = (pool.queue_rear + 1) % pool.queue_capacity;
  queue_size = pool.queue_size + 1;
}

-- Where there is room, `store_task` returns and appends the task.
pub store_task-stored :
    (task : Task) (pool : ThreadPool)
    → IsQueue pool
    → pool.queue_size ≢ pool.queue_capacity
    → (store_task task pool ≡ ok (stored task pool))
      × IsQueue (stored task pool)
      × (pending (stored task pool) ≡ pending pool ++ task ∷ [])
unfolding store_task pending
store_task-stored task pool v room =
    let cap = pool.queue_capacity in
    let inside : ltb pool.queue_rear (length pool.task_q) ≡ true = lt→ltb _ _ (
      omega (arith, v.room, v.rear_at, place-lt cap pool.queue_front pool.queue_size v.front_in)) in
    let more : pool.queue_size + 1 ≡ suc pool.queue_size = omega arith in
    (
      rw inside refl,
      record {
        room = length-set pool.task_q pool.queue_rear task ∙ v.room;
        fits = omega (arith, v.fits);
        front_in = v.front_in;
        rear_at =
            ap (λ m. (m + 1) % cap) v.rear_at ∙ place-rear cap pool.queue_front pool.queue_size;
      },
      ap (λ m. entries (set pool.task_q pool.queue_rear task) cap pool.queue_front 0 m) more
          ∙ entries-set pool.task_q cap pool.queue_front 0 pool.queue_size pool.queue_rear task
              v.room v.front_in (omega (arith, v.fits))
              (v.rear_at ∙ ap (λ m. place cap pool.queue_front m) (omega arith)),
    )

abbrev pub popped : ThreadPool → ThreadPool
popped pool = record pool {
  queue_front = (pool.queue_front + 1) % pool.queue_capacity;
  queue_size = pool.queue_size - 1;
}

entries-front :
    (q : List Task) (cap front n m : ℕ)
    → front < cap
    → n ≡ suc m
    → entries q cap front 0 n ≡ get_or q front blank_task ∷ entries q cap ((front + 1) % cap) 0 m
unfolding entries
entries-front q cap front n m hf e =
    let here : place cap front 0 ≡ front =
      mod-eq_of_lt {n = front + 0} {m = cap} (omega arith) ∙ omega arith in
    let next : entries q cap ((front + 1) % cap) 0 m ≡ entries q cap front 1 m =
      entries-suc q cap front 0 m in
    rw (e, here, next) refl

-- Where a task waits, `take_task` returns the oldest and removes it.
pub take_task-popped :
    (pool : ThreadPool)
    → IsQueue pool
    → pool.queue_size ≢ 0
    → (task : Task) × (take_task pool ≡ ok (task, popped pool))
      × IsQueue (popped pool)
      × (pending pool ≡ task ∷ pending (popped pool))
unfolding take_task pending
take_task-popped pool v some_wait =
    let cap = pool.queue_capacity in
    let front = pool.queue_front in
    let found = get_elem?-get_or pool.task_q front blank_task (omega (arith, v.room, v.front_in)) in
    let fewer : pool.queue_size ≡ suc (pool.queue_size - 1) = omega arith in
    (
      get_or pool.task_q front blank_task,
      rw found refl,
      record {
        room = v.room;
        fits = omega (arith, v.fits);
        front_in = place-lt cap front 1 v.front_in;
        rear_at =
            v.rear_at
            ∙ ap (λ m. place cap front m) (omega arith)
            ∙ sym (place-suc cap front (pool.queue_size - 1));
      },
      entries-front pool.task_q cap front pool.queue_size (pool.queue_size - 1) v.front_in fewer,
    )
