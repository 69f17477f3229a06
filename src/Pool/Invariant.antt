-- ===== src/Pool/Invariant.antt =====
-- What holds of the threads of threadpool/src3/pthreadpool2.cpp in every state that a schedule
-- reaches.
use native.Mathlib.Decide.{dec_lt}
use hello_world.Prelude.{
  ℕ, ◌+◌, ◌≤◌, ◌<◌, ◌≡◌, refl, sym, ap, ◌∙◌, ◌≢◌, Bool, true, false, Option, none, some, List, [],
  ◌∷◌, ◌++◌, arith, ◌==◌, if◌then◌else◌, length,
}
use hello_world.Pool.State.{Task, ThreadPool, Creations, AddTurn}
use hello_world.Pool.Workers.{WorkerTurn}
use hello_world.Pool.System.{
  WorkerPc, System, put_at, move_worker, after_add, after_turn, newborn, absent, unborn, waiting,
  holding, working, leaving, gone,
}
use hello_world.Pool.Ring.{pending, IsQueue, popped}
use hello_world.Pool.Count.{tally, tally-put_at}
use hello_world.Pool.Cases.{
  Added, Turned, still_full, shut_down, has_stored, nothing_waits, must_leave, has_taken,
}

-- A worker that `liveNum` counts, whether or not it was started.
abbrev pub is_live : WorkerPc → ℕ
is_live absent = 0
is_live unborn = 1
is_live (leaving counted place) = if counted then 1 else 0
is_live (gone counted) = if counted then 1 else 0
is_live _ = 1

-- A worker that `busyNum` counts.
abbrev pub is_busy : WorkerPc → ℕ
is_busy (working task) = 1
is_busy _ = 0

pub is_live-newborn : (creates : Creations) (i : ℕ) → is_live (newborn (creates i)) ≡ 1
is_live-newborn creates i = newborn_live (creates i)
  where
    newborn_live : (made : Option ℕ) → is_live (newborn made) ≡ 1
    newborn_live none = refl
    newborn_live (some left) = refl

pub is_busy-newborn : (creates : Creations) (i : ℕ) → is_busy (newborn (creates i)) ≡ 0
is_busy-newborn creates i = newborn_idle (creates i)
  where
    newborn_idle : (made : Option ℕ) → is_busy (newborn made) ≡ 0
    newborn_idle none = refl
    newborn_idle (some left) = refl

pub record Inv (s : System) : Type 0 where
  pub queue : IsQueue s.pool
  pub fifo : s.added ≡ s.taken ++ pending s.pool
  pub live : s.pool.live_num ≡ tally is_live s.next s.workers
  pub busy : s.pool.busy_num ≡ tally is_busy s.next s.workers
  pub least : s.pool.min_num ≤ s.pool.live_num
  pub most : s.pool.live_num ≤ s.pool.max_num
  pub slots : length s.pool.thread_ids ≡ s.pool.max_num
  pub created : (i : ℕ) → s.next ≤ i → s.workers i ≡ absent

append_assoc : (a b c : List Task) → (a ++ b) ++ c ≡ a ++ (b ++ c)
append_assoc [] b c = refl
append_assoc (x ∷ a) b c = ap (λ t. x ∷ t) (append_assoc a b c)

created-put_at :
    {n i : ℕ} {f : ℕ → WorkerPc} (pc' : WorkerPc)
    → i < n
    → ((j : ℕ) → n ≤ j → f j ≡ absent)
    → (j : ℕ) → n ≤ j
    → put_at f i pc' j ≡ absent
created-put_at {i} pc' lt c j h = let other : (i == j) ≡ false = ground arith in rw other (c j h)

pub caller-Inv :
    (s : System) (current : Bool) (task : Task) (out : AddTurn × ThreadPool)
    → Inv s
    → Added current task s.pool out
    → Inv (after_add task s out)
caller-Inv s current task out inv (still_full full live) = inv
caller-Inv s current task out inv (shut_down shut) = inv
caller-Inv s current task out inv (has_stored space q p live) = record {
  queue = q;
  fifo =
      ap (λ l. l ++ task ∷ []) inv.fifo
      ∙ append_assoc s.taken (pending s.pool) (task ∷ [])
      ∙ ap (λ l. s.taken ++ l) (sym p);
  live = inv.live;
  busy = inv.busy;
  least = inv.least;
  most = inv.most;
  slots = inv.slots;
  created = inv.created;
}

-- Worker `i` goes from `pc` to `pc'`, and the pool's counts follow.
pub record Follows (s : System) (pool : ThreadPool) (taken : List Task) (pc pc' : WorkerPc)
    : Type 0 where
  pub queue : IsQueue pool
  pub fifo : s.added ≡ taken ++ pending pool
  pub live : pool.live_num + is_live pc ≡ s.pool.live_num + is_live pc'
  pub busy : pool.busy_num + is_busy pc ≡ s.pool.busy_num + is_busy pc'
  pub least : pool.min_num ≤ pool.live_num
  pub most : pool.live_num ≤ pool.max_num
  pub slots : length pool.thread_ids ≡ pool.max_num

module _ (s : System) (inv : Inv s) (i : ℕ) where
  pub is_created : {pc : WorkerPc} → s.workers i ≡ pc → pc ≢ absent → i < s.next
  is_created here some_pc = elim (dec_lt i s.next) [
    | yes lt ↦ lt
    | no ge ↦ absurd (some_pc (sym here ∙ inv.created i (omega arith)))
  ]

  pub Follows-Inv :
      {pool : ThreadPool} {taken : List Task} {pc : WorkerPc} (pc' : WorkerPc)
      → s.workers i ≡ pc
      → pc ≢ absent
      → Follows s pool taken pc pc'
      → Inv (move_worker i pc' (record s { pool = pool; taken = taken }))
  Follows-Inv {pool} {taken} {pc} pc' here some_pc f =
      let lt = is_created here some_pc in
      record {
        queue = f.queue;
        fifo = f.fifo;
        live = omega (
          arith,
          f.live,
          inv.live,
          tally-put_at is_live s.next i s.workers pc' lt,
          ap is_live here,
        );
        busy = omega (
          arith,
          f.busy,
          inv.busy,
          tally-put_at is_busy s.next i s.workers pc' lt,
          ap is_busy here,
        );
        least = f.least;
        most = f.most;
        slots = f.slots;
        created = created-put_at pc' lt inv.created;
      }

  -- A turn of a worker that stood at `pc`, one that is counted and not busy.
  pub Turned-Inv :
      {pc : WorkerPc} (current : Bool) (out : WorkerTurn × ThreadPool)
      → s.workers i ≡ pc
      → pc ≢ absent
      → is_live pc ≡ 1
      → is_busy pc ≡ 0
      → Turned current s.pool out
      → Inv (after_turn i s out)
  Turned-Inv current out here some_pc live idle (nothing_waits none_there open_still) =
      Follows-Inv waiting here some_pc (record {
        queue = inv.queue;
        fifo = inv.fifo;
        live = omega arith;
        busy = omega arith;
        least = inv.least;
        most = inv.most;
        slots = inv.slots;
      })
  Turned-Inv current out here some_pc live idle (must_leave shut) =
      Follows-Inv (leaving true 0) here some_pc (record {
        queue = inv.queue;
        fifo = inv.fifo;
        live = omega arith;
        busy = omega arith;
        least = inv.least;
        most = inv.most;
        slots = inv.slots;
      })
  Turned-Inv current out here some_pc live idle (has_taken task q p shut) =
      Follows-Inv (holding task) here some_pc (record {
        queue = q;
        fifo =
            inv.fifo
            ∙ ap (λ l. s.taken ++ l) p
            ∙ sym (append_assoc s.taken (task ∷ []) (pending (popped s.pool)));
        live = omega arith;
        busy = omega arith;
        least = inv.least;
        most = inv.most;
        slots = inv.slots;
      })
