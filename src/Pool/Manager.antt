-- ===== src/Pool/Manager.antt =====
-- `manager` of threadpool/src3/pthreadpool2.cpp: how it adds workers and asks workers to go.
use hello_world.Prelude.{ℕ, ◌+◌, ◌*◌, max, ◌&&◌, List, [], ◌∷◌, ltb, ◌==◌, if◌then◌else◌}
use hello_world.Pool.State.{ThreadPool, Creations, id_left}

-- NUMBER
abbrev pub number : ℕ
number = 2

-- The loop that starts workers in the free places: what it leaves in the array, and the numbers of
-- living workers and of threads ever created.
pub record Filled : Type 0 where
  pub ids : List ℕ
  pub live : ℕ
  pub next : ℕ

abbrev pub keep_slot : ℕ → Filled → Filled
keep_slot id f = record f { ids = id ∷ f.ids }

unfoldable pub fill_slots : Creations → (counter live max next : ℕ) → List ℕ → Filled
fill_slots creates counter live max next [] = record { ids = []; live = live; next = next }
fill_slots creates counter live max next (id ∷ ids) =
    let started = fill_slots creates (counter + 1) (live + 1) max (next + 1) ids in
    let passed = fill_slots creates counter live max next ids in
    if ltb counter number && ltb live max
    then (if id == 0 then keep_slot (id_left next (creates next)) started else keep_slot id passed)
    else record { ids = id ∷ ids; live = live; next = next }

-- `queueSize` and `liveNum` are the values read before.
unfoldable pub add_threads : Creations → (queue_size live_num next : ℕ) → ThreadPool → Filled
unfolding fill_slots
add_threads creates queue_size live_num next pool =
    let filled = fill_slots creates 0 pool.live_num pool.max_num next pool.thread_ids in
    if ltb live_num queue_size && ltb live_num pool.max_num
    then filled
    else record { ids = pool.thread_ids; live = pool.live_num; next = next }

unfoldable pub with_filled : Filled → ThreadPool → ThreadPool
with_filled f pool = record pool { thread_ids = f.ids; live_num = f.live }

unfoldable pub ask_to_go : (live_num busy_num : ℕ) → ThreadPool → ThreadPool
ask_to_go live_num busy_num pool =
    if ltb (busy_num * 2) live_num && ltb pool.min_num live_num
    then record pool { exit_num = number }
    else pool
