-- ===== src/Pool/Growing.antt =====
-- The manager of threadpool/src3/pthreadpool2.cpp: how many workers it starts.
use native.Mathlib.Decide.{dec_lt}
use hello_world.Prelude.{
  ℕ, zero, suc, ◌+◌, ◌≤◌, ◌<◌, max, ◌≡◌, refl, ap, inl, inr, false, ◌&&◌, List, [], ◌∷◌, arith, ltb,
  leb, ◌==◌, lt→ltb, le→not_ltb, le→leb, Bool-cases, length,
}
use hello_world.Pool.State.{ThreadPool, Creations}
use hello_world.Pool.Manager.{number, Filled, keep_slot, fill_slots, add_threads}
use hello_world.Pool.System.{WorkerPc, newborn, spawn}
use hello_world.Pool.Count.{tally, tally-same}

-- What the loop over the places does to the counts.
pub record Grew (live next max places : ℕ) (f : Filled) : Type 0 where
  pub more : next ≤ f.next
  pub same : f.live + next ≡ live + f.next
  pub most : f.live ≤ max
  pub slots : length f.ids ≡ places

none_started :
    (live next max : ℕ) (ids : List ℕ)
    → live ≤ max
    → Grew live next max (length ids) (record { ids = ids; live = live; next = next })
none_started live next max ids h = record {
  more = omega arith;
  same = refl;
  most = h;
  slots = refl;
}

Grew-keep_slot :
    (live next max places id : ℕ) (f : Filled)
    → Grew live next max places f
    → Grew live next max (suc places) (keep_slot id f)
Grew-keep_slot live next max places id f g = record {
  more = g.more;
  same = g.same;
  most = g.most;
  slots = ap suc g.slots;
}

fill_slots-Grew :
    (creates : Creations) (counter live max next : ℕ) (ids : List ℕ)
    → live ≤ max
    → Grew live next max (length ids) (fill_slots creates counter live max next ids)
unfolding fill_slots
fill_slots-Grew creates counter live max next [] h = none_started live next max [] h
fill_slots-Grew creates counter live max next (id ∷ ids) h =
    elim (Bool-cases (ltb counter number && ltb live max)) [
      | inr full ↦ rw full (none_started live next max (id ∷ ids) h)
      | inl space ↦ elim (Bool-cases (id == 0)) [
        | inr used ↦
            rw (space, used)
              (Grew-keep_slot live next max (length ids) id _
                (fill_slots-Grew creates counter live max next ids h))
        | inl unused ↦
            let room : live < max = ground arith in
            let g =
              fill_slots-Grew creates (counter + 1) (live + 1) max (next + 1) ids (omega arith) in
            rw (space, unused)
              (record {
                more = omega (arith, g.more);
                same = omega (arith, g.same);
                most = g.most;
                slots = ap suc g.slots;
              })
      ]
    ]

pub add_threads-Grew :
    (creates : Creations) (q l next : ℕ) (pool : ThreadPool)
    → pool.live_num ≤ pool.max_num
    → Grew pool.live_num next pool.max_num
        (length pool.thread_ids)
        (add_threads creates q l next pool)
unfolding add_threads
add_threads-Grew creates q l next pool h = elim (Bool-cases (ltb l q && ltb l pool.max_num)) [
  | inl e ↦ rw e (fill_slots-Grew creates 0 pool.live_num pool.max_num next pool.thread_ids h)
  | inr e ↦ rw e (none_started pool.live_num next pool.max_num pool.thread_ids h)
]

-- New workers stand at the head of their loop.
spawn-old :
    (creates : Creations) (n m i : ℕ) (f : ℕ → WorkerPc) → i < n → spawn creates n m f i ≡ f i
spawn-old creates n m i f h = let e : leb n i ≡ false = ground arith in rw e refl

spawn-new :
    (creates : Creations) (n m i : ℕ) (f : ℕ → WorkerPc)
    → n ≤ i
    → i < m
    → spawn creates n m f i ≡ newborn (creates i)
spawn-new creates n m i f h lt = rw (le→leb n i h, lt→ltb i m lt) refl

pub spawn-beyond :
    (creates : Creations) (n m i : ℕ) (f : ℕ → WorkerPc) → m ≤ i → spawn creates n m f i ≡ f i
spawn-beyond creates n m i f h = elim (Bool-cases (leb n i)) [
  | inl e ↦ rw (e, le→not_ltb i m h) refl
  | inr e ↦ rw e refl
]

tally-spawn_old :
    (creates : Creations) (w : WorkerPc → ℕ) (n k m : ℕ) (f : ℕ → WorkerPc)
    → k ≤ n
    → tally w k (spawn creates n m f) ≡ tally w k f
tally-spawn_old creates w n k m f h =
    tally-same w k (spawn creates n m f) f (λ i lt. spawn-old creates n m i f (omega arith))

-- New workers with the same weight each.
tally-spawn_next :
    (creates : Creations) (w : WorkerPc → ℕ) (n k m : ℕ) (f : ℕ → WorkerPc)
    → n ≤ k
    → k < m
    → tally w (suc k) (spawn creates n m f)
      ≡ w (newborn (creates k)) + tally w k (spawn creates n m f)
unfolding tally
tally-spawn_next creates w n k m f low high = rw (spawn-new creates n m k f low high) refl

module _ (creates : Creations) (w : WorkerPc → ℕ) (n m : ℕ) (f : ℕ → WorkerPc) where
  pub tally-spawn_one :
      (k : ℕ)
      → ((i : ℕ) → w (newborn (creates i)) ≡ 1)
      → n ≤ k
      → k ≤ m
      → tally w k (spawn creates n m f) + n ≡ k + tally w n f
  tally-spawn_one zero one low high =
      let none : n ≡ 0 = omega arith in
      rw none (omega (arith, tally-spawn_old creates w 0 0 m f (omega arith)))
  tally-spawn_one (suc k) one low high = elim (dec_lt k n) [
    | yes last ↦
        let all : n ≡ suc k = omega arith in
        omega
          (arith, tally-spawn_old creates w n (suc k) m f (omega arith), ap (λ j. tally w j f) all)
    | no before ↦ omega (
      arith,
      tally-spawn_next creates w n k m f (omega arith) high,
      tally-spawn_one k one (omega arith) (omega arith),
      one k,
    )
  ]

  pub tally-spawn_zero :
      (k : ℕ)
      → ((i : ℕ) → w (newborn (creates i)) ≡ 0)
      → n ≤ k
      → k ≤ m
      → tally w k (spawn creates n m f) ≡ tally w n f
  tally-spawn_zero zero free low high =
      let none : n ≡ 0 = omega arith in rw none (tally-spawn_old creates w 0 0 m f (omega arith))
  tally-spawn_zero (suc k) free low high = elim (dec_lt k n) [
    | yes last ↦
        let all : n ≡ suc k = omega arith in
        omega
          (arith, tally-spawn_old creates w n (suc k) m f (omega arith), ap (λ j. tally w j f) all)
    | no before ↦ omega (
      arith,
      tally-spawn_next creates w n k m f (omega arith) high,
      tally-spawn_zero k free (omega arith) (omega arith),
      free k,
    )
  ]
