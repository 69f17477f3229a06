-- ===== src/Mempool/Turns.antt =====
-- One call of `_malloc` or `_free` of threadpool/src4/mempool/memorypool.cpp.
use mathlib.Core.Path.{subst}
use hello_world.Prelude.{
  ℕ, ◌+◌, ◌-◌, ◌≤◌, ◌<◌, ◌≡◌, refl, sym, ap, ◌∙◌, ◌≢◌, ◌⊎◌, inl, inr, Bool, true, false, not, ◌&&◌,
  Option, some, List, [], ◌∷◌, arith, ltb, ◌==◌, if◌then◌else◌, ltb→lt, ==→eq, Bool-cases,
}
use hello_world.Outcome.{ok}
use hello_world.Mempool.Page.{put, load, store, load_lem, store_lem, put_self}
use hello_world.Mempool.Alloc.{Mempool, malloc, free}
use hello_world.Mempool.Blocks.{
  member, blocks, Apart, member_self, member-blocks, step_le, blocks-Apart, Chain-put, IsPool,
}

abbrev pub mark : (ℕ → Bool) → ℕ → Bool → ℕ → Bool
mark owned p b q = if p == q then b else owned q

-- What `_malloc` gives: NULL when no block is free or the size is above the block's, and else a
-- block that nobody has, which then is taken.
pub data Given (mp : Mempool) (owned : ℕ → Bool) (total size : ℕ)
    : ℕ × Option Mempool → Type 0 where
  no_block : (mp.free_count ≡ 0) ⊎ (mp.block_size < size) → Given mp owned total size (0, some mp)
  a_block :
      (p next : ℕ) (rest : List ℕ)
      → 0 < p
      → size ≤ mp.block_size
      → member p (blocks mp.block_size mp.mem total) ≡ true
      → owned p ≡ false
      → IsPool
          (record mp { ptr = next; free_count = mp.free_count - 1 })
          (mark owned p true)
          total
          rest
      → Given mp owned total size
          (p, some (record mp { ptr = next; free_count = mp.free_count - 1 }))

and_false : (b : Bool) → (b && false) ≡ false
and_false true = refl
and_false false = refl

module _ (mp : Mempool) (owned : ℕ → Bool) (total : ℕ) where
  all : List ℕ
  all = blocks mp.block_size mp.mem total

  -- Where a block lies.
  block_in :
      {free_list : List ℕ} (p : ℕ)
      → IsPool mp owned total free_list
      → member p all ≡ true
      → (mp.mem ≤ p) × (p + mp.block_size ≤ mp.mem + 4096)
  unfolding all
  block_in p v h =
      let (k, lt, at) = member-blocks mp.block_size mp.mem total p h in
      (omega arith, omega (arith, v.fits, step_le mp.block_size k total lt))

  taken_exact :
      (q : ℕ) (qs : List ℕ)
      → IsPool mp owned total (q ∷ qs)
      → (p : ℕ) → member p qs ≡ (member p all && not (mark owned q true p))
  unfolding all
  taken_exact q qs v p = elim (Bool-cases (q == p)) [
    | inl e ↦
        let gone : member p qs ≡ false =
          subst (λ r. member r qs ≡ false) (==→eq q p e) v.distinct.0 in
        rw (e, gone) (sym (and_false (member p all)))
    | inr e ↦
        let other : (p == q) ≡ false = ground (arith, e) in
        let here = v.exact p in rw e (rw other at here)
  ]

  taken_own :
      {free_list : List ℕ} (q : ℕ)
      → IsPool mp owned total free_list
      → member q all ≡ true
      → (p : ℕ) → mark owned q true p ≡ true
      → member p all ≡ true
  unfolding all
  taken_own q v h p = elim (Bool-cases (q == p)) [
    | inl e ↦ λ own. subst (λ r. member r all ≡ true) (==→eq q p e) h
    | inr e ↦ λ own. v.own p (rw e at own)
  ]

  -- If the free list is in order, _malloc returns NULL and changes nothing, which happens only
  -- when no block is free or the size is above the block's, or it returns a block of the page that
  -- nobody has, and the free list is in order without that block
  pub malloc-Given :
      (size : ℕ) (free_list : List ℕ)
      → IsPool mp owned total free_list
      → (out : ℕ × Option Mempool) × (malloc (some mp) size ≡ ok out)
        × Given mp owned total size out
  unfolding malloc all
  malloc-Given size [] v =
      let none_left : (mp.free_count == 0) ≡ true = ground (arith, v.counted) in
      ((0, some mp), rw none_left refl, no_block (inl v.counted))
  malloc-Given size (q ∷ qs) v = elim (Bool-cases (ltb mp.block_size size)) [
    | inl large ↦
        let some_left : (mp.free_count == 0) ≡ false = ground (arith, v.counted) in
        ((0, some mp), rw (some_left, large) refl, no_block (inr (ltb→lt _ _ large)))
    | inr small ↦
        let some_left : (mp.free_count == 0) ≡ false = ground (arith, v.counted) in
        let (at, next, e, rest) = v.chain in
        let free_one : (member q all && not (owned q)) ≡ true =
          sym (v.exact q) ∙ member_self q qs in
        let is_block : member q all ≡ true = ground (arith, free_one) in
        let (low, high) = block_in q v is_block in
        let at_ptr = ap (λ r. load mp.mem mp.page r) at in
        let read = at_ptr ∙ load_lem mp.mem mp.page q next low (omega (arith, high, v.big)) e in
        let mp' = record mp { ptr = next; free_count = mp.free_count - 1 } in
        (
          (q, some mp'),
          rw (some_left, small, read) (ap (λ r. ok (r, some mp')) at),
          a_block q next qs (omega (arith, low, v.some_page)) (ground (arith, small)) is_block
              (ground (arith, free_one))
              (record {
                big = v.big;
                some_page = v.some_page;
                fits = v.fits;
                chain = rest;
                counted = omega (arith, v.counted);
                distinct = v.distinct.1;
                exact = taken_exact q qs v;
                own = taken_own q v is_block;
              }),
        )
  ]

  -- A write inside a block that somebody has leaves the list as it is.
  pub fill-IsPool :
      (free_list : List ℕ) (p a v : ℕ)
      → IsPool mp owned total free_list
      → owned p ≡ true
      → p ≤ a
      → a + 8 ≤ p + mp.block_size
      → (store mp.mem mp.page a v ≡ ok (put mp.page a v))
        × IsPool (record mp { page = put mp.page a v }) owned total free_list
  unfolding all
  fill-IsPool free_list p a v i have low_end high_end =
      let (low, high) = block_in p i (i.own p have) in
      let apart : (q : ℕ) → member q free_list ≡ true → Apart 8 a q = λ q h.
        let free_one : (member q all && not (owned q)) ≡ true = sym (i.exact q) ∙ h in
        let is_block : member q all ≡ true = ground (arith, free_one) in
        let other : p ≢ q = λ e.
          absurd (let had = subst (λ r. owned r ≡ true) e have in ground (arith, free_one, had)) in
        elim (blocks-Apart mp.block_size mp.mem total p q (i.own p have) is_block other) [
          | inl before ↦ inl (omega arith)
          | inr behind ↦ inr (omega (arith, i.big))
        ] in
      (
        store_lem mp.mem mp.page a v (omega arith) (omega arith),
        record {
          big = i.big;
          some_page = i.some_page;
          fits = i.fits;
          chain = Chain-put mp.page a v mp.ptr free_list apart i.chain;
          counted = i.counted;
          distinct = i.distinct;
          exact = i.exact;
          own = i.own;
        },
      )

  given_exact :
      (p : ℕ) (ps : List ℕ)
      → IsPool mp owned total ps
      → owned p ≡ true
      → (q : ℕ) → member q (p ∷ ps) ≡ (member q all && not (mark owned p false q))
  unfolding all
  given_exact p ps v have q = elim (Bool-cases (p == q)) [
    | inl e ↦
        let is_block : member q all ≡ true =
          subst (λ r. member r all ≡ true) (==→eq p q e) (v.own p have) in
        let same : (q == p) ≡ true = ground (arith, e) in rw (e, same, is_block) refl
    | inr e ↦ let other : (q == p) ≡ false = ground (arith, e) in rw (e, other) (v.exact q)
  ]

  given_own :
      {ps : List ℕ} (p : ℕ)
      → IsPool mp owned total ps
      → (q : ℕ) → mark owned p false q ≡ true
      → member q all ≡ true
  unfolding all
  given_own p v q = elim (Bool-cases (p == q)) [
    | inl e ↦ λ own. absurd (let never = rw e at own in cc)
    | inr e ↦ λ own. v.own q (rw e at own)
  ]

  pub free-IsPool :
      (free_list : List ℕ) (p : ℕ)
      → IsPool mp owned total free_list
      → owned p ≡ true
      → (mp' : Mempool) × (free (some mp) p ≡ ok (some mp'))
        × (mp'.mem ≡ mp.mem)
        × (mp'.block_size ≡ mp.block_size)
        × IsPool mp' (mark owned p false) total (p ∷ free_list)
  unfolding free all
  free-IsPool free_list p v have =
      let (written, w) =
        fill-IsPool free_list p p mp.ptr v have (omega arith) (omega (arith, v.big)) in
      let free_before : member p free_list ≡ false =
        v.exact p ∙ rw have (and_false (member p all)) in
      (
        record mp { page = put mp.page p mp.ptr; ptr = p; free_count = mp.free_count + 1 },
        rw written refl,
        refl,
        refl,
        record {
          big = v.big;
          some_page = v.some_page;
          fits = v.fits;
          chain = (refl, mp.ptr, put_self mp.page p mp.ptr, w.chain);
          counted = omega (arith, v.counted);
          distinct = (free_before, v.distinct);
          exact = given_exact p free_list v have;
          own = given_own p v;
        },
      )
