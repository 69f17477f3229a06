-- ===== src/Mempool/Init.antt =====
-- What `memp_init` of threadpool/src4/mempool/memorypool.cpp leaves in its page.
use native.Mathlib.Nat.{mod-lt, div-add-mod}
use native.Mathlib.Decide.{dec_lt}
use hello_world.Prelude.{
  ℕ, zero, suc, ◌+◌, ◌*◌, ◌/◌, ◌%◌, ◌≤◌, ◌<◌, ◌≡◌, refl, sym, ap, ◌∙◌, ◌↔◌, ◌⊎◌, inl, inr, Bool,
  true, false, not, ◌&&◌, some, arith, ◌==◌, Bool-cases, length, pos,
}
use hello_world.Outcome.{◌>>=◌, ok, fault}
use hello_world.Mempool.Page.{
  Page, in_page, put, store, store_lem, store-beyond, put_self, put_apart,
}
use hello_world.Mempool.Alloc.{Mempool, link_blocks, end_list, memp_init}
use hello_world.Mempool.Blocks.{
  member, blocks, Chain, member-blocks, step_le, blocks-Distinct, Chain-put, IsPool,
}

-- The linking of `n` blocks from `p` on, when they fit in the page and hold a pointer each.
record Linked (old page : Page) (block_size p n : ℕ) : Type 0 where
  chain : Chain page p (blocks block_size p n)
  before : (q : ℕ) → q + 8 ≤ p → page q ≡ old q

link-Linked :
    (mem size n p : ℕ) (old : Page)
    → 8 ≤ size
    → mem ≤ p
    → p + n * size ≤ mem + 4096
    → (page : Page) × (link_blocks mem size n p old ≡ ok (page, p + n * size))
      × Linked old page size p n
unfolding link_blocks
link-Linked mem size zero p old big low high =
    (old, ap (λ q. ok (old, q)) (omega arith), record { chain = tt; before = λ q h. refl })
link-Linked mem size (suc n) p old big low high =
    let first = put old p (p + size) in
    let (page, e, l) = link-Linked mem size n (p + size) first big (omega arith) (omega arith) in
    let written = store_lem mem old p (p + size) low (omega arith) in
    let stop : p + size + n * size ≡ p + suc n * size = omega arith in
    (
      page,
      rw written (e ∙ ap (λ q. ok (page, q)) stop),
      record {
        chain = (refl, p + size, l.before p (omega arith) ∙ put_self old p (p + size), l.chain);
        before = λ q h. l.before q (omega arith) ∙ put_apart old p (p + size) q (inr h);
      },
    )

-- On any block size the loop either leaves the page or stops behind the last block.
link-stops :
    (mem size n p : ℕ) (old : Page)
    → (link_blocks mem size n p old ≡ fault)
      ⊎ ((page : Page) × (link_blocks mem size n p old ≡ ok (page, p + n * size)))
unfolding link_blocks store
link-stops mem size zero p old = inr (old, ap (λ q. ok (old, q)) (omega arith))
link-stops mem size (suc n) p old = elim (Bool-cases (in_page mem p)) [
  | inr out ↦ inl (rw out refl)
  | inl fits ↦ elim (link-stops mem size n (p + size) (put old p (p + size))) [
    | inl e ↦ inl (rw fits e)
    | inr (page, e) ↦ inr (page, rw fits (e ∙ ap (λ q. ok (page, q)) (omega arith)))
  ]
]

pub and-true : (b : Bool) → b ≡ (b && not false)
and-true true = refl
and-true false = refl

length-blocks : (size p n : ℕ) → length (blocks size p n) ≡ n
length-blocks size p zero = refl
length-blocks size p (suc n) = ap suc (length-blocks size (p + size) n)

module _ (size got : ℕ) (mp : Mempool) (old : Page) (some_size : 0 < size)
    (some_page : 0 < got) where
  abbrev count : ℕ
  count = 4096 / size

  -- The tests of the arguments pass.
  past_tests : memp_init (some mp) size got old ≡ (do
    linked ← link_blocks got size count got old
    page ← end_list got linked
    ok (
      pos 0,
      some (record { block_size = size; free_count = count; mem = got; ptr = got; page = page }),
    ))
  unfolding memp_init
  past_tests =
      let a : (size == 0) ≡ false = ground arith in
      let b : (got == 0) ≡ false = ground arith in rw (a, b) refl

  pub memp_init-IsPool :
      8 ≤ 4096 % size
      → (mp' : Mempool) × (memp_init (some mp) size got old ≡ ok (pos 0, some mp'))
        × (mp'.block_size ≡ size)
        × (mp'.mem ≡ got)
        × IsPool mp' (λ p. false) (4096 / size) (blocks size got (4096 / size))
  memp_init-IsPool spare =
      let whole : size * (4096 / size) + 4096 % size ≡ 4096 = div-add-mod 4096 size in
      let below : 4096 % size < size = mod-lt 4096 some_size in
      let (page, e, l) =
        link-Linked got size count got old (omega arith) (omega arith) (omega arith) in
      let stop = got + count * size in
      let written = store_lem got page stop 0 (omega arith) (omega arith) in
      let all = blocks size got count in
      (
        record {
          block_size = size;
          free_count = count;
          mem = got;
          ptr = got;
          page = put page stop 0;
        },
        past_tests ∙ rw (e, written) refl,
        refl,
        refl,
        record {
          big = omega arith;
          some_page = some_page;
          fits = omega arith;
          chain =
              Chain-put page stop 0 got all
                (λ q h.
                  let (k, lt, at) = member-blocks size got count q h in
                  inr (omega (arith, step_le size k count lt)))
                l.chain;
          counted = sym (length-blocks size got count);
          distinct = blocks-Distinct size got count some_size;
          exact = λ p. and-true (member p all);
          own = λ p h. absurd (cc);
        },
      )

  runs_over : 4096 % size < 8 → memp_init (some mp) size got old ≡ fault
  runs_over tight =
      let whole : size * (4096 / size) + 4096 % size ≡ 4096 = div-add-mod 4096 size in
      past_tests ∙ elim (link-stops got size count got old) [
        | inl e ↦ rw e refl
        | inr (page, e) ↦ rw (e, store-beyond got page (got + count * size) 0 (omega arith)) refl
      ]

  -- If malloc gives a page and the block size is above 0, memp_init accesses memory outside its
  -- page exactly when fewer than 8 bytes of the page are left behind its last block
  pub memp_init-faults : (memp_init (some mp) size got old ≡ fault) ↔ (4096 % size < 8)
  memp_init-faults = (
    (λ h. elim (dec_lt (4096 % size) 8) [
      | yes lt ↦ lt
      | no ge ↦
          let (mp', e, as_size, as_mem, is_pool) = memp_init-IsPool (omega arith) in absurd (cc)
    ]),
    runs_over,
  )
