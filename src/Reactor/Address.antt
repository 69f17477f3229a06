-- ===== src/Reactor/Address.antt =====
-- The table of reactor+http/reactor_singlecb_http_c1000k.c seen as an unbounded array of cells,
-- indexed by the descriptor.
use native.Mathlib.Decide.{dec_lt, ℕ_discrete as dec_eq}
use hello_world.Prelude.{
  ℕ, ◌/◌, ◌%◌, ◌<◌, ◌≡◌, refl, ap, ◌≢◌, inl, inr, false, Option, none, some, List, [], ◌∷◌, ◌++◌,
  arith, ◌==◌, if◌then◌else◌, lt→ltb, Option-cases, length, get_elem?, length-append, length-set,
  get_elem?-set_self, get_elem?-set_ne, get_elem?-append_left, get_elem?-append_at,
  get_elem?-beyond, get_elem?-within,
}
use hello_world.Outcome.{ok}
use hello_world.Sys.{Ptr, Kernel}
use hello_world.Reactor.Event.{NtyEvent, zero_event}
use hello_world.Reactor.Table.{max_epoll_events, EventBlock, block_set, load, store, zero_block}

-- The cell that the code computes for a descriptor.
abbrev pub address : ℕ → Ptr
address fd = (fd / max_epoll_events, fd % max_epoll_events)

abbrev pub cell_or : {A : Type 0} → A → Option (EventBlock A) → ℕ → NtyEvent A
cell_or zeroed none i = zero_event zeroed
cell_or zeroed (some blk) i = blk i

-- The array that the table stands for.
unfoldable pub view : {A : Type 0} → A → List (EventBlock A) → ℕ → NtyEvent A
view zeroed blks fd =
    cell_or zeroed (get_elem? blks (fd / max_epoll_events)) (fd % max_epoll_events)

-- Two descriptors in one block have one place there only if they are the same.
place_test : (fd q : ℕ) → fd / 1024 ≡ q / 1024 → (fd % 1024 == q % 1024) ≡ (fd == q)
place_test fd q same = ground arith

block_test : (fd q : ℕ) → fd / 1024 ≢ q / 1024 → (fd == q) ≡ false
block_test fd q apart = ground arith

module _ {A : Type 0} (zeroed : A) where
  pub load-view :
      (blks : List (EventBlock A)) (fd : ℕ)
      → fd / 1024 < length blks
      → load (address fd) blks ≡ ok (view zeroed blks fd)
  unfolding load view
  load-view blks fd h =
      let (blk, e) = get_elem?-within blks (fd / 1024) h in
      rw (e, lt→ltb (fd % 1024) 1024 (omega arith)) refl

  pub view-store :
      (blks : List (EventBlock A)) (fd q : ℕ) (ev : NtyEvent A)
      → fd / 1024 < length blks
      → view zeroed (store (address fd) ev blks) q ≡ (if fd == q then ev else view zeroed blks q)
  unfolding store view
  view-store blks fd q ev h =
      let (blk, e) = get_elem?-within blks (fd / 1024) h in
      let put = block_set blk (fd % 1024) ev in
      elim (dec_eq (fd / 1024) (q / 1024)) [
        | yes same ↦
            rw (e, ← same, e, get_elem?-set_self blks (fd / 1024) put h)
              (ap (λ b. if b then ev else blk (q % 1024)) (place_test fd q same))
        | no apart ↦ rw (e, get_elem?-set_ne blks put apart) (rw (block_test fd q apart) refl)
      ]

  pub length-store :
      (blks : List (EventBlock A)) (p : Ptr) (ev : NtyEvent A)
      → length (store p ev blks) ≡ length blks
  unfolding store
  length-store blks (b, i) ev = elim (Option-cases (get_elem? blks b)) [
    | inl e ↦ rw e refl
    | inr (blk, e) ↦ rw e (length-set blks b _)
  ]

  pub view-grow :
      (blks : List (EventBlock A)) (fd : ℕ)
      → view zeroed (blks ++ (λ i. zero_event zeroed) ∷ []) fd ≡ view zeroed blks fd
  unfolding view
  view-grow blks fd = elim (dec_lt (fd / 1024) (length blks)) [
    | yes h ↦ rw (get_elem?-append_left blks _ (fd / 1024) h) refl
    | no h ↦ elim (dec_eq (fd / 1024) (length blks)) [
      | yes e ↦ rw (e, get_elem?-append_at, get_elem?-beyond blks (length blks) (omega arith)) refl
      | no e ↦
          rw
            (
              get_elem?-beyond (blks ++ (λ i. zero_event zeroed) ∷ []) (fd / 1024)
                  (omega (arith, length-append blks ((λ i. zero_event zeroed) ∷ []))),
              get_elem?-beyond blks (fd / 1024) (omega arith),
            )
            refl
    ]
  ]

  pub view-fresh :
      (k : Kernel) (fd : ℕ) → view zeroed (zero_block zeroed k ∷ []) fd ≡ zero_event zeroed
  unfolding view
  view-fresh k fd = view-grow [] fd
