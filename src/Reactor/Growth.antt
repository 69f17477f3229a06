-- ===== src/Reactor/Growth.antt =====
-- What the allocation of blocks in `ntyreactor_alloc` and `ntyreactor_idx` of
-- reactor+http/reactor_singlecb_http_c1000k.c does to a server.
use mathlib.Core.Path.{subst}
use hello_world.Prelude.{
  ℕ, zero, suc, ◌+◌, ◌/◌, ◌≤◌, ◌<◌, ◌≡◌, refl, ◌∙◌, inl, inr, Bool, true, false, Option, some, List,
  [], ◌∷◌, ◌++◌, arith, ltb, ltb→lt, lt→ltb, le→not_ltb, Bool-cases, length, length-append,
  get_elem?-within, pos,
}
use hello_world.Outcome.{>>=-eq-ok, ok, hang}
use hello_world.Sys.{Ptr, Call, Log, Kernel}
use hello_world.Sys.Interest.{interest, Lawful}
use hello_world.Reactor.Event.{zero_event}
use hello_world.Reactor.Table.{
  EventBlock, Server, is_null, ntyreactor_alloc, alloc_until, ntyreactor_idx,
}
use hello_world.Reactor.Address.{address, view, view-grow}

-- What allocating blocks does to a server: no cell of the array changes, no registration either.
pub record Grown {A : Type 0} (zeroed : A) (s s' : Server A) : Type 0 where
  pub same_view : (fd : ℕ) → view zeroed s'.reactor.evblks fd ≡ view zeroed s.reactor.evblks fd
  pub counted :
      s.reactor.blkcnt ≡ length s.reactor.evblks → s'.reactor.blkcnt ≡ length s'.reactor.evblks
  pub at_least : s.reactor.blkcnt ≤ s'.reactor.blkcnt
  pub same_interest : (fd : ℕ) → interest s'.log fd ≡ interest s.log fd
  pub lawful : Lawful s.log → Lawful s'.log
  pub same_curfds : s'.curfds ≡ s.curfds
  pub same_epfd : s'.reactor.epfd ≡ s.reactor.epfd

is_null-append :
    {A : Type 0} (blk : EventBlock A) (blks : List (EventBlock A))
    → is_null (blks ++ blk ∷ []) ≡ false
unfolding is_null
is_null-append blk [] = refl
is_null-append blk (b ∷ blks) = refl

module _ {A : Type 0} (zeroed : A) (k : Kernel) where
  Grown-refl : (s : Server A) → Grown zeroed s s
  Grown-refl s = record {
    same_view = λ fd. refl;
    counted = λ h. h;
    at_least = omega arith;
    same_interest = λ fd. refl;
    lawful = λ h. h;
    same_curfds = refl;
    same_epfd = refl;
  }

  Grown-trans : {s t u : Server A} → Grown zeroed s t → Grown zeroed t u → Grown zeroed s u
  Grown-trans g h = record {
    same_view = λ fd. h.same_view fd ∙ g.same_view fd;
    counted = λ c. h.counted (g.counted c);
    at_least = omega (arith, g.at_least, h.at_least);
    same_interest = λ fd. h.same_interest fd ∙ g.same_interest fd;
    lawful = λ l. h.lawful (g.lawful l);
    same_curfds = h.same_curfds ∙ g.same_curfds;
    same_epfd = h.same_epfd ∙ g.same_epfd;
  }

  Grown-malloc :
      (s : Server A) (b : Bool) → Grown zeroed s (record s { log = Call.malloc_call b ∷ s.log })
  Grown-malloc s b = record {
    same_view = λ fd. refl;
    counted = λ h. h;
    at_least = omega arith;
    same_interest = λ fd. refl;
    lawful = λ h. (tt, h);
    same_curfds = refl;
    same_epfd = refl;
  }

  Grown-append :
      (s : Server A)
      → Grown zeroed s (record s {
        reactor = record (s.reactor) {
          blkcnt = s.reactor.blkcnt + 1;
          evblks = s.reactor.evblks ++ (λ i. zero_event zeroed) ∷ [];
        };
      })
  Grown-append s = record {
    same_view = λ fd. view-grow zeroed s.reactor.evblks fd;
    counted = λ h. omega (arith, length-append s.reactor.evblks ((λ i. zero_event zeroed) ∷ []));
    at_least = omega arith;
    same_interest = λ fd. refl;
    lawful = λ h. h;
    same_curfds = refl;
    same_epfd = refl;
  }

  Grown-alloc : (s : Server A) → Grown zeroed s (ntyreactor_alloc zeroed k s).1
  unfolding ntyreactor_alloc
  Grown-alloc s = elim (Bool-cases (is_null s.reactor.evblks)) [
    | inl e ↦ rw e (Grown-refl s)
    | inr e ↦ elim (Bool-cases (k.malloc s.log)) [
      | inl f ↦ elim (Bool-cases (k.malloc (Call.malloc_call true ∷ s.log))) [
        | inl g ↦
            rw (e, f, g)
              (Grown-trans (Grown-trans (Grown-malloc s true) (Grown-malloc _ true))
                (Grown-append _))
        | inr g ↦ rw (e, f, g) (Grown-trans (Grown-malloc s true) (Grown-malloc _ false))
      ]
      | inr f ↦ rw (e, f) (Grown-malloc s false)
    ]
  ]

  Grown-stop :
      (b : ℕ) (s s' : Server A)
      → ok s ≡ ok s'
      → b < s.reactor.blkcnt
      → Grown zeroed s s' × (b < s'.reactor.blkcnt)
  Grown-stop b s s' h lt =
      let e : s ≡ s' = cc in
      subst (λ t. Grown zeroed s t × (b < t.reactor.blkcnt)) e (Grown-refl s, lt)

  Grown-alloc_until :
      (fuel b : ℕ) (s s' : Server A)
      → alloc_until zeroed k fuel b s ≡ ok s'
      → Grown zeroed s s' × (b < s'.reactor.blkcnt)
  unfolding alloc_until
  Grown-alloc_until zero b s s' h = elim (Bool-cases (ltb b s.reactor.blkcnt)) [
    | inl e ↦ Grown-stop b s s' (rw e at h) (ltb→lt b s.reactor.blkcnt e)
    | inr e ↦ absurd (let h' = rw e at h in cc)
  ]
  Grown-alloc_until (suc fuel) b s s' h = elim (Bool-cases (ltb b s.reactor.blkcnt)) [
    | inl e ↦ Grown-stop b s s' (rw e at h) (ltb→lt b s.reactor.blkcnt e)
    | inr e ↦
        let (g, lt) = Grown-alloc_until fuel b (ntyreactor_alloc zeroed k s).1 s' (rw e at h) in
        (Grown-trans (Grown-alloc s) g, lt)
  ]

  -- Where `ntyreactor_idx` returns, it gives the cell of the descriptor, inside the table.
  pub Grown-idx :
      (fuel fd : ℕ) (s s' : Server A) (found : Option Ptr)
      → s.reactor.blkcnt ≡ length s.reactor.evblks
      → is_null s.reactor.evblks ≡ false
      → ntyreactor_idx zeroed k fuel (pos fd) s ≡ ok (found, s')
      → (found ≡ some (address fd)) × Grown zeroed s s' × (fd / 1024 < length s'.reactor.evblks)
  unfolding ntyreactor_idx
  Grown-idx fuel fd s s' found counted live h =
      let h₀ = rw live at h in
      let (s₁, e₁, h₁) = >>=-eq-ok (alloc_until zeroed k fuel (fd / 1024) s) _ h₀ in
      let (g, lt) = Grown-alloc_until fuel (fd / 1024) s s₁ e₁ in
      let in_table : fd / 1024 < length s₁.reactor.evblks = omega (arith, g.counted counted) in
      let (blk, e₂) = get_elem?-within s₁.reactor.evblks (fd / 1024) in_table in
      let h₂ = rw e₂ at h₁ in
      let same : s₁ ≡ s' = cc in
      (
        cc,
        subst (λ t. Grown zeroed s t) same g,
        subst (λ (t : Server A). fd / 1024 < length t.reactor.evblks) same in_table,
      )

  module _ (malloc_works : (log : Log) → k.malloc log ≡ true) where
    alloc-grows :
        (s : Server A)
        → is_null s.reactor.evblks ≡ false
        → ((ntyreactor_alloc zeroed k s).1.reactor.blkcnt ≡ s.reactor.blkcnt + 1)
          × (is_null (ntyreactor_alloc zeroed k s).1.reactor.evblks ≡ false)
    unfolding ntyreactor_alloc is_null
    alloc-grows s live =
        rw (live, malloc_works, malloc_works) (refl, is_null-append _ s.reactor.evblks)

    alloc_until_total :
        (fuel b : ℕ) (s : Server A)
        → is_null s.reactor.evblks ≡ false
        → b < s.reactor.blkcnt + fuel
        → (s' : Server A) × (alloc_until zeroed k fuel b s ≡ ok s')
    unfolding alloc_until
    alloc_until_total zero b s live h = (s, rw (lt→ltb b s.reactor.blkcnt (omega arith)) refl)
    alloc_until_total (suc fuel) b s live h = elim (Bool-cases (ltb b s.reactor.blkcnt)) [
      | inl e ↦ (s, rw e refl)
      | inr e ↦
          let (more, live') = alloc-grows s live in
          let (s', e') =
            alloc_until_total fuel b (ntyreactor_alloc zeroed k s).1 live' (omega arith) in
          (s', rw e e')
    ]

    -- With a working `malloc`, and fuel for the blocks that are missing, `ntyreactor_idx` returns the
    -- cell of the descriptor.
    pub idx_total :
        (fuel fd : ℕ) (s : Server A)
        → s.reactor.blkcnt ≡ length s.reactor.evblks
        → is_null s.reactor.evblks ≡ false
        → fd / 1024 < s.reactor.blkcnt + fuel
        → (s' : Server A) × (ntyreactor_idx zeroed k fuel (pos fd) s ≡ ok (some (address fd), s'))
    unfolding ntyreactor_idx
    idx_total fuel fd s counted live enough =
        let (s', e) = alloc_until_total fuel (fd / 1024) s live enough in
        let (g, lt) = Grown-alloc_until fuel (fd / 1024) s s' e in
        let (blk, e₂) =
          get_elem?-within s'.reactor.evblks (fd / 1024) (omega (arith, g.counted counted)) in
        (s', rw (live, e, e₂) refl)

  module _ (malloc_fails : (log : Log) → k.malloc log ≡ false) where
    alloc-stays : (s : Server A) → (ntyreactor_alloc zeroed k s).1.reactor ≡ s.reactor
    unfolding ntyreactor_alloc
    alloc-stays s = elim (Bool-cases (is_null s.reactor.evblks)) [
      | inl e ↦ rw e refl
      | inr e ↦ rw (e, malloc_fails) refl
    ]

    -- If malloc keeps failing and the descriptor's block is missing, the loop of ntyreactor_idx is
    -- still running after any number of turns
    pub alloc_until-hang :
        (fuel b : ℕ) (s : Server A) → s.reactor.blkcnt ≤ b → alloc_until zeroed k fuel b s ≡ hang
    unfolding alloc_until
    alloc_until-hang zero b s h = rw (le→not_ltb b s.reactor.blkcnt h) refl
    alloc_until-hang (suc fuel) b s h =
        rw (le→not_ltb b s.reactor.blkcnt h)
          (alloc_until-hang fuel b (ntyreactor_alloc zeroed k s).1 (rw (alloc-stays s) h))
