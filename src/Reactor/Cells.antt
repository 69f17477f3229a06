-- ===== src/Reactor/Cells.antt =====
-- The callbacks' access to the table of reactor+http/reactor_singlecb_http_c1000k.c.
use mathlib.Core.Path.{subst}
use hello_world.Prelude.{
  ℕ, ◌+◌, ◌/◌, ◌<◌, ◌≡◌, refl, sym, ap, ◌∙◌, true, false, some, List, [], ◌∷◌, arith, ◌==◌,
  if◌then◌else◌, length, ℤ, pos,
}
use hello_world.Outcome.{Outcome, >>=-eq-ok, ok}
use hello_world.Sys.{Ptr, Log, Kernel}
use hello_world.Sys.Interest.{interest, Lawful}
use hello_world.Reactor.Event.{Cell}
use hello_world.Reactor.Table.{
  EventBlock, NtyReactor, Server, is_null, load, store, ntyreactor_idx, at_cell,
}
use hello_world.Reactor.Address.{address, view, load-view, view-store, length-store}
use hello_world.Reactor.Growth.{Grown, Grown-idx, idx_total}

is_null_of_length :
    {A : Type 0} (blks : List (EventBlock A)) → 0 < length blks → is_null blks ≡ false
unfolding is_null
is_null_of_length [] h = absurd (omega arith)
is_null_of_length (b ∷ blks) h = refl

-- The table is as `ntyreactor_init` and the growth leave it.
pub record IsTable {A : Type 0} (r : NtyReactor A) : Type 0 where
  pub counted : r.blkcnt ≡ length r.evblks
  pub live : is_null r.evblks ≡ false

module _ {A : Type 0} (zeroed : A) (k : Kernel) where
  -- How a callback on `fd` that returned `r` ran: `body` on the cell of `fd`, after calls that
  -- changed no registration.
  pub record Ran (body : Ptr → Cell A → Outcome (ℤ × Cell A)) (fd : ℕ) (s : Server A) (r : ℤ)
      (s' : Server A) : Type 0 where
    pub log₁ : Log
    pub cell : Cell A
    pub ran :
        body (address fd) (record { ev = view zeroed s.reactor.evblks fd; log = log₁ })
        ≡ ok (r, cell)
    pub same_interest : (q : ℕ) → interest log₁ q ≡ interest s.log q
    pub lawful : Lawful s.log → Lawful log₁
    pub view_after :
        (q : ℕ)
        → view zeroed s'.reactor.evblks q
          ≡ (if fd == q then cell.ev else view zeroed s.reactor.evblks q)
    pub log_after : s'.log ≡ cell.log
    pub table : IsTable s'.reactor
    pub same_curfds : s'.curfds ≡ s.curfds
    pub same_epfd : s'.reactor.epfd ≡ s.reactor.epfd

  abbrev after : Server A → ℕ → Cell A → Server A
  after s₁ fd c = record s₁ {
    reactor = record (s₁.reactor) { evblks = store (address fd) c.ev s₁.reactor.evblks };
    log = c.log;
  }

  -- The part of `at_cell` behind the lookup.
  at_cell-found :
      (body : Ptr → Cell A → Outcome (ℤ × Cell A)) (fd : ℕ) (s s₁ s' : Server A) (r : ℤ)
      (c : Cell A)
      → Grown zeroed s s₁
      → s.reactor.blkcnt ≡ length s.reactor.evblks
      → fd / 1024 < length s₁.reactor.evblks
      → body (address fd) (record { ev = view zeroed s₁.reactor.evblks fd; log = s₁.log })
        ≡ ok (r, c)
      → after s₁ fd c ≡ s'
      → Ran body fd s r s'
  at_cell-found body fd s s₁ s' r c g counted lt e same =
      subst (λ t. Ran body fd s r t) same
        (record {
          log₁ = s₁.log;
          cell = c;
          ran = rw (g.same_view fd) at e;
          same_interest = g.same_interest;
          lawful = g.lawful;
          view_after = λ q.
              view-store zeroed s₁.reactor.evblks fd q c.ev lt
              ∙ ap (λ v. if fd == q then c.ev else v) (g.same_view q);
          log_after = refl;
          table = record {
            counted =
                g.counted counted ∙ sym (length-store zeroed s₁.reactor.evblks (address fd) c.ev);
            live =
                is_null_of_length _
                  (omega (arith, length-store zeroed s₁.reactor.evblks (address fd) c.ev));
          };
          same_curfds = g.same_curfds;
          same_epfd = g.same_epfd;
        })

  pub at_cell-Ran :
      (body : Ptr → Cell A → Outcome (ℤ × Cell A)) (fuel fd : ℕ) (s s' : Server A) (r : ℤ)
      → IsTable s.reactor
      → at_cell zeroed k fuel (pos fd) body s ≡ ok (r, s')
      → Ran body fd s r s'
  unfolding at_cell
  at_cell-Ran body fuel fd s s' r t h =
      let ((found, s₁), e₁, h₁) = >>=-eq-ok (ntyreactor_idx zeroed k fuel (pos fd) s) _ h in
      let (is_cell, g, lt) = Grown-idx zeroed k fuel fd s s₁ found t.counted t.live e₁ in
      let h₂ = rw (is_cell, load-view zeroed s₁.reactor.evblks fd lt) at h₁ in
      let ((r', c), e₃, h₃) =
        >>=-eq-ok
          (body (address fd) (record { ev = view zeroed s₁.reactor.evblks fd; log = s₁.log })) _
          h₂ in
      let r_same : r' ≡ r = cc in
      at_cell-found body fd s s₁ s' r c g t.counted lt (e₃ ∙ ap (λ n. ok (n, c)) r_same) (cc)

  -- `at_cell` returns where its body does, given memory for the missing blocks.
  pub at_cell_total :
      (malloc_works : (log : Log) → k.malloc log ≡ true)
      (body : Ptr → Cell A → Outcome (ℤ × Cell A)) (fuel fd : ℕ) (s : Server A)
      → IsTable s.reactor
      → fd / 1024 < s.reactor.blkcnt + fuel
      → ((log : Log)
          → (r : ℤ) × (c : Cell A) × (body
                (address fd)
                (record { ev = view zeroed s.reactor.evblks fd; log = log })
              ≡ ok (r, c)))
      → (r : ℤ) × (s' : Server A) × (at_cell zeroed k fuel (pos fd) body s ≡ ok (r, s'))
  unfolding at_cell
  at_cell_total malloc_works body fuel fd s t enough runs =
      let (s₁, e₁) = idx_total zeroed k malloc_works fuel fd s t.counted t.live enough in
      let (_, g, lt) = Grown-idx zeroed k fuel fd s s₁ (some (address fd)) t.counted t.live e₁ in
      let (r, c, e₂) = runs s₁.log in
      (r, after s₁ fd c, rw (e₁, load-view zeroed s₁.reactor.evblks fd lt, g.same_view fd, e₂) refl)

  -- If malloc works, the table is as the reactor keeps it and the fuel allows for the missing
  -- blocks, ntyreactor_idx returns the address of the descriptor's cell, the cell there is the one
  -- that the table stood for before, no descriptor's cell is changed, and the count of blocks
  -- stays right
  pub ntyreactor_idx_lem :
      (malloc_works : (log : Log) → k.malloc log ≡ true) (fuel fd : ℕ) (s : Server A)
      → IsTable s.reactor
      → fd / 1024 < s.reactor.blkcnt + fuel
      → (s' : Server A) × (ntyreactor_idx zeroed k fuel (pos fd) s ≡ ok (some (address fd), s'))
        × (load (address fd) s'.reactor.evblks ≡ ok (view zeroed s.reactor.evblks fd))
        × ((q : ℕ) → view zeroed s'.reactor.evblks q ≡ view zeroed s.reactor.evblks q)
        × (s'.reactor.blkcnt ≡ length s'.reactor.evblks)
  ntyreactor_idx_lem malloc_works fuel fd s t enough =
      let (s', e) = idx_total zeroed k malloc_works fuel fd s t.counted t.live enough in
      let (_, g, lt) = Grown-idx zeroed k fuel fd s s' (some (address fd)) t.counted t.live e in
      let same = g.same_view in
      (
        s',
        e,
        load-view zeroed s'.reactor.evblks fd lt ∙ ap (λ v. ok v) (same fd),
        same,
        g.counted t.counted,
      )
