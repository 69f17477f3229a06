-- ===== src/Reactor/Invariant.antt =====
-- The invariant of the whole server between two callbacks of
-- reactor+http/reactor_singlecb_http_c1000k.c.
use mathlib.Core.Path.{subst}
use native.Mathlib.Decide.{ℕ_discrete as dec_eq}
use hello_world.Prelude.{
  ℕ, ◌≡◌, refl, sym, ap, ◌∙◌, ◌≢◌, inl, inr, false, none, [], ◌∷◌, arith, ◌==◌, ==_self, ℤ, pos,
  negsuc,
}
use hello_world.Outcome.{Outcome, ok-second, ok, fault}
use hello_world.Sys.{Ptr, Call, Log, Kernel, epollin}
use hello_world.Sys.Interest.{Watch, after_call, interest, ProperCall, Lawful}
use hello_world.Reactor.Event.{Callback, NtyEvent, zero_event, Cell, accept_cb}
use hello_world.Reactor.Table.{
  Server, log_server, is_null, zero_block, ntyreactor_idx, at_cell, watch_body,
  ntyreactor_addlistener,
}
use hello_world.Reactor.Address.{address, view, view-fresh}
use hello_world.Reactor.Cells.{IsTable, Ran, at_cell-Ran}
use hello_world.Reactor.Registration.{EpollWorks, Fits, Registered, Keeps, Keeps-watch}

abbrev pub cell_at : {A : Type 0} → A → Server A → ℕ → Cell A
cell_at zeroed s fd = record { ev = view zeroed s.reactor.evblks fd; log = s.log }

-- The epoll instance watches exactly what the cells say, each with the callback for its events.
pub record IsSynced {A : Type 0} (zeroed : A) (s : Server A) : Type 0 where
  pub table : IsTable s.reactor
  pub cells : (fd : ℕ) → Registered fd (cell_at zeroed s fd)

module _ {A : Type 0} (zeroed : A) (k : Kernel) where
  Registered-log :
      (fd : ℕ) {ev : NtyEvent A} {log log' : Log}
      → interest log' fd ≡ interest log fd
      → Lawful log'
      → Registered fd (record { ev = ev; log = log })
      → Registered fd (record { ev = ev; log = log' })
  Registered-log fd same l r = record {
    armed = r.armed;
    status = r.status;
    synced = same ∙ r.synced;
    lawful = l;
  }

  -- A call of the server that concerns no registration.
  pub IsSynced-log :
      (call : Call) {s : Server A}
      → ((q : ℕ) (w : Watch) → after_call call q w ≡ w)
      → ((log : Log) → ProperCall call log)
      → IsSynced zeroed s
      → IsSynced zeroed (log_server call s)
  IsSynced-log call {s} idle proper i = record {
    table = i.table;
    cells = λ fd.
        Registered-log fd (idle fd (interest s.log fd)) (proper s.log, (i.cells fd).lawful)
          (i.cells fd);
  }

  -- The cell on which a callback ran was registered as it should be.
  pub Registered-start :
      {body : Ptr → Cell A → Outcome (ℤ × Cell A)} {fd : ℕ} {s s' : Server A} {r : ℤ}
      → (ran : Ran zeroed k body fd s r s') → IsSynced zeroed s
      → Registered fd (record { ev = view zeroed s.reactor.evblks fd; log = ran.log₁ })
  Registered-start {fd} ran i =
      Registered-log fd (ran.same_interest fd) (ran.lawful (i.cells fd).lawful) (i.cells fd)

  module _ {body : Ptr → Cell A → Outcome (ℤ × Cell A)} {fd : ℕ} {s s' : Server A} {r : ℤ}
      (ran : Ran zeroed k body fd s r s') (i : IsSynced zeroed s)
      (keeps : Keeps fd
        (record { ev = view zeroed s.reactor.evblks fd; log = ran.log₁ })
        ran.cell) where
    own_cell : cell_at zeroed s' fd ≡ ran.cell
    own_cell =
        let same_ev : view zeroed s'.reactor.evblks fd ≡ ran.cell.ev =
          ran.view_after fd ∙ rw (==_self fd) refl in
        λ j. record { ev = same_ev j; log = ran.log_after j }

    other_cell : (q : ℕ) → fd ≢ q → Registered q (cell_at zeroed s' q)
    other_cell q ne =
        let apart : (fd == q) ≡ false = ground arith in
        let same_ev : view zeroed s'.reactor.evblks q ≡ view zeroed s.reactor.evblks q =
          ran.view_after q ∙ rw apart refl in
        let same_interest : interest s'.log q ≡ interest s.log q =
          ap (λ l. interest l q) ran.log_after ∙ (keeps.others q ne ∙ ran.same_interest q) in
        rw same_ev
          (Registered-log q same_interest (rw ran.log_after keeps.registered.lawful) (i.cells q))

    pub IsSynced-Ran : IsSynced zeroed s'
    IsSynced-Ran = record {
      table = ran.table;
      cells = λ q. elim (dec_eq fd q) [
        | yes e ↦
            subst (λ n. Registered n (cell_at zeroed s' n)) e
              (subst (λ c. Registered fd c) (sym own_cell) keeps.registered)
        | no e ↦ other_cell q e
      ];
    }

negative_fails :
    {A : Type 0} (zeroed : A) (k : Kernel) (body : Ptr → Cell A → Outcome (ℤ × Cell A)) (fuel n : ℕ)
    (s s' : Server A) (r : ℤ)
    → is_null s.reactor.evblks ≡ false
    → at_cell zeroed k fuel (negsuc n) body s ≡ ok (r, s')
    → ⊥
unfolding at_cell ntyreactor_idx
negative_fails zeroed k body fuel n s s' r live h = let h' = rw live at h in cc

module _ {A : Type 0} (zeroed : A) (k : Kernel) (works : EpollWorks k) where
  watch_body-Keeps :
      (fd : ℕ) (cb : Callback) (events : ℕ) (r : ℤ) {c c' : Cell A}
      → Fits events cb
      → Registered fd c
      → watch_body zeroed k fd cb events (address fd) c ≡ ok (r, c')
      → Keeps fd c c'
  unfolding watch_body
  watch_body-Keeps fd cb events r {c} fits reg h =
      subst (λ t. Keeps fd c t) (ok-second h) (Keeps-watch fd k works zeroed cb events fits reg)

  -- Registering a descriptor keeps the invariant.
  pub watch-IsSynced :
      (fuel fd : ℕ) (cb : Callback) (events : ℕ) (s s' : Server A) (r : ℤ)
      → Fits events cb
      → IsSynced zeroed s
      → at_cell zeroed k fuel (pos fd) (watch_body zeroed k fd cb events) s ≡ ok (r, s')
      → IsSynced zeroed s' × (s'.reactor.epfd ≡ s.reactor.epfd)
  watch-IsSynced fuel fd cb events s s' r fits i h =
      let ran = at_cell-Ran zeroed k (watch_body zeroed k fd cb events) fuel fd s s' r i.table h in
      let start = Registered-start zeroed k ran i in
      (
        IsSynced-Ran zeroed k ran i (watch_body-Keeps fd cb events r fits start ran.ran),
        ran.same_epfd,
      )

  -- Registering a listener keeps the invariant; for a negative descriptor it does not return.
  pub addlistener-IsSynced :
      (fuel : ℕ) (sockfd : ℤ) (s s' : Server A) (r : ℤ)
      → IsSynced zeroed s
      → ntyreactor_addlistener zeroed k fuel sockfd accept_cb s ≡ ok (r, s')
      → IsSynced zeroed s' × (s'.reactor.epfd ≡ s.reactor.epfd)
  unfolding ntyreactor_addlistener
  addlistener-IsSynced fuel (pos fd) s s' r i h =
      watch-IsSynced fuel fd accept_cb epollin s s' r (inl (refl, inr refl)) i h
  addlistener-IsSynced fuel (negsuc n) s s' r i h =
      absurd (negative_fails zeroed k (λ p c. fault) fuel n s s' r i.table.live h)

-- A table as `ntyreactor_init` makes it, with nothing registered yet.
pub fresh-IsSynced :
    {A : Type 0} (zeroed : A) (k : Kernel) (epfd : ℤ) (log : Log)
    → ((fd : ℕ) → interest log fd ≡ none)
    → Lawful log
    → IsSynced zeroed (record {
      reactor = record { epfd = epfd; blkcnt = 1; evblks = zero_block zeroed k ∷ [] };
      log = log;
      curfds = 0;
    })
unfolding is_null
fresh-IsSynced zeroed k epfd log idle lawful = record {
  table = record { counted = refl; live = refl };
  cells = λ fd.
      let untouched : view zeroed (zero_block zeroed k ∷ []) fd ≡ zero_event zeroed =
        view-fresh zeroed k fd in
      rw untouched
        (record { armed = inl refl; status = inl refl; synced = idle fd; lawful = lawful });
}
