-- ===== src/Reactor/Turns.antt =====
-- The turns of the loop of `ntyreactor_run`, reactor+http/reactor_singlecb_http_c1000k.c, and the
-- registration of cells.
use mathlib.Core.Path.{subst}
use hello_world.Prelude.{
  ℕ, zero, suc, ◌+◌, ◌*◌, ◌/◌, ◌%◌, ◌≡◌, refl, sym, ap, ◌∙◌, ◌≢◌, inl, inr, Bool, true, false, ◌&&◌,
  List, [], ◌∷◌, arith, ltb, has_flag, ltb→lt, Bool-cases, Option-cases, get_elem?, ℤ,
}
use hello_world.Outcome.{Outcome, >>=-eq-ok, ok-injective, ok}
use hello_world.Sys.{Ptr, Call, Log, Ready, Kernel, epollin, epollout}
use hello_world.Reactor.Event.{Callback, NtyEvent}
use hello_world.Reactor.Table.{max_epoll_events, EventBlock, Server, load}
use hello_world.Reactor.Loop.{dispatch_flag, dispatch, dispatch_all, serve, round, rounds}
use hello_world.Reactor.Address.{view}
use hello_world.Reactor.Registration.{Registered}
use hello_world.Reactor.Invariant.{IsSynced, IsSynced-log}

-- What is asked of the callbacks: called through the cell of its descriptor, each keeps the
-- invariant.
abbrev pub CallKeeps :
    {A : Type 0} → A → (Callback → ℕ → Server A → Outcome (ℤ × Server A)) → Type 0
CallKeeps {A} zeroed call =
    (cb : Callback) (fd : ℕ) (s s' : Server A) (r : ℤ)
    → IsSynced zeroed s
    → (view zeroed s.reactor.evblks fd).fd ≡ fd
    → call cb fd s ≡ ok (r, s')
    → IsSynced zeroed s'

-- A pointer that can be read is the address of a descriptor.
load-address :
    {A : Type 0} (zeroed : A) (p : Ptr) (blks : List (EventBlock A)) {ev : NtyEvent A}
    → load p blks ≡ ok ev
    → (fd : ℕ) × (view zeroed blks fd ≡ ev)
unfolding load view
load-address zeroed (b, i) blks {ev} h = elim (Option-cases (get_elem? blks b)) [
  | inl e ↦ absurd (let h' = rw e at h in cc)
  | inr (blk, e) ↦ elim (Bool-cases (ltb i max_epoll_events)) [
    | inl lt ↦
        let h' = rw (e, lt) at h in
        let quot : (b * 1024 + i) / 1024 ≡ b = omega (arith, ltb→lt i 1024 lt) in
        let rem : (b * 1024 + i) % 1024 ≡ i = omega (arith, ltb→lt i 1024 lt) in
        (b * 1024 + i, rw (quot, rem, e) (cc))
    | inr ge ↦ absurd (let h' = rw (e, ge) at h in cc)
  ]
]

has_flag-live : (mask flag : ℕ) → has_flag mask flag ≡ true → mask ≢ 0
has_flag-live mask flag h = ground arith

and-right : (a b : Bool) → (a && b) ≡ true → b ≡ true
and-right true b h = h
and-right false b h = cc

owner-of :
    {A : Type 0} (fd : ℕ) {ev ev' : NtyEvent A} {log : Log}
    → ev ≡ ev'
    → Registered fd (record { ev = ev; log = log })
    → ev'.events ≢ 0
    → ev'.fd ≡ fd
owner-of fd same r live = elim r.armed [
  | inl dead ↦ absurd (live (ap (λ v. v.events) (sym same) ∙ dead))
  | inr (own, fits) ↦ ap (λ v. v.fd) (sym same) ∙ own
]

module _ {A : Type 0} (zeroed : A) (k : Kernel)
    (call : Callback → ℕ → Server A → Outcome (ℤ × Server A))
    (call_keeps : CallKeeps zeroed call) where
  dispatch_flag-IsSynced :
      (flag : ℕ) (ready : Ready) {s s' : Server A}
      → IsSynced zeroed s
      → dispatch_flag k call flag ready s ≡ ok s'
      → IsSynced zeroed s'
  unfolding dispatch_flag
  dispatch_flag-IsSynced flag ready {s} {s'} i h =
      let (ev, e₁, h₁) = >>=-eq-ok (load ready.ptr s.reactor.evblks) _ h in
      let (fd, is_view) = load-address zeroed ready.ptr s.reactor.evblks e₁ in
      elim (Bool-cases (has_flag ready.events flag && has_flag ev.events flag)) [
        | inl e ↦
            let ((r, s₁), e₂, h₂) = >>=-eq-ok (call ev.callback ev.fd s) _ (rw e at h₁) in
            let live : ev.events ≢ 0 = has_flag-live ev.events flag (and-right _ _ e) in
            let own = owner-of fd is_view (i.cells fd) live in
            subst (λ t. IsSynced zeroed t) (ok-injective h₂)
              (call_keeps ev.callback fd s s₁ r i (ap (λ (v : NtyEvent A). v.fd) is_view ∙ own)
                (ap (λ n. call ev.callback n s) (sym own) ∙ e₂))
        | inr e ↦ let h₂ = rw e at h₁ in subst (λ t. IsSynced zeroed t) (ok-injective h₂) i
      ]

  dispatch-IsSynced :
      (ready : Ready) {s s' : Server A}
      → IsSynced zeroed s
      → dispatch k call ready s ≡ ok s'
      → IsSynced zeroed s'
  unfolding dispatch
  dispatch-IsSynced ready {s} i h =
      let (s₁, e₁, h₁) = >>=-eq-ok (dispatch_flag k call epollin ready s) _ h in
      dispatch_flag-IsSynced epollout ready (dispatch_flag-IsSynced epollin ready i e₁) h₁

  dispatch_all-IsSynced :
      (batch : List Ready) {s s' : Server A}
      → IsSynced zeroed s
      → dispatch_all k call batch s ≡ ok s'
      → IsSynced zeroed s'
  unfolding dispatch_all
  dispatch_all-IsSynced [] i h = subst (λ t. IsSynced zeroed t) (ok-injective h) i
  dispatch_all-IsSynced (ready ∷ rest) {s} i h =
      let (s₁, e₁, h₁) = >>=-eq-ok (dispatch k call ready s) _ h in
      dispatch_all-IsSynced rest (dispatch-IsSynced ready i e₁) h₁

  round-IsSynced :
      {s s' : Server A} → IsSynced zeroed s → round k call s ≡ ok s' → IsSynced zeroed s'
  unfolding round serve
  round-IsSynced {s} i h = elim (Option-cases (k.epoll_wait s.log)) [
    | inl e ↦
        subst (λ t. IsSynced zeroed t) (ok-injective (rw e at h))
          (IsSynced-log zeroed k Call.epoll_wait_call (λ q w. refl) (λ log. tt) i)
    | inr (batch, e) ↦
        dispatch_all-IsSynced batch
          (IsSynced-log zeroed k Call.epoll_wait_call (λ q w. refl) (λ log. tt) i) (rw e at h)
  ]

  -- Every number of turns of the event loop keeps the invariant.
  pub rounds-IsSynced :
      (n : ℕ) {s s' : Server A} → IsSynced zeroed s → rounds k call n s ≡ ok s' → IsSynced zeroed s'
  unfolding rounds
  rounds-IsSynced zero i h = subst (λ t. IsSynced zeroed t) (ok-injective h) i
  rounds-IsSynced (suc n) {s} i h =
      let (s₁, e₁, h₁) = >>=-eq-ok (round k call s) _ h in
      rounds-IsSynced n (round-IsSynced i e₁) h₁
