-- ===== src/Reactor/Quiet.antt =====
-- Calls and assignments that concern no registration: what lies between the registrations in the
-- callbacks of reactor+http/reactor_singlecb_http_c1000k.c.
use native.Mathlib.Decide.{ℕ_discrete as dec_eq}
use hello_world.Prelude.{
  ℕ, ◌≡◌, refl, sym, ◌∙◌, false, none, arith, ◌==◌, if◌then◌else◌, ==_self, pos,
}
use hello_world.Sys.{Call, Log}
use hello_world.Sys.Interest.{Watch, after_call, interest, ProperCall, Lawful}
use hello_world.Reactor.Event.{Cell, log_call, with_app}
use hello_world.Reactor.Registration.{claim, Registered, Keeps}

-- A step on a cell that keeps every registration as it was.
pub record Quiet {A : Type 0} (c c' : Cell A) : Type 0 where
  pub same_fd : c'.ev.fd ≡ c.ev.fd
  pub same_events : c'.ev.events ≡ c.ev.events
  pub same_callback : c'.ev.callback ≡ c.ev.callback
  pub same_status : c'.ev.status ≡ c.ev.status
  pub same_interest : (q : ℕ) → interest c'.log q ≡ interest c.log q
  pub lawful : Lawful c.log → Lawful c'.log

close_unwatched :
    (n q : ℕ) (log : Log)
    → interest log n ≡ none
    → (if n == q then none else interest log q) ≡ interest log q
close_unwatched n q log h = elim (dec_eq n q) [
  | yes e ↦ rw (e, ==_self q) (sym (rw e at h))
  | no e ↦ let t : (n == q) ≡ false = ground arith in rw t refl
]

module _ {A : Type 0} where
  pub Quiet-refl : (c : Cell A) → Quiet c c
  Quiet-refl c = record {
    same_fd = refl;
    same_events = refl;
    same_callback = refl;
    same_status = refl;
    same_interest = λ q. refl;
    lawful = λ l. l;
  }

  pub Quiet-trans : {a b c : Cell A} → Quiet a b → Quiet b c → Quiet a c
  Quiet-trans g h = record {
    same_fd = h.same_fd ∙ g.same_fd;
    same_events = h.same_events ∙ g.same_events;
    same_callback = h.same_callback ∙ g.same_callback;
    same_status = h.same_status ∙ g.same_status;
    same_interest = λ q. h.same_interest q ∙ g.same_interest q;
    lawful = λ l. h.lawful (g.lawful l);
  }

  pub Quiet-app : (a : A) (c : Cell A) → Quiet c (with_app a c)
  Quiet-app a c = record {
    same_fd = refl;
    same_events = refl;
    same_callback = refl;
    same_status = refl;
    same_interest = λ q. refl;
    lawful = λ l. l;
  }

  pub Quiet-call :
      (call : Call) (c : Cell A)
      → ((q : ℕ) (w : Watch) → after_call call q w ≡ w)
      → ((log : Log) → ProperCall call log)
      → Quiet c (log_call call c)
  Quiet-call call c idle proper = record {
    same_fd = refl;
    same_events = refl;
    same_callback = refl;
    same_status = refl;
    same_interest = λ q. idle q (interest c.log q);
    lawful = λ l. (proper c.log, l);
  }

  -- Closing a descriptor that epoll does not watch.
  pub Quiet-close :
      (n : ℕ) (c : Cell A)
      → interest c.log n ≡ none
      → Quiet c (log_call (Call.close_call (pos n)) c)
  Quiet-close n c h = record {
    same_fd = refl;
    same_events = refl;
    same_callback = refl;
    same_status = refl;
    same_interest = λ q. close_unwatched n q c.log h;
    lawful = λ l. (tt, l);
  }

  claim-Quiet : (fd : ℕ) {c c' : Cell A} → Quiet c c' → claim fd c'.ev ≡ claim fd c.ev
  claim-Quiet fd g = rw (g.same_status, g.same_events) refl

  pub Keeps-Quiet : (fd : ℕ) {c c' : Cell A} → Quiet c c' → Registered fd c → Keeps fd c c'
  Keeps-Quiet fd g r = record {
    registered = record {
      armed = rw (g.same_events, g.same_fd, g.same_callback) r.armed;
      status = rw (g.same_status, g.same_events) r.status;
      synced = g.same_interest fd ∙ (r.synced ∙ sym (claim-Quiet fd g));
      lawful = g.lawful r.lawful;
    };
    others = λ q ne. g.same_interest q;
  }
