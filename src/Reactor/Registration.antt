-- ===== src/Reactor/Registration.antt =====
-- The registration of one cell: what its fields say of the epoll instance, through `nty_event_set`,
-- `nty_event_add` and `nty_event_del` of reactor+http/reactor_singlecb_http_c1000k.c.
use mathlib.Core.Path.{subst}
use hello_world.Prelude.{
  ℕ, ◌≡◌, refl, sym, ◌∙◌, ◌≢◌, ◌⊎◌, inl, inr, true, false, none, some, ◌∷◌, arith, ◌==◌,
  if◌then◌else◌, pos,
}
use hello_world.Sys.{CtlOp, Call, Log, Kernel, epollin, epollout, ctl_add, ctl_mod, ctl_del}
use hello_world.Sys.Interest.{Watch, interest, Proper, Lawful}
use hello_world.Reactor.Event.{
  Callback, NtyEvent, Cell, log_call, with_app, add_op, nty_event_set, nty_event_add, nty_event_del,
  recv_cb, send_cb, accept_cb,
}
use hello_world.Reactor.Table.{watch}
use hello_world.Reactor.Address.{address}

-- `epoll_ctl` fails only where it adds what is watched (EEXIST), or modifies or deletes what is not
-- (ENOENT): there is memory and room for each watch, the epoll instance is open, and each descriptor
-- is open and of a kind that epoll can watch.
abbrev pub EpollWorks : Kernel → Type 0
EpollWorks k =
    (log : Log) (op : CtlOp) (fd events : ℕ)
    → Proper op (interest log fd)
    → k.epoll_ctl log op fd events ≡ true

-- The registration that the cell of `fd` claims.
abbrev pub claim : {A : Type 0} → ℕ → NtyEvent A → Watch
claim fd ev = if ev.status == 1 then some (address fd, ev.events) else none

-- Reading is watched for with `recv_cb` or `accept_cb`, writing with `send_cb`.
abbrev pub Fits : ℕ → Callback → Type 0
Fits events cb =
    ((events ≡ epollin) × ((cb ≡ recv_cb) ⊎ (cb ≡ accept_cb)))
    ⊎ ((events ≡ epollout) × (cb ≡ send_cb))

pub record Registered {A : Type 0} (fd : ℕ) (c : Cell A) : Type 0 where
  -- A cell that was ever armed belongs to `fd`, and has the callback for its events.
  pub armed : (c.ev.events ≡ 0) ⊎ ((c.ev.fd ≡ fd) × Fits c.ev.events c.ev.callback)
  pub status : (c.ev.status ≡ 0) ⊎ ((c.ev.status ≡ 1) × (c.ev.events ≢ 0))
  pub synced : interest c.log fd ≡ claim fd c.ev
  pub lawful : Lawful c.log

-- A step on the cell of `fd` that keeps its registration true and leaves the others alone.
pub record Keeps {A : Type 0} (fd : ℕ) (c c' : Cell A) : Type 0 where
  pub registered : Registered fd c'
  pub others : (q : ℕ) → fd ≢ q → interest c'.log q ≡ interest c.log q

module _ (fd : ℕ) where
  ==_of_eq : {q : ℕ} → q ≡ fd → (q == fd) ≡ true
  ==_of_eq e = ground arith

  ==_of_ne : {own q : ℕ} → own ≡ fd → fd ≢ q → (own == q) ≡ false
  ==_of_ne e ne = ground arith

  Fits-live : {events : ℕ} {cb : Callback} → Fits events cb → events ≢ 0
  Fits-live fits = ground arith

add_op-ne-del : (status : ℕ) → add_op status ≢ ctl_del
add_op-ne-del status = ground arith

module _ {A : Type 0} (fd : ℕ) where
  pub Keeps-trans : {a b c : Cell A} → Keeps fd a b → Keeps fd b c → Keeps fd a c
  Keeps-trans g h = record {
    registered = h.registered;
    others = λ q ne. h.others q ne ∙ g.others q ne;
  }

  owner : {c : Cell A} → Registered fd c → c.ev.status ≡ 1 → c.ev.fd ≡ fd
  owner r one = ground (arith, r.armed, r.status)

  watched : {c : Cell A} → Registered fd c → c.ev.status ≡ 1 → interest c.log fd ≢ none
  watched r one = ground (arith, r.synced)

  pub unwatched : {c : Cell A} → Registered fd c → c.ev.status ≢ 1 → interest c.log fd ≡ none
  unwatched r other = ground (arith, r.synced)

  pub Keeps-app : {c : Cell A} (a : A) → Registered fd c → Keeps fd c (with_app a c)
  Keeps-app a r = record {
    registered = record {
      armed = r.armed;
      status = r.status;
      synced = r.synced;
      lawful = r.lawful;
    };
    others = λ q ne. refl;
  }

  -- `close` ends no registration that the cell claims, if the cell is deleted first.
  pub Keeps-close :
      {c : Cell A}
      → Registered fd c
      → c.ev.status ≡ 0
      → c.ev.fd ≡ fd
      → Keeps fd c (log_call (Call.close_call (pos c.ev.fd)) c)
  Keeps-close {c} r gone own = record {
    registered = record {
      armed = r.armed;
      status = r.status;
      synced = let t : (c.ev.status == 1) ≡ false = ground arith in rw (==_of_eq fd own, t) refl;
      lawful = (tt, r.lawful);
    };
    others = λ q ne. rw (==_of_ne fd own ne) refl;
  }

  module _ (k : Kernel) where
    abbrev deleted : Cell A → Cell A
    deleted c = record {
      ev = record (c.ev) { status = 0 };
      log = Call.epoll_ctl_call ctl_del c.ev.fd 0 (address fd) true ∷ c.log;
    }

    del-idle : (c : Cell A) → c.ev.status ≡ 0 → (nty_event_del k (address fd) c).1 ≡ c
    unfolding nty_event_del
    del-idle c e = let t : (c.ev.status == 1) ≡ false = ground arith in rw t refl

    del-deleted :
        (c : Cell A)
        → c.ev.status ≡ 1
        → k.epoll_ctl c.log ctl_del c.ev.fd 0 ≡ true
        → (nty_event_del k (address fd) c).1 ≡ deleted c
    unfolding nty_event_del
    del-deleted c e did = let t : (c.ev.status == 1) ≡ true = ground arith in rw (t, did) refl

    Keeps-deleted : {c : Cell A} → Registered fd c → c.ev.status ≡ 1 → Keeps fd c (deleted c)
    Keeps-deleted {c} r one =
        let own = owner r one in
        record {
          registered = record {
            armed = r.armed;
            status = inl refl;
            synced = rw (==_of_eq fd own) refl;
            lawful = (rw own (watched r one), r.lawful);
          };
          others = λ q ne. rw (==_of_ne fd own ne) refl;
        }

    module _ (works : EpollWorks k) where
      -- What `nty_event_del` leaves: a cell that is not registered, with the same buffers.
      pub record Deleted (c c' : Cell A) : Type 0 where
        pub keeps : Keeps fd c c'
        pub status : c'.ev.status ≡ 0
        pub same_app : c'.ev.app ≡ c.ev.app
        pub same_fd : c'.ev.fd ≡ c.ev.fd
        pub same_events : c'.ev.events ≡ c.ev.events

      pub del-Deleted :
          {c : Cell A} → Registered fd c → Deleted c (nty_event_del k (address fd) c).1
      del-Deleted {c} r = elim r.status [
        | inl none_yet ↦
            subst (λ c'. Deleted c c') (sym (del-idle c none_yet))
              (record {
                keeps = record { registered = r; others = λ q ne. refl };
                status = none_yet;
                same_app = refl;
                same_fd = refl;
                same_events = refl;
              })
        | inr (one, live) ↦
            let did = works c.log ctl_del c.ev.fd 0 (rw (owner r one) (watched r one)) in
            subst (λ c'. Deleted c c') (sym (del-deleted c one did))
              (record {
                keeps = Keeps-deleted r one;
                status = refl;
                same_app = refl;
                same_fd = refl;
                same_events = refl;
              })
      ]

      added : CtlOp → Callback → ℕ → Cell A → Cell A
      added op cb events c = record {
        ev = record (c.ev) { fd = fd; callback = cb; events = events; status = 1 };
        log = Call.epoll_ctl_call op fd events (address fd) true ∷ c.log;
      }

      Keeps-added :
          (op : CtlOp) (cb : Callback) (events : ℕ) {c : Cell A}
          → op ≢ ctl_del
          → Proper op (interest c.log fd)
          → Fits events cb
          → Registered fd c
          → Keeps fd c (added op cb events c)
      unfolding added
      Keeps-added ctl_add cb events proper₀ proper fits r = record {
        registered = record {
          armed = inr (refl, fits);
          status = inr (refl, Fits-live fd fits);
          synced = rw (==_of_eq fd refl) refl;
          lawful = (proper, r.lawful);
        };
        others = λ q ne. rw (==_of_ne fd refl ne) refl;
      }
      Keeps-added ctl_mod cb events proper₀ proper fits r = record {
        registered = record {
          armed = inr (refl, fits);
          status = inr (refl, Fits-live fd fits);
          synced = rw (==_of_eq fd refl) refl;
          lawful = (proper, r.lawful);
        };
        others = λ q ne. rw (==_of_ne fd refl ne) refl;
      }
      Keeps-added ctl_del cb events other proper fits r = absurd (other refl)

      Proper-add : {c : Cell A} → Registered fd c → Proper (add_op c.ev.status) (interest c.log fd)
      Proper-add {c} r = elim r.status [
        | inl e ↦ rw e (unwatched r (omega arith))
        | inr (e, live) ↦ rw e (watched r e)
      ]

      watch-added :
          (zeroed : A) (cb : Callback) (events : ℕ) {c : Cell A}
          → Registered fd c
          → watch zeroed k fd cb events (address fd) c ≡ added (add_op c.ev.status) cb events c
      unfolding watch nty_event_set nty_event_add added
      watch-added zeroed cb events {c} r =
          rw (works c.log (add_op c.ev.status) fd events (Proper-add r)) refl

      -- Setting and adding a cell registers it as its fields say.
      pub Keeps-watch :
          (zeroed : A) (cb : Callback) (events : ℕ) {c : Cell A}
          → Fits events cb
          → Registered fd c
          → Keeps fd c (watch zeroed k fd cb events (address fd) c)
      Keeps-watch zeroed cb events {c} fits r =
          subst (λ c'. Keeps fd c c') (sym (watch-added zeroed cb events r))
            (Keeps-added (add_op c.ev.status) cb events (add_op-ne-del c.ev.status) (Proper-add r)
              fits r)
