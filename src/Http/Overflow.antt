-- ===== src/Http/Overflow.antt =====
-- The terminator that `recv_cb` of reactor+http/reactor_singlecb_http_c1000k.c puts behind what it
-- received.
use hello_world.Prelude.{
  ℕ, suc, ◌≤◌, ◌≡◌, refl, ap, inl, inr, List, ◌∷◌, ◌++◌, arith, ◌==◌, le→not_ltb, Bool-cases,
  length, drop, length-append, length-drop,
}
use hello_world.Outcome.{fault}
use hello_world.CString.{put}
use hello_world.CString.Laws.{fill-ok}
use hello_world.Sys.{Ptr, Call, Kernel, bytes_in}
use hello_world.Reactor.Event.{Cell, log_call, with_app, nty_event_del}
use hello_world.Http.Request.{HttpFields}
use hello_world.Http.Callbacks.{after_recv, recv_body}

del-app :
    {A : Type 0} (k : Kernel) (p : Ptr) (c : Cell A) → (nty_event_del k p c).1.ev.app ≡ c.ev.app
unfolding nty_event_del
del-app k p c = elim (Bool-cases (c.ev.status == 1)) [ inl e ↦ rw e refl | inr e ↦ rw e refl ]

put-faults : (array : List ℕ) (i c : ℕ) → length array ≤ i → put array i c ≡ fault
unfolding put
put-faults array i c h = rw (le→not_ltb i (length array) h) refl

after_recv-faults :
    (k : Kernel) (fd : ℕ) (p : Ptr) (b : ℕ) (bytes : List ℕ) (c : Cell HttpFields)
    → length c.ev.app.buffer ≤ suc (length bytes)
    → after_recv k fd p (bytes_in (b ∷ bytes)) c ≡ fault
unfolding after_recv
after_recv-faults k fd p b bytes c h = rw (put-faults c.ev.app.buffer (suc (length bytes)) 0 h) refl

-- If the event's buffer has 1024 places and recv fills all of them, recv_cb writes the terminator
-- outside the buffer
pub recv_body-faults :
    (k : Kernel) (fd : ℕ) (p : Ptr) (b : ℕ) (bytes : List ℕ) (c : Cell HttpFields)
    → length c.ev.app.buffer ≡ 1024
    → k.recv c.log fd 1024 ≡ bytes_in (b ∷ bytes)
    → length bytes ≡ 1023
    → recv_body k fd p c ≡ fault
unfolding recv_body
recv_body-faults k fd p b bytes c room got full =
    let stored = fill-ok (b ∷ bytes) c.ev.app.buffer (omega arith) in
    let buffer : List ℕ = (b ∷ bytes) ++ drop (suc (length bytes)) c.ev.app.buffer in
    let c₁ : Cell HttpFields =
      with_app (record (c.ev.app) { buffer = buffer }) (log_call (Call.recv_call fd 1024) c) in
    let same : (nty_event_del k p c₁).1.ev.app.buffer ≡ buffer =
      ap (λ (a : HttpFields). a.buffer) (del-app k p c₁) in
    let long : length (nty_event_del k p c₁).1.ev.app.buffer ≤ suc (length bytes) = rw same (
      omega (
        arith,
        length-append (b ∷ bytes) (drop (suc (length bytes)) c.ev.app.buffer),
        length-drop (suc (length bytes)) c.ev.app.buffer,
      )) in
    rw (got, stored, after_recv-faults k fd p b bytes (nty_event_del k p c₁).1 long) refl
