-- ===== src/Echo/Tests.antt =====
-- The echo server's theorem at a concrete input.
use hello_world.Prelude.{
  ℕ, zero, suc, ◌≡◌, refl, [], ◌∷◌, ◌++◌, arith, replicate, length-replicate, pos,
}
use hello_world.Outcome.{ok, fault}
use hello_world.CString.{codes, crlf, zeros, c_string}
use hello_world.Sys.{Kernel, bytes_in}
use hello_world.Sys.Scenario.{request, demo}
use hello_world.Echo.Table.{Echo, live}
use hello_world.Echo.Loop.{on_read, on_write}
use hello_world.Echo.Back.{sent_to, Connected, refilled, on_write-on_read, on_read-overreads}
use hello_world.CString.Laws.{NonZero}

abbrev connected : Echo
unfolding zeros
connected = record {
  reactor = record {
    epfd = pos 4;
    blkcnt = 1;
    evblk =
        (λ i. record {
          fd = i;
          rbuffer = live (zeros 128);
          rlength = 0;
          wbuffer = live (zeros 128);
          wlength = 0;
        })
        ∷ [];
  };
  log = [];
}

connected-Connected : Connected 4 connected (zeros 128) (zeros 128)
unfolding connected
connected-Connected = record {
  block = λ i. record {
    fd = i;
    rbuffer = live (zeros 128);
    rlength = 0;
    wbuffer = live (zeros 128);
    wlength = 0;
  };
  counted = omega arith;
  is_block = refl;
  reads = refl;
  writes = refl;
  room = refl;
  room_back = refl;
}

on_write-on_read_example :
    (s₁ s₂ : Echo) × (on_read demo 0 5 connected ≡ ok s₁)
    × (on_write demo 0 5 s₁ ≡ ok s₂)
    × (sent_to 5 s₂.log ≡ refilled request (zeros 128) ∷ sent_to 5 connected.log)
    × Connected 4 s₂ (refilled request (zeros 128)) (refilled request (zeros 128))
unfolding c_string zeros
on_write-on_read_example =
    on_write-on_read demo 0 4 connected (zeros 128) (zeros 128) connected-Connected b'G'
      (codes "ET /index.html HTTP/1.1" ++ (crlf ++ crlf)) refl (omega arith) request refl

NonZero-replicate : (n : ℕ) → NonZero (replicate n 65)
unfolding replicate
NonZero-replicate zero = tt
NonZero-replicate (suc n) = ((λ e. omega arith), NonZero-replicate n)

-- A client that fills the buffer.
abbrev flood : Kernel
flood = record demo { recv = λ log fd room. bytes_in (65 ∷ replicate 127 65) }

on_read-overreads_example : on_read flood 0 5 connected ≡ fault
on_read-overreads_example =
    on_read-overreads flood 0 4 connected (zeros 128) (zeros 128) connected-Connected 65
      (replicate 127 65) refl (length-replicate {A = ℕ} 127 65)
      ((λ e. omega arith), NonZero-replicate 127)
