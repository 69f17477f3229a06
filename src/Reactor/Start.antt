-- ===== src/Reactor/Start.antt =====
-- What `ntyreactor_init` of both servers leaves, where the system gives memory and an epoll instance.
use hello_world.Prelude.{◌≡◌, refl, true, false, [], ◌∷◌, ℤ, is_positive, is_negative, pos, negsuc}
use hello_world.Sys.{Call, Log, Kernel}
use hello_world.Reactor.Table.{zero_block, ntyreactor_init}

-- There is memory, and `epoll_create` succeeds.
pub record Starts (k : Kernel) : Type 0 where
  pub malloc_works : (log : Log) → k.malloc log ≡ true
  pub epoll_create_works : (log : Log) → is_positive (k.epoll_create log) ≡ true

pub not_negative : (z : ℤ) → is_positive z ≡ true → is_negative z ≡ false
not_negative (pos n) h = refl
not_negative (negsuc n) h = cc

abbrev pub log_booted : Log → Kernel → Log
log_booted log k = Call.malloc_call true ∷ Call.malloc_call true ∷ Call.epoll_create_call ∷ log

pub init-fresh :
    {A : Type 0} (zeroed : A) (k : Kernel) (log : Log)
    → Starts k
    → ntyreactor_init zeroed k log ≡ (
      pos 0,
      record { epfd = k.epoll_create log; blkcnt = 1; evblks = zero_block zeroed k ∷ [] },
      log_booted log k,
    )
unfolding ntyreactor_init
init-fresh zeroed k log st =
    rw
      (
        st.epoll_create_works log,
        st.malloc_works (Call.epoll_create_call ∷ log),
        st.malloc_works (Call.malloc_call true ∷ Call.epoll_create_call ∷ log),
      )
      refl
