-- ===== src/Reactor/Tests.antt =====
-- The table's theorems at concrete inputs; the server's own fields are one number.
use hello_world.Prelude.{ℕ, ◌≡◌, refl, false, some, [], ◌∷◌, arith, length, pos}
use hello_world.Outcome.{ok, hang}
use hello_world.Sys.{Kernel}
use hello_world.Sys.Scenario.{demo, no_memory}
use hello_world.Reactor.Event.{zero_event, Cell}
use hello_world.Reactor.Table.{Server, is_null, load, alloc_until, ntyreactor_idx}
use hello_world.Reactor.Address.{view}
use hello_world.Reactor.Cells.{IsTable, ntyreactor_idx_lem}
use hello_world.Reactor.Growth.{alloc_until-hang}

abbrev started : Server ℕ
started = record {
  reactor = record { epfd = pos 4; blkcnt = 1; evblks = (λ i. zero_event 0) ∷ [] };
  log = [];
  curfds = 0;
}

started-IsTable : IsTable started.reactor
unfolding is_null
started-IsTable = record { counted = refl; live = refl }

-- Descriptor 3000 stands in the third block; one block is there.
ntyreactor_idx_lem_example :
    (s' : Server ℕ) × (ntyreactor_idx 0 demo 2 (pos 3000) started ≡ ok (some (2, 952), s'))
    × (load (2, 952) s'.reactor.evblks ≡ ok (view 0 started.reactor.evblks 3000))
    × ((q : ℕ) → view 0 s'.reactor.evblks q ≡ view 0 started.reactor.evblks q)
    × (s'.reactor.blkcnt ≡ length s'.reactor.evblks)
ntyreactor_idx_lem_example =
    ntyreactor_idx_lem 0 demo (λ log. refl) 2 3000 started started-IsTable (omega arith)

-- epoll has no room for another watch.
abbrev no_watches : Kernel
no_watches = record demo { epoll_ctl = λ log op fd events. false }

abbrev blank_cell : Cell ℕ
blank_cell = record { ev = zero_event 7; log = [] }

alloc_until-hang_example : alloc_until 0 no_memory 10 2 started ≡ hang
alloc_until-hang_example = alloc_until-hang 0 no_memory (λ log. refl) 10 2 started (omega arith)
