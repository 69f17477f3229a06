-- ===== src/Lib.antt =====
-- A verification library for the event-driven servers of this repository: small C programs that
-- serve many connections from one thread, with epoll telling them which descriptors are ready.
--
-- The program's parts. reactor+http/reactor_singlecb_http_c1000k.c is the HTTP server and
-- reactor+websocket/reactor_singlecb_c1000k.c the websocket server. Both stand on the same reactor:
-- a table of `struct ntyevent` cells, in a chain of blocks of 1024, one cell for each descriptor. A
-- cell holds the callback of its descriptor (accept_cb, recv_cb, send_cb), the events it is
-- registered for and whether it is registered. `ntyreactor_run` waits for events and calls the
-- callback of each ready cell; the callback finds its own cell through `ntyreactor_idx`, works on
-- it, and arms it for the next event. zero_threadpool/reactor/c1000k/server.c is an echo server
-- with a table of the same shape and without callbacks. threadpool/src3/pthreadpool2.cpp is a
-- thread pool: callers put tasks in a ring, workers take them, and a manager starts workers and
-- asks them to go. threadpool/src4/mempool/memorypool.cpp hands out blocks of one page from a list
-- in the free blocks. rbtree/rbtree.cpp is a red-black tree with parent pointers, and
-- btree/btree.cpp a B-tree. The repository's other programs (other pools of threads, the servers of
-- zero_threadpool/io) are independent of these.
--
-- Files.
-- - Prelude, Prelude/Tests, Prelude/Lists, Prelude/Int: shared names, Boolean tests, lists with
--   native lengths, the integers that C functions return.
-- - Outcome: what a piece of C code comes to. `ok` is a return, `fault` undefined behaviour (an
--   access outside an object, a string with no terminator), `hang` a loop that used up its fuel.
-- - Sys: the operating system. A `Kernel` is a record of unknown functions that answer each system
--   call from the log of the calls made before, so that an answer may differ each time. Nothing of
--   it is code of the repository. Sys/Interest reads from a log what an epoll instance watches, by
--   epoll's documentation. Sys/Scenario is one concrete kernel, for tests.
-- - CString: `char` arrays as lists of codes, C strings in them, sprintf, strstr, strlen.
-- - Reactor/Event, Reactor/Table, Reactor/Loop: the reactor. `nty_event_set`, `nty_event_add` and
--   `nty_event_del` work on a cell and the log; `ntyreactor_alloc`, `ntyreactor_idx`,
--   `ntyreactor_init`, `ntyreactor_destory` and `ntyreactor_addlistener` on the table; a block's
--   array is a function of the index, and the chain of blocks a list. `at_cell` is the frame that
--   every callback has: look the cell up, return -1 on NULL, and else work on the cell in place.
-- - Reactor/Address, Growth, Cells: what the table stands for. Reactor/Registration, Quiet,
--   Invariant, Turns, Start: the registration of cells.
-- - Http/Request, Response, Callbacks, Main: the HTTP server from `readline` to `main`.
--   Http/Readline and Http/Parsing are about the parsing of a request, Http/Sizes about the
--   response's buffer, Http/Overflow about a full read, and Http/Keeps, Answer and Invariant about
--   the callbacks and `main`.
-- - Websocket/Fields, Handshake, Frame, Callbacks, Main: the websocket server, from `ws_handshark`
--   and `umask` to `main`; `ws_event_add`, `ws_idx` and their like are the reactor's functions on
--   its cells. SHA1 and the base64 filter of OpenSSL are the parameter `Crypto`. Websocket/Keeps
--   and Invariant are about the registration of cells, Unmask about frames, Looping about the loop
--   over the lines of a handshake, Reuse about a descriptor's second client.
-- - Echo/Table, Echo/Loop: the echo server; Echo/Back is about what a client gets back.
-- - Pool/State, Workers, Manager: the thread pool's record and its functions. What stands between
--   the locking and the unlocking of a mutex is one function. Pool/System: the threads, each with
--   the place where it stands, and the steps that they take in any order; `step_worker` is
--   `worker`, `step_manager` is `manager`, and `destroyer` and `freer` are the two halves of
--   `threadPoolDestroy`. Pool/Ring, Cases and Growing are about one turn, Count about counts over
--   the workers, Invariant, Turns, Running and Start about every schedule.
-- - Mempool/Page, Alloc: the memory pool. A page is a function from an address to the pointer that
--   stands whole there; a write of a pointer destroys those that it overlaps, and one outside the
--   page is a fault. `malloc` and `free` are `_malloc` and `_free`. Mempool/Blocks is about the
--   free list, Init about `memp_init`, Turns about one call, Clients about any sequence of calls
--   and of writes of clients into their blocks.
-- - Rbtree/Nodes, Rotate, Insert, Walk, Main: the red-black tree. `Memory` has a map from addresses
--   for each field of a node, and an access to a node that is not allocated is a fault. `fix_left`
--   and `fix_right` are the two halves of a round of `rbtree_insert_fixup`. Rbtree/Tree is what the
--   nodes stand for, a tree whose nodes carry their addresses, and the `Spine` from a place to the
--   root; Shape says when the memory holds a tree at a place. Relink, RotateLeft, RotateRight and
--   Paint are about the writes, Balance about colours, Fix, the modules named Settle, Outer and
--   Inner, and Fixup about the repair, Sorted, Place and Inserted about the insertion, Walked about
--   the reading functions, Depth about the number of rounds, Built about `main`.
-- - Rbtree/Delete: `rbtree_delete`. `shift_left` and `shift_right` are the two halves of a round of
--   `rbtree_delete_fixup`, and `lift_`, `lend_`, `straighten_` and `finish_` the steps of a half,
--   named for the side of the sibling. Unlinked, OneChild, Leftmost and Rekey are about the node
--   that leaves its place, Shift, the modules named Lend, Share and Shift with a side, and Repair
--   about the repair, Located and DeleteRuns, Deleted about the whole, Undo about an insertion and
--   a deletion, Next about `rbtree_successor`, Frame and Freed about the freeing of the node that
--   is returned, Emptied and Whole about both loops of `main`.
-- - Btree/Search, Bisect: `btree_bin_search` of the B-tree, on the array of a node's keys.
-- - Reactor/Tests, Http/Tests and the other modules named Tests: runs on concrete inputs.
--
-- Bounds and fuel. `alloc_until`, the loop of `ntyreactor_idx`, runs on fuel; a number of blocks
-- that reaches the descriptor's is enough if malloc works. The loop of `ws_handshark` has fuel for
-- 1024 turns, as many as the buffer has places. The endless loop of `ntyreactor_run` is followed
-- for a number of turns that the theorems leave open. `%ld` prints up to 20 digits; a file's size
-- has at most 19. Each loop of the red-black tree runs on fuel; twice the logarithm of the number
-- of keys is enough. That of `btree_bin_search` needs no more rounds than places, and one; a sum
-- `low + high` of 2 ^ 31 is a fault. Keys are compared and copied only; they are natural numbers.
-- Descriptors, counts and sizes are natural numbers: descriptors stay below 2 ^ 31, which epoll
-- and the process limit ensure, and curfds counts accepted clients. The block size of the memory
-- pool, which memp_init converts to `int`, is kept as it is: one that an `int` cannot hold is
-- above the page's size and gives no block, and then nothing reads the field.
--
-- Which workers the thread pool's `pthread_create` starts is the parameter `Creations`, which also
-- says what a failing call leaves in `threadIDs`; the manager is started. The identifier of worker
-- i is i + 1, and stands in `threadIDs` when the thread runs. A thread that waits on a condition
-- may wake up at any time, so the signals are no part of the model. `threadPoolDestroy` writes
-- `shutdown` without a lock: a turn of a caller or of a worker reads the value of now or the unset
-- one of before, by its argument `current`. `threadExit` takes no lock either, and each round of
-- its loop is a step of its own. Each access takes effect at once; that C leaves an access in a
-- data race undefined is left aside. A task is a pair of codes; what its function does is not
-- followed.
--
-- Not modelled: the insertion and the deletion of the B-tree; what is printed, but for the keys of
-- the red-black tree, and the timing of accepts (`gettimeofday`), which have no effect on the
-- server, though the echo server's printing of its read buffer counts as a read of that string;
-- `struct sockaddr_in` beyond the port; the text of errors. The field `arg` always holds the one
-- reactor. errno decides something in recv_cb only, where the answer of recv carries it. `routine`
-- of the echo server is called nowhere.
mod Prelude
pub mod Outcome
pub mod Sys
pub mod Btree
pub mod CString
pub mod Reactor
pub mod Http
pub mod Websocket
pub mod Echo
pub mod Pool
pub mod Mempool
pub mod Rbtree
