-- ===== src/Http/Tests.antt =====
-- The HTTP server's theorems at concrete inputs, on a system in which one client asks for a page.
use hello_world.Prelude.{
  ℕ, ◌≡◌, refl, ◌↔◌, inl, inr, Bool, true, ◌&&◌, none, some, List, [], ◌∷◌, ◌++◌, arith, ltb,
  ltb→lt, Bool-cases, drop, replicate, length-replicate, ℤ, minus_one,
}
use hello_world.Outcome.{Outcome, ok, fault, hang}
use hello_world.CString.{codes, crlf, contains, index_of}
use hello_world.CString.Laws.{NonZero}
use hello_world.Sys.{Kernel, bytes_in}
use hello_world.Sys.Interest.{Watch, interest}
use hello_world.Reactor.Event.{zero_event, Cell}
use hello_world.Reactor.Table.{Server}
use hello_world.Reactor.Registration.{EpollWorks, unwatched}
use hello_world.Reactor.Invariant.{IsSynced}
use hello_world.Http.Request.{HttpFields, zeroed_fields, readline_loop, nty_http_request}
use hello_world.Http.Response.{answer_found}
use hello_world.Http.Callbacks.{recv_body}
use hello_world.Http.Main.{main}
use hello_world.Http.Answer.{OpensNew}
use hello_world.Http.Invariant.{main-IsSynced}
use hello_world.Http.Readline.{Line, readline_loop-Line}
use hello_world.Http.Parsing.{request_line, request_effect, nty_http_request_lem, request_faults}
use hello_world.Sys.Scenario.{request, if_unwatched, demo}
use hello_world.Reactor.Start.{Starts}
use hello_world.Http.Sizes.{Responded, answer_text, answer_found-Responded}
use hello_world.Http.Overflow.{recv_body-faults}

demo-works : EpollWorks demo
demo-works log op fd events proper = refl

if_unwatched-none : (w : Watch) (n : ℕ) → if_unwatched w ≡ some n → n ≡ 7 × (w ≡ none)
if_unwatched-none none n h = (cc, refl)
if_unwatched-none (some w) n h = absurd (cc)

demo-new : OpensNew demo
demo-new log path n h =
    let (seven, unwatched) = if_unwatched-none (interest log 7) n h in rw seven unwatched

demo-Starts : Starts demo
demo-Starts = record { malloc_works = λ log. refl; epoll_create_works = λ log. refl }

-- The server after three turns: it accepted the client, read its request, and answered it.
abbrev empty_server : Server HttpFields
empty_server = record {
  reactor = record { epfd = minus_one; blkcnt = 0; evblks = [] };
  log = [];
  curfds = 0;
}

abbrev result_or {ℓ} : {A : Type ℓ} → A → Outcome A → A
result_or d (ok a) = a
result_or d fault = d
result_or d hang = d

abbrev served : Server HttpFields
unfolding main
served = result_or empty_server (main demo 1 3 8885)

served-ends : main demo 1 3 8885 ≡ ok served
unfolding main
served-ends = refl

served-counts : served.curfds ≡ 1
unfolding main
served-counts = refl

main-IsSynced_example : IsSynced zeroed_fields served
main-IsSynced_example =
    main-IsSynced demo demo-works demo-new demo-Starts 1 3 8885 served served-ends

is_text : List ℕ → Bool
is_text [] = true
is_text (c ∷ text) = ltb 0 c && is_text text

is_text-NonZero : (text : List ℕ) → is_text text ≡ true → NonZero text
unfolding is_text
is_text-NonZero [] h = tt
is_text-NonZero (c ∷ text) h = elim (Bool-cases (ltb 0 c)) [
  | inl e ↦ (λ z. absurd (let lt = ltb→lt 0 c e in omega arith), is_text-NonZero text (rw e at h))
  | inr e ↦ absurd (let h' = rw e at h in cc)
]

-- A parsed event, before and after its request line is looked at.
abbrev fields : List ℕ → HttpFields
unfolding zeroed_fields
fields text = record zeroed_fields { buffer = text ++ 0 ∷ [] }

nty_http_request_lem_example :
    nty_http_request (fields request) ≡ request_effect (fields request) (request_line request)
unfolding is_text fields
nty_http_request_lem_example =
    nty_http_request_lem (fields request) request [] refl (is_text-NonZero request refl)
      (omega arith)

request_faults_example : (nty_http_request (fields (codes "GETS")) ≡ fault) ↔ (
    (contains (codes "GET") (request_line (codes "GETS")) ≡ true)
    × (index_of b' ' (drop 5 (request_line (codes "GETS"))) 5 ≡ none))
unfolding zeroed_fields is_text fields
request_faults_example =
    request_faults (fields (codes "GETS")) (codes "GETS") [] refl
      (is_text-NonZero (codes "GETS") refl) (omega arith) refl

readline_loop-Line_example :
    Line (codes "GET /" ++ crlf) 0 (readline_loop (codes "GET /" ++ crlf) 0)
readline_loop-Line_example = readline_loop-Line (codes "GET /" ++ crlf) 0

-- A cell with zeroed buffers, for which the file 7 was opened.
abbrev zeroed_cell : Cell HttpFields
unfolding zeroed_fields
zeroed_cell = record { ev = zero_event zeroed_fields; log = [] }

answer_found-Responded_example :
    (r : ℤ) × (c' : Cell HttpFields) × (answer_found demo (some 7) zeroed_cell ≡ ok (r, c'))
    × Responded (answer_text demo (some 7) zeroed_cell) r zeroed_cell c'
unfolding zeroed_cell
answer_found-Responded_example = answer_found-Responded demo (some 7) zeroed_cell refl

-- A client that fills the buffer.
abbrev flooded : Kernel
flooded = record demo { recv = λ log fd room. bytes_in (b'x' ∷ replicate 1023 b'x') }

recv_body-faults_example : recv_body flooded 5 (0, 5) zeroed_cell ≡ fault
unfolding zeroed_cell
recv_body-faults_example =
    recv_body-faults flooded 5 (0, 5) b'x' (replicate 1023 b'x') zeroed_cell refl refl
      (length-replicate {A = ℕ} 1023 b'x')
