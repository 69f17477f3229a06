-- ===== src/Http/Sizes.antt =====
-- The size of the response of reactor+http/reactor_singlecb_http_c1000k.c.
use hello_world.Prelude.{
  ℕ, zero, suc, ◌+◌, ◌/◌, ◌%◌, ◌≤◌, ◌<◌, ◌≡◌, refl, ap, inl, inr, Option, none, some, List, [], ◌∷◌,
  ◌++◌, arith, ltb, Bool-cases, length, take, drop, length-append, length-drop, ℤ, pos,
}
use hello_world.Outcome.{ok}
use hello_world.CString.{sprintf, decimal}
use hello_world.CString.Laws.{fill-ok}
use hello_world.Sys.{Call, Kernel}
use hello_world.Reactor.Event.{Cell, log_call}
use hello_world.Http.Request.{HttpFields}
use hello_world.Http.Response.{
  default_body, header_before_length, header_after_length, default_response, file_header,
  set_response, respond, answer_found,
}

length-decimal : (fuel n : ℕ) → length (decimal fuel n) ≤ fuel
unfolding decimal
length-decimal zero n = omega arith
length-decimal (suc fuel) n = elim (Bool-cases (ltb n 10)) [
  | inl e ↦ rw e (omega arith)
  | inr e ↦ rw e (
      omega (
        arith,
        length-decimal fuel (n / 10),
        length-append (decimal fuel (n / 10)) ((48 + n % 10) ∷ []),
      ))
]

length-file_header : (size : ℕ) → length (file_header size) ≤ 200
unfolding file_header header_before_length header_after_length
length-file_header size = omega (
  arith,
  length-append header_before_length (decimal 20 size ++ header_after_length),
  length-append (decimal 20 size) header_after_length,
  length-decimal 20 size,
)

-- What `respond` leaves.
pub record Responded (text : List ℕ) (r : ℤ) (c c' : Cell HttpFields) : Type 0 where
  pub result : r ≡ pos (length text)
  pub wlength : c'.ev.app.wlength ≡ length text
  pub written : take (length text) c'.ev.app.wbuffer ≡ text
  pub room : length c'.ev.app.wbuffer ≡ length c.ev.app.wbuffer

take-front : (a b : List ℕ) → take (length a) (a ++ b) ≡ a
take-front [] b = refl
take-front (x ∷ a) b = ap (λ t. x ∷ t) (take-front a b)

append_assoc : (a b c : List ℕ) → (a ++ b) ++ c ≡ a ++ (b ++ c)
append_assoc [] b c = refl
append_assoc (x ∷ a) b c = ap (λ t. x ∷ t) (append_assoc a b c)

respond-Responded :
    (text : List ℕ) (c : Cell HttpFields)
    → length text < length c.ev.app.wbuffer
    → (r : ℤ) × (c' : Cell HttpFields) × (respond text c ≡ ok (r, c')) × Responded text r c c'
unfolding respond sprintf
respond-Responded text c fits =
    let ended = text ++ 0 ∷ [] in
    let room : length ended ≤ length c.ev.app.wbuffer =
      omega (arith, length-append text (0 ∷ [])) in
    let filled = fill-ok ended c.ev.app.wbuffer room in
    let wbuffer : List ℕ = ended ++ drop (length ended) c.ev.app.wbuffer in
    (
      pos (length text),
      set_response wbuffer text c,
      rw filled refl,
      record {
        result = refl;
        wlength = refl;
        written =
            rw (append_assoc text (0 ∷ []) (drop (length ended) c.ev.app.wbuffer))
              (take-front text (0 ∷ drop (length ended) c.ev.app.wbuffer));
        room = omega (
          arith,
          length-append ended (drop (length ended) c.ev.app.wbuffer),
          length-drop (length ended) c.ev.app.wbuffer,
        );
      },
    )

-- The text for what `open` found.
abbrev pub answer_text : Kernel → Option ℕ → Cell HttpFields → List ℕ
answer_text k none c = default_response
answer_text k (some fd) c = file_header (k.file_size c.log (pos fd))

-- If wbuffer has 1024 places, nty_http_response_get_method returns on both results of open; its
-- text, the fixed page where open failed and else the header with the file's size, fits in wbuffer
-- with its terminator, the first wlength places of wbuffer are that text, and wlength and the
-- result are its length
pub answer_found-Responded :
    (k : Kernel) (found : Option ℕ) (c : Cell HttpFields)
    → length c.ev.app.wbuffer ≡ 1024
    → (r : ℤ) × (c' : Cell HttpFields) × (answer_found k found c ≡ ok (r, c'))
      × Responded (answer_text k found c) r c c'
unfolding answer_found default_response header_before_length header_after_length default_body
answer_found-Responded k none c room = respond-Responded default_response c (omega (arith))
answer_found-Responded k (some fd) c room =
    let c₁ = log_call (Call.close_call (pos fd)) (log_call (Call.fstat_call (pos fd)) c) in
    let (r, c', e, done) =
      respond-Responded (file_header (k.file_size c.log (pos fd))) c₁
        (omega (arith, length-file_header (k.file_size c.log (pos fd)))) in
    (
      r,
      c',
      e,
      record {
        result = done.result;
        wlength = done.wlength;
        written = done.written;
        room = done.room;
      },
    )
