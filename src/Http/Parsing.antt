-- ===== src/Http/Parsing.antt =====
-- `nty_http_request` of reactor+http/reactor_singlecb_http_c1000k.c against a description of what a
-- request line asks for.
use hello_world.Prelude.{
  ℕ, ◌+◌, ◌-◌, ◌≤◌, ◌<◌, ◌≡◌, refl, ap, ◌∙◌, ◌↔◌, inl, inr, true, ◌&&◌, Option, none, some, List,
  [], ◌∷◌, ◌++◌, arith, ◌==◌, if◌then◌else◌, Bool-cases, Option-cases, length, drop, length-append,
  length-drop,
}
use hello_world.Outcome.{Outcome, ◌>>=◌, ok, fault}
use hello_world.CString.{codes, zeros, put, fill, c_string, sprintf, contains, index_of}
use hello_world.CString.Laws.{
  NonZero, c_string-append, length-zeros, drop-zeros, zeros-suc, drop-append, index_of-zeros,
  index_of-append, fill-ok, index_of-bounds, put-ok,
}
use hello_world.Http.Request.{
  HttpFields, http_method_get, http_method_post, http_web_root, starts_lf, readline_loop,
  skip_to_blank, nty_http_request,
}

readline_loop-bounds :
    (text : List ℕ) (idx : ℕ)
    → NonZero text
    → NonZero (readline_loop text idx).1 × (length (readline_loop text idx).1 ≤ length text)
unfolding readline_loop
readline_loop-bounds [] idx h = (tt, omega arith)
readline_loop-bounds (c ∷ text) idx h = elim (Bool-cases (c == 13 && starts_lf text)) [
  | inl t ↦ rw t (tt, omega arith)
  | inr f ↦
      let (nonzero, short) = readline_loop-bounds text (idx + 1) h.1 in
      rw f ((h.0, nonzero), omega arith)
]

-- The request line: what `readline` copies.
abbrev pub request_line : List ℕ → List ℕ
request_line text = (readline_loop text 0).1

-- The branch of a GET, by the first blank that stands behind the sixth character.
abbrev pub got_get : HttpFields → Option ℕ → Outcome HttpFields
got_get ev none = fault
got_get ev (some blank) = do
  resource ← sprintf ev.resource http_web_root
  ok (record ev { method = http_method_get; resource = resource })

-- The effect of a request, by its line alone.
abbrev pub request_effect : HttpFields → List ℕ → Outcome HttpFields
request_effect ev line =
    if contains (codes "GET") line
    then got_get ev (index_of b' ' (drop 5 line) 5)
    else if contains (codes "POST") line
    then ok (record ev { method = http_method_post })
    else ok ev

blank-linebuffer :
    (line : List ℕ) (n : ℕ)
    → index_of b' ' (drop 5 (line ++ zeros n)) 5 ≡ index_of b' ' (drop 5 line) 5
blank-linebuffer line n =
    rw (drop-append 5 line (zeros n), drop-zeros (5 - length line) n)
      (index_of-append b' ' (drop 5 line) (zeros (n - (5 - length line))) 5
        (λ j. index_of-zeros b' ' (n - (5 - length line)) j (omega arith)))

get-branch :
    (ev : HttpFields) (line : List ℕ) (n : ℕ)
    → (do
      blank ← skip_to_blank (line ++ zeros n)
      _ ← put (line ++ zeros n) blank 0
      resource ← sprintf ev.resource http_web_root
      ok (record ev { method = http_method_get; resource = resource }))
      ≡ got_get ev (index_of b' ' (drop 5 line) 5)
unfolding skip_to_blank
get-branch ev line n = elim (Option-cases (index_of b' ' (drop 5 line) 5)) [
  | inl e ↦ rw (blank-linebuffer line n, e) refl
  | inr (blank, e) ↦
      let inside : blank < length (line ++ zeros n) = omega (
        arith,
        index_of-bounds b' ' (drop 5 line) 5 blank e,
        length-drop 5 line,
        length-append line (zeros n),
      ) in
      rw (blank-linebuffer line n, e, put-ok (line ++ zeros n) blank 0 inside) refl
]

-- If the buffer holds a string shorter than 1024, nty_http_request does what request_effect says
-- of the string's first line alone: with GET in it, fault when no blank stands behind the line's
-- fifth character, and else the method and the resource are set; with POST, the method is set;
-- otherwise nothing changes
pub nty_http_request_lem :
    (ev : HttpFields) (text rest : List ℕ)
    → ev.buffer ≡ text ++ 0 ∷ rest
    → NonZero text
    → length text < 1024
    → nty_http_request ev ≡ request_effect ev (request_line text)
unfolding nty_http_request
nty_http_request_lem ev text rest holds nonzero short =
    let (line_nonzero, line_short) = readline_loop-bounds text 0 nonzero in
    let line = request_line text in
    let linebuffer : List ℕ = line ++ zeros (1024 - length line) in
    let filled : fill line (zeros 1024) ≡ ok linebuffer =
      fill-ok line (zeros 1024) (omega (arith, length-zeros 1024))
      ∙ ap (λ z. ok (line ++ z)) (drop-zeros (length line) 1024) in
    let ended : zeros (1024 - length line) ≡ 0 ∷ zeros (1024 - length line - 1) =
      zeros-suc (1024 - length line) (omega arith) in
    let read : c_string linebuffer ≡ ok line =
      rw ended (c_string-append line (zeros (1024 - length line - 1)) line_nonzero) in
    let source : c_string ev.buffer ≡ ok text = rw holds (c_string-append text rest nonzero) in
    rw (source, filled, read, get-branch ev line (1024 - length line)) refl

web_root-fits :
    (resource : List ℕ)
    → length resource ≡ 1024
    → (r : List ℕ) × (sprintf resource http_web_root ≡ ok r)
unfolding sprintf http_web_root
web_root-fits resource h = (
  _,
  fill-ok (codes "/home/wfh/hello_world/reactor+http/a.html" ++ 0 ∷ []) resource (omega arith),
)

request_effect-faults :
    (ev : HttpFields) (line resource : List ℕ)
    → sprintf ev.resource http_web_root ≡ ok resource
    → (request_effect ev line ≡ fault)
      ↔ ((contains (codes "GET") line ≡ true) × (index_of b' ' (drop 5 line) 5 ≡ none))
request_effect-faults ev line resource written = elim (Bool-cases (contains (codes "GET") line)) [
  | inl get ↦ elim (Option-cases (index_of b' ' (drop 5 line) 5)) [
    | inl e ↦ rw (get, e) ((λ h. (refl, refl)), (λ h. refl))
    | inr (blank, e) ↦ rw (get, e, written) ((λ h. absurd (cc)), (λ h. absurd (cc)))
  ]
  | inr get ↦ elim (Bool-cases (contains (codes "POST") line)) [
    | inl post ↦ rw (get, post) ((λ h. absurd (cc)), (λ h. absurd (cc)))
    | inr post ↦ rw (get, post) ((λ h. absurd (cc)), (λ h. absurd (cc)))
  ]
]

-- If the buffer holds a string shorter than 1024 and the resource array has 1024 places,
-- nty_http_request leaves its arrays exactly when the string's first line contains GET and no
-- blank stands behind the line's fifth character
pub request_faults :
    (ev : HttpFields) (text rest : List ℕ)
    → ev.buffer ≡ text ++ 0 ∷ rest
    → NonZero text
    → length text < 1024
    → length ev.resource ≡ 1024
    → (nty_http_request ev ≡ fault) ↔ (
        (contains (codes "GET") (request_line text) ≡ true)
        × (index_of b' ' (drop 5 (request_line text)) 5 ≡ none))
request_faults ev text rest holds nonzero short room =
    let (resource, written) = web_root-fits ev.resource room in
    rw (nty_http_request_lem ev text rest holds nonzero short)
      (request_effect-faults ev (request_line text) resource written)
