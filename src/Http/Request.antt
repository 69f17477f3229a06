-- ===== src/Http/Request.antt =====
-- The fields of `struct ntyevent` that only the HTTP server has, and the parsing of a request:
-- `readline` and `nty_http_request` of reactor+http/reactor_singlecb_http_c1000k.c.
use hello_world.Prelude.{
  ℕ, ◌+◌, Bool, false, ◌&&◌, List, [], ◌∷◌, ◌==◌, if◌then◌else◌, drop, ℤ, minus_one, pos,
}
use hello_world.Outcome.{Outcome, ◌>>=◌, deref, ok}
use hello_world.CString.{codes, zeros, put, fill, c_string, sprintf, contains, index_of}

pub record HttpFields : Type 0 where
  pub buffer : List ℕ
  pub wbuffer : List ℕ
  pub length_in : ℕ  -- `length`
  pub wlength : ℕ
  pub method : ℕ
  pub resource : List ℕ

abbrev pub buffer_length : ℕ
buffer_length = 1024

abbrev pub http_method_get : ℕ
http_method_get = 0

abbrev pub http_method_post : ℕ
http_method_post = 1

unfoldable pub zeroed_fields : HttpFields
unfolding zeros
zeroed_fields = record {
  buffer = zeros buffer_length;
  wbuffer = zeros buffer_length;
  length_in = 0;
  wlength = 0;
  method = 0;
  resource = zeros 1024;
}

-- HTTP_WEB_ROOT
unfoldable pub http_web_root : List ℕ
http_web_root = codes "/home/wfh/hello_world/reactor+http/a.html"

-- `allbuf[idx + 1] == '\n'`, where the end of the string stands for its terminator.
abbrev pub starts_lf : List ℕ → Bool
starts_lf [] = false
starts_lf (c ∷ rest) = c == 10

-- The loop of `readline` from the index `idx` on, where the string goes on with the list. It
-- returns the function's result and what it wrote to `linebuf`.
unfoldable pub readline_loop : List ℕ → ℕ → ℤ × List ℕ
readline_loop [] idx = (minus_one, [])
readline_loop (c ∷ rest) idx =
    let (result, line) = readline_loop rest (idx + 1) in
    if c == 13 && starts_lf rest then (pos (idx + 2), []) else (result, c ∷ line)

unfoldable pub readline : List ℕ → ℕ → Outcome (ℤ × List ℕ)
unfolding c_string readline_loop
readline allbuf idx = do text ← c_string allbuf; ok (readline_loop (drop idx text) idx)

-- `while (linebuffer[sizeof("GET ") + i] != ' ') i++;`: `sizeof` counts the terminator. Where no
-- blank stands behind that place the loop leaves the array.
unfoldable pub skip_to_blank : List ℕ → Outcome ℕ
unfolding index_of
skip_to_blank linebuffer = deref (index_of b' ' (drop 5 linebuffer) 5)

unfoldable pub nty_http_request : HttpFields → Outcome HttpFields
unfolding readline zeros fill c_string contains skip_to_blank put sprintf http_web_root
nty_http_request ev = do
  (idx, written) ← readline ev.buffer 0
  linebuffer ← fill written (zeros 1024)
  line ← c_string linebuffer
  if contains (codes "GET") line
      then (do
        blank ← skip_to_blank linebuffer
        _ ← put linebuffer blank 0
        resource ← sprintf ev.resource http_web_root
        ok (record ev { method = http_method_get; resource = resource }))
      else if contains (codes "POST") line
      then ok (record ev { method = http_method_post })
      else ok ev
