-- ===== src/Http/Response.antt =====
-- The response: `nty_http_response_get_method` and `nty_http_response` of
-- reactor+http/reactor_singlecb_http_c1000k.c.
use hello_world.Prelude.{ℕ, Option, none, some, List, ◌++◌, ◌==◌, if◌then◌else◌, length, ℤ, pos}
use hello_world.Outcome.{Outcome, ◌>>=◌, ok}
use hello_world.CString.{codes, crlf, c_string, sprintf, decimal}
use hello_world.Sys.{Call, Kernel}
use hello_world.Reactor.Event.{Cell, log_call, with_app}
use hello_world.Http.Request.{HttpFields, http_method_get}

-- The page that is sent when the resource cannot be opened.
unfoldable pub default_body : List ℕ
default_body =
    codes "<html><head><title>0voice.king</title></head><body><h1>King</h1><body/></html>"

unfoldable pub header_before_length : List ℕ
header_before_length =
    codes "HTTP/1.1 200 OK"
    ++ (crlf ++ (codes "Accept-Ranges: bytes" ++ (crlf ++ codes "Content-Length: ")))

unfoldable pub header_after_length : List ℕ
header_after_length =
    crlf
    ++ (codes "Content-Type: text/html"
        ++ (crlf ++ (codes "Date: Sat, 06 Aug 2022 13:16:46 GMT" ++ (crlf ++ crlf))))

unfoldable pub default_response : List ℕ
unfolding header_before_length header_after_length default_body
default_response = header_before_length ++ (codes "78" ++ (header_after_length ++ default_body))

-- The format with the file's size; `%ld` of a size below 2 ^ 63 has at most 19 digits.
unfoldable pub file_header : ℕ → List ℕ
unfolding header_before_length header_after_length decimal
file_header size = header_before_length ++ (decimal 20 size ++ header_after_length)

-- `open` reads the path up to its terminator.
unfoldable pub open_resource : Kernel → Cell HttpFields → Outcome (Option ℕ × Cell HttpFields)
unfolding c_string
open_resource k c = do
  path ← c_string c.ev.app.resource
  ok (k.open_file c.log path, log_call (Call.open_call path) c)

abbrev pub set_response : List ℕ → List ℕ → Cell HttpFields → Cell HttpFields
set_response wbuffer text c =
    with_app (record (c.ev.app) { wbuffer = wbuffer; wlength = length text }) c

-- `len = sprintf(ev->wbuffer, ...); ev->wlength = len;`
unfoldable pub respond : List ℕ → Cell HttpFields → Outcome (ℤ × Cell HttpFields)
unfolding sprintf
respond text c = do
  wbuffer ← sprintf c.ev.app.wbuffer text
  ok (pos (length text), set_response wbuffer text c)

-- The two branches on the result of `open`.
unfoldable pub answer_found : Kernel → Option ℕ → Cell HttpFields → Outcome (ℤ × Cell HttpFields)
unfolding respond default_response file_header
answer_found k none c = respond default_response c
answer_found k (some fd) c =
    let c₁ = log_call (Call.close_call (pos fd)) (log_call (Call.fstat_call (pos fd)) c) in
    respond (file_header (k.file_size c.log (pos fd))) c₁

unfoldable pub nty_http_response_get_method :
    Kernel → Cell HttpFields → Outcome (ℤ × Cell HttpFields)
unfolding open_resource answer_found
nty_http_response_get_method k c = do (filefd, c₁) ← open_resource k c; answer_found k filefd c₁

-- For a method that is not GET nothing is done; the caller ignores the result.
unfoldable pub nty_http_response : Kernel → Cell HttpFields → Outcome (Cell HttpFields)
unfolding nty_http_response_get_method
nty_http_response k c =
    if c.ev.app.method == http_method_get
    then (do (_, c₁) ← nty_http_response_get_method k c; ok c₁)
    else ok c
