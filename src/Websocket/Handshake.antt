-- ===== src/Websocket/Handshake.antt =====
-- The handshake of reactor+websocket/reactor_singlecb_c1000k.c: `readline`, `base64_encode` and
-- `ws_handshark`.
use hello_world.Http.Request
use hello_world.Prelude.{
  ℕ, zero, suc, ◌+◌, Bool, true, false, Option, none, some, List, [], ◌∷◌, ◌++◌, ◌==◌,
  if◌then◌else◌, length, get_elem?, drop, pred?, ℤ, pos, negsuc,
}
use hello_world.Outcome.{Outcome, ◌>>=◌, deref, ok, fault, hang}
use hello_world.CString.{codes, zeros, put, fill, read_array, c_string, contains}
use hello_world.Websocket.Fields.{WsFields, buffer_length, accept_key_length, Crypto}

unfoldable pub guid : List ℕ
guid = codes "258EAFA5-E914-47DA-95CA-C5AB0DC85B11"

-- `readline` is the HTTP server's, character for character.
unfoldable pub readline : List ℕ → ℕ → Outcome (ℤ × List ℕ)
unfolding Request.readline
readline = Request.readline

-- With no output the terminator is written before the array. The pointers are never null.
unfoldable pub base64_encode : Crypto → List ℕ → List ℕ → Outcome (ℕ × List ℕ)
unfolding fill put
base64_encode crypto in_str out_str = do
  copied ← fill (crypto.base64 in_str) out_str
  last ← deref (pred? (length (crypto.base64 in_str)))
  out ← put copied last 0
  ok (length (crypto.base64 in_str), out)

-- The local arrays that outlive a turn of the loop, and the field that it sets.
pub record Keys : Type 0 where
  pub sec_data : List ℕ
  pub sec_accept : List ℕ
  pub accepted : List ℕ  -- `ev->sec_accept`

-- The body of the `if`, on the array of the line and the string in it.
unfoldable pub accept_key : Crypto → (linebuf line : List ℕ) → Keys → Outcome Keys
unfolding guid fill c_string base64_encode read_array
accept_key crypto linebuf line keys = do
  joined ← fill (line ++ guid ++ 0 ∷ []) linebuf
  key ← c_string (drop 19 joined)
  sec_data ← fill (crypto.sha1 key) keys.sec_data
  digest ← c_string sec_data
  (size, sec_accept) ← base64_encode crypto digest keys.sec_accept
  accepted ← read_array accept_key_length sec_accept
  ok (record { sec_data = sec_data; sec_accept = sec_accept; accepted = accepted })

-- The `if`, by whether the line names the key.
unfoldable pub accept_if : Crypto → Bool → (linebuf line : List ℕ) → Keys → Outcome Keys
unfolding accept_key
accept_if crypto true linebuf line keys = accept_key crypto linebuf line keys
accept_if crypto false linebuf line keys = ok keys

-- One turn of the loop.
unfoldable pub handshark_line : Crypto → (buffer : List ℕ) → ℕ → Keys → Outcome (ℤ × Keys)
unfolding readline zeros fill c_string contains accept_if
handshark_line crypto buffer idx keys = do
  (next, written) ← readline buffer idx
  linebuf ← fill written (zeros 1024)
  line ← c_string linebuf
  keys' ← accept_if crypto (contains (codes "Sec-WebSocket-Key") line) linebuf line keys
  ok (next, keys')

-- The condition of the loop: the index of the next turn, if there is one. For `idx == -1` the place
-- before `buffer` is read.
unfoldable pub next_turn : List ℕ → ℤ → Outcome (Option ℕ)
next_turn buffer (negsuc n) = fault
next_turn buffer (pos idx) = do
  c ← deref (get_elem? buffer idx)
  if c == 13
      then (do d ← deref (get_elem? buffer (idx + 1)); ok (if d == 10 then none else some idx))
      else ok (some idx)

unfoldable pub handshark_loop : Crypto → (fuel : ℕ) → (buffer : List ℕ) → ℕ → Keys → Outcome Keys
unfolding handshark_line next_turn
handshark_loop crypto zero buffer idx keys = hang
handshark_loop crypto (suc fuel) buffer idx keys = do
  (next, keys') ← handshark_line crypto buffer idx keys
  turn ← next_turn buffer next
  elim turn [ none ↦ ok keys' | some i ↦ handshark_loop crypto fuel buffer i keys' ]

-- Each turn but the last moves on by two characters at least, and the buffer has 1024.
unfoldable pub ws_handshark : Crypto → WsFields → Outcome WsFields
unfolding handshark_loop zeros
ws_handshark crypto ev = do
  keys ←
      handshark_loop crypto buffer_length ev.buffer 0
        (record { sec_data = zeros 128; sec_accept = zeros 128; accepted = ev.sec_accept })
  ok (record ev { sec_accept = keys.accepted })
