-- ===== src/Websocket/Frame.antt =====
-- Frames, requests and responses of reactor+websocket/reactor_singlecb_c1000k.c: `umask`,
-- `ws_tranmission`, `ws_request` and `ws_response`.
use hello_world.Prelude.{
  ℕ, zero, suc, ◌+◌, ◌*◌, ◌/◌, ◌%◌, Bool, List, [], ◌∷◌, ◌++◌, ltb, leb, ◌==◌, if◌then◌else◌,
  length, get_elem?, get_or, take, drop, ℤ, pos,
}
use hello_world.Outcome.{Outcome, ◌>>=◌, deref, ok, fault}
use hello_world.CString.{codes, crlf, c_string, sprintf}
use hello_world.Websocket.Fields.{ws_handshark_state, ws_tranmission_state, WsFields, Crypto}
use hello_world.Websocket.Handshake.{ws_handshark}

-- `^` on the low `bits` bits.
unfoldable pub xor : (bits a b : ℕ) → ℕ
xor zero a b = 0
xor (suc bits) a b = (a % 2 + b % 2) % 2 + 2 * xor bits (a / 2) (b / 2)

-- `payload[i] ^= mask_key[i % 4]` from `i` on; the mask's four bytes are read through `mask`.
unfoldable pub umask : (mask : ℕ → ℕ) → ℕ → List ℕ → List ℕ
unfolding xor
umask mask i [] = []
umask mask i (c ∷ payload) = xor 8 c (mask (i % 4)) ∷ umask mask (i + 1) payload

-- The second byte of a frame: `pl_len` is its low seven bits, `mask` the high one.
abbrev pub pl_len : ℕ → ℕ
pl_len byte = byte % 128

abbrev pub is_masked : ℕ → Bool
is_masked byte = byte / 128 == 1

-- `umask(ev->buffer + 6, length, ev->buffer + 2)`
unfoldable pub unmask_frame : (len : ℕ) → List ℕ → List ℕ
unfolding umask
unmask_frame len buffer =
    take 6 buffer
    ++ umask (λ i. get_or buffer (2 + i) 0) 0 (take len (drop 6 buffer))
    ++ drop (6 + len) buffer

-- The branch of a masked frame: the payload is printed as a string.
unfoldable pub unmask_payload : (len : ℕ) → WsFields → Outcome WsFields
unfolding unmask_frame c_string
unmask_payload len ev =
    let buffer = unmask_frame len ev.buffer in
    if leb (6 + len) (length ev.buffer)
    then (do printed ← c_string (drop 6 buffer); ok (record ev { buffer = buffer }))
    else fault

-- A frame of fewer than 126 bytes is unmasked in place and printed; a longer one is left alone.
unfoldable pub ws_tranmission : WsFields → Outcome WsFields
unfolding unmask_payload c_string
ws_tranmission ev = do
  byte ← deref (get_elem? ev.buffer 1)
  if ltb (pl_len byte) 126
      then (if is_masked byte
          then unmask_payload (pl_len byte) ev
          else (do printed ← c_string (drop 2 ev.buffer); ok ev))
      else ok ev

unfoldable pub ws_request : Crypto → WsFields → Outcome WsFields
unfolding ws_handshark ws_tranmission
ws_request crypto ev =
    if ev.wsstatus == ws_handshark_state
    then (do ev' ← ws_handshark crypto ev; ok (record ev' { wsstatus = ws_tranmission_state }))
    else if ev.wsstatus == ws_tranmission_state
    then ws_tranmission ev
    else ok ev

unfoldable pub response_head : List ℕ
response_head =
    codes "HTTP/1.1 101 Switching Protocols"
    ++ crlf
    ++ codes "Upgrade: websocket"
    ++ crlf
    ++ codes "Connection: Upgrade"
    ++ crlf
    ++ codes "Sec-WebSocket-Accept: "

unfoldable pub ws_response : WsFields → Outcome (ℤ × WsFields)
unfolding response_head c_string sprintf
ws_response ev = do
  accept ← c_string ev.sec_accept
  let text = response_head ++ accept ++ crlf ++ crlf
  wbuffer ← sprintf ev.wbuffer text
  ok (pos (length text), record ev { wbuffer = wbuffer; wlength = length text })
