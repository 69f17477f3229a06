-- ===== src/Websocket/Looping.antt =====
-- How far each turn of the loop of `ws_handshark`, reactor+websocket/reactor_singlecb_c1000k.c, gets.
use hello_world.Http.Request.{starts_lf, readline_loop}
use hello_world.Http.Request
use hello_world.Prelude.{
  ℕ, zero, suc, ◌+◌, ◌≤◌, ◌<◌, ◌≡◌, ap, ◌∙◌, ◌≢◌, inl, inr, Bool, true, false, ◌&&◌, none, some,
  List, [], ◌∷◌, ◌++◌, arith, ◌==◌, if◌then◌else◌, Bool-cases, Option-cases, length, get_elem?,
  drop, length-drop, pred?, ℤ, pos, negsuc,
}
use hello_world.Outcome.{deref, >>=-eq-ok, ok-injective, >>=-ends, ok-ends, ok, hang}
use hello_world.CString.{codes, zeros, put, fill, read_array, c_string, contains}
use hello_world.CString.Ends.{
  deref-ends, put-ends, fill-ends, read_array-ends, c_string-ends, length-c_string,
}
use hello_world.Websocket.Fields.{WsFields, buffer_length, accept_key_length, Crypto}
use hello_world.Websocket.Handshake.{
  guid, readline, base64_encode, Keys, accept_key, accept_if, handshark_line, next_turn,
  handshark_loop, ws_handshark,
}

readline_loop-moves :
    (text : List ℕ) (idx i : ℕ)
    → (readline_loop text idx).0 ≡ pos i
    → (idx + 2 ≤ i) × (0 < length text)
unfolding readline_loop
readline_loop-moves [] idx i h = absurd (cc)
readline_loop-moves (c ∷ rest) idx i h = elim (Bool-cases (c == 13 && starts_lf rest)) [
  | inl e ↦ let h' = rw e at h in let same : idx + 2 ≡ i = cc in (omega arith, omega arith)
  | inr e ↦
      let (later, _) = readline_loop-moves rest (idx + 1) i (rw e at h) in
      (omega arith, omega arith)
]

module _ (crypto : Crypto) where
  base64_encode-ends : (in_str out_str : List ℕ) → base64_encode crypto in_str out_str ≢ hang
  unfolding base64_encode
  base64_encode-ends in_str out_str =
      let size = pred? (length (crypto.base64 in_str)) in
      >>=-ends (fill (crypto.base64 in_str) out_str) _ (fill-ends (crypto.base64 in_str) out_str)
        (λ copied e. >>=-ends (deref size) _ (deref-ends size) (λ last e.
          >>=-ends (put copied last 0) _ (put-ends copied last 0)
            (λ out e. ok-ends (length (crypto.base64 in_str), out))))

  accept_key-ends :
      (linebuf line : List ℕ) (keys : Keys) → accept_key crypto linebuf line keys ≢ hang
  unfolding accept_key
  accept_key-ends linebuf line keys =
      let text = line ++ guid ++ 0 ∷ [] in
      >>=-ends (fill text linebuf) _ (fill-ends text linebuf) (λ joined e.
        >>=-ends (c_string (drop 19 joined)) _ (c_string-ends (drop 19 joined)) (λ key e.
          >>=-ends (fill (crypto.sha1 key) keys.sec_data) _
            (fill-ends (crypto.sha1 key) keys.sec_data)
            (λ sec_data e. >>=-ends (c_string sec_data) _ (c_string-ends sec_data) (λ digest e.
              >>=-ends (base64_encode crypto digest keys.sec_accept) _
                (base64_encode-ends digest keys.sec_accept)
                (λ sized e.
                  >>=-ends (read_array accept_key_length sized.1) _
                    (read_array-ends accept_key_length sized.1)
                    (λ accepted e. ok-ends (record {
                      sec_data = sec_data;
                      sec_accept = sized.1;
                      accepted = accepted;
                    })))))))

  next_turn-ends : (buffer : List ℕ) (next : ℤ) → next_turn buffer next ≢ hang
  unfolding next_turn
  next_turn-ends buffer (negsuc n) = λ e. absurd (cc)
  next_turn-ends buffer (pos idx) =
      >>=-ends (deref (get_elem? buffer idx)) _ (deref-ends (get_elem? buffer idx)) (λ c e.
        elim (Bool-cases (c == 13)) [
          | inl t ↦ rw t (
              >>=-ends (deref (get_elem? buffer (idx + 1))) _
                (deref-ends (get_elem? buffer (idx + 1)))
                (λ d e. ok-ends (if d == 10 then none else some idx)))
          | inr t ↦ rw t (ok-ends (some idx))
        ])

  next_turn-same :
      (buffer : List ℕ) (next : ℤ) (i : ℕ) → next_turn buffer next ≡ ok (some i) → next ≡ pos i
  unfolding next_turn
  next_turn-same buffer (negsuc n) i h = absurd (cc)
  next_turn-same buffer (pos idx) i h =
      let (c, e, h₁) = >>=-eq-ok (deref (get_elem? buffer idx)) _ h in
      elim (Bool-cases (c == 13)) [
        | inl t ↦
            let (d, e₂, h₂) = >>=-eq-ok (deref (get_elem? buffer (idx + 1))) _ (rw t at h₁) in
            elim (Bool-cases (d == 10)) [
              | inl u ↦ let h₃ = ok-injective (rw u at h₂) in absurd (cc)
              | inr u ↦ let h₃ = ok-injective (rw u at h₂) in cc
            ]
        | inr t ↦ let h₂ = ok-injective (rw t at h₁) in cc
      ]

  accept_if-ends :
      (b : Bool) (linebuf line : List ℕ) (keys : Keys) → accept_if crypto b linebuf line keys ≢ hang
  unfolding accept_if
  accept_if-ends true linebuf line keys = accept_key-ends linebuf line keys
  accept_if-ends false linebuf line keys = ok-ends keys

  handshark_line-ends :
      (buffer : List ℕ) (idx : ℕ) (keys : Keys) → handshark_line crypto buffer idx keys ≢ hang
  unfolding handshark_line readline Request.readline
  handshark_line-ends buffer idx keys =
      >>=-ends (readline buffer idx) _
        (>>=-ends (c_string buffer) _ (c_string-ends buffer)
          (λ text e. ok-ends (readline_loop (drop idx text) idx)))
        (λ found e.
          >>=-ends (fill found.1 (zeros 1024)) _ (fill-ends found.1 (zeros 1024)) (λ linebuf e.
            >>=-ends (c_string linebuf) _ (c_string-ends linebuf) (λ line e.
              >>=-ends
                (accept_if crypto (contains (codes "Sec-WebSocket-Key") line) linebuf line keys) _
                (accept_if-ends (contains (codes "Sec-WebSocket-Key") line) linebuf line keys)
                (λ keys' e. ok-ends (found.0, keys')))))

  -- Where a turn found the end of a line, it moved on inside the string.
  handshark_line-moves :
      (buffer : List ℕ) (idx i : ℕ) (keys keys' : Keys)
      → handshark_line crypto buffer idx keys ≡ ok (pos i, keys')
      → (idx + 2 ≤ i) × (idx + 1 < length buffer)
  unfolding handshark_line readline Request.readline
  handshark_line-moves buffer idx i keys keys' h =
      let (found, e₁, h₁) = >>=-eq-ok (readline buffer idx) _ h in
      let (text, e₂, h₂) = >>=-eq-ok (c_string buffer) _ e₁ in
      let (linebuf, e₃, h₃) = >>=-eq-ok (fill found.1 (zeros 1024)) _ h₁ in
      let (line, e₄, h₄) = >>=-eq-ok (c_string linebuf) _ h₃ in
      let (keys₁, e₅, h₅) =
        >>=-eq-ok (accept_if crypto (contains (codes "Sec-WebSocket-Key") line) linebuf line keys) _
          h₄ in
      let next : found.0 ≡ pos i = ap (λ p. p.0) (ok-injective h₅) in
      let (far, some_left) =
        readline_loop-moves (drop idx text) idx i (ap (λ p. p.0) (ok-injective h₂) ∙ next) in
      (far, omega (arith, length-c_string buffer text e₂, length-drop idx text))

  loop-ends :
      (fuel : ℕ) (buffer : List ℕ) (idx : ℕ) (keys : Keys)
      → 0 < fuel
      → length buffer ≤ fuel + idx
      → handshark_loop crypto fuel buffer idx keys ≢ hang
  unfolding handshark_loop
  loop-ends zero buffer idx keys h enough = absurd (omega arith)
  loop-ends (suc fuel) buffer idx keys h enough =
      >>=-ends (handshark_line crypto buffer idx keys) _ (handshark_line-ends buffer idx keys)
        (λ turn e. >>=-ends (next_turn buffer turn.0) _ (next_turn-ends buffer turn.0) (λ next e'.
          elim (Option-cases next) [
            | inl stop ↦ rw stop (ok-ends turn.1)
            | inr (i, go) ↦
                let same = next_turn-same buffer turn.0 i (e' ∙ ap (λ t. ok t) go) in
                let (far, left) =
                  handshark_line-moves buffer idx i keys turn.1
                    (e ∙ ap (λ z. ok (z, turn.1)) same) in
                rw go (loop-ends fuel buffer i turn.1 (omega arith) (omega arith))
          ]))

  -- On every buffer of at most 1024 places, and whatever SHA1 and the base64 filter give, the loop
  -- of ws_handshark comes to an end within the 1024 turns allowed to it
  pub ws_handshark-ends : (ev : WsFields) → length ev.buffer ≤ 1024 → ws_handshark crypto ev ≢ hang
  unfolding ws_handshark
  ws_handshark-ends ev h =
      let keys : Keys = record {
        sec_data = zeros 128;
        sec_accept = zeros 128;
        accepted = ev.sec_accept;
      } in
      >>=-ends (handshark_loop crypto buffer_length ev.buffer 0 keys) _
        (loop-ends buffer_length ev.buffer 0 keys (omega arith) (omega arith))
        (λ keys' e. ok-ends (record ev { sec_accept = keys'.accepted }))
