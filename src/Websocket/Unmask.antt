-- ===== src/Websocket/Unmask.antt =====
-- Masked frames of reactor+websocket/reactor_singlecb_c1000k.c: `umask` and `ws_tranmission` against
-- a client's masking.
use hello_world.Prelude.{
  ℕ, zero, suc, ◌+◌, ◌*◌, ◌/◌, ◌%◌, ◌^◌, ◌<◌, ◌≡◌, refl, ap, ◌∙◌, inl, inr, true, some, List, [],
  ◌∷◌, ◌++◌, arith, ltb, leb, ◌==◌, lt→ltb, le→leb, Bool-cases, length, get_elem?, get_or, take,
  drop, length-append,
}
use hello_world.Outcome.{ok}
use hello_world.CString.{c_string}
use hello_world.Websocket.Fields.{WsFields}
use hello_world.Websocket.Frame.{xor, umask, unmask_frame, unmask_payload, ws_tranmission}

abbrev pub IsBytes : List ℕ → Type 0
IsBytes [] = Unit
IsBytes (c ∷ payload) = (c < 256) × IsBytes payload

-- `^` with the same number twice.
xor_undone : (bits a b : ℕ) → a < 2 ^ bits → xor bits (xor bits a b) b ≡ a
unfolding xor
xor_undone zero a b h = omega arith
xor_undone (suc bits) a b h =
    let r = xor bits (a / 2) (b / 2) in
    let t = (a % 2 + b % 2) % 2 + 2 * r in
    let half : t / 2 ≡ r = omega arith in
    let low : (t % 2 + b % 2) % 2 ≡ a % 2 = omega arith in
    let rest : xor bits r (b / 2) ≡ a / 2 = xor_undone bits (a / 2) (b / 2) (omega arith) in
    rw (half, low, rest) (omega arith)

umask_undone :
    (mask : ℕ → ℕ) (i : ℕ) (payload : List ℕ)
    → IsBytes payload
    → umask mask i (umask mask i payload) ≡ payload
unfolding umask
umask_undone mask i [] h = refl
umask_undone mask i (c ∷ payload) h =
    rw (xor_undone 8 c (mask (i % 4)) h.0, umask_undone mask (i + 1) payload h.1) refl

length-umask :
    (mask : ℕ → ℕ) (i : ℕ) (payload : List ℕ) → length (umask mask i payload) ≡ length payload
unfolding umask
length-umask mask i [] = refl
length-umask mask i (c ∷ payload) = ap suc (length-umask mask (i + 1) payload)

-- Only the four bytes of the mask count.
umask-same :
    (mask mask' : ℕ → ℕ) (i : ℕ) (payload : List ℕ)
    → ((j : ℕ) → j < 4 → mask j ≡ mask' j)
    → umask mask i payload ≡ umask mask' i payload
unfolding umask
umask-same mask mask' i [] same = refl
umask-same mask mask' i (c ∷ payload) same =
    rw (same (i % 4) (omega arith), umask-same mask mask' (i + 1) payload same) refl

take-length : (p r : List ℕ) → take (length p) (p ++ r) ≡ p
take-length [] r = refl
take-length (c ∷ p) r = ap (λ t. c ∷ t) (take-length p r)

drop-length : (p r : List ℕ) → drop (length p) (p ++ r) ≡ r
drop-length [] r = refl
drop-length (c ∷ p) r = drop-length p r

terminated : (p r : List ℕ) → (text : List ℕ) × (c_string (p ++ 0 ∷ r) ≡ ok text)
unfolding c_string
terminated [] r = ([], refl)
terminated (c ∷ p) r =
    let (text, e) = terminated p r in
    elim (Bool-cases (c == 0)) [ inl z ↦ ([], rw (e, z) refl) | inr z ↦ (c ∷ text, rw (e, z) refl) ]

-- How a client masks: the key's bytes in turn.
abbrev pub client_mask : (k₀ k₁ k₂ k₃ : ℕ) → List ℕ → List ℕ
client_mask k₀ k₁ k₂ k₃ [] = []
client_mask k₀ k₁ k₂ k₃ (c ∷ payload) = xor 8 c k₀ ∷ client_mask k₁ k₂ k₃ k₀ payload

umask-client :
    (mask : ℕ → ℕ) (i : ℕ) (payload : List ℕ)
    → umask mask i payload
      ≡ client_mask
          (mask (i % 4))
          (mask ((i + 1) % 4))
          (mask ((i + 2) % 4))
          (mask ((i + 3) % 4))
          payload
unfolding umask
umask-client mask i [] = refl
umask-client mask i (c ∷ payload) =
    let second : (i + 1 + 1) % 4 ≡ (i + 2) % 4 = omega arith in
    let third : (i + 1 + 2) % 4 ≡ (i + 3) % 4 = omega arith in
    let first : (i + 1 + 3) % 4 ≡ i % 4 = omega arith in
    rw (umask-client mask (i + 1) payload, second, third, first) refl

-- The four bytes of a mask, by their place.
abbrev pub mask_byte : (m₀ m₁ m₂ m₃ : ℕ) → ℕ → ℕ
mask_byte m₀ m₁ m₂ m₃ j = get_or (m₀ ∷ m₁ ∷ m₂ ∷ m₃ ∷ []) j 0

-- A buffer with a short masked frame, its string's end, and what was there before.
abbrev pub frame : (first m₀ m₁ m₂ m₃ : ℕ) (payload rest : List ℕ) → List ℕ
frame first m₀ m₁ m₂ m₃ payload rest =
    first ∷ (128 + length payload) ∷ m₀ ∷ m₁ ∷ m₂ ∷ m₃ ∷ (payload ++ 0 ∷ rest)

frame-mask :
    (first second m₀ m₁ m₂ m₃ : ℕ) (tail : List ℕ) (j : ℕ)
    → j < 4
    → get_or (first ∷ second ∷ m₀ ∷ m₁ ∷ m₂ ∷ m₃ ∷ tail) (2 + j) 0 ≡ mask_byte m₀ m₁ m₂ m₃ j
frame-mask first second m₀ m₁ m₂ m₃ tail zero h = refl
frame-mask first second m₀ m₁ m₂ m₃ tail (suc zero) h = refl
frame-mask first second m₀ m₁ m₂ m₃ tail (suc (suc zero)) h = refl
frame-mask first second m₀ m₁ m₂ m₃ tail (suc (suc (suc zero))) h = refl
frame-mask first second m₀ m₁ m₂ m₃ tail (suc (suc (suc (suc j)))) h = absurd (omega arith)

drop_header :
    (a b c d e f : ℕ) (tail : List ℕ) (n : ℕ)
    → drop (6 + n) (a ∷ b ∷ c ∷ d ∷ e ∷ f ∷ tail) ≡ drop n tail
drop_header a b c d e f tail n =
    let six : 6 + n ≡ suc (suc (suc (suc (suc (suc n))))) = omega arith in rw six refl

ws_tranmission-masked :
    (ev : WsFields) (len : ℕ)
    → get_elem? ev.buffer 1 ≡ some (128 + len)
    → len < 126
    → ws_tranmission ev ≡ unmask_payload len ev
unfolding ws_tranmission
ws_tranmission-masked ev len second short =
    let low : (128 + len) % 128 ≡ len = omega arith in
    let is_short : ltb len 126 ≡ true = lt→ltb len 126 short in
    let high : ((128 + len) / 128 == 1) ≡ true = ground arith in
    rw (second, low, is_short, high) refl

module _ (first m₀ m₁ m₂ m₃ : ℕ) (payload rest : List ℕ) (bytes : IsBytes payload) where
  masked : List ℕ
  masked = umask (mask_byte m₀ m₁ m₂ m₃) 0 payload

  unmask-frame :
      unmask_frame (length payload) (frame first m₀ m₁ m₂ m₃ masked rest)
      ≡ frame first m₀ m₁ m₂ m₃ payload rest
  unfolding unmask_frame masked
  unmask-frame =
      let same_length = length-umask (mask_byte m₀ m₁ m₂ m₃) 0 payload in
      let taken : take (length payload) (masked ++ 0 ∷ rest) ≡ masked =
        rw (← same_length) (take-length masked (0 ∷ rest)) in
      let dropped : drop (length payload) (masked ++ 0 ∷ rest) ≡ 0 ∷ rest =
        rw (← same_length) (drop-length masked (0 ∷ rest)) in
      let plain : umask (λ i. get_or (frame first m₀ m₁ m₂ m₃ masked rest) (2 + i) 0) 0 masked
          ≡ payload =
        umask-same _ (mask_byte m₀ m₁ m₂ m₃) 0 masked
          (frame-mask first (128 + length masked) m₀ m₁ m₂ m₃ (masked ++ 0 ∷ rest))
        ∙ umask_undone (mask_byte m₀ m₁ m₂ m₃) 0 payload bytes in
      rw
        (
          drop_header first (128 + length masked) m₀ m₁ m₂ m₃ (masked ++ 0 ∷ rest) (length payload),
          taken,
          dropped,
          plain,
          same_length,
        )
        refl

  unmask_payload-frame :
      (ev : WsFields)
      → ev.buffer ≡ frame first m₀ m₁ m₂ m₃ masked rest
      → unmask_payload (length payload) ev
        ≡ ok (record ev { buffer = frame first m₀ m₁ m₂ m₃ payload rest })
  unfolding unmask_payload masked
  unmask_payload-frame ev holds =
      let same : length masked ≡ length payload = length-umask (mask_byte m₀ m₁ m₂ m₃) 0 payload in
      let room : leb (6 + length payload) (length (frame first m₀ m₁ m₂ m₃ masked rest)) ≡ true =
        le→leb (6 + length payload) _ (omega (arith, length-append masked (0 ∷ rest))) in
      let (text, printed) = terminated payload rest in rw (holds, room, unmask-frame, printed) refl

  -- If the buffer holds a masked frame with a payload of fewer than 126 bytes, masked with the
  -- frame's four mask bytes in turn, and the string's end behind it, ws_tranmission returns and
  -- leaves the same frame with the plain payload, and changes nothing else
  pub ws_tranmission-frame :
      (ev : WsFields)
      → ev.buffer ≡ frame first m₀ m₁ m₂ m₃ (client_mask m₀ m₁ m₂ m₃ payload) rest
      → length payload < 126
      → ws_tranmission ev ≡ ok (record ev { buffer = frame first m₀ m₁ m₂ m₃ payload rest })
  unfolding masked
  ws_tranmission-frame ev holds short =
      let holds' : ev.buffer ≡ frame first m₀ m₁ m₂ m₃ masked rest =
        rw (← umask-client (mask_byte m₀ m₁ m₂ m₃) 0 payload) at holds in
      let same : length masked ≡ length payload = length-umask (mask_byte m₀ m₁ m₂ m₃) 0 payload in
      let second : get_elem? ev.buffer 1 ≡ some (128 + length payload) = rw (holds', ← same) refl in
      ws_tranmission-masked ev (length payload) second short ∙ unmask_payload-frame ev holds'
