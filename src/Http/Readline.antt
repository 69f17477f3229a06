-- ===== src/Http/Readline.antt =====
-- `readline` of reactor+http/reactor_singlecb_http_c1000k.c against a description of lines.
use mathlib.Core.Path.{subst}
use hello_world.Prelude.{
  ℕ, ◌+◌, ◌≡◌, refl, ap, inl, inr, true, false, ◌&&◌, List, [], ◌∷◌, ◌++◌, arith, ◌==◌, Bool-cases,
  length, ℤ, minus_one, pos,
}
use hello_world.CString.{crlf, is_prefix, contains}
use hello_world.Http.Request.{starts_lf, readline_loop}

prefix-test : (c : ℕ) (rest : List ℕ) → is_prefix crlf (c ∷ rest) ≡ (c == 13 && starts_lf rest)
unfolding is_prefix
prefix-test c [] = ground arith
prefix-test c (d ∷ rest) = ground arith

starts_lf-append :
    (line rest : List ℕ) → starts_lf (line ++ 13 ∷ 10 ∷ rest) ≡ starts_lf (line ++ 13 ∷ [])
starts_lf-append [] rest = refl
starts_lf-append (c ∷ line) rest = refl

-- The string up to its first CR LF.
pub record FirstLine (text line rest : List ℕ) : Type 0 where
  pub split : text ≡ line ++ 13 ∷ 10 ∷ rest
  pub first : contains crlf (line ++ 13 ∷ []) ≡ false

-- What `readline` gives for a string.
pub data Line (text : List ℕ) (idx : ℕ) : ℤ × List ℕ → Type 0 where
  whole : contains crlf text ≡ false → Line text idx (minus_one, text)
  ended :
      (line rest : List ℕ)
      → FirstLine text line rest
      → Line text idx (pos (idx + length line + 2), line)

Line-here :
    (c : ℕ) (rest : List ℕ) (idx : ℕ)
    → (c == 13 && starts_lf rest) ≡ true
    → Line (c ∷ rest) idx (pos (idx + 2), [])
unfolding contains is_prefix
Line-here c [] idx t = absurd (ground arith)
Line-here c (d ∷ rest) idx t =
    let is_cr : c ≡ 13 = ground arith in
    let is_lf : d ≡ 10 = ground arith in
    subst (λ n. Line (c ∷ d ∷ rest) idx (pos n, [])) (omega arith)
      (ended [] rest (record { split = rw (is_cr, is_lf) refl; first = refl }))

FirstLine-cons :
    (c : ℕ) {text line rest : List ℕ}
    → (c == 13 && starts_lf text) ≡ false
    → FirstLine text line rest
    → FirstLine (c ∷ text) (c ∷ line) rest
unfolding contains
FirstLine-cons c {text} {line} {rest} f l = record {
  split = ap (λ t. c ∷ t) l.split;
  first =
      rw (prefix-test c (line ++ 13 ∷ []), l.first, ← starts_lf-append line rest, ← l.split, f)
        refl;
}

Line-cons :
    (c : ℕ) {text : List ℕ} (idx : ℕ) {out : ℤ × List ℕ}
    → (c == 13 && starts_lf text) ≡ false
    → Line text (idx + 1) out
    → Line (c ∷ text) idx (out.0, c ∷ out.1)
unfolding contains
Line-cons c {text} idx f (whole none_there) = whole (rw (prefix-test c text, f, none_there) refl)
Line-cons c {text} idx f (ended line rest l) =
    subst (λ n. Line (c ∷ text) idx (pos n, c ∷ line)) (omega arith)
      (ended (c ∷ line) rest (FirstLine-cons c f l))

-- On every string, the loop of readline copies the whole string and returns -1 if it has no CR LF,
-- and else copies the part before the first CR LF and returns the index behind it
pub readline_loop-Line : (text : List ℕ) (idx : ℕ) → Line text idx (readline_loop text idx)
unfolding readline_loop contains is_prefix
readline_loop-Line [] idx = whole refl
readline_loop-Line (c ∷ rest) idx = elim (Bool-cases (c == 13 && starts_lf rest)) [
  | inl t ↦ rw t (Line-here c rest idx t)
  | inr f ↦ rw f (Line-cons c idx f (readline_loop-Line rest (idx + 1)))
]
