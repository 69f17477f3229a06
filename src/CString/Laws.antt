-- ===== src/CString/Laws.antt =====
-- The laws of C strings in arrays that the servers rely on.
use mathlib.Core.Path.{subst}
use native.Mathlib.Nat.{sub-zero, zero-sub}
use hello_world.Prelude.{
  ℕ, zero, suc, ◌+◌, ◌-◌, ◌≤◌, ◌<◌, ◌≡◌, refl, ap, ◌∙◌, ◌≢◌, inl, inr, false, none, some, List, [],
  ◌∷◌, ◌++◌, arith, ◌==◌, lt→ltb, le→leb, ==→eq, Bool-cases, length, set, drop, replicate,
  length-append, length-drop, length-replicate,
}
use hello_world.Outcome.{>>=-eq-ok, ok-injective, ok}
use hello_world.CString.{zeros, put, fill, c_string, index_of}

-- A text that can stand in a C string.
abbrev pub NonZero : List ℕ → Type 0
NonZero [] = Unit
NonZero (c ∷ text) = (c ≢ 0) × NonZero text

pub c_string-append : (text rest : List ℕ) → NonZero text → c_string (text ++ 0 ∷ rest) ≡ ok text
unfolding c_string
c_string-append [] rest h = refl
c_string-append (c ∷ text) rest h =
    let apart : (c == 0) ≡ false = ground arith in rw (apart, c_string-append text rest h.1) refl

-- The text that was found, and what stands behind its terminator.
pub record HoldsString (array text : List ℕ) : Type 0 where
  pub rest : List ℕ
  pub split : array ≡ text ++ 0 ∷ rest
  pub nonzero : NonZero text

pub c_string-HoldsString :
    (array : List ℕ) {text : List ℕ} → c_string array ≡ ok text → HoldsString array text
unfolding c_string
c_string-HoldsString [] h = absurd (cc)
c_string-HoldsString (c ∷ array) {text} h = elim (Bool-cases (c == 0)) [
  | inl e ↦
      let zero_char : c ≡ 0 = ==→eq c 0 e in
      subst (λ t. HoldsString (c ∷ array) t) (ok-injective (rw e at h))
        (record { rest = array; split = rw zero_char refl; nonzero = tt })
  | inr e ↦
      let (text', e₁, h₁) = >>=-eq-ok (c_string array) _ (rw e at h) in
      let found = c_string-HoldsString array e₁ in
      subst (λ t. HoldsString (c ∷ array) t) (ok-injective h₁)
        (record {
          rest = found.rest;
          split = ap (λ t. c ∷ t) found.split;
          nonzero = ((λ z. ground arith), found.nonzero);
        })
]

pub length-HoldsString : {array text : List ℕ} → HoldsString array text → length text < length array
length-HoldsString {array} {text} h =
    omega (arith, ap (λ (l : List ℕ). length l) h.split, length-append text (0 ∷ h.rest))

pub length-zeros : (n : ℕ) → length (zeros n) ≡ n
unfolding zeros
length-zeros n = length-replicate n 0

pub drop-zeros : (m n : ℕ) → drop m (zeros n) ≡ zeros (n - m)
unfolding zeros replicate
drop-zeros zero n = rw sub-zero refl
drop-zeros (suc m) zero = rw zero-sub refl
drop-zeros (suc m) (suc n) = drop-zeros m n ∙ ap (λ k. zeros k) (omega arith)

pub zeros-suc : (n : ℕ) → 0 < n → zeros n ≡ 0 ∷ zeros (n - 1)
unfolding zeros replicate
zeros-suc zero h = elim h [ ]
zeros-suc (suc n) h = ap (λ k. 0 ∷ zeros k) (omega arith)

pub drop-append :
    (n : ℕ) (xs ys : List ℕ) → drop n (xs ++ ys) ≡ drop n xs ++ drop (n - length xs) ys
drop-append zero [] ys = refl
drop-append zero (x ∷ xs) ys =
    let none_left : 0 ≡ 0 - length (x ∷ xs) = omega arith in
    ap (λ k. x ∷ (xs ++ drop k ys)) none_left
drop-append (suc n) [] ys =
    let all_left : suc n ≡ suc n - 0 = omega arith in ap (λ k. drop k ys) all_left
drop-append (suc n) (x ∷ xs) ys =
    drop-append n xs ys ∙ ap (λ k. drop n xs ++ drop k ys) (omega arith)

pub index_of-zeros : (c n i : ℕ) → c ≢ 0 → index_of c (zeros n) i ≡ none
unfolding index_of zeros replicate
index_of-zeros c zero i h = refl
index_of-zeros c (suc n) i h =
    let apart : (0 == c) ≡ false = ground arith in rw (apart, index_of-zeros c n (i + 1) h) refl

pub index_of-append :
    (c : ℕ) (xs ys : List ℕ) (i : ℕ)
    → ((j : ℕ) → index_of c ys j ≡ none)
    → index_of c (xs ++ ys) i ≡ index_of c xs i
unfolding index_of
index_of-append c [] ys i h = h i
index_of-append c (x ∷ xs) ys i h = rw (index_of-append c xs ys (i + 1) h) refl

-- A text that fits is written, and what stood behind it stays.
pub fill-ok :
    (text array : List ℕ)
    → length text ≤ length array
    → fill text array ≡ ok (text ++ drop (length text) array)
unfolding fill
fill-ok text array h = rw (le→leb (length text) (length array) h) refl

pub length-fill :
    (text array : List ℕ)
    → length text ≤ length array
    → length (text ++ drop (length text) array) ≡ length array
length-fill text array h =
    omega (arith, length-append text (drop (length text) array), length-drop (length text) array)

pub index_of-bounds :
    (c : ℕ) (xs : List ℕ) (i j : ℕ) → index_of c xs i ≡ some j → (i ≤ j) × (j < i + length xs)
unfolding index_of
index_of-bounds c [] i j h = absurd (cc)
index_of-bounds c (x ∷ xs) i j h = elim (Bool-cases (x == c)) [
  | inl e ↦ let h' = rw e at h in let here : i ≡ j = cc in omega arith
  | inr e ↦ omega (arith, index_of-bounds c xs (i + 1) j (rw e at h))
]

pub put-ok : (array : List ℕ) (i c : ℕ) → i < length array → put array i c ≡ ok (set array i c)
unfolding put
put-ok array i c h = rw (lt→ltb i (length array) h) refl
