-- ===== src/CString/Ends.antt =====
-- The operations on `char` arrays run no loop that could go on for ever.
use mathlib.Core.Path.{subst}
use hello_world.Prelude.{
  ℕ, suc, ◌<◌, ◌≡◌, ◌≢◌, inl, inr, Option, none, some, List, [], ◌∷◌, arith, ltb, leb, ◌==◌,
  Bool-cases, length,
}
use hello_world.Outcome.{deref, >>=-eq-ok, ok-injective, >>=-ends, ok, hang}
use hello_world.CString.{put, fill, read_array, c_string}

pub deref-ends {ℓ} : {A : Type ℓ} (a : Option A) → deref a ≢ hang
deref-ends none e = absurd (cc)
deref-ends (some a) e = absurd (cc)

pub put-ends : (array : List ℕ) (i c : ℕ) → put array i c ≢ hang
unfolding put
put-ends array i c = elim (Bool-cases (ltb i (length array))) [
  | inl e ↦ rw e (λ h. absurd (cc))
  | inr e ↦ rw e (λ h. absurd (cc))
]

pub fill-ends : (text array : List ℕ) → fill text array ≢ hang
unfolding fill
fill-ends text array = elim (Bool-cases (leb (length text) (length array))) [
  | inl e ↦ rw e (λ h. absurd (cc))
  | inr e ↦ rw e (λ h. absurd (cc))
]

pub read_array-ends : (n : ℕ) (array : List ℕ) → read_array n array ≢ hang
unfolding read_array
read_array-ends n array = elim (Bool-cases (leb n (length array))) [
  | inl e ↦ rw e (λ h. absurd (cc))
  | inr e ↦ rw e (λ h. absurd (cc))
]

pub c_string-ends : (array : List ℕ) → c_string array ≢ hang
unfolding c_string
c_string-ends [] = λ e. absurd (cc)
c_string-ends (c ∷ array) = elim (Bool-cases (c == 0)) [
  | inl e ↦ rw e (λ h. absurd (cc))
  | inr e ↦ rw e (>>=-ends (c_string array) _ (c_string-ends array) (λ s h g. absurd (cc)))
]

-- A string is shorter than the array that holds it.
pub length-c_string : (array text : List ℕ) → c_string array ≡ ok text → length text < length array
unfolding c_string
length-c_string [] text h = absurd (cc)
length-c_string (c ∷ array) text h = elim (Bool-cases (c == 0)) [
  | inl e ↦ subst (λ t. length t < suc (length array)) (ok-injective (rw e at h)) (omega arith)
  | inr e ↦
      let (rest, e₁, h₁) = >>=-eq-ok (c_string array) _ (rw e at h) in
      let shorter = length-c_string array rest e₁ in
      subst (λ t. length t < suc (length array)) (ok-injective h₁) (omega arith)
]
