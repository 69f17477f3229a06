-- ===== src/Outcome.antt =====
-- What a piece of C code comes to: it returns, its behaviour is undefined (a read or write outside
-- an object, a null dereference, a string with no end), or it is still looping when the fuel of
-- its loop is used up.
use hello_world.Prelude.{◌≡◌, refl, ap, ◌≢◌, Option, none, some}

pub data Outcome {ℓ} (A : Type ℓ) : Type ℓ where
  ok : A → Outcome A
  fault : Outcome A
  hang : Outcome A

infixl 5 ◌>>=◌ ◌>>◌
abbrev pub ◌>>=◌ {ℓ κ} : {A : Type ℓ} {B : Type κ} → Outcome A → (A → Outcome B) → Outcome B
ok a >>= f = f a
fault >>= f = fault
hang >>= f = hang

abbrev pub ◌>>◌ {ℓ} : {B : Type ℓ} → Outcome (Unit {0}) → Outcome B → Outcome B
m >> k = m >>= λ _. k

abbrev pub deref {ℓ} : {A : Type ℓ} → Option A → Outcome A
deref none = fault
deref (some a) = ok a

-- Where a sequence returns, its first part returned, and the rest on that value.
pub >>=-eq-ok {ℓ κ} :
    {First : Type ℓ} {Last : Type κ} (code : Outcome First) (rest : First → Outcome Last)
    {last : Last}
    → (code >>= rest) ≡ ok last
    → (first : First) × (code ≡ ok first) × (rest first ≡ ok last)
>>=-eq-ok (ok first) rest returned = (first, refl, returned)
>>=-eq-ok fault rest returned = absurd (cc)
>>=-eq-ok hang rest returned = absurd (cc)

from_ok {ℓ} : {A : Type ℓ} → A → Outcome A → A
from_ok d (ok a) = a
from_ok d fault = d
from_ok d hang = d

pub ok-injective {ℓ} : {A : Type ℓ} {a b : A} → ok a ≡ ok b → a ≡ b
unfolding from_ok
ok-injective {a} e = ap (from_ok a) e

pub ok-second {ℓ κ} :
    {A : Type ℓ} {B : Type κ} {a c : A} {b d : B}
    → ◌≡◌ {A = Outcome (A × B)} (ok (a, b)) (ok (c, d))
    → b ≡ d
ok-second e = ap (λ p. p.1) (ok-injective e)

-- A sequence is not left looping by its parts.
pub >>=-ends {ℓ κ} :
    {First : Type ℓ} {Last : Type κ} (code : Outcome First) (rest : First → Outcome Last)
    → code ≢ hang
    → ((first : First) → code ≡ ok first → rest first ≢ hang)
    → (code >>= rest) ≢ hang
>>=-ends (ok first) rest ends next = next first refl
>>=-ends fault rest ends next = λ e. absurd (cc)
>>=-ends hang rest ends next = absurd (ends refl)

pub ok-ends {ℓ} : {A : Type ℓ} (a : A) → ok a ≢ hang
ok-ends a = λ e. absurd (cc)
