-- ===== src/CString.antt =====
-- Arrays of `char`, C strings in them, and the parts of <string.h> and `sprintf` that the servers
-- use. A character is its code.
pub mod Laws
pub mod Ends
use Prim.Native.Char.{code}
use Prim.Native.String.{String}
use hello_world.Prelude.{
  ℕ, zero, suc, ◌+◌, ◌/◌, ◌%◌, Bool, true, false, ◌&&◌, ◌||◌, Option, none, some, List, [], ◌∷◌,
  ◌++◌, ltb, leb, ◌==◌, if◌then◌else◌, length, set, take, drop, replicate,
}
use hello_world.Outcome.{Outcome, ◌>>=◌, ok, fault}

-- The characters of an ASCII literal.
abbrev pub codes : String → List ℕ
codes String.[] = []
codes (String.◌∷◌ c s) = code c ∷ codes s

abbrev pub crlf : List ℕ
crlf = 13 ∷ 10 ∷ []

-- `memset(array, 0, n)`
unfoldable pub zeros : ℕ → List ℕ
unfolding replicate
zeros n = replicate n 0

-- `array[i] = c`
unfoldable pub put : List ℕ → ℕ → ℕ → Outcome (List ℕ)
put array i c = if ltb i (length array) then ok (set array i c) else fault

-- Writing `text` from the start of the array on.
unfoldable pub fill : List ℕ → List ℕ → Outcome (List ℕ)
fill text array =
    if leb (length text) (length array) then ok (text ++ drop (length text) array) else fault

-- Reading the first `n` characters.
unfoldable pub read_array : ℕ → List ℕ → Outcome (List ℕ)
read_array n array = if leb n (length array) then ok (take n array) else fault

-- The string at the start of an array: undefined where no terminator stands in the array.
unfoldable pub c_string : List ℕ → Outcome (List ℕ)
c_string [] = fault
c_string (c ∷ array) =
    let rest = (do s ← c_string array; ok (c ∷ s)) in if c == 0 then ok [] else rest

-- `sprintf(array, "%s", text)`: the text and its terminator.
unfoldable pub sprintf : List ℕ → List ℕ → Outcome (List ℕ)
unfolding fill
sprintf array text = fill (text ++ 0 ∷ []) array

unfoldable pub is_prefix : List ℕ → List ℕ → Bool
is_prefix [] hay = true
is_prefix (n ∷ needle) [] = false
is_prefix (n ∷ needle) (h ∷ hay) = n == h && is_prefix needle hay

-- `strstr(hay, needle) != NULL`
unfoldable pub contains : List ℕ → List ℕ → Bool
unfolding is_prefix
contains needle [] = is_prefix needle []
contains needle (h ∷ hay) = is_prefix needle (h ∷ hay) || contains needle hay

-- The first index from `i` on at which the array holds `c`, if there is one.
unfoldable pub index_of : ℕ → List ℕ → ℕ → Option ℕ
index_of c [] i = none
index_of c (x ∷ array) i = let rest = index_of c array (i + 1) in if x == c then some i else rest

-- `%ld` of a number below 10 ^ fuel.
unfoldable pub decimal : ℕ → ℕ → List ℕ
decimal zero n = []
decimal (suc fuel) n =
    let more = decimal fuel (n / 10) in
    if ltb n 10 then (48 + n) ∷ [] else more ++ (48 + n % 10) ∷ []
