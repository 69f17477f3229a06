-- ===== src/Mempool/Page.antt =====
-- The page of threadpool/src4/mempool/memorypool.cpp: reads and writes of pointers in it.
use hello_world.Prelude.{
  ℕ, ◌+◌, ◌≤◌, ◌<◌, ◌≡◌, refl, ◌⊎◌, inl, inr, Bool, false, ◌&&◌, Option, none, some, arith, ltb,
  leb, ◌==◌, if◌then◌else◌, le→leb, ==_self,
}
use hello_world.Outcome.{Outcome, deref, ok, fault}

-- MEM_PAGE_SIZE
abbrev pub mem_page_size : ℕ
mem_page_size = 4096

-- sizeof(char *)
abbrev pub word_size : ℕ
word_size = 8

-- The pointers that stand whole in the page, by the address of their first byte.
abbrev pub Page : Type 0
Page = ℕ → Option ℕ

abbrev pub in_page : (mem p : ℕ) → Bool
in_page mem p = leb mem p && leb (p + word_size) (mem + mem_page_size)

-- A write takes eight bytes, so a pointer that overlaps them is no longer whole.
abbrev pub overlaps : (p q : ℕ) → Bool
overlaps p q = ltb p (q + word_size) && ltb q (p + word_size)

abbrev pub put : Page → (p v : ℕ) → Page
put page p v q = if p == q then some v else if overlaps p q then none else page q

-- `*(char**)p`
unfoldable pub load : (mem : ℕ) → Page → (p : ℕ) → Outcome ℕ
load mem page p = if in_page mem p then deref (page p) else fault

-- `*(char**)p = v`
unfoldable pub store : (mem : ℕ) → Page → (p v : ℕ) → Outcome Page
store mem page p v = if in_page mem p then ok (put page p v) else fault

pub load_lem :
    (mem : ℕ) (page : Page) (p v : ℕ)
    → mem ≤ p
    → p + 8 ≤ mem + 4096
    → page p ≡ some v
    → load mem page p ≡ ok v
unfolding load
load_lem mem page p v low high e = rw (le→leb mem p low, le→leb (p + 8) (mem + 4096) high, e) refl

pub store_lem :
    (mem : ℕ) (page : Page) (p v : ℕ)
    → mem ≤ p
    → p + 8 ≤ mem + 4096
    → store mem page p v ≡ ok (put page p v)
unfolding store
store_lem mem page p v low high = rw (le→leb mem p low, le→leb (p + 8) (mem + 4096) high) refl

pub store-beyond :
    (mem : ℕ) (page : Page) (p v : ℕ) → mem + 4096 < p + 8 → store mem page p v ≡ fault
unfolding store
store-beyond mem page p v h =
    let outside : leb (p + 8) (mem + 4096) ≡ false = ground arith in
    let out : in_page mem p ≡ false = ground arith in rw out refl

pub put_self : (page : Page) (p v : ℕ) → put page p v p ≡ some v
put_self page p v = rw (==_self p) refl

-- Eight bytes further on or back, nothing changes.
pub put_apart : (page : Page) (p v q : ℕ) → (p + 8 ≤ q) ⊎ (q + 8 ≤ p) → put page p v q ≡ page q
put_apart page p v q (inl h) =
    let a : (p == q) ≡ false = ground arith in
    let b : overlaps p q ≡ false = ground arith in rw (a, b) refl
put_apart page p v q (inr h) =
    let a : (p == q) ≡ false = ground arith in
    let b : overlaps p q ≡ false = ground arith in rw (a, b) refl
