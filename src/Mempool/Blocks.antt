-- ===== src/Mempool/Blocks.antt =====
-- The free blocks of threadpool/src4/mempool/memorypool.cpp as a list of addresses.
use native.Mathlib.Decide.{dec_lt}
use native.Mathlib.Nat.{mul-le-mul_right}
use hello_world.Prelude.{
  ℕ, zero, suc, ◌+◌, ◌*◌, ◌≤◌, ◌<◌, ◌≡◌, refl, sym, ap, ◌∙◌, ◌≢◌, ◌⊎◌, inl, inr, Bool, true, false,
  not, ◌&&◌, ◌||◌, some, List, [], ◌∷◌, arith, ◌==◌, ==→eq, ==_self, Bool-cases, length,
}
use hello_world.Mempool.Page.{Page, put, put_apart}
use hello_world.Mempool.Alloc.{Mempool}

abbrev pub member : ℕ → List ℕ → Bool
member p [] = false
member p (q ∷ ps) = p == q || member p ps

abbrev pub Distinct : List ℕ → Type 0
Distinct [] = Unit
Distinct (p ∷ ps) = (member p ps ≡ false) × Distinct ps

-- The `n` blocks from `p` on.
abbrev pub blocks : (block_size p n : ℕ) → List ℕ
blocks block_size p zero = []
blocks block_size p (suc n) = p ∷ blocks block_size (p + block_size) n

-- The list of free blocks that begins at `p`.
abbrev pub Chain : (page : Page) (p : ℕ) → List ℕ → Type 0
Chain page p [] = Unit
Chain page p (q ∷ ps) = (p ≡ q) × (next : ℕ) × (page q ≡ some next) × Chain page next ps

-- The two stretches of `size` bytes have no byte in common.
abbrev pub Apart : (size p q : ℕ) → Type 0
Apart size p q = (p + size ≤ q) ⊎ (q + size ≤ p)

pub member_self : (p : ℕ) (ps : List ℕ) → member p (p ∷ ps) ≡ true
member_self p ps = rw (==_self p) refl

pub member-later : (p q : ℕ) (ps : List ℕ) → member p ps ≡ true → member p (q ∷ ps) ≡ true
member-later p q ps h = ground arith

-- A member of the blocks is the block of some index.
pub member-blocks :
    (size p n q : ℕ) → member q (blocks size p n) ≡ true → (k : ℕ) × (k < n) × (q ≡ p + k * size)
member-blocks size p zero q h = absurd (cc)
member-blocks size p (suc n) q h = elim (Bool-cases (q == p)) [
  | inl e ↦ (0, omega arith, omega (arith, ==→eq q p e))
  | inr e ↦
      let (k, lt, at) = member-blocks size (p + size) n q (rw e at h) in
      (suc k, omega arith, omega arith)
]

-- Block `k` ends where block `k + 1` begins.
pub step_le : (size k n : ℕ) → k < n → k * size + size ≤ n * size
step_le size k n lt = omega (arith, mul-le-mul_right size lt)

pub blocks-Apart :
    (size mem n p q : ℕ)
    → member p (blocks size mem n) ≡ true
    → member q (blocks size mem n) ≡ true
    → p ≢ q
    → Apart size p q
blocks-Apart size mem n p q hp hq ne =
    let (k, k_lt, at_p) = member-blocks size mem n p hp in
    let (j, j_lt, at_q) = member-blocks size mem n q hq in
    elim (dec_lt k j) [
      | yes lt ↦ inl (omega (arith, step_le size k j lt))
      | no ge ↦ elim (dec_lt j k) [
        | yes lt ↦ inr (omega (arith, step_le size j k lt))
        | no ge' ↦ absurd (ne (at_p ∙ ap (λ i. mem + i * size) (omega arith) ∙ sym at_q))
      ]
    ]

pub blocks-Distinct : (size p n : ℕ) → 0 < size → Distinct (blocks size p n)
blocks-Distinct size p zero h = tt
blocks-Distinct size p (suc n) h = (later size p n h, blocks-Distinct size (p + size) n h)
  where
    later : (size p n : ℕ) → 0 < size → member p (blocks size (p + size) n) ≡ false
    later size p n h = elim (Bool-cases (member p (blocks size (p + size) n))) [
      | inr e ↦ e
      | inl e ↦ let (k, lt, at) = member-blocks size (p + size) n p e in absurd (omega arith)
    ]

-- A write apart from the blocks of a list leaves the list as it is.
pub Chain-put :
    (page : Page) (w v p : ℕ) (ps : List ℕ)
    → ((q : ℕ) → member q ps ≡ true → Apart 8 w q)
    → Chain page p ps
    → Chain (put page w v) p ps
Chain-put page w v p [] apart c = tt
Chain-put page w v p (q ∷ ps) apart (at, next, e, rest) = (
  at,
  next,
  put_apart page w v q (apart q (member_self q ps)) ∙ e,
  Chain-put page w v next ps (λ r h. apart r (member-later r q ps h)) rest,
)

-- What the pool and its clients keep: the list from `ptr` on is a list of different blocks, those
-- that `owned` does not hold.
pub record IsPool (mp : Mempool) (owned : ℕ → Bool) (total : ℕ) (free_list : List ℕ) : Type 0 where
  pub big : 8 ≤ mp.block_size
  pub some_page : 0 < mp.mem
  pub fits : total * mp.block_size ≤ 4096
  pub chain : Chain mp.page mp.ptr free_list
  pub counted : mp.free_count ≡ length free_list
  pub distinct : Distinct free_list
  pub exact :
      (p : ℕ) → member p free_list ≡ (member p (blocks mp.block_size mp.mem total) && not (owned p))
  pub own : (p : ℕ) → owned p ≡ true → member p (blocks mp.block_size mp.mem total) ≡ true
