-- ===== src/Rbtree/Undo.antt =====
-- `rbtree_insert` of rbtree/rbtree.cpp, and `rbtree_delete` of what it has put in.
use mathlib.Core.Path.{subst}
use hello_world.Prelude.{
  ℕ, ◌+◌, ◌*◌, ◌^◌, ◌≤◌, ◌<◌, ◌≡◌, refl, ◌≢◌, inl, inr, true, false, List, [], ◌∷◌, arith, ltb,
  ◌==◌, ==_self, Bool-cases, length,
}
use hello_world.Outcome.{ok}
use hello_world.Rbtree.Nodes.{Memory}
use hello_world.Rbtree.Insert.{rbtree_insert}
use hello_world.Rbtree.Walk.{rbtree_search}
use hello_world.Rbtree.Delete.{rbtree_delete}
use hello_world.Rbtree.Fixup.{Holds}
use hello_world.Rbtree.Sorted.{insert_key, remove_key}
use hello_world.Rbtree.Walked.{contains, nowhere, somewhere}
use hello_world.Rbtree.Depth.{rbtree_search-depth, rbtree_insert-depth, rbtree_delete-depth}
use hello_world.Rbtree.Built.{length-insert_key}

pub remove_key-insert_key :
    (key : ℕ) (keys : List ℕ)
    → contains key keys ≡ false
    → remove_key key (insert_key key keys) ≡ keys
unfolding remove_key insert_key contains
remove_key-insert_key key [] new = rw (==_self key) refl
remove_key-insert_key key (k ∷ ks) new = elim (Bool-cases (ltb key k)) [
  | inl less ↦ rw (less, ==_self key) refl
  | inr not_less ↦
      let other : (k == key) ≡ false = ground (arith, new) in
      let more : ltb k key ≡ true = ground (arith, not_less, other) in
      let rest : contains key ks ≡ false = ground (arith, new) in
      rw (not_less, more, other, remove_key-insert_key key ks rest) refl
]

pub contains-insert_key : (key : ℕ) (keys : List ℕ) → contains key (insert_key key keys) ≡ true
unfolding insert_key contains
contains-insert_key key [] = rw (==_self key) refl
contains-insert_key key (k ∷ ks) = ground (arith, contains-insert_key key ks)

-- If the memory holds a red-black tree of fewer than 2 ^ h - 2 keys below a bound, and a node is
-- allocated, is not nil and has a key below the bound that is not among the keys, then
-- rbtree_insert of the node, rbtree_search for its key and rbtree_delete of what the search gives
-- all return with 2 h rounds for each loop, and the memory then holds a red-black tree of the keys
-- of before
pub rbtree_insert-delete :
    (m : Memory) (top_hi h fuel z : ℕ) (keys : List ℕ)
    → Holds m top_hi keys
    → m.alive z ≡ true
    → z ≢ m.nil
    → m.key z < top_hi
    → contains (m.key z) keys ≡ false
    → length keys + 2 < 2 ^ h
    → 2 * h ≤ fuel
    → (m₁ : Memory) × (z' : ℕ) × (y : ℕ) × (m₂ : Memory) × (rbtree_insert fuel z m ≡ ok m₁)
      × (rbtree_search fuel (m.key z) m₁ ≡ ok z')
      × (rbtree_delete fuel z' m₁ ≡ ok (y, m₂))
      × Holds m₂ top_hi keys
rbtree_insert-delete m top_hi h fuel z keys holds live some_z key_high new few enough =
    let (m₁, inserted, kept, holds₁) =
      rbtree_insert-depth m top_hi h fuel z keys holds live some_z key_high (omega arith) enough in
    let keys₁ = insert_key (m.key z) keys in
    let few₁ : length keys₁ + 1 < 2 ^ h = omega (arith, length-insert_key (m.key z) keys) in
    let (z', searched, found) =
      rbtree_search-depth m₁ top_hi h fuel keys₁ holds₁ few₁ enough (m.key z) in
    let some_z' : z' ≢ m₁.nil = elim found [
      | nowhere q at out ↦ absurd (let there = contains-insert_key (m.key z) keys in cc)
      | somewhere q some_q live_q key_q there ↦ some_q
    ] in
    let (y, m₂, deleted, some_y, live_y, alive, holds₂, holds_freed) =
      rbtree_delete-depth m₁ top_hi h fuel (m.key z) z' keys₁ holds₁ searched some_z' few₁ enough in
    (
      m₁,
      z',
      y,
      m₂,
      inserted,
      searched,
      deleted,
      subst (λ q. Holds m₂ top_hi q) (remove_key-insert_key (m.key z) keys new) holds₂,
    )
