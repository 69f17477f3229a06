-- ===== src/Rbtree/Emptied.antt =====
-- The loop of `main` of rbtree/rbtree.cpp that deletes.
use mathlib.Core.Path.{ap₂}
use hello_world.Prelude.{
  ℕ, ◌+◌, ◌*◌, ◌^◌, ◌≤◌, ◌<◌, ◌≡◌, refl, ◌≢◌, true, List, [], ◌∷◌, map, arith, length,
}
use hello_world.Outcome.{ok}
use hello_world.Rbtree.Nodes.{Color, Memory}
use hello_world.Rbtree.Main.{free_node, delete_all}
use hello_world.Rbtree.Sorted.{remove_key}
use hello_world.Rbtree.Fixup.{Holds}
use hello_world.Rbtree.Walked.{contains, Found, rbtree_travel-inorder, nowhere, somewhere}
use hello_world.Rbtree.Depth.{height-lt, rbtree_search-depth, rbtree_delete-depth}

-- The keys that are left behind each deletion, and at the end.
unfoldable pub remainders : List ℕ → List ℕ → List (List ℕ)
unfolding remove_key
remainders [] keys = []
remainders (k ∷ ks) keys = remove_key k keys ∷ remainders ks (remove_key k keys)

unfoldable pub remove_keys : List ℕ → List ℕ → List ℕ
unfolding remove_key
remove_keys [] keys = keys
remove_keys (k ∷ ks) keys = remove_keys ks (remove_key k keys)

-- Each key is there when its turn comes.
abbrev pub Present : List ℕ → List ℕ → Type 0
Present [] keys = Unit
Present (k ∷ ks) keys = (contains k keys ≡ true) × Present ks (remove_key k keys)

length-remove_key : (key : ℕ) (keys : List ℕ) → length (remove_key key keys) ≤ length keys
unfolding remove_key
length-remove_key key [] = omega arith
length-remove_key key (k ∷ ks) = ground (arith, length-remove_key key ks)

Found-some :
    (m : Memory) (key : ℕ) (keys : List ℕ) (q : ℕ)
    → Found m key keys q
    → contains key keys ≡ true
    → q ≢ m.nil
Found-some m key keys q found there = elim found [
  | nowhere p at out ↦ absurd (cc)
  | somewhere p some_p live at here ↦ some_p
]

-- Each key that is there is found, deleted and freed in turn, and what is left is printed in order.
pub delete_all-Holds :
    (fuel h top_hi : ℕ) (ks : List ℕ) (m : Memory) (keys : List ℕ)
    → Holds m top_hi keys
    → Present ks keys
    → length keys + 1 < 2 ^ h
    → 2 * h ≤ fuel
    → (printed : List (List (ℕ × Color))) × (m' : Memory) × (delete_all fuel ks m
        ≡ ok (printed, m'))
      × (map (λ out. map (λ e. e.0) out) printed ≡ remainders ks keys)
      × Holds m' top_hi (remove_keys ks keys)
unfolding delete_all remainders remove_keys
delete_all-Holds fuel h top_hi [] m keys holds there few enough = ([], m, refl, refl, holds)
delete_all-Holds fuel h top_hi (k ∷ ks) m keys holds (here, there) few enough =
    let (z, searched, found) = rbtree_search-depth m top_hi h fuel keys holds few enough k in
    let (y, m₁, deleted, some_y, live_y, alive, held, holds₁) =
      rbtree_delete-depth m top_hi h fuel k z keys holds searched (Found-some m k keys z found here)
        few enough in
    let m₂ = free_node y m₁ in
    let few₁ : length (remove_key k keys) + 1 < 2 ^ h = omega (arith, length-remove_key k keys) in
    let (out, travelled, ordered) =
      rbtree_travel-inorder m₂ top_hi fuel (remove_key k keys) holds₁
        (height-lt m₂ top_hi h fuel (remove_key k keys) holds₁ few₁ enough) in
    let (outs, m₃, rest, ordered_rest, holds₃) =
      delete_all-Holds fuel h top_hi ks m₂ (remove_key k keys) holds₁ there few₁ enough in
    (
      out ∷ outs,
      m₃,
      rw (searched, deleted, travelled, rest) refl,
      ap₂ (λ a b. a ∷ b) ordered ordered_rest,
      holds₃,
    )
