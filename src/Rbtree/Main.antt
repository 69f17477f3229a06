-- ===== src/Rbtree/Main.antt =====
-- The two loops of `main` of rbtree/rbtree.cpp.
use hello_world.Prelude.{ℕ, true, false, List, [], ◌∷◌}
use hello_world.Outcome.{Outcome, ◌>>=◌, ok}
use hello_world.Rbtree.Nodes.{Color, Memory, update, black}
use hello_world.Rbtree.Insert.{rbtree_insert}
use hello_world.Rbtree.Walk.{rbtree_search, rbtree_travel}
use hello_world.Rbtree.Delete.{rbtree_delete}

-- The tree of `main`, where `malloc` gave the address `nil`. What else the memory holds is unknown.
unfoldable pub fresh_tree : (nil : ℕ) → Memory → Memory
fresh_tree nil m = record m {
  alive = update m.alive nil true;
  color = update m.color nil black;
  root = nil;
  nil = nil;
}

-- A node, at the address that `malloc` gave.
unfoldable pub new_node : (z key : ℕ) → Memory → Memory
new_node z key m = record m {
  alive = update m.alive z true;
  key = update m.key z key;
  value = update m.value z 0;
}

-- The loop of `main`: an address and a key for each round.
unfoldable pub insert_all : (fuel : ℕ) → List (ℕ × ℕ) → Memory → Outcome Memory
unfolding new_node
insert_all fuel [] m = ok m
insert_all fuel ((z, key) ∷ nodes) m = do
  m' ← rbtree_insert fuel z (new_node z key m)
  insert_all fuel nodes m'

unfoldable pub free_node : (p : ℕ) → Memory → Memory
free_node p m = record m { alive = update m.alive p false }

-- The loop that deletes: what it prints for each key, and the memory.
unfoldable pub delete_all :
    (fuel : ℕ) → List ℕ → Memory → Outcome (List (List (ℕ × Color)) × Memory)
unfolding free_node
delete_all fuel [] m = ok ([], m)
delete_all fuel (key ∷ keys) m = do
  z ← rbtree_search fuel key m
  (cur, m₁) ← rbtree_delete fuel z m
  printed ← rbtree_travel fuel m₁.root (free_node cur m₁)
  (more, m₂) ← delete_all fuel keys (free_node cur m₁)
  ok (printed ∷ more, m₂)
