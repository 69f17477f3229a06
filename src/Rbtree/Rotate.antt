-- ===== src/Rbtree/Rotate.antt =====
-- The rotations of rbtree/rbtree.cpp.
use hello_world.Prelude.{ℕ, ◌==◌, if◌then◌else◌}
use hello_world.Outcome.{Outcome, ◌>>=◌, ok}
use hello_world.Rbtree.Nodes.{Memory, read, write_left, write_right, write_parent}

-- `if (y->left != T->nil) y->left->parent = x`
unfoldable pub adopt : (child x : ℕ) → Memory → Outcome Memory
adopt child x m = if child == m.nil then ok m else write_parent child x m

-- What pointed to `x`, the root or a child of `x->parent`, then points to `y`.
unfoldable pub replace : (x y : ℕ) → Memory → Outcome Memory
replace x y m = do
  p ← read m m.parent x
  if p == m.nil
      then ok (record m { root = y })
      else (do l ← read m m.left p; if x == l then write_left p y m else write_right p y m)

unfoldable pub rbtree_left_rotate : ℕ → Memory → Outcome Memory
rbtree_left_rotate x m = do
  y ← read m m.right x
  b ← read m m.left y
  m₁ ← write_right x b m
  m₂ ← adopt b x m₁
  p ← read m₂ m₂.parent x
  m₃ ← write_parent y p m₂
  m₄ ← replace x y m₃
  m₅ ← write_left y x m₄
  write_parent x y m₅

unfoldable pub rbtree_right_rotate : ℕ → Memory → Outcome Memory
rbtree_right_rotate x m = do
  y ← read m m.left x
  b ← read m m.right y
  m₁ ← write_left x b m
  m₂ ← adopt b x m₁
  p ← read m₂ m₂.parent x
  m₃ ← write_parent y p m₂
  m₄ ← replace x y m₃
  m₅ ← write_right y x m₄
  write_parent x y m₅
