-- ===== src/Rbtree/Delete.antt =====
-- `rbtree_delete_fixup` and `rbtree_delete` of rbtree/rbtree.cpp. The loops run on fuel.
use hello_world.Prelude.{ℕ, zero, suc, not, ◌&&◌, ◌||◌, ◌==◌, if◌then◌else◌}
use hello_world.Outcome.{Outcome, ◌>>=◌, ok, hang}
use hello_world.Rbtree.Nodes.{
  is_red, Memory, read, write_parent, write_color, write_key, write_value, red, black,
}
use hello_world.Rbtree.Rotate.{replace, rbtree_left_rotate, rbtree_right_rotate}
use hello_world.Rbtree.Walk.{rbtree_successor}

-- `x` is a left child and its sibling `w` is red: the sibling goes up, and `x` gets another.
unfoldable pub lift_right : (x p w : ℕ) → Memory → Outcome (ℕ × Memory)
lift_right x p w m = do
  m₁ ← write_color w black m
  m₂ ← write_color p red m₁
  m₃ ← rbtree_left_rotate p m₂
  p' ← read m₃ m₃.parent x
  w' ← read m₃ m₃.right p'
  ok (w', m₃)

-- The sibling's right child is black, so its left child is red: that one goes up.
unfoldable pub straighten_right : (x w : ℕ) → Memory → Outcome (ℕ × Memory)
straighten_right x w m = do
  l ← read m m.left w
  m₁ ← write_color l black m
  m₂ ← write_color w red m₁
  m₃ ← rbtree_right_rotate w m₂
  p ← read m₃ m₃.parent x
  w' ← read m₃ m₃.right p
  ok (w', m₃)

-- The sibling's right child is red: the sibling takes the parent's place and colour.
unfoldable pub finish_right : (x w : ℕ) → Memory → Outcome (ℕ × Memory)
finish_right x w m = do
  p ← read m m.parent x
  c ← read m m.color p
  m₁ ← write_color w c m
  m₂ ← write_color p black m₁
  r ← read m₂ m₂.right w
  m₃ ← write_color r black m₂
  m₄ ← rbtree_left_rotate p m₃
  ok (m₄.root, m₄)

-- A round behind the treatment of a red sibling.
unfoldable pub lend_right : (x w : ℕ) → Memory → Outcome (ℕ × Memory)
lend_right x w m = do
  l ← read m m.left w
  left_color ← read m m.color l
  r ← read m m.right w
  right_color ← read m m.color r
  if not (is_red left_color) && not (is_red right_color)
      then (do m' ← write_color w red m; p ← read m' m'.parent x; ok (p, m'))
      else (do
        (w', m') ← (if is_red right_color then ok (w, m) else straighten_right x w m)
        finish_right x w' m')

-- A round where `x` is a left child: the node to go on with.
unfoldable pub shift_left : (x : ℕ) → Memory → Outcome (ℕ × Memory)
shift_left x m = do
  p ← read m m.parent x
  w ← read m m.right p
  c ← read m m.color w
  (w', m') ← (if is_red c then lift_right x p w m else ok (w, m))
  lend_right x w' m'

-- The same for a right child.
unfoldable pub lift_left : (x p w : ℕ) → Memory → Outcome (ℕ × Memory)
lift_left x p w m = do
  m₁ ← write_color w black m
  m₂ ← write_color p red m₁
  m₃ ← rbtree_right_rotate p m₂
  p' ← read m₃ m₃.parent x
  w' ← read m₃ m₃.left p'
  ok (w', m₃)

unfoldable pub straighten_left : (x w : ℕ) → Memory → Outcome (ℕ × Memory)
straighten_left x w m = do
  r ← read m m.right w
  m₁ ← write_color r black m
  m₂ ← write_color w red m₁
  m₃ ← rbtree_left_rotate w m₂
  p ← read m₃ m₃.parent x
  w' ← read m₃ m₃.left p
  ok (w', m₃)

unfoldable pub finish_left : (x w : ℕ) → Memory → Outcome (ℕ × Memory)
finish_left x w m = do
  p ← read m m.parent x
  c ← read m m.color p
  m₁ ← write_color w c m
  m₂ ← write_color p black m₁
  l ← read m₂ m₂.left w
  m₃ ← write_color l black m₂
  m₄ ← rbtree_right_rotate p m₃
  ok (m₄.root, m₄)

unfoldable pub lend_left : (x w : ℕ) → Memory → Outcome (ℕ × Memory)
lend_left x w m = do
  l ← read m m.left w
  left_color ← read m m.color l
  r ← read m m.right w
  right_color ← read m m.color r
  if not (is_red left_color) && not (is_red right_color)
      then (do m' ← write_color w red m; p ← read m' m'.parent x; ok (p, m'))
      else (do
        (w', m') ← (if is_red left_color then ok (w, m) else straighten_left x w m)
        finish_left x w' m')

unfoldable pub shift_right : (x : ℕ) → Memory → Outcome (ℕ × Memory)
shift_right x m = do
  p ← read m m.parent x
  w ← read m m.left p
  c ← read m m.color w
  (w', m') ← (if is_red c then lift_left x p w m else ok (w, m))
  lend_left x w' m'

unfoldable pub shift_round : (x : ℕ) → Memory → Outcome (ℕ × Memory)
shift_round x m = do
  p ← read m m.parent x
  l ← read m m.left p
  if x == l then shift_left x m else shift_right x m

unfoldable pub rbtree_delete_fixup : (fuel x : ℕ) → Memory → Outcome Memory
rbtree_delete_fixup zero x m = hang
rbtree_delete_fixup (suc fuel) x m =
    let again = (do (x', m') ← shift_round x m; rbtree_delete_fixup fuel x' m') in
    if x == m.root
    then write_color x black m
    else (do c ← read m m.color x; if is_red c then write_color x black m else again)

-- The key and the value of the node that leaves its place.
unfoldable pub copy_content : (z y : ℕ) → Memory → Outcome Memory
copy_content z y m = do
  k ← read m m.key y
  m₁ ← write_key z k m
  v ← read m₁ m₁.value y
  write_value z v m₁

-- The node to take out of the tree.
unfoldable pub node_to_unlink : (fuel z : ℕ) → Memory → Outcome ℕ
node_to_unlink fuel z m = do
  l ← read m m.left z
  r ← read m m.right z
  if l == m.nil || r == m.nil then ok z else rbtree_successor fuel z m

-- Its child takes its place.
unfoldable pub unlink : (y : ℕ) → Memory → Outcome (ℕ × Memory)
unlink y m = do
  l ← read m m.left y
  r ← read m m.right y
  let x = if l == m.nil then (if r == m.nil then m.nil else r) else l
  p ← read m m.parent y
  m₁ ← write_parent x p m
  m₂ ← replace y x m₁
  ok (x, m₂)

-- The node that may be freed, and the tree without the key.
unfoldable pub rbtree_delete : (fuel z : ℕ) → Memory → Outcome (ℕ × Memory)
rbtree_delete fuel z m = do
  y ← node_to_unlink fuel z m
  (x, m₁) ← unlink y m
  m₂ ← (if y == z then ok m₁ else copy_content z y m₁)
  c ← read m₂ m₂.color y
  m₃ ← (if is_red c then ok m₂ else rbtree_delete_fixup fuel x m₂)
  ok (y, m₃)
