-- ===== src/Rbtree/Insert.antt =====
-- `rbtree_insert_fixup` and `rbtree_insert` of rbtree/rbtree.cpp. The loops run on fuel.
use hello_world.Prelude.{ℕ, zero, suc, Option, none, some, ltb, ◌==◌, if◌then◌else◌}
use hello_world.Outcome.{Outcome, ◌>>=◌, ok, hang}
use hello_world.Rbtree.Nodes.{
  is_red, Memory, read, write_left, write_right, write_parent, write_color, red, black,
}
use hello_world.Rbtree.Rotate.{rbtree_left_rotate, rbtree_right_rotate}

-- The parent of `z` turns black and the grandparent red and goes down to the right.
unfoldable pub settle_right : (z : ℕ) → Memory → Outcome (ℕ × Memory)
settle_right z m = do
  p ← read m m.parent z
  m₁ ← write_color p black m
  g ← read m₁ m₁.parent p
  m₂ ← write_color g red m₁
  m₃ ← rbtree_right_rotate g m₂
  ok (z, m₃)

-- The parent of `z` turns black and the grandparent red and goes down to the left.
unfoldable pub settle_left : (z : ℕ) → Memory → Outcome (ℕ × Memory)
settle_left z m = do
  p ← read m m.parent z
  m₁ ← write_color p black m
  g ← read m₁ m₁.parent p
  m₂ ← write_color g red m₁
  m₃ ← rbtree_left_rotate g m₂
  ok (z, m₃)

-- One round where the parent is the left child of the grandparent: the node to go on with.
unfoldable pub fix_left : (z : ℕ) → Memory → Outcome (ℕ × Memory)
fix_left z m = do
  p ← read m m.parent z
  y ← read m m.parent p
  uncle ← read m m.right y
  c ← read m m.color uncle
  if is_red c
      then (do
        m₁ ← write_color p black m
        m₂ ← write_color y red m₁
        m₃ ← write_color uncle black m₂
        ok (y, m₃))
      else (do
        r ← read m m.right p
        (z', m₁) ← (if z == r then (do m' ← rbtree_left_rotate p m; ok (p, m')) else ok (z, m))
        settle_right z' m₁)

-- One round where it is the right child.
unfoldable pub fix_right : (z : ℕ) → Memory → Outcome (ℕ × Memory)
fix_right z m = do
  p ← read m m.parent z
  y ← read m m.parent p
  uncle ← read m m.left y
  c ← read m m.color uncle
  if is_red c
      then (do
        m₁ ← write_color p black m
        m₂ ← write_color uncle black m₁
        m₃ ← write_color y red m₂
        ok (y, m₃))
      else (do
        l ← read m m.left p
        (z', m₁) ← (if z == l then (do m' ← rbtree_right_rotate p m; ok (p, m')) else ok (z, m))
        settle_left z' m₁)

unfoldable pub fix_round : (z : ℕ) → Memory → Outcome (ℕ × Memory)
fix_round z m = do
  p ← read m m.parent z
  g ← read m m.parent p
  l ← read m m.left g
  if p == l then fix_left z m else fix_right z m

-- `T->root->color = BLACK`
abbrev pub paint_root : Memory → Outcome Memory
paint_root m = write_color m.root black m

unfoldable pub rbtree_insert_fixup : (fuel z : ℕ) → Memory → Outcome Memory
rbtree_insert_fixup zero z m = hang
rbtree_insert_fixup (suc fuel) z m = do
  p ← read m m.parent z
  c ← read m m.color p
  let again = (do (z', m') ← fix_round z m; rbtree_insert_fixup fuel z' m')
  if is_red c then again else paint_root m

-- The loop that looks for the place of a key: the node to hang it on, or nothing where the key is in
-- the tree.
unfoldable pub find_place : (fuel key y x : ℕ) → Memory → Outcome (Option ℕ)
find_place zero key y x m = hang
find_place (suc fuel) key y x m =
    let on_left = (do l ← read m m.left x; find_place fuel key x l m) in
    let on_right = (do r ← read m m.right x; find_place fuel key x r m) in
    if x == m.nil then ok (some y) else (do
      k ← read m m.key x
      if ltb key k then on_left else if ltb k key then on_right else ok none)

-- The node `z` is hung on `y`.
unfoldable pub hang_on : (z y : ℕ) → Memory → Outcome Memory
hang_on z y m = do
  m₁ ← write_parent z y m
  m₂ ←
      (if y == m₁.nil then ok (record m₁ { root = z }) else (do
        kz ← read m₁ m₁.key z
        ky ← read m₁ m₁.key y
        if ltb kz ky then write_left y z m₁ else write_right y z m₁))
  m₃ ← write_left z m₂.nil m₂
  m₄ ← write_right z m₃.nil m₃
  write_color z red m₄

abbrev pub insert_at : (fuel z : ℕ) → Memory → Option ℕ → Outcome Memory
insert_at fuel z m none = ok m
insert_at fuel z m (some y) = do m' ← hang_on z y m; rbtree_insert_fixup fuel z m'

unfoldable pub rbtree_insert : (fuel z : ℕ) → Memory → Outcome Memory
rbtree_insert fuel z m = do
  k ← read m m.key z
  place ← find_place fuel k m.nil m.root m
  insert_at fuel z m place
