-- ===== src/Rbtree/Walk.antt =====
-- The functions of rbtree/rbtree.cpp that only read: `rbtree_search`, `find_min`, `find_max`,
-- `rbtree_successor` and `rbtree_travel`. The loops run on fuel.
use hello_world.Prelude.{ℕ, zero, suc, List, [], ◌∷◌, ◌++◌, ltb, ◌==◌, if◌then◌else◌}
use hello_world.Outcome.{Outcome, ◌>>=◌, ok, hang}
use hello_world.Rbtree.Nodes.{Color, Memory, read}

unfoldable pub search_from : (fuel key node : ℕ) → Memory → Outcome ℕ
search_from zero key node m = hang
search_from (suc fuel) key node m =
    let on_left = (do l ← read m m.left node; search_from fuel key l m) in
    let on_right = (do r ← read m m.right node; search_from fuel key r m) in
    if node == m.nil then ok m.nil else (do
      k ← read m m.key node
      if ltb key k then on_left else if ltb k key then on_right else ok node)

unfoldable pub rbtree_search : (fuel key : ℕ) → Memory → Outcome ℕ
unfolding search_from
rbtree_search fuel key m = search_from fuel key m.root m

unfoldable pub find_min : (fuel x : ℕ) → Memory → Outcome ℕ
find_min zero x m = hang
find_min (suc fuel) x m =
    let further = (do l ← read m m.left x; find_min fuel l m) in
    do l ← read m m.left x; if l == m.nil then ok x else further

unfoldable pub find_max : (fuel x : ℕ) → Memory → Outcome ℕ
find_max zero x m = hang
find_max (suc fuel) x m =
    let further = (do r ← read m m.right x; find_max fuel r m) in
    do r ← read m m.right x; if r == m.nil then ok x else further

-- The way up while `x` is a right child.
unfoldable pub climb : (fuel x y : ℕ) → Memory → Outcome ℕ
climb zero x y m = hang
climb (suc fuel) x y m =
    let further = (do above ← read m m.parent y; climb fuel y above m) in
    if y == m.nil then ok y else (do r ← read m m.right y; if x == r then further else ok y)

unfoldable pub rbtree_successor : (fuel x : ℕ) → Memory → Outcome ℕ
unfolding find_min climb
rbtree_successor fuel x m = do
  y ← read m m.parent x
  r ← read m m.right x
  if r == m.nil then climb fuel x y m else find_min fuel r m

-- The keys that `rbtree_travel` prints, with their colours, in the order of printing.
unfoldable pub rbtree_travel : (fuel x : ℕ) → Memory → Outcome (List (ℕ × Color))
rbtree_travel zero x m = hang
rbtree_travel (suc fuel) x m =
    let around = (do
      l ← read m m.left x
      before ← rbtree_travel fuel l m
      k ← read m m.key x
      c ← read m m.color x
      r ← read m m.right x
      after ← rbtree_travel fuel r m
      ok (before ++ (k, c) ∷ after)) in
    if x == m.nil then ok [] else around
