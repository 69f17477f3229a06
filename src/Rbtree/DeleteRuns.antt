-- ===== src/Rbtree/DeleteRuns.antt =====
-- The steps of `rbtree_delete` of rbtree/rbtree.cpp.
use mathlib.Core.Path.{subst}
use hello_world.Prelude.{ℕ, ◌≡◌, refl, ◌≢◌, true, false, arith, ◌==◌, if◌then◌else◌, ==_self}
use hello_world.Outcome.{ok}
use hello_world.Rbtree.Nodes.{Color, is_red, Memory}
use hello_world.Rbtree.Walk.{find_min, rbtree_successor}
use hello_world.Rbtree.Delete.{
  rbtree_delete_fixup, copy_content, node_to_unlink, unlink, rbtree_delete,
}
use hello_world.Rbtree.Tree.{Tree, leaf, node}
use hello_world.Rbtree.Shape.{Rep}
use hello_world.Rbtree.OneChild.{HasLeaf}
use hello_world.Rbtree.Rekey.{rekeyed}

pub delete_self-run :
    (m m₁ m' : Memory) (fuel z x : ℕ) (c : Color)
    → node_to_unlink fuel z m ≡ ok z
    → unlink z m ≡ ok (x, m₁)
    → m₁.alive z ≡ true
    → m₁.color z ≡ c
    → (if is_red c then ok m₁ else rbtree_delete_fixup fuel x m₁) ≡ ok m'
    → rbtree_delete fuel z m ≡ ok (z, m')
unfolding rbtree_delete
delete_self-run m m₁ m' fuel z x c chosen unlinked_z live color repaired =
    rw (chosen, unlinked_z, ==_self z, live, color, repaired) refl

pub delete_other-run :
    (m m₁ m₂ m' : Memory) (fuel z y x : ℕ) (c : Color)
    → node_to_unlink fuel z m ≡ ok y
    → unlink y m ≡ ok (x, m₁)
    → (y == z) ≡ false
    → copy_content z y m₁ ≡ ok m₂
    → m₂.alive y ≡ true
    → m₂.color y ≡ c
    → (if is_red c then ok m₂ else rbtree_delete_fixup fuel x m₂) ≡ ok m'
    → rbtree_delete fuel z m ≡ ok (y, m')
unfolding rbtree_delete
delete_other-run m m₁ m₂ m' fuel z y x c chosen unlinked_y other copied live color repaired =
    rw (chosen, unlinked_y, other, copied, live, color, repaired) refl

pub copy_content-run :
    (m : Memory) (z y k : ℕ)
    → m.alive z ≡ true
    → m.alive y ≡ true
    → m.key y ≡ k
    → copy_content z y m ≡ ok (rekeyed z k (m.value y) m)
unfolding copy_content
copy_content-run m z y k live_z live_y key_y = rw (live_y, live_z, live_y, live_z, key_y) refl

pub node_to_unlink_self :
    (m : Memory) (fuel par z k : ℕ) (c : Color) (l r : Tree)
    → HasLeaf l r
    → Rep m par z (node z c l k r)
    → node_to_unlink fuel z m ≡ ok z
unfolding node_to_unlink
node_to_unlink_self m fuel par z k c leaf r one (at, cell, rep_l, rep_r) =
    let live : m.alive z ≡ true = cell.live in
    let none_left : m.left z ≡ m.nil = rep_l in rw (live, none_left, ==_self m.nil) refl
node_to_unlink_self m fuel par z k c (node a ca la ka ra) r one (at, cell, rep_l, rep_r) =
    let live : m.alive z ≡ true = cell.live in
    let none_right : m.right z ≡ m.nil = subst (λ q. Rep m z (m.right z) q) one rep_r in
    let at_a : m.left z ≡ a = rep_l.0 in
    let some_a : (a == m.nil) ≡ false = let ne = rep_l.1.some_node in ground (arith, ne) in
    rw (live, none_right, at_a, some_a, ==_self m.nil) refl

pub node_to_unlink_min :
    (m : Memory) (fuel z a b : ℕ)
    → m.alive z ≡ true
    → m.left z ≡ a
    → m.right z ≡ b
    → a ≢ m.nil
    → b ≢ m.nil
    → node_to_unlink fuel z m ≡ find_min fuel b m
unfolding node_to_unlink rbtree_successor
node_to_unlink_min m fuel z a b live at_a at_b ne_a ne_b =
    let some_a : (a == m.nil) ≡ false = ground (arith, ne_a) in
    let some_b : (b == m.nil) ≡ false = ground (arith, ne_b) in
    rw (live, at_a, at_b, some_a, some_b) refl
