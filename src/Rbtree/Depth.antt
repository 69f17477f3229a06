-- ===== src/Rbtree/Depth.antt =====
-- How deep a red-black tree of rbtree/rbtree.cpp is.
use native.Mathlib.Decide.{dec_lt}
use native.Mathlib.Nat.{pow-le-pow_right}
use native.Mathlib.Numerals.{towards_suc}
use hello_world.Prelude.{
  ℕ, ◌+◌, ◌*◌, ◌^◌, ◌≤◌, ◌<◌, ◌≡◌, ap, ◌≢◌, true, List, ◌∷◌, arith, length, length-append,
}
use hello_world.Outcome.{ok}
use hello_world.Rbtree.Nodes.{Memory, red, black}
use hello_world.Rbtree.Insert.{rbtree_insert}
use hello_world.Rbtree.Walk.{rbtree_search}
use hello_world.Rbtree.Tree.{Tree, inorder, high, root_color, leaf, node}
use hello_world.Rbtree.Shape.{Kept}
use hello_world.Rbtree.Balance.{Balanced}
use hello_world.Rbtree.Fixup.{Holds}
use hello_world.Rbtree.Sorted.{insert_key, remove_key}
use hello_world.Rbtree.Place.{height}
use hello_world.Rbtree.Inserted.{rbtree_insert-Settles}
use hello_world.Rbtree.Walked.{Found, rbtree_search-Found}
use hello_world.Rbtree.Delete.{rbtree_delete}
use hello_world.Rbtree.Deleted.{rbtree_delete-Deletes}
use hello_world.Rbtree.Main.{free_node}

-- Each way down has `n` black nodes, and at most one red one above each and at the end.
Balanced-height :
    (n : ℕ) (t : Tree)
    → Balanced n t
    → ((root_color t ≡ black) → height t ≤ 2 * n) × (height t ≤ 2 * n + 1)
Balanced-height n leaf b = ((λ e. omega arith), omega arith)
Balanced-height n (node a red l k r) (black_l, black_r, b_l, b_r) =
    let (high_l, any_l) = Balanced-height n l b_l in
    let (high_r, any_r) = Balanced-height n r b_r in
    ((λ e. absurd (cc)), omega (arith, high_l black_l, high_r black_r))
Balanced-height n (node a black l k r) (below, e, b_l, b_r) =
    let (high_l, any_l) = Balanced-height below l b_l in
    let (high_r, any_r) = Balanced-height below r b_r in ((λ c. omega arith), omega arith)

Balanced-size : (n : ℕ) (t : Tree) → Balanced n t → 2 ^ n ≤ length (inorder t) + 1
Balanced-size n leaf b = rw b (omega arith)
Balanced-size n (node a red l k r) (black_l, black_r, b_l, b_r) =
    omega (arith, Balanced-size n l b_l, length-append (inorder l) (k ∷ inorder r))
Balanced-size n (node a black l k r) (below, e, b_l, b_r) =
    let size_l = Balanced-size below l b_l in
    let size_r = Balanced-size below r b_r in
    rw e
      (simp towards_suc (omega (arith, size_l, size_r, length-append (inorder l) (k ∷ inorder r))))

-- With fewer than 2 ^ h - 1 keys the tree is less than 2 h nodes deep.
pub height-lt :
    (m : Memory) (top_hi h fuel : ℕ) (keys : List ℕ) (holds : Holds m top_hi keys)
    → length keys + 1 < 2 ^ h
    → 2 * h ≤ fuel
    → height holds.tree < fuel
height-lt m top_hi h fuel keys holds few enough =
    let v = holds.red_black in
    let (high, any) = Balanced-height v.black_height holds.tree v.balanced in
    let size = Balanced-size v.black_height holds.tree v.balanced in
    elim (dec_lt v.black_height h) [
      | yes lt ↦ omega (arith, high v.black_root)
      | no ge ↦
          let bigger : 2 ^ h ≤ 2 ^ v.black_height = pow-le-pow_right (omega arith) (omega arith) in
          absurd (omega (arith, ap length holds.ordered))
    ]

-- If the memory holds a red-black tree of fewer than 2 ^ h - 1 keys, rbtree_search returns within
-- 2 h rounds, and gives nil when the key is not among the keys and else an allocated node that has
-- the key
pub rbtree_search-depth :
    (m : Memory) (top_hi h fuel : ℕ) (keys : List ℕ)
    → Holds m top_hi keys
    → length keys + 1 < 2 ^ h
    → 2 * h ≤ fuel
    → (key : ℕ) → (p : ℕ) × (rbtree_search fuel key m ≡ ok p) × Found m key keys p
rbtree_search-depth m top_hi h fuel keys holds few enough =
    rbtree_search-Found m top_hi fuel keys holds (height-lt m top_hi h fuel keys holds few enough)

-- If the memory holds a red-black tree of fewer than 2 ^ h - 1 keys below a bound, and the node is
-- allocated, is not nil and has a key below the bound, rbtree_insert returns with 2 h rounds for
-- each of its loops, whatever the node's other fields are, and the memory holds a red-black tree
-- of the keys with the new one put into the sorted list, unless it is there already; which
-- addresses are allocated, the keys, the values and nil stay
pub rbtree_insert-depth :
    (m : Memory) (top_hi h fuel z : ℕ) (keys : List ℕ)
    → Holds m top_hi keys
    → m.alive z ≡ true
    → z ≢ m.nil
    → m.key z < top_hi
    → length keys + 1 < 2 ^ h
    → 2 * h ≤ fuel
    → (m' : Memory) × (rbtree_insert fuel z m ≡ ok m')
      × Kept m m'
      × Holds m' top_hi (insert_key (m.key z) keys)
rbtree_insert-depth m top_hi h fuel z keys holds live some_z key_high few enough =
    rbtree_insert-Settles fuel z top_hi m keys holds live some_z key_high
      (height-lt m top_hi h fuel keys holds few enough)

-- If the memory holds a red-black tree of fewer than 2 ^ h - 1 keys, and rbtree_search finds a
-- node with the key, rbtree_delete of that node returns with 2 h rounds for each of its loops and
-- without a bad access, what it returns is an allocated node, which addresses are allocated stays,
-- and the memory holds a red-black tree, with its parent pointers, of the keys without the deleted
-- one, and still does when the returned node is freed
pub rbtree_delete-depth :
    (m : Memory) (top_hi h fuel key z : ℕ) (keys : List ℕ)
    → Holds m top_hi keys
    → rbtree_search fuel key m ≡ ok z
    → z ≢ m.nil
    → length keys + 1 < 2 ^ h
    → 2 * h ≤ fuel
    → (y : ℕ) × (m' : Memory) × (rbtree_delete fuel z m ≡ ok (y, m'))
      × (y ≢ m.nil)
      × (m.alive y ≡ true)
      × (m'.alive ≡ m.alive)
      × Holds m' top_hi (remove_key key keys)
      × Holds (free_node y m') top_hi (remove_key key keys)
rbtree_delete-depth m top_hi h fuel key z keys holds found some_z few enough =
    let d =
      rbtree_delete-Deletes m top_hi fuel key z keys holds found some_z
        (height-lt m top_hi h fuel keys holds few enough) in
    (d.cur, d.memory, d.run, d.some_cur, d.live_cur, d.alive, d.holds, d.holds_freed)
