-- ===== src/Rbtree/OneChild.antt =====
-- The node that `rbtree_delete` of rbtree/rbtree.cpp takes out of the tree: it has at most one child.
use mathlib.Core.Path.{subst}
use hello_world.Prelude.{
  ℕ, suc, ◌+◌, ◌≤◌, ◌<◌, ◌≡◌, refl, sym, ap, ◌∙◌, ◌≢◌, ◌⊎◌, inl, inr, true, false, List, ◌++◌,
  arith, ◌==◌, if◌then◌else◌, ==→eq, ==_self, Bool-cases,
}
use hello_world.Outcome.{ok}
use hello_world.Rbtree.Nodes.{Color, is_red, Memory, update, red, black}
use hello_world.Rbtree.Rotate.{replace}
use hello_world.Rbtree.Delete.{rbtree_delete_fixup, unlink}
use hello_world.Rbtree.Tree.{
  Tree, Spine, plug, inorder, before, after, Within, low, high, InSpine, root_color, append_assoc,
  append_nil, inorder-plug, inorder-plug_node, leaf, node,
}
use hello_world.Rbtree.Shape.{Rep, above, At, At-plug}
use hello_world.Rbtree.Relink.{update_self}
use hello_world.Rbtree.Unlinked.{unlinked, unlinks, unlinked-At}
use hello_world.Rbtree.Shift.{HasParent, Balanced-Short, left_over-le}
use hello_world.Rbtree.Repair.{plug-black, repair-Settles}
use hello_world.Rbtree.Fix.{Kept-refl}
use hello_world.Rbtree.Fixup.{Settles}
use hello_world.Rbtree.Paint.{color_of}
use hello_world.Rbtree.Sorted.{remove_key, remove_key-at, left-AllBelow}
use hello_world.Rbtree.Balance.{Balanced, BalancedAround, depth, Balanced-plug}
use hello_world.Rbtree.Freed.{freed, At-freed}

-- A node with at most one child, and that child.
abbrev pub HasLeaf : Tree → Tree → Type 0
HasLeaf leaf r = Unit
HasLeaf (node a c l k r') r = r ≡ leaf

abbrev pub child : Tree → Tree → Tree
child leaf r = r
child (node a c l k r') r = node a c l k r'

child-inorder : (l r : Tree) → HasLeaf l r → inorder (child l r) ≡ inorder l ++ inorder r
child-inorder leaf r one = refl
child-inorder (node a c l k r') r one =
    sym (append_nil (inorder (node a c l k r')))
    ∙ ap (λ q. inorder (node a c l k r') ++ inorder q) (sym one)

-- The tree with the child in the node's place has the other keys.
pub child-remove :
    (top_hi a k : ℕ) (c : Color) (l r : Tree) (s : Spine)
    → HasLeaf l r
    → low s ≤ k
    → Within (low s) k l
    → InSpine top_hi s
    → inorder (plug (child l r) s) ≡ remove_key k (inorder (plug (node a c l k r) s))
child-remove top_hi a k c l r s one low_k in_l in_s =
    inorder-plug (child l r) s
    ∙ ap (λ q. before s ++ (q ++ after s)) (child-inorder l r one)
    ∙ ap (λ q. before s ++ q) (append_assoc (inorder l) (inorder r) (after s))
    ∙ sym (append_assoc (before s) (inorder l) (inorder r ++ after s))
    ∙ sym (
        remove_key-at k (before s ++ inorder l) (inorder r ++ after s)
          (left-AllBelow top_hi k l s low_k in_l in_s))
    ∙ ap (remove_key k) (sym (inorder-plug_node a k c l r s))

child-under_red :
    (n y k : ℕ) (l r : Tree)
    → Balanced n (node y red l k r)
    → Balanced n (child l r) × (root_color (child l r) ≡ black)
child-under_red n y k leaf r (black_l, black_r, b_l, b_r) = (b_r, black_r)
child-under_red n y k (node a c l k' r') r (black_l, black_r, b_l, b_r) = (b_l, black_l)

child-under_black :
    (n y k : ℕ) (l r : Tree)
    → Balanced n (node y black l k r)
    → (below : ℕ) × (n ≡ suc below) × Balanced below (child l r)
child-under_black n y k leaf r (below, e, b_l, b_r) = (below, e, b_r)
child-under_black n y k (node a c l k' r') r (below, e, b_l, b_r) = (below, e, b_l)

pub repair_after-Settles :
    (fuel : ℕ) (m : Memory) (top_hi x y k n : ℕ) (keys : List ℕ) (c : Color) (l r : Tree)
    (s : Spine)
    → At m top_hi (child l r) s x
    → HasParent m (above m.nil s) (child l r)
    → inorder (plug (child l r) s) ≡ keys
    → Balanced n (node y c l k r)
    → BalancedAround n s
    → depth s < fuel
    → Settles top_hi keys m (if is_red c then ok m else rbtree_delete_fixup fuel x m)
repair_after-Settles fuel m top_hi x y k n keys red l r s v par e b around enough =
    let (b_t, black_t) = child-under_red n y k l r b in
    let (height, balanced) = Balanced-plug s n (child l r) b_t around (inl black_t) in
    (
      m,
      refl,
      Kept-refl,
      record {
        tree = plug (child l r) s;
        at = At-plug s v;
        ordered = e;
        red_black = record {
          black_root = plug-black s n (child l r) (inl black_t) around;
          black_height = height;
          balanced = balanced;
        };
      },
    )
repair_after-Settles fuel m top_hi x y k n keys black l r s v par e b around enough =
    let (below, same_n, b_t) = child-under_black n y k l r b in
    repair-Settles fuel (depth s) m top_hi x keys enough (record {
      t = child l r;
      s = s;
      n = below;
      at = v;
      par = par;
      ordered = e;
      short = Balanced-Short below (child l r) b_t;
      around = subst (λ q. BalancedAround q s) same_n around;
      few = left_over-le (child l r) s;
    })

-- The unlinking of a node with at most one child.
pub record Unlinks (m : Memory) (top_hi y : ℕ) (t : Tree) (s : Spine) : Type 0 where
  pub x : ℕ
  pub run : unlink y m ≡ ok (x, unlinked s x m)
  pub at : At (unlinked s x m) top_hi t s x
  pub at_freed : At (freed y (unlinked s x m)) top_hi t s x
  pub par : HasParent (unlinked s x m) (above m.nil s) t

unlink-run :
    (m m' : Memory) (y x p : ℕ)
    → m.alive y ≡ true
    → (if m.left y == m.nil then (if m.right y == m.nil then m.nil else m.right y) else m.left y)
      ≡ x
    → m.alive x ≡ true
    → m.parent y ≡ p
    → replace y x (record m { parent = update m.parent x p }) ≡ ok m'
    → unlink y m ≡ ok (x, m')
unfolding unlink
unlink-run m m' y x p live only live_x par replaced = rw (live, only, par, live_x, replaced) refl

child-HasParent :
    (m : Memory) (y x : ℕ) (t : Tree) (s : Spine)
    → Rep m y x t
    → HasParent (unlinked s x m) (above m.nil s) t
child-HasParent m y x leaf s rep =
    subst (λ q. update m.parent x (above m.nil s) q ≡ above m.nil s) rep
      (update_self m.parent x (above m.nil s))
child-HasParent m y x (node a c l k r) s rep = tt

pub unlink-Unlinks :
    (m : Memory) (top_hi y k : ℕ) (c : Color) (l r : Tree) (s : Spine)
    → HasLeaf l r
    → At m top_hi (node y c l k r) s y
    → Unlinks m top_hi y (child l r) s
unlink-Unlinks m top_hi y k c leaf r s one v =
    let (at, cell, rep_l, rep_r) = v.rep in
    let (low_k, k_high, in_l, in_r) = v.within in
    let x = m.right y in
    let inside : (low s ≤ k + 1) × (high top_hi s ≤ high top_hi s) = (omega arith, omega arith) in
    let apart : (k < k + 1) ⊎ (high top_hi s ≤ k) = inl (omega arith) in
    let none_left : (m.left y == m.nil) ≡ true = ap (λ q. q == m.nil) rep_l ∙ ==_self m.nil in
    let live_x = (color_of m y x r v.nil_live v.nil_black rep_r).0 in
    record {
      x = x;
      run =
          unlink-run m (unlinked s x m) y x (above m.nil s) cell.live (rw none_left (either m x))
            live_x cell.parent
            (unlinks m top_hi y x k (k + 1) (high top_hi s) c leaf r r s v rep_r in_r inside apart);
      at =
          unlinked-At m top_hi y x k (k + 1) (high top_hi s) c leaf r r s v rep_r in_r inside apart;
      at_freed =
          At-freed (unlinked s x m) top_hi y x (k + 1) (high top_hi s) r s
            (unlinked-At m top_hi y x k (k + 1) (high top_hi s) c leaf r r s v rep_r in_r inside
              apart)
            in_r (inl (omega (arith, cell.key))) (omega (arith, cell.key)) (omega (arith, cell.key))
            cell.some_node;
      par = child-HasParent m y x r s rep_r;
    }
  where
    either : (m : Memory) (x : ℕ) → (if x == m.nil then m.nil else x) ≡ x
    either m x = elim (Bool-cases (x == m.nil)) [
      | inl e ↦ rw e (sym (==→eq x m.nil e))
      | inr e ↦ rw e refl
    ]
unlink-Unlinks m top_hi y k c (node a ca la ka ra) r s one v =
    let l = node a ca la ka ra in
    let (at, cell, rep_l, rep_r) = v.rep in
    let (low_k, k_high, in_l, in_r) = v.within in
    let x = m.left y in
    let inside : (low s ≤ low s) × (k ≤ high top_hi s) = (omega arith, omega arith) in
    let apart : (k < low s) ⊎ (k ≤ k) = inr (omega arith) in
    let some_left : (m.left y == m.nil) ≡ false =
      let ne : m.left y ≢ m.nil = λ e. rep_l.1.some_node (sym rep_l.0 ∙ e) in ground (arith, ne) in
    let live_x = (color_of m y x l v.nil_live v.nil_black rep_l).0 in
    record {
      x = x;
      run =
          unlink-run m (unlinked s x m) y x (above m.nil s) cell.live (rw some_left refl) live_x
            cell.parent (unlinks m top_hi y x k (low s) k c l r l s v rep_l in_l inside apart);
      at = unlinked-At m top_hi y x k (low s) k c l r l s v rep_l in_l inside apart;
      at_freed =
          At-freed (unlinked s x m) top_hi y x (low s) k l s
            (unlinked-At m top_hi y x k (low s) k c l r l s v rep_l in_l inside apart) in_l
            (inr (omega (arith, cell.key))) (omega (arith, cell.key)) (omega (arith, cell.key))
            cell.some_node;
      par = child-HasParent m y x l s rep_l;
    }
