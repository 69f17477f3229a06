-- ===== src/Rbtree/InnerLeft.antt =====
-- Rounds of `rbtree_insert_fixup` of rbtree/rbtree.cpp where the parent is a left child: the node
-- is none.
use mathlib.Core.Path.{subst}
use hello_world.Prelude.{ℕ, suc, ◌≤◌, ◌≡◌, refl, ◌∙◌, true, List, ◌∷◌, arith, ◌==◌, ==_self}
use hello_world.Rbtree.Nodes.{Memory, red, black}
use hello_world.Rbtree.Insert.{fix_left}
use hello_world.Rbtree.Tree.{
  Tree, Spine, plug, inorder, root_color, append_assoc, leaf, node, in_left, in_right,
}
use hello_world.Rbtree.Shape.{At, Kept-trans, up_left, up_right, down_left}
use hello_world.Rbtree.RotateLeft.{left_rotate-At}
use hello_world.Rbtree.Balance.{Balanced, BalancedAround, depth}
use hello_world.Rbtree.Paint.{painted, color_of}
use hello_world.Rbtree.Fix.{Fixes, plug-inorder, TwoUp}
use hello_world.Rbtree.SettleLeft.{settle-Fixes, recolour-Fixing}

-- `z` is the right child of its parent.
module _ (m : Memory) (top_hi g p kp kg n rounds : ℕ) (keys : List ℕ) (A : Tree) (up : Spine)
    (z k : ℕ) (l r : Tree) (b_z : Balanced n (node z red l k r))
    (deep : suc (depth up) ≤ rounds) where
  abbrev Z' : Tree
  Z' = node z red l k r

  module _ (U : Tree) (v : At m top_hi Z' (in_right p red A kp (in_left g black kg U up)) z)
      (e : inorder (plug Z' (in_right p red A kp (in_left g black kg U up))) ≡ keys)
      (around : BalancedAround n (in_right p red A kp (in_left g black kg U up))) where
    inner_p : At m top_hi (node p red A kp Z') (in_left g black kg U up) p
    inner_p = up_right v

    inner_g : At m top_hi (node g black (node p red A kp Z') kg U) up g
    inner_g = up_left inner_p

    pub inner_two : TwoUp m z p g
    inner_two = record {
      par_z = v.rep.1.parent;
      par_p = inner_p.rep.1.parent;
      live_z = v.rep.1.live;
      live_p = inner_p.rep.1.live;
      live_g = inner_g.rep.1.live;
    }

    inner_black : root_color U ≡ black → Fixes top_hi keys m rounds (fix_left z m)
    unfolding fix_left
    inner_black black_U =
        let two = inner_two in
        let (live_q, color_q) = color_of m g (m.right g) U v.nil_live v.nil_black inner_g.rep.3 in
        let color_u : m.color (m.right g) ≡ black = color_q ∙ black_U in
        let at_z : m.right p ≡ z = inner_p.rep.3.0 in
        let is_right : (z == m.right p) ≡ true = rw at_z (==_self z) in
        let (m₁, turned, kept, same_nil, v₁) =
          left_rotate-At m top_hi p z p kp k red red A l r (in_left g black kg U up) inner_p in
        let S = in_left z red k r (in_left g black kg U up) in
        let N = node p red A kp l in
        let v_p : At m₁ top_hi N S p = subst (λ q. At m₁ top_hi N S q) v₁.rep.2.0 (down_left v₁) in
        let e' : inorder (plug N S) ≡ keys =
          plug-inorder (node z red N k r) (node p red A kp Z') (in_left g black kg U up)
            (append_assoc (inorder A) (kp ∷ inorder l) (k ∷ inorder r))
          ∙ e in
        let (black_l, black_r, b_l, b_r) = b_z in
        let (black_A, b_A, under, outside) = around in
        let (z', m', settled, kept', fixing) =
          settle-Fixes m₁ top_hi g z k kg n rounds keys r U up p kp A l v_p e'
            (black_A, black_l, b_A, b_l) (black_r, b_r, under, outside) black_U deep in
        (
          z',
          m',
          rw
              (
                two.live_z, two.par_z, two.live_p, two.par_p, two.live_g, live_q, color_u, is_right,
                turned, settled,
              )
              refl,
          Kept-trans kept kept',
          fixing,
        )

  inner_red :
      (u ku : ℕ) (ul ur : Tree)
      → At m top_hi Z' (in_right p red A kp (in_left g black kg (node u red ul ku ur) up)) z
      → inorder (plug Z' (in_right p red A kp (in_left g black kg (node u red ul ku ur) up))) ≡ keys
      → BalancedAround n (in_right p red A kp (in_left g black kg (node u red ul ku ur) up))
      → Fixes top_hi keys m rounds (fix_left z m)
  unfolding fix_left
  inner_red u ku ul ur v e (black_A, b_A, under, (b_U, b_up)) =
      let around : BalancedAround n
          (in_right p red A kp (in_left g black kg (node u red ul ku ur) up)) =
        (black_A, b_A, under, (b_U, b_up)) in
      let two = inner_two (node u red ul ku ur) v e around in
      let v_g = inner_g (node u red ul ku ur) v e around in
      let at_u : m.right g ≡ u = v_g.rep.3.0 in
      let live_u : m.alive u ≡ true = v_g.rep.3.1.live in
      let color_u : m.color u ≡ red = v_g.rep.3.1.color in
      (
        g,
        painted u black (painted g red (painted p black m)),
        rw (two.live_z, two.par_z, two.live_p, two.par_p, two.live_g, at_u, live_u, color_u) refl,
        record { alive = refl; key = refl; value = refl; nil = refl },
        recolour-Fixing m top_hi g p kp kg n rounds keys A (node u red ul ku ur) up u ku ul ur A Z'
            v_g e b_A b_z b_U b_up (omega (arith, deep)),
      )

  pub inner-Fixes :
      (U : Tree)
      → At m top_hi Z' (in_right p red A kp (in_left g black kg U up)) z
      → inorder (plug Z' (in_right p red A kp (in_left g black kg U up))) ≡ keys
      → BalancedAround n (in_right p red A kp (in_left g black kg U up))
      → Fixes top_hi keys m rounds (fix_left z m)
  inner-Fixes leaf v e around = inner_black leaf v e around refl
  inner-Fixes (node u black ul ku ur) v e around =
      inner_black (node u black ul ku ur) v e around refl
  inner-Fixes (node u red ul ku ur) v e around = inner_red u ku ul ur v e around
