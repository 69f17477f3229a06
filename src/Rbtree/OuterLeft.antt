-- ===== src/Rbtree/OuterLeft.antt =====
-- Rounds of `rbtree_insert_fixup` of rbtree/rbtree.cpp where the parent is a left child: the node
-- is one too.
use hello_world.Prelude.{ℕ, suc, ◌+◌, ◌≤◌, ◌≡◌, refl, ◌∙◌, ◌≢◌, inl, true, false, List, arith, ◌==◌}
use hello_world.Rbtree.Nodes.{Memory, red, black}
use hello_world.Rbtree.Insert.{fix_left}
use hello_world.Rbtree.Tree.{Tree, Spine, plug, inorder, root_color, leaf, node, in_left}
use hello_world.Rbtree.Shape.{At, up_left}
use hello_world.Rbtree.Relink.{root_ne}
use hello_world.Rbtree.Balance.{Balanced, BalancedAround, depth}
use hello_world.Rbtree.Paint.{painted, color_of}
use hello_world.Rbtree.Fix.{Fixes, TwoUp}
use hello_world.Rbtree.SettleLeft.{settle-Fixes, recolour-Fixing}

module _ (m : Memory) (top_hi g p kp kg n rounds : ℕ) (keys : List ℕ) (C : Tree) (up : Spine)
    (z k : ℕ) (l r : Tree) (b_z : Balanced n (node z red l k r))
    (deep : suc (depth up) ≤ rounds) where
  abbrev Z : Tree
  Z = node z red l k r

  -- `z` is the left child of its parent.
  module _ (U : Tree) (v : At m top_hi Z (in_left p red kp C (in_left g black kg U up)) z)
      (e : inorder (plug Z (in_left p red kp C (in_left g black kg U up))) ≡ keys)
      (around : BalancedAround n (in_left p red kp C (in_left g black kg U up))) where
    outer_p : At m top_hi (node p red Z kp C) (in_left g black kg U up) p
    outer_p = up_left v

    outer_g : At m top_hi (node g black (node p red Z kp C) kg U) up g
    outer_g = up_left outer_p

    pub outer_two : TwoUp m z p g
    outer_two = record {
      par_z = v.rep.1.parent;
      par_p = outer_p.rep.1.parent;
      live_z = v.rep.1.live;
      live_p = outer_p.rep.1.live;
      live_g = outer_g.rep.1.live;
    }

    outer_black : root_color U ≡ black → Fixes top_hi keys m rounds (fix_left z m)
    unfolding fix_left
    outer_black black_U =
        let two = outer_two in
        let (live_q, color_q) = color_of m g (m.right g) U v.nil_live v.nil_black outer_g.rep.3 in
        let color_u : m.color (m.right g) ≡ black = color_q ∙ black_U in
        let ne : z ≢ m.right p =
          root_ne m p (m.right p) (kp + 1) kg z C outer_p.rep.3 v.spine.2 v.rep.1.some_node
            (inl (omega (arith, v.rep.1.key, v.within))) in
        let other : (z == m.right p) ≡ false = ground (arith, ne) in
        let (z', m', settled, kept, fixing) =
          settle-Fixes m top_hi g p kp kg n rounds keys C U up z k l r v e b_z around black_U
            deep in
        (
          z',
          m',
          rw
              (
                two.live_z, two.par_z, two.live_p, two.par_p, two.live_g, live_q, color_u, other,
                settled,
              )
              refl,
          kept,
          fixing,
        )

  outer_red :
      (u ku : ℕ) (ul ur : Tree)
      → At m top_hi Z (in_left p red kp C (in_left g black kg (node u red ul ku ur) up)) z
      → inorder (plug Z (in_left p red kp C (in_left g black kg (node u red ul ku ur) up))) ≡ keys
      → BalancedAround n (in_left p red kp C (in_left g black kg (node u red ul ku ur) up))
      → Fixes top_hi keys m rounds (fix_left z m)
  unfolding fix_left
  outer_red u ku ul ur v e (black_C, b_C, under, (b_U, b_up)) =
      let around : BalancedAround n
          (in_left p red kp C (in_left g black kg (node u red ul ku ur) up)) =
        (black_C, b_C, under, (b_U, b_up)) in
      let two = outer_two (node u red ul ku ur) v e around in
      let v_g = outer_g (node u red ul ku ur) v e around in
      let at_u : m.right g ≡ u = v_g.rep.3.0 in
      let live_u : m.alive u ≡ true = v_g.rep.3.1.live in
      let color_u : m.color u ≡ red = v_g.rep.3.1.color in
      (
        g,
        painted u black (painted g red (painted p black m)),
        rw (two.live_z, two.par_z, two.live_p, two.par_p, two.live_g, at_u, live_u, color_u) refl,
        record { alive = refl; key = refl; value = refl; nil = refl },
        recolour-Fixing m top_hi g p kp kg n rounds keys C (node u red ul ku ur) up u ku ul ur Z C
            v_g e b_z b_C b_U b_up (omega (arith, deep)),
      )

  pub outer-Fixes :
      (U : Tree)
      → At m top_hi Z (in_left p red kp C (in_left g black kg U up)) z
      → inorder (plug Z (in_left p red kp C (in_left g black kg U up))) ≡ keys
      → BalancedAround n (in_left p red kp C (in_left g black kg U up))
      → Fixes top_hi keys m rounds (fix_left z m)
  outer-Fixes leaf v e around = outer_black leaf v e around refl
  outer-Fixes (node u black ul ku ur) v e around =
      outer_black (node u black ul ku ur) v e around refl
  outer-Fixes (node u red ul ku ur) v e around = outer_red u ku ul ur v e around
