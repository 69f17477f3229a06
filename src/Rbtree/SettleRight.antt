-- ===== src/Rbtree/SettleRight.antt =====
-- Rounds of `rbtree_insert_fixup` of rbtree/rbtree.cpp where the parent is a right child: what they
-- write.
use mathlib.Core.Path.{subst}
use hello_world.Prelude.{ℕ, suc, ◌≤◌, ◌≡◌, refl, ◌∙◌, true, List, ◌∷◌}
use hello_world.Rbtree.Nodes.{Memory, red, black}
use hello_world.Rbtree.Insert.{settle_left}
use hello_world.Rbtree.Tree.{
  Tree, Spine, plug, inorder, root_color, append_assoc, node, in_left, in_right,
}
use hello_world.Rbtree.Shape.{At, Kept-trans, up_left, up_right, down_left, down_right}
use hello_world.Rbtree.RotateLeft.{left_rotate-At}
use hello_world.Rbtree.Balance.{Balanced, BalancedAround, depth}
use hello_world.Rbtree.Paint.{painted, painted-At}
use hello_world.Rbtree.Fix.{Fixing, Fixes, plug-inorder}

module _ (m : Memory) (top_hi g p kp kg n rounds : ℕ) (keys : List ℕ) (C U : Tree)
    (up : Spine) where
  -- The parent `p` is painted black, the grandparent `g` red and rotated down.
  pub settle-Fixes :
      (z k : ℕ) (l r : Tree)
      → At m top_hi (node z red l k r) (in_right p red C kp (in_right g black U kg up)) z
      → inorder (plug (node z red l k r) (in_right p red C kp (in_right g black U kg up))) ≡ keys
      → Balanced n (node z red l k r)
      → BalancedAround n (in_right p red C kp (in_right g black U kg up))
      → root_color U ≡ black
      → suc (depth up) ≤ rounds
      → Fixes top_hi keys m rounds (settle_left z m)
  unfolding settle_left
  settle-Fixes z k l r v e b (black_C, b_C, under, (b_U, b_up)) black_U deep =
      let Z = node z red l k r in
      let at_p = up_right v in
      let cell_z = v.rep.1 in
      let cell_p = at_p.rep.1 in
      let m₁ = painted p black m in
      let at_g =
        up_right (painted-At m top_hi p kp p red black C Z (in_right g black U kg up) at_p) in
      let cell_g = at_g.rep.1 in
      let m₂ = painted g red m₁ in
      let at_g' = painted-At m₁ top_hi g kg g black red U (node p black C kp Z) up at_g in
      let (m₃, turned, kept, same_nil, v₃) =
        left_rotate-At m₂ top_hi g p g kg kp red black U C Z up at_g' in
      let v_z = down_right v₃ in
      let at_z : m₃.right p ≡ z = v_z.rep.0 in
      let par_z : m.parent z ≡ p = cell_z.parent in
      let par_p : m.parent p ≡ g = cell_p.parent in
      let live_p : m.alive p ≡ true = cell_p.live in
      let live_g : m.alive g ≡ true = cell_g.live in
      (
        z,
        m₃,
        rw (cell_z.live, par_z, live_p, live_p, par_p, live_g, turned) refl,
        Kept-trans (record { alive = refl; key = refl; value = refl; nil = refl }) kept,
        record {
          l = l;
          r = r;
          k = k;
          s = in_right p black (node g red U kg C) kp up;
          n = n;
          at = subst (λ q. At m₃ top_hi Z (in_right p black (node g red U kg C) kp up) q) at_z v_z;
          ordered =
              plug-inorder (node p black (node g red U kg C) kp Z)
                (node g black U kg (node p red C kp Z)) up
                (append_assoc (inorder U) (kg ∷ inorder C) (kp ∷ inorder Z))
              ∙ e;
          balanced = b;
          around = ((black_U, black_C, b_U, b_C), b_up);
          deep = deep;
        },
      )

  pub recolour-Fixing :
      (u ku : ℕ) (ul ur Pl Pr : Tree)
      → At m top_hi (node g black (node u red ul ku ur) kg (node p red Pl kp Pr)) up g
      → inorder (plug (node g black (node u red ul ku ur) kg (node p red Pl kp Pr)) up) ≡ keys
      → Balanced n Pl
      → Balanced n Pr
      → Balanced n (node u red ul ku ur)
      → BalancedAround (suc n) up
      → depth up ≤ rounds
      → Fixing top_hi keys (painted g red (painted u black (painted p black m))) g rounds
  recolour-Fixing u ku ul ur Pl Pr v e b_Pl b_Pr (black_ul, black_ur, b_ul, b_ur) b_up deep =
      let P = node p red Pl kp Pr in
      let V = node u red ul ku ur in
      let m₁ = painted p black m in
      let m₂ = painted u black m₁ in
      let at_p : At m top_hi P (in_right g black V kg up) p =
        subst (λ q. At m top_hi P (in_right g black V kg up) q) v.rep.3.0 (down_right v) in
      let at_g =
        up_right (painted-At m top_hi p kp p red black Pl Pr (in_right g black V kg up) at_p) in
      let at_u =
        painted-At m₁ top_hi u ku (m₁.left g) red black ul ur
          (in_left g black kg (node p black Pl kp Pr) up) (down_left at_g) in
      record {
        l = node u black ul ku ur;
        r = node p black Pl kp Pr;
        k = kg;
        s = up;
        n = suc n;
        at =
            painted-At m₂ top_hi g kg g black red (node u black ul ku ur) (node p black Pl kp Pr) up
              (up_left at_u);
        ordered =
            plug-inorder (node g red (node u black ul ku ur) kg (node p black Pl kp Pr))
              (node g black V kg P) up refl
            ∙ e;
        balanced = (refl, refl, (n, refl, b_ul, b_ur), (n, refl, b_Pl, b_Pr));
        around = b_up;
        deep = deep;
      }
