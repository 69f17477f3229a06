-- ===== src/Rbtree/SettleLeft.antt =====
-- Rounds of `rbtree_insert_fixup` of rbtree/rbtree.cpp where the parent is a left child: what they
-- write.
use mathlib.Core.Path.{subst}
use hello_world.Prelude.{ℕ, suc, ◌≤◌, ◌≡◌, refl, sym, ◌∙◌, true, List, ◌∷◌}
use hello_world.Rbtree.Nodes.{Memory, red, black}
use hello_world.Rbtree.Insert.{settle_right}
use hello_world.Rbtree.Tree.{
  Tree, Spine, plug, inorder, root_color, append_assoc, node, in_left, in_right,
}
use hello_world.Rbtree.Shape.{At, Kept-trans, up_left, up_right, down_left, down_right}
use hello_world.Rbtree.RotateRight.{right_rotate-At}
use hello_world.Rbtree.Balance.{Balanced, BalancedAround, depth}
use hello_world.Rbtree.Paint.{painted, painted-At}
use hello_world.Rbtree.Fix.{Fixing, Fixes, plug-inorder}

module _ (m : Memory) (top_hi g p kp kg n rounds : ℕ) (keys : List ℕ) (C U : Tree)
    (up : Spine) where
  -- The parent `p` is painted black, the grandparent `g` red and rotated down.
  pub settle-Fixes :
      (z k : ℕ) (l r : Tree)
      → At m top_hi (node z red l k r) (in_left p red kp C (in_left g black kg U up)) z
      → inorder (plug (node z red l k r) (in_left p red kp C (in_left g black kg U up))) ≡ keys
      → Balanced n (node z red l k r)
      → BalancedAround n (in_left p red kp C (in_left g black kg U up))
      → root_color U ≡ black
      → suc (depth up) ≤ rounds
      → Fixes top_hi keys m rounds (settle_right z m)
  unfolding settle_right
  settle-Fixes z k l r v e b (black_C, b_C, under, (b_U, b_up)) black_U deep =
      let Z = node z red l k r in
      let at_p = up_left v in
      let cell_z = v.rep.1 in
      let cell_p = at_p.rep.1 in
      let m₁ = painted p black m in
      let at_g =
        up_left (painted-At m top_hi p kp p red black Z C (in_left g black kg U up) at_p) in
      let cell_g = at_g.rep.1 in
      let m₂ = painted g red m₁ in
      let at_g' = painted-At m₁ top_hi g kg g black red (node p black Z kp C) U up at_g in
      let (m₃, turned, kept, same_nil, v₃) =
        right_rotate-At m₂ top_hi g p g kg kp red black U C Z up at_g' in
      let v_z = down_left v₃ in
      let at_z : m₃.left p ≡ z = v_z.rep.0 in
      let par_z : m.parent z ≡ p = cell_z.parent in
      let par_p : m.parent p ≡ g = cell_p.parent in
      let live_p : m.alive p ≡ true = cell_p.live in
      let live_g : m.alive g ≡ true = cell_g.live in
      (
        z,
        m₃,
        rw (cell_z.live, par_z, live_p, live_p, par_p, live_g, turned) refl,
        Kept-trans (record { alive = refl; key = refl; value = refl; nil = refl }) kept,
        record {
          l = l;
          r = r;
          k = k;
          s = in_left p black kp (node g red C kg U) up;
          n = n;
          at = subst (λ q. At m₃ top_hi Z (in_left p black kp (node g red C kg U) up) q) at_z v_z;
          ordered =
              plug-inorder (node p black Z kp (node g red C kg U))
                (node g black (node p red Z kp C) kg U) up
                (sym (append_assoc (inorder Z) (kp ∷ inorder C) (kg ∷ inorder U)))
              ∙ e;
          balanced = b;
          around = ((black_C, black_U, b_C, b_U), b_up);
          deep = deep;
        },
      )

  pub recolour-Fixing :
      (u ku : ℕ) (ul ur Pl Pr : Tree)
      → At m top_hi (node g black (node p red Pl kp Pr) kg (node u red ul ku ur)) up g
      → inorder (plug (node g black (node p red Pl kp Pr) kg (node u red ul ku ur)) up) ≡ keys
      → Balanced n Pl
      → Balanced n Pr
      → Balanced n (node u red ul ku ur)
      → BalancedAround (suc n) up
      → depth up ≤ rounds
      → Fixing top_hi keys (painted u black (painted g red (painted p black m))) g rounds
  recolour-Fixing u ku ul ur Pl Pr v e b_Pl b_Pr (black_ul, black_ur, b_ul, b_ur) b_up deep =
      let P = node p red Pl kp Pr in
      let V = node u red ul ku ur in
      let m₁ = painted p black m in
      let m₂ = painted g red m₁ in
      let at_p : At m top_hi P (in_left g black kg V up) p =
        subst (λ q. At m top_hi P (in_left g black kg V up) q) v.rep.2.0 (down_left v) in
      let at_g =
        up_left (painted-At m top_hi p kp p red black Pl Pr (in_left g black kg V up) at_p) in
      let at_g' = painted-At m₁ top_hi g kg g black red (node p black Pl kp Pr) V up at_g in
      let at_u =
        painted-At m₂ top_hi u ku (m₂.right g) red black ul ur
          (in_right g red (node p black Pl kp Pr) kg up) (down_right at_g') in
      record {
        l = node p black Pl kp Pr;
        r = node u black ul ku ur;
        k = kg;
        s = up;
        n = suc n;
        at = up_right at_u;
        ordered =
            plug-inorder (node g red (node p black Pl kp Pr) kg (node u black ul ku ur))
              (node g black P kg V) up refl
            ∙ e;
        balanced = (refl, refl, (n, refl, b_Pl, b_Pr), (n, refl, b_ul, b_ur));
        around = b_up;
        deep = deep;
      }
