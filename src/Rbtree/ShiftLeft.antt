-- ===== src/Rbtree/ShiftLeft.antt =====
-- Rounds of `rbtree_delete_fixup` of rbtree/rbtree.cpp where `x` is a left child: a red sibling goes up
-- first.
use mathlib.Core.Path.{subst}
use hello_world.Prelude.{ℕ, suc, ◌≤◌, ◌≡◌, refl, ◌∙◌, inl, inr, true, List, ◌∷◌, arith}
use hello_world.Outcome.{ok}
use hello_world.Rbtree.Nodes.{Color, Memory, red, black}
use hello_world.Rbtree.Rotate.{rbtree_left_rotate}
use hello_world.Rbtree.Delete.{lift_right, lend_right, shift_left}
use hello_world.Rbtree.Tree.{
  Tree, Spine, plug, inorder, root_color, append_assoc, leaf, node, in_left, in_right,
}
use hello_world.Rbtree.Shape.{At, Kept-trans, up_left, up_right, down_left, down_right}
use hello_world.Rbtree.Balance.{Balanced, BalancedAround, depth}
use hello_world.Rbtree.Paint.{painted, painted-At}
use hello_world.Rbtree.RotateLeft.{left_rotate-At}
use hello_world.Rbtree.Fix.{plug-inorder}
use hello_world.Rbtree.Shift.{HasParent, Shifts, Seen, At-Seen, root_same, Joins, HasParent-kept}
use hello_world.Rbtree.ShareLeft.{lend-Shifts}

shift-plain :
    (m : Memory) (x p w : ℕ) (cx : Color)
    → Seen m x p cx
    → m.alive p ≡ true
    → m.right p ≡ w
    → m.alive w ≡ true
    → m.color w ≡ black
    → shift_left x m ≡ lend_right x w m
unfolding shift_left
shift-plain m x p w cx seen live_p right_p live_w color_w =
    rw (seen.live, seen.parent, live_p, right_p, live_w, color_w) refl

shift-lifted :
    (m m' : Memory) (x p w w' : ℕ) (cx : Color)
    → Seen m x p cx
    → m.alive p ≡ true
    → m.right p ≡ w
    → m.alive w ≡ true
    → m.color w ≡ red
    → lift_right x p w m ≡ ok (w', m')
    → shift_left x m ≡ lend_right x w' m'
unfolding shift_left
shift-lifted m m' x p w w' cx seen live_p right_p live_w color_w lifted =
    rw (seen.live, seen.parent, live_p, right_p, live_w, color_w, lifted) refl

lift-run :
    (m m₃ : Memory) (x p w w' : ℕ) (cx : Color)
    → m.alive w ≡ true
    → m.alive p ≡ true
    → rbtree_left_rotate p (painted p red (painted w black m)) ≡ ok m₃
    → Seen m₃ x p cx
    → m₃.alive p ≡ true
    → m₃.right p ≡ w'
    → lift_right x p w m ≡ ok (w', m₃)
unfolding lift_right
lift-run m m₃ x p w w' cx live_w live_p turned seen live_p' right_p =
    rw (live_w, live_p, turned, seen.live, seen.parent, live_p', right_p) refl

module _ (top_hi p kp n rounds x : ℕ) (keys : List ℕ) (T : Tree) (up : Spine) (m : Memory)
    (black_T : root_color T ≡ black) (b_T : Balanced n T) (few : depth up ≤ rounds) where
  lifted-Shifts :
      (w kw b kb : ℕ) (bl br wr : Tree)
      → At m top_hi T (in_left p black kp (node w red (node b black bl kb br) kw wr) up) x
      → HasParent m p T
      → inorder (plug T (in_left p black kp (node w red (node b black bl kb br) kw wr) up)) ≡ keys
      → Balanced (suc n) (node w red (node b black bl kb br) kw wr)
      → BalancedAround (suc (suc n)) up
      → Shifts top_hi keys m rounds (shift_left x m)
  lifted-Shifts w kw b kb bl br wr v par e (black_wl, black_wr, (below, e_n, b_bl, b_br), b_wr)
        around =
      let B = node b black bl kb br in
      let W = node w red B kw wr in
      let at_p = up_left v in
      let at_w : At m top_hi W (in_right p black T kp up) w =
        subst (λ q. At m top_hi W (in_right p black T kp up) q) at_p.rep.3.0 (down_right at_p) in
      let m₁ = painted w black m in
      let at_p₁ =
        up_right (painted-At m top_hi w kw w red black B wr (in_right p black T kp up) at_w) in
      let m₂ = painted p red m₁ in
      let at_p₂ = painted-At m₁ top_hi p kp p black red T (node w black B kw wr) up at_p₁ in
      let (m₃, turned, kept, same_nil, v₃) =
        left_rotate-At m₂ top_hi p w p kp kw red black T B wr up at_p₂ in
      let P = node p red T kp B in
      let S = in_left w black kw wr up in
      let at_p₃ : At m₃ top_hi P S p = subst (λ q. At m₃ top_hi P S q) v₃.rep.2.0 (down_left v₃) in
      let same_x : m₃.left p ≡ x = root_same m m₃ p p x (m₃.left p) T kept.nil v.rep at_p₃.rep.2 in
      let S' = in_left p red kp B S in
      let at_x : At m₃ top_hi T S' x = subst (λ q. At m₃ top_hi T S' q) same_x (down_left at_p₃) in
      let par₃ = HasParent-kept m m₃ p T kept.nil same_nil par in
      let seen = At-Seen m top_hi x T (in_left p black kp W up) v par in
      let seen₃ = At-Seen m₃ top_hi x T S' at_x par₃ in
      let live_p : m.alive p ≡ true = at_p.rep.1.live in
      let right_p : m.right p ≡ w = at_p.rep.3.0 in
      let live_w : m.alive w ≡ true = at_w.rep.1.live in
      let color_w : m.color w ≡ red = at_w.rep.1.color in
      let lifted =
        lift-run m m₃ x p w b (root_color T) live_w live_p turned seen₃ at_p₃.rep.1.live
          at_p₃.rep.3.0 in
      let runs =
        shift-lifted m m₃ x p w b (root_color T) seen live_p right_p live_w color_w lifted in
      let again : inorder (plug T S') ≡ keys =
        plug-inorder (node w black P kw wr) (node p black T kp W) up
          (append_assoc (inorder T) (kp ∷ inorder B) (kw ∷ inorder wr))
        ∙ e in
      let same_n : below ≡ n = omega arith in
      let (x', m', lent, kept', shifting) =
        lend-Shifts top_hi p kp n rounds x keys T S b_T red (tt, (b_wr, around)) (inl refl) m₃ b kb
          bl br at_x par₃ again (subst (λ q. Balanced q bl) same_n b_bl)
          (subst (λ q. Balanced q br) same_n b_br) in
      (
        x',
        m',
        runs ∙ lent,
        Kept-trans (record { alive = refl; key = refl; value = refl; nil = refl })
            (Kept-trans kept kept'),
        shifting,
      )

  plain-Shifts :
      (cp : Color) (w kw : ℕ) (a d : Tree)
      → At m top_hi T (in_left p cp kp (node w black a kw d) up) x
      → HasParent m p T
      → inorder (plug T (in_left p cp kp (node w black a kw d) up)) ≡ keys
      → Balanced (suc n) (node w black a kw d)
      → Joins cp n up
      → Shifts top_hi keys m rounds (shift_left x m)
  plain-Shifts cp w kw a d v par e (below, e_n, b_a, b_d) joins =
      let at_p = up_left v in
      let seen = At-Seen m top_hi x T (in_left p cp kp (node w black a kw d) up) v par in
      let runs =
        shift-plain m x p w (root_color T) seen at_p.rep.1.live at_p.rep.3.0 at_p.rep.3.1.live
          at_p.rep.3.1.color in
      let same_n : below ≡ n = omega arith in
      let (x', m', lent, kept, shifting) =
        lend-Shifts top_hi p kp n rounds x keys T up b_T cp joins (inr few) m w kw a d v par e
          (subst (λ q. Balanced q a) same_n b_a) (subst (λ q. Balanced q d) same_n b_d) in
      (x', m', runs ∙ lent, kept, shifting)

  pub shift-Shifts :
      (cp : Color) (W : Tree)
      → At m top_hi T (in_left p cp kp W up) x
      → HasParent m p T
      → inorder (plug T (in_left p cp kp W up)) ≡ keys
      → BalancedAround (suc n) (in_left p cp kp W up)
      → Shifts top_hi keys m rounds (shift_left x m)
  shift-Shifts red leaf v par e around = absurd (let h = around.1 in omega (arith, h))
  shift-Shifts black leaf v par e around = absurd (let h = around.0 in omega (arith, h))
  shift-Shifts red (node w red a kw d) v par e around = absurd (let h = around.0 in cc)
  shift-Shifts red (node w black a kw d) v par e (black_w, b_w, under, around) =
      plain-Shifts red w kw a d v par e b_w (under, around)
  shift-Shifts black (node w black a kw d) v par e (b_w, around) =
      plain-Shifts black w kw a d v par e b_w around
  shift-Shifts black (node w red (node b black bl kb br) kw d) v par e (b_w, around) =
      lifted-Shifts w kw b kb bl br d v par e b_w around
  shift-Shifts black (node w red leaf kw d) v par e around =
      absurd (let h = around.0.2 in omega (arith, h))
  shift-Shifts black (node w red (node b red bl kb br) kw d) v par e around =
      absurd (let h = around.0.0 in cc)
