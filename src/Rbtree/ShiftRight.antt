-- ===== src/Rbtree/ShiftRight.antt =====
-- Rounds of `rbtree_delete_fixup` of rbtree/rbtree.cpp where `x` is a right child: a red sibling goes up
-- first.
use mathlib.Core.Path.{subst}
use hello_world.Prelude.{ℕ, suc, ◌≤◌, ◌≡◌, refl, sym, ◌∙◌, inl, inr, true, List, ◌∷◌, arith}
use hello_world.Outcome.{ok}
use hello_world.Rbtree.Nodes.{Color, Memory, red, black}
use hello_world.Rbtree.Rotate.{rbtree_right_rotate}
use hello_world.Rbtree.Delete.{lift_left, lend_left, shift_right}
use hello_world.Rbtree.Tree.{
  Tree, Spine, plug, inorder, root_color, append_assoc, leaf, node, in_left, in_right,
}
use hello_world.Rbtree.Shape.{At, Kept-trans, up_left, up_right, down_left, down_right}
use hello_world.Rbtree.Balance.{Balanced, BalancedAround, depth}
use hello_world.Rbtree.Paint.{painted, painted-At}
use hello_world.Rbtree.RotateRight.{right_rotate-At}
use hello_world.Rbtree.Fix.{plug-inorder}
use hello_world.Rbtree.Shift.{HasParent, Shifts, Seen, At-Seen, root_same, Joins, HasParent-kept}
use hello_world.Rbtree.ShareRight.{lend-Shifts}

shift-plain :
    (m : Memory) (x p w : ℕ) (cx : Color)
    → Seen m x p cx
    → m.alive p ≡ true
    → m.left p ≡ w
    → m.alive w ≡ true
    → m.color w ≡ black
    → shift_right x m ≡ lend_left x w m
unfolding shift_right
shift-plain m x p w cx seen live_p left_p live_w color_w =
    rw (seen.live, seen.parent, live_p, left_p, live_w, color_w) refl

shift-lifted :
    (m m' : Memory) (x p w w' : ℕ) (cx : Color)
    → Seen m x p cx
    → m.alive p ≡ true
    → m.left p ≡ w
    → m.alive w ≡ true
    → m.color w ≡ red
    → lift_left x p w m ≡ ok (w', m')
    → shift_right x m ≡ lend_left x w' m'
unfolding shift_right
shift-lifted m m' x p w w' cx seen live_p left_p live_w color_w lifted =
    rw (seen.live, seen.parent, live_p, left_p, live_w, color_w, lifted) refl

lift-run :
    (m m₃ : Memory) (x p w w' : ℕ) (cx : Color)
    → m.alive w ≡ true
    → m.alive p ≡ true
    → rbtree_right_rotate p (painted p red (painted w black m)) ≡ ok m₃
    → Seen m₃ x p cx
    → m₃.alive p ≡ true
    → m₃.left p ≡ w'
    → lift_left x p w m ≡ ok (w', m₃)
unfolding lift_left
lift-run m m₃ x p w w' cx live_w live_p turned seen live_p' left_p =
    rw (live_w, live_p, turned, seen.live, seen.parent, live_p', left_p) refl

module _ (top_hi p kp n rounds x : ℕ) (keys : List ℕ) (T : Tree) (up : Spine) (m : Memory)
    (black_T : root_color T ≡ black) (b_T : Balanced n T) (few : depth up ≤ rounds) where
  lifted-Shifts :
      (w kw b kb : ℕ) (bl br wr : Tree)
      → At m top_hi T (in_right p black (node w red wr kw (node b black bl kb br)) kp up) x
      → HasParent m p T
      → inorder (plug T (in_right p black (node w red wr kw (node b black bl kb br)) kp up)) ≡ keys
      → Balanced (suc n) (node w red wr kw (node b black bl kb br))
      → BalancedAround (suc (suc n)) up
      → Shifts top_hi keys m rounds (shift_right x m)
  lifted-Shifts w kw b kb bl br wr v par e (black_wr, black_wl, b_wr, (below, e_n, b_bl, b_br))
        around =
      let B = node b black bl kb br in
      let W = node w red wr kw B in
      let at_p = up_right v in
      let at_w : At m top_hi W (in_left p black kp T up) w =
        subst (λ q. At m top_hi W (in_left p black kp T up) q) at_p.rep.2.0 (down_left at_p) in
      let m₁ = painted w black m in
      let at_p₁ =
        up_left (painted-At m top_hi w kw w red black wr B (in_left p black kp T up) at_w) in
      let m₂ = painted p red m₁ in
      let at_p₂ = painted-At m₁ top_hi p kp p black red (node w black wr kw B) T up at_p₁ in
      let (m₃, turned, kept, same_nil, v₃) =
        right_rotate-At m₂ top_hi p w p kp kw red black T B wr up at_p₂ in
      let P = node p red B kp T in
      let S = in_right w black wr kw up in
      let at_p₃ : At m₃ top_hi P S p = subst (λ q. At m₃ top_hi P S q) v₃.rep.3.0 (down_right v₃) in
      let same_x : m₃.right p ≡ x =
        root_same m m₃ p p x (m₃.right p) T kept.nil v.rep at_p₃.rep.3 in
      let S' = in_right p red B kp S in
      let at_x : At m₃ top_hi T S' x = subst (λ q. At m₃ top_hi T S' q) same_x (down_right at_p₃) in
      let par₃ = HasParent-kept m m₃ p T kept.nil same_nil par in
      let seen = At-Seen m top_hi x T (in_right p black W kp up) v par in
      let seen₃ = At-Seen m₃ top_hi x T S' at_x par₃ in
      let live_p : m.alive p ≡ true = at_p.rep.1.live in
      let left_p : m.left p ≡ w = at_p.rep.2.0 in
      let live_w : m.alive w ≡ true = at_w.rep.1.live in
      let color_w : m.color w ≡ red = at_w.rep.1.color in
      let lifted =
        lift-run m m₃ x p w b (root_color T) live_w live_p turned seen₃ at_p₃.rep.1.live
          at_p₃.rep.2.0 in
      let runs =
        shift-lifted m m₃ x p w b (root_color T) seen live_p left_p live_w color_w lifted in
      let again : inorder (plug T S') ≡ keys =
        plug-inorder (node w black wr kw P) (node p black W kp T) up
          (sym (append_assoc (inorder wr) (kw ∷ inorder B) (kp ∷ inorder T)))
        ∙ e in
      let same_n : below ≡ n = omega arith in
      let (x', m', lent, kept', shifting) =
        lend-Shifts top_hi p kp n rounds x keys T S b_T red (tt, (b_wr, around)) (inl refl) m₃ b kb
          br bl at_x par₃ again (subst (λ q. Balanced q br) same_n b_br)
          (subst (λ q. Balanced q bl) same_n b_bl) in
      (
        x',
        m',
        runs ∙ lent,
        Kept-trans (record { alive = refl; key = refl; value = refl; nil = refl })
            (Kept-trans kept kept'),
        shifting,
      )

  plain-Shifts :
      (cp : Color) (w kw : ℕ) (a d : Tree)
      → At m top_hi T (in_right p cp (node w black d kw a) kp up) x
      → HasParent m p T
      → inorder (plug T (in_right p cp (node w black d kw a) kp up)) ≡ keys
      → Balanced (suc n) (node w black d kw a)
      → Joins cp n up
      → Shifts top_hi keys m rounds (shift_right x m)
  plain-Shifts cp w kw a d v par e (below, e_n, b_d, b_a) joins =
      let at_p = up_right v in
      let seen = At-Seen m top_hi x T (in_right p cp (node w black d kw a) kp up) v par in
      let runs =
        shift-plain m x p w (root_color T) seen at_p.rep.1.live at_p.rep.2.0 at_p.rep.2.1.live
          at_p.rep.2.1.color in
      let same_n : below ≡ n = omega arith in
      let (x', m', lent, kept, shifting) =
        lend-Shifts top_hi p kp n rounds x keys T up b_T cp joins (inr few) m w kw a d v par e
          (subst (λ q. Balanced q a) same_n b_a) (subst (λ q. Balanced q d) same_n b_d) in
      (x', m', runs ∙ lent, kept, shifting)

  pub shift-Shifts :
      (cp : Color) (W : Tree)
      → At m top_hi T (in_right p cp W kp up) x
      → HasParent m p T
      → inorder (plug T (in_right p cp W kp up)) ≡ keys
      → BalancedAround (suc n) (in_right p cp W kp up)
      → Shifts top_hi keys m rounds (shift_right x m)
  shift-Shifts red leaf v par e around = absurd (let h = around.1 in omega (arith, h))
  shift-Shifts black leaf v par e around = absurd (let h = around.0 in omega (arith, h))
  shift-Shifts red (node w red d kw a) v par e around = absurd (let h = around.0 in cc)
  shift-Shifts red (node w black d kw a) v par e (black_w, b_w, under, around) =
      plain-Shifts red w kw a d v par e b_w (under, around)
  shift-Shifts black (node w black d kw a) v par e (b_w, around) =
      plain-Shifts black w kw a d v par e b_w around
  shift-Shifts black (node w red d kw (node b black bl kb br)) v par e (b_w, around) =
      lifted-Shifts w kw b kb bl br d v par e b_w around
  shift-Shifts black (node w red d kw leaf) v par e around =
      absurd (let h = around.0.3 in omega (arith, h))
  shift-Shifts black (node w red d kw (node b red bl kb br)) v par e around =
      absurd (let h = around.0.1 in cc)
