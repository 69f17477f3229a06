-- ===== src/Rbtree/LendRight.antt =====
-- Rounds of `rbtree_delete_fixup` of rbtree/rbtree.cpp where `x` is a right child with a black sibling.
use mathlib.Core.Path.{subst}
use hello_world.Prelude.{ℕ, ◌≡◌, refl, sym, ap, ◌∙◌, true, List, ◌∷◌, ◌++◌}
use hello_world.Outcome.{ok}
use hello_world.Rbtree.Nodes.{Color, Memory, red, black}
use hello_world.Rbtree.Rotate.{rbtree_left_rotate, rbtree_right_rotate}
use hello_world.Rbtree.Delete.{straighten_left, finish_left}
use hello_world.Rbtree.Tree.{
  Tree, Spine, plug, inorder, root_color, append_assoc, node, top, in_left, in_right,
}
use hello_world.Rbtree.Shape.{
  At, Kept, Kept-trans, up_left, up_right, down_left, down_right, At-plug,
}
use hello_world.Rbtree.Balance.{Balanced}
use hello_world.Rbtree.Paint.{painted, painted-At}
use hello_world.Rbtree.RotateLeft.{left_rotate-At}
use hello_world.Rbtree.RotateRight.{right_rotate-At}
use hello_world.Rbtree.Fix.{plug-inorder}
use hello_world.Rbtree.Shift.{
  HasParent, Shifts, Balanced-Short, plug-HasParent, left_over-top, Seen, At-Seen, root_same, Joins,
  Joins-plug, HasParent-kept,
}

finish-run :
    (m m₄ : Memory) (x p w d : ℕ) (cx cp : Color)
    → Seen m x p cx
    → m.alive p ≡ true
    → m.color p ≡ cp
    → m.alive w ≡ true
    → m.left w ≡ d
    → m.alive d ≡ true
    → rbtree_right_rotate p (painted d black (painted p black (painted w cp m))) ≡ ok m₄
    → finish_left x w m ≡ ok (m₄.root, m₄)
unfolding finish_left
finish-run m m₄ x p w d cx cp seen live_p color_p live_w left_w live_d turned =
    rw (seen.live, seen.parent, live_p, color_p, live_w, live_p, live_w, left_w, live_d, turned)
      refl

straighten-run :
    (m m₃ : Memory) (x p w u u' : ℕ) (cx : Color)
    → m.alive w ≡ true
    → m.right w ≡ u
    → m.alive u ≡ true
    → rbtree_left_rotate w (painted w red (painted u black m)) ≡ ok m₃
    → Seen m₃ x p cx
    → m₃.alive p ≡ true
    → m₃.left p ≡ u'
    → straighten_left x w m ≡ ok (u', m₃)
unfolding straighten_left
straighten-run m m₃ x p w u u' cx live_w right_w live_u turned seen live_p left_p =
    rw (live_w, right_w, live_u, live_w, turned, seen.live, seen.parent, live_p, left_p) refl

module _ (top_hi p kp n rounds x : ℕ) (cp : Color) (keys : List ℕ) (T : Tree) (up : Spine)
    (b_T : Balanced n T) (joins : Joins cp n up) where
  -- The sibling's left child is red.
  pub finish-Shifts :
      (m : Memory) (w kw d kd : ℕ) (a dl dr : Tree)
      → At m top_hi T (in_right p cp (node w black (node d red dl kd dr) kw a) kp up) x
      → HasParent m p T
      → inorder (plug T (in_right p cp (node w black (node d red dl kd dr) kw a) kp up)) ≡ keys
      → Balanced n a
      → Balanced n dl
      → Balanced n dr
      → Shifts top_hi keys m rounds (finish_left x w m)
  finish-Shifts m w kw d kd a dl dr v par e b_a b_dl b_dr =
      let D = node d red dl kd dr in
      let D' = node d black dl kd dr in
      let seen = At-Seen m top_hi x T (in_right p cp (node w black D kw a) kp up) v par in
      let at_p = up_right v in
      let live_p : m.alive p ≡ true = at_p.rep.1.live in
      let color_p : m.color p ≡ cp = at_p.rep.1.color in
      let at_w : At m top_hi (node w black D kw a) (in_left p cp kp T up) w =
        subst (λ q. At m top_hi (node w black D kw a) (in_left p cp kp T up) q) at_p.rep.2.0
          (down_left at_p) in
      let live_w : m.alive w ≡ true = at_w.rep.1.live in
      let m₁ = painted w cp m in
      let at_p₁ = up_left (painted-At m top_hi w kw w black cp D a (in_left p cp kp T up) at_w) in
      let m₂ = painted p black m₁ in
      let at_p₂ = painted-At m₁ top_hi p kp p cp black (node w cp D kw a) T up at_p₁ in
      let at_D = down_left (down_left at_p₂) in
      let left_w : m.left w ≡ d = at_w.rep.2.0 in
      let live_d : m.alive d ≡ true = at_w.rep.2.1.live in
      let m₃ = painted d black m₂ in
      let at_D' : At m₂ top_hi D (in_left w cp kw a (in_left p black kp T up)) d =
        subst (λ q. At m₂ top_hi D (in_left w cp kw a (in_left p black kp T up)) q) left_w at_D in
      let at_p₃ = up_left (
        up_left (
          painted-At m₂ top_hi d kd d red black dl dr (in_left w cp kw a (in_left p black kp T up))
            at_D')) in
      let (m₄, turned, kept, same_nil, v₄) =
        right_rotate-At m₃ top_hi p w p kp kw black cp T a D' up at_p₃ in
      let P = node p black a kp T in
      let (n', b) =
        Joins-plug cp n w kw D' P up joins refl refl (n, refl, b_dl, b_dr) (n, refl, b_a, b_T) in
      let whole = plug (node w cp D' kw P) up in
      (
        m₄.root,
        m₄,
        finish-run m m₄ x p w d (root_color T) cp seen live_p color_p live_w left_w live_d turned,
        Kept-trans (record { alive = refl; key = refl; value = refl; nil = refl }) kept,
        record {
          t = whole;
          s = top;
          n = n';
          at = At-plug up v₄;
          par = plug-HasParent m₄ m₄.nil w kw cp D' P up;
          ordered =
              plug-inorder (node w cp D' kw P) (node p cp (node w black D kw a) kp T) up
                (sym (append_assoc (inorder D) (kw ∷ inorder a) (kp ∷ inorder T)))
              ∙ e;
          short = Balanced-Short n' whole b;
          around = tt;
          few = left_over-top whole rounds;
        },
      )

  -- The sibling's right child is red and its left one black.
  pub straighten-Shifts :
      (m : Memory) (w kw u ku : ℕ) (ul ur d : Tree)
      → At m top_hi T (in_right p cp (node w black d kw (node u red ul ku ur)) kp up) x
      → HasParent m p T
      → inorder (plug T (in_right p cp (node w black d kw (node u red ul ku ur)) kp up)) ≡ keys
      → Balanced n (node u red ul ku ur)
      → Balanced n d
      → root_color d ≡ black
      → (w' : ℕ) × (m' : Memory) × (straighten_left x w m ≡ ok (w', m'))
        × Kept m m'
        × Shifts top_hi keys m' rounds (finish_left x w' m')
  straighten-Shifts m w kw u ku ul ur d v par e (black_ul, black_ur, b_ul, b_ur) b_d black_d =
      let U = node u red ul ku ur in
      let S = in_left p cp kp T up in
      let at_p = up_right v in
      let at_w : At m top_hi (node w black d kw U) S w =
        subst (λ q. At m top_hi (node w black d kw U) S q) at_p.rep.2.0 (down_left at_p) in
      let live_w : m.alive w ≡ true = at_w.rep.1.live in
      let right_w : m.right w ≡ u = at_w.rep.3.0 in
      let live_u : m.alive u ≡ true = at_w.rep.3.1.live in
      let m₁ = painted u black m in
      let at_u : At m top_hi U (in_right w black d kw S) u =
        subst (λ q. At m top_hi U (in_right w black d kw S) q) right_w (down_right at_w) in
      let at_w₁ =
        up_right (painted-At m top_hi u ku u red black ul ur (in_right w black d kw S) at_u) in
      let m₂ = painted w red m₁ in
      let at_w₂ = painted-At m₁ top_hi w kw w black red d (node u black ul ku ur) S at_w₁ in
      let (m₃, turned, kept, same_nil, v₃) =
        left_rotate-At m₂ top_hi w u w kw ku red black d ul ur S at_w₂ in
      let W' = node u black (node w red d kw ul) ku ur in
      let at_p₃ = up_left v₃ in
      let same_x : m₃.right p ≡ x =
        root_same m m₃ p p x (m₃.right p) T kept.nil v.rep at_p₃.rep.3 in
      let S' = in_right p cp W' kp up in
      let at_x : At m₃ top_hi T S' x = subst (λ q. At m₃ top_hi T S' q) same_x (down_right at_p₃) in
      let par₃ = HasParent-kept m m₃ p T kept.nil same_nil par in
      let seen = At-Seen m₃ top_hi x T S' at_x par₃ in
      let live_p : m₃.alive p ≡ true = at_p₃.rep.1.live in
      let left_p : m₃.left p ≡ u = at_p₃.rep.2.0 in
      let all = Kept-trans (record { alive = refl; key = refl; value = refl; nil = refl }) kept in
      let again : inorder (plug T S') ≡ keys =
        plug-inorder (node p cp W' kp T) (node p cp (node w black d kw U) kp T) up (
          ap (λ q. q ++ kp ∷ inorder T)
            (append_assoc (inorder d) (kw ∷ inorder ul) (ku ∷ inorder ur)))
        ∙ e in
      (
        u,
        m₃,
        straighten-run m m₃ x p w u u (root_color T) live_w right_w live_u turned seen live_p
            left_p,
        all,
        finish-Shifts m₃ u ku w kw ur d ul at_x par₃ again b_ur b_d b_ul,
      )
