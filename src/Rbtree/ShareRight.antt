-- ===== src/Rbtree/ShareRight.antt =====
-- Rounds of `rbtree_delete_fixup` of rbtree/rbtree.cpp with `x` a right child and
-- its sibling black: which of the cases is met.
use mathlib.Core.Path.{subst, subst₂}
use hello_world.Prelude.{ℕ, suc, ◌≤◌, ◌≡◌, refl, sym, ◌∙◌, ◌⊎◌, inl, inr, true, List, arith}
use hello_world.Outcome.{Outcome, ok}
use hello_world.Rbtree.Nodes.{Color, Memory, red, black}
use hello_world.Rbtree.Delete.{straighten_left, finish_left, lend_left}
use hello_world.Rbtree.Tree.{Tree, Spine, plug, inorder, root_color, leaf, node, in_left, in_right}
use hello_world.Rbtree.Shape.{At, Kept-trans, up_left, up_right, down_left}
use hello_world.Rbtree.Balance.{Balanced, depth}
use hello_world.Rbtree.Paint.{painted, painted-At, color_of}
use hello_world.Rbtree.Fix.{plug-inorder}
use hello_world.Rbtree.Shift.{HasParent, Shifting, Shifts, Seen, At-Seen, Joins}
use hello_world.Rbtree.LendRight.{finish-Shifts, straighten-Shifts}

-- What `lend_left` reads of the sibling's children.
record Children (m : Memory) (w : ℕ) (cl cr : Color) : Type 0 where
  live : m.alive w ≡ true
  live_l : m.alive (m.right w) ≡ true
  color_l : m.color (m.right w) ≡ cl
  live_r : m.alive (m.left w) ≡ true
  color_r : m.color (m.left w) ≡ cr

lend-left_red :
    (m : Memory) (x w : ℕ) (cl : Color) → Children m w cl red → lend_left x w m ≡ finish_left x w m
unfolding lend_left
lend-left_red m x w cl c = rw (c.live, c.live_r, c.color_r, c.live_l) refl

lend-right_red :
    (m m' : Memory) (x w w' : ℕ)
    → Children m w red black
    → straighten_left x w m ≡ ok (w', m')
    → lend_left x w m ≡ finish_left x w' m'
unfolding lend_left
lend-right_red m m' x w w' c straightened =
    rw (c.live, c.live_r, c.color_r, c.live_l, c.color_l, straightened) refl

lend-no_red :
    (m : Memory) (x w p : ℕ) (cx : Color)
    → Children m w black black
    → Seen m x p cx
    → lend_left x w m ≡ ok (p, painted w red m)
unfolding lend_left
lend-no_red m x w p cx c seen =
    rw (c.live, c.live_r, c.color_r, c.live_l, c.color_l, seen.live, seen.parent) refl

module _ (top_hi p kp n rounds x : ℕ) (keys : List ℕ) (T : Tree) (up : Spine)
    (b_T : Balanced n T) where
  -- The sibling has been painted red.
  even-Shifting :
      (cp : Color) (m' : Memory) (w kw : ℕ) (a d : Tree)
      → Joins cp n up
      → (cp ≡ red) ⊎ (depth up ≤ rounds)
      → At m' top_hi (node p cp (node w red d kw a) kp T) up p
      → inorder (plug (node p cp (node w red d kw a) kp T) up) ≡ keys
      → Balanced n (node w red d kw a)
      → Shifting top_hi keys m' p rounds
  even-Shifting red m' w kw a d (under, around) few v e b_w = record {
    t = node p red (node w red d kw a) kp T;
    s = up;
    n = n;
    at = v;
    par = tt;
    ordered = e;
    short = (b_w, b_T);
    around = around;
    few = omega arith;
  }
  even-Shifting black m' w kw a d around (inl no_red) v e b_w = absurd (cc)
  even-Shifting black m' w kw a d around (inr few) v e b_w = record {
    t = node p black (node w red d kw a) kp T;
    s = up;
    n = suc n;
    at = v;
    par = tt;
    ordered = e;
    short = (n, refl, b_w, b_T);
    around = around;
    few = few;
  }

  module _ (cp : Color) (joins : Joins cp n up) (few : (cp ≡ red) ⊎ (depth up ≤ rounds))
      (m : Memory) (w kw : ℕ) where
    Children-of :
        (a d : Tree)
        → At m top_hi T (in_right p cp (node w black d kw a) kp up) x
        → Children m w (root_color a) (root_color d)
    Children-of a d v =
        let at_p = up_right v in
        let (at, cell, rep_d, rep_a) = at_p.rep.2 in
        let (live_l, color_l) = color_of m w (m.right w) a v.nil_live v.nil_black rep_a in
        let (live_r, color_r) = color_of m w (m.left w) d v.nil_live v.nil_black rep_d in
        record {
          live = cell.live;
          live_l = live_l;
          color_l = color_l;
          live_r = live_r;
          color_r = color_r;
        }

    lend-even :
        (a d : Tree)
        → At m top_hi T (in_right p cp (node w black d kw a) kp up) x
        → HasParent m p T
        → inorder (plug T (in_right p cp (node w black d kw a) kp up)) ≡ keys
        → Balanced n a
        → Balanced n d
        → root_color a ≡ black
        → root_color d ≡ black
        → Shifts top_hi keys m rounds (lend_left x w m)
    lend-even a d v par e b_a b_d black_a black_d =
        let m' = painted w red m in
        let at_p = up_right v in
        let at_w : At m top_hi (node w black d kw a) (in_left p cp kp T up) w =
          subst (λ q. At m top_hi (node w black d kw a) (in_left p cp kp T up) q) at_p.rep.2.0
            (down_left at_p) in
        let at' = up_left (painted-At m top_hi w kw w black red d a (in_left p cp kp T up) at_w) in
        let seen = At-Seen m top_hi x T (in_right p cp (node w black d kw a) kp up) v par in
        let children =
          subst₂ (λ (cl cr : Color). Children m w cl cr) black_a black_d (Children-of a d v) in
        (
          p,
          m',
          lend-no_red m x w p (root_color T) children seen,
          record { alive = refl; key = refl; value = refl; nil = refl },
          even-Shifting cp m' w kw a d joins few at'
              (plug-inorder (node p cp (node w red d kw a) kp T)
                  (node p cp (node w black d kw a) kp T) up refl
                ∙ e)
              (black_d, black_a, b_d, b_a),
        )

    by_lending :
        (out : Outcome (ℕ × Memory))
        → lend_left x w m ≡ out
        → Shifts top_hi keys m rounds out
        → Shifts top_hi keys m rounds (lend_left x w m)
    by_lending out e f = subst (λ o. Shifts top_hi keys m rounds o) (sym e) f

    lend-straight :
        (a d : Tree)
        → At m top_hi T (in_right p cp (node w black d kw a) kp up) x
        → HasParent m p T
        → inorder (plug T (in_right p cp (node w black d kw a) kp up)) ≡ keys
        → Balanced n a
        → Balanced n d
        → root_color d ≡ black
        → Shifts top_hi keys m rounds (lend_left x w m)
    lend-straight leaf d v par e b_a b_d black_d = lend-even leaf d v par e b_a b_d refl black_d
    lend-straight (node u black ul ku ur) d v par e b_a b_d black_d =
        lend-even (node u black ul ku ur) d v par e b_a b_d refl black_d
    lend-straight (node u red ul ku ur) d v par e b_a b_d black_d =
        let (w', m', straightened, kept, (x', m'', finished, kept', shifting)) =
          straighten-Shifts top_hi p kp n rounds x cp keys T up b_T joins m w kw u ku ul ur d v par
            e b_a b_d black_d in
        let children =
          subst (λ q. Children m w red q) black_d (Children-of (node u red ul ku ur) d v) in
        (
          x',
          m'',
          lend-right_red m m' x w w' children straightened ∙ finished,
          Kept-trans kept kept',
          shifting,
        )

    pub lend-Shifts :
        (a d : Tree)
        → At m top_hi T (in_right p cp (node w black d kw a) kp up) x
        → HasParent m p T
        → inorder (plug T (in_right p cp (node w black d kw a) kp up)) ≡ keys
        → Balanced n a
        → Balanced n d
        → Shifts top_hi keys m rounds (lend_left x w m)
    lend-Shifts a leaf v par e b_a b_d = lend-straight a leaf v par e b_a b_d refl
    lend-Shifts a (node d black dl kd dr) v par e b_a b_d =
        lend-straight a (node d black dl kd dr) v par e b_a b_d refl
    lend-Shifts a (node d red dl kd dr) v par e b_a (black_dl, black_dr, b_dl, b_dr) =
        by_lending (finish_left x w m)
          (lend-left_red m x w (root_color a) (Children-of a (node d red dl kd dr) v))
          (finish-Shifts top_hi p kp n rounds x cp keys T up b_T joins m w kw d kd a dl dr v par e
            b_a b_dl b_dr)
