-- ===== src/Rbtree/ShareLeft.antt =====
-- Rounds of `rbtree_delete_fixup` of rbtree/rbtree.cpp with `x` a left child and
-- its sibling black: which of the cases is met.
use mathlib.Core.Path.{subst, subst₂}
use hello_world.Prelude.{
  ℕ, suc, ◌≤◌, ◌≡◌, refl, sym, ◌∙◌, ◌⊎◌, inl, inr, Bool, true, false, not, ◌&&◌, List, arith,
}
use hello_world.Outcome.{Outcome, ok}
use hello_world.Rbtree.Nodes.{Color, is_red, Memory, red, black}
use hello_world.Rbtree.Delete.{straighten_right, finish_right, lend_right}
use hello_world.Rbtree.Tree.{Tree, Spine, plug, inorder, root_color, leaf, node, in_left, in_right}
use hello_world.Rbtree.Shape.{At, Kept-trans, up_left, up_right, down_right}
use hello_world.Rbtree.Balance.{Balanced, depth}
use hello_world.Rbtree.Paint.{painted, painted-At, color_of}
use hello_world.Rbtree.Fix.{plug-inorder}
use hello_world.Rbtree.Shift.{HasParent, Shifting, Shifts, Seen, At-Seen, Joins}
use hello_world.Rbtree.LendLeft.{finish-Shifts, straighten-Shifts}

-- What `lend_right` reads of the sibling's children.
record Children (m : Memory) (w : ℕ) (cl cr : Color) : Type 0 where
  live : m.alive w ≡ true
  live_l : m.alive (m.left w) ≡ true
  color_l : m.color (m.left w) ≡ cl
  live_r : m.alive (m.right w) ≡ true
  color_r : m.color (m.right w) ≡ cr

and_false : (b : Bool) → (b && false) ≡ false
and_false true = refl
and_false false = refl

lend-right_red :
    (m : Memory) (x w : ℕ) (cl : Color)
    → Children m w cl red
    → lend_right x w m ≡ finish_right x w m
unfolding lend_right
lend-right_red m x w cl c =
    rw (c.live, c.live_l, c.color_l, c.live_r, c.color_r, and_false (not (is_red cl))) refl

lend-left_red :
    (m m' : Memory) (x w w' : ℕ)
    → Children m w red black
    → straighten_right x w m ≡ ok (w', m')
    → lend_right x w m ≡ finish_right x w' m'
unfolding lend_right
lend-left_red m m' x w w' c straightened =
    rw (c.live, c.live_l, c.color_l, c.live_r, c.color_r, straightened) refl

lend-no_red :
    (m : Memory) (x w p : ℕ) (cx : Color)
    → Children m w black black
    → Seen m x p cx
    → lend_right x w m ≡ ok (p, painted w red m)
unfolding lend_right
lend-no_red m x w p cx c seen =
    rw (c.live, c.live_l, c.color_l, c.live_r, c.color_r, seen.live, seen.parent) refl

module _ (top_hi p kp n rounds x : ℕ) (keys : List ℕ) (T : Tree) (up : Spine)
    (b_T : Balanced n T) where
  -- The sibling has been painted red.
  even-Shifting :
      (cp : Color) (m' : Memory) (w kw : ℕ) (a d : Tree)
      → Joins cp n up
      → (cp ≡ red) ⊎ (depth up ≤ rounds)
      → At m' top_hi (node p cp T kp (node w red a kw d)) up p
      → inorder (plug (node p cp T kp (node w red a kw d)) up) ≡ keys
      → Balanced n (node w red a kw d)
      → Shifting top_hi keys m' p rounds
  even-Shifting red m' w kw a d (under, around) few v e b_w = record {
    t = node p red T kp (node w red a kw d);
    s = up;
    n = n;
    at = v;
    par = tt;
    ordered = e;
    short = (b_T, b_w);
    around = around;
    few = omega arith;
  }
  even-Shifting black m' w kw a d around (inl no_red) v e b_w = absurd (cc)
  even-Shifting black m' w kw a d around (inr few) v e b_w = record {
    t = node p black T kp (node w red a kw d);
    s = up;
    n = suc n;
    at = v;
    par = tt;
    ordered = e;
    short = (n, refl, b_T, b_w);
    around = around;
    few = few;
  }

  module _ (cp : Color) (joins : Joins cp n up) (few : (cp ≡ red) ⊎ (depth up ≤ rounds))
      (m : Memory) (w kw : ℕ) where
    Children-of :
        (a d : Tree)
        → At m top_hi T (in_left p cp kp (node w black a kw d) up) x
        → Children m w (root_color a) (root_color d)
    Children-of a d v =
        let at_p = up_left v in
        let (at, cell, rep_a, rep_d) = at_p.rep.3 in
        let (live_l, color_l) = color_of m w (m.left w) a v.nil_live v.nil_black rep_a in
        let (live_r, color_r) = color_of m w (m.right w) d v.nil_live v.nil_black rep_d in
        record {
          live = cell.live;
          live_l = live_l;
          color_l = color_l;
          live_r = live_r;
          color_r = color_r;
        }

    lend-even :
        (a d : Tree)
        → At m top_hi T (in_left p cp kp (node w black a kw d) up) x
        → HasParent m p T
        → inorder (plug T (in_left p cp kp (node w black a kw d) up)) ≡ keys
        → Balanced n a
        → Balanced n d
        → root_color a ≡ black
        → root_color d ≡ black
        → Shifts top_hi keys m rounds (lend_right x w m)
    lend-even a d v par e b_a b_d black_a black_d =
        let m' = painted w red m in
        let at_p = up_left v in
        let at_w : At m top_hi (node w black a kw d) (in_right p cp T kp up) w =
          subst (λ q. At m top_hi (node w black a kw d) (in_right p cp T kp up) q) at_p.rep.3.0
            (down_right at_p) in
        let at' =
          up_right (painted-At m top_hi w kw w black red a d (in_right p cp T kp up) at_w) in
        let seen = At-Seen m top_hi x T (in_left p cp kp (node w black a kw d) up) v par in
        let children =
          subst₂ (λ (cl cr : Color). Children m w cl cr) black_a black_d (Children-of a d v) in
        (
          p,
          m',
          lend-no_red m x w p (root_color T) children seen,
          record { alive = refl; key = refl; value = refl; nil = refl },
          even-Shifting cp m' w kw a d joins few at'
              (plug-inorder (node p cp T kp (node w red a kw d))
                  (node p cp T kp (node w black a kw d)) up refl
                ∙ e)
              (black_a, black_d, b_a, b_d),
        )

    by_lending :
        (out : Outcome (ℕ × Memory))
        → lend_right x w m ≡ out
        → Shifts top_hi keys m rounds out
        → Shifts top_hi keys m rounds (lend_right x w m)
    by_lending out e f = subst (λ o. Shifts top_hi keys m rounds o) (sym e) f

    lend-straight :
        (a d : Tree)
        → At m top_hi T (in_left p cp kp (node w black a kw d) up) x
        → HasParent m p T
        → inorder (plug T (in_left p cp kp (node w black a kw d) up)) ≡ keys
        → Balanced n a
        → Balanced n d
        → root_color d ≡ black
        → Shifts top_hi keys m rounds (lend_right x w m)
    lend-straight leaf d v par e b_a b_d black_d = lend-even leaf d v par e b_a b_d refl black_d
    lend-straight (node u black ul ku ur) d v par e b_a b_d black_d =
        lend-even (node u black ul ku ur) d v par e b_a b_d refl black_d
    lend-straight (node u red ul ku ur) d v par e b_a b_d black_d =
        let (w', m', straightened, kept, (x', m'', finished, kept', shifting)) =
          straighten-Shifts top_hi p kp n rounds x cp keys T up b_T joins m w kw u ku ul ur d v par
            e b_a b_d black_d in
        let children =
          subst (λ q. Children m w red q) black_d (Children-of (node u red ul ku ur) d v) in
        (
          x',
          m'',
          lend-left_red m m' x w w' children straightened ∙ finished,
          Kept-trans kept kept',
          shifting,
        )

    pub lend-Shifts :
        (a d : Tree)
        → At m top_hi T (in_left p cp kp (node w black a kw d) up) x
        → HasParent m p T
        → inorder (plug T (in_left p cp kp (node w black a kw d) up)) ≡ keys
        → Balanced n a
        → Balanced n d
        → Shifts top_hi keys m rounds (lend_right x w m)
    lend-Shifts a leaf v par e b_a b_d = lend-straight a leaf v par e b_a b_d refl
    lend-Shifts a (node d black dl kd dr) v par e b_a b_d =
        lend-straight a (node d black dl kd dr) v par e b_a b_d refl
    lend-Shifts a (node d red dl kd dr) v par e b_a (black_dl, black_dr, b_dl, b_dr) =
        by_lending (finish_right x w m)
          (lend-right_red m x w (root_color a) (Children-of a (node d red dl kd dr) v))
          (finish-Shifts top_hi p kp n rounds x cp keys T up b_T joins m w kw d kd a dl dr v par e
            b_a b_dl b_dr)
