-- ===== src/Rbtree/Fixup.antt =====
-- `rbtree_insert_fixup` of rbtree/rbtree.cpp: each round, and the loop.
use mathlib.Core.Path.{subst}
use hello_world.Rbtree.OuterLeft
use hello_world.Rbtree.InnerLeft
use hello_world.Rbtree.OuterRight
use hello_world.Rbtree.InnerRight
use hello_world.Prelude.{
  ℕ, zero, suc, ◌-◌, ◌≤◌, ◌<◌, ◌≡◌, refl, sym, ap, ◌∙◌, ◌≢◌, ◌⊎◌, inl, inr, true, false, List, ◌∷◌,
  ◌++◌, arith, ◌==◌, ==_self, length, length-append,
}
use hello_world.Outcome.{Outcome, ok}
use hello_world.Rbtree.Nodes.{Color, Memory, red, black}
use hello_world.Rbtree.Insert.{fix_left, fix_right, fix_round, paint_root, rbtree_insert_fixup}
use hello_world.Rbtree.Tree.{
  Tree, Spine, plug, inorder, before, after, low, inorder-plug, leaf, node, top, in_left, in_right,
}
use hello_world.Rbtree.Shape.{above, At, Kept, Kept-trans, up_left, up_right, At-plug}
use hello_world.Rbtree.Relink.{root_ne}
use hello_world.Rbtree.Balance.{
  Balanced, BalancedAround, depth, parent_color, Balanced-plug, Balanced-blacken, IsRedBlack,
}
use hello_world.Rbtree.Paint.{painted, painted-At}
use hello_world.Rbtree.Fix.{Fixing, Fixes, TwoUp}

fix_round-left :
    (m : Memory) (z p g : ℕ) → TwoUp m z p g → m.left g ≡ p → fix_round z m ≡ fix_left z m
unfolding fix_round
fix_round-left m z p g two at =
    rw (two.live_z, two.par_z, two.live_p, two.par_p, two.live_g, at, ==_self p) refl

fix_round-right :
    (m : Memory) (z p g : ℕ) → TwoUp m z p g → p ≢ m.left g → fix_round z m ≡ fix_right z m
unfolding fix_round
fix_round-right m z p g two ne =
    let other : (p == m.left g) ≡ false = ground (arith, ne) in
    rw (two.live_z, two.par_z, two.live_p, two.par_p, two.live_g, other) refl

by_round :
    {top_hi : ℕ} {keys : List ℕ} {m : Memory} {rounds : ℕ} (z : ℕ) (out : Outcome (ℕ × Memory))
    → fix_round z m ≡ out
    → Fixes top_hi keys m rounds out
    → Fixes top_hi keys m rounds (fix_round z m)
by_round {top_hi} {keys} {m} {rounds} z out e f =
    subst (λ o. Fixes top_hi keys m rounds o) (sym e) f

module _ (m : Memory) (top_hi rounds z k n : ℕ) (keys : List ℕ) (l r : Tree)
    (b : Balanced n (node z red l k r)) where
  abbrev Z : Tree
  Z = node z red l k r

  round-Fixes :
      (s : Spine)
      → At m top_hi Z s z
      → inorder (plug Z s) ≡ keys
      → BalancedAround n s
      → parent_color s ≡ red
      → depth s ≤ suc rounds
      → Fixes top_hi keys m rounds (fix_round z m)
  round-Fixes top v e around c deep = absurd (cc)
  round-Fixes (in_left p black kp C up) v e around c deep = absurd (cc)
  round-Fixes (in_right p black A kp up) v e around c deep = absurd (cc)
  round-Fixes (in_left p red kp C top) v e around c deep = absurd around.2
  round-Fixes (in_right p red A kp top) v e around c deep = absurd around.2
  round-Fixes (in_left p red kp C (in_left g red kg U up)) v e around c deep = absurd around.2
  round-Fixes (in_left p red kp C (in_right g red U kg up)) v e around c deep = absurd around.2
  round-Fixes (in_right p red A kp (in_left g red kg U up)) v e around c deep = absurd around.2
  round-Fixes (in_right p red A kp (in_right g red U kg up)) v e around c deep = absurd around.2
  round-Fixes (in_left p red kp C (in_left g black kg U up)) v e around c deep =
      let at_g = up_left (up_left v) in
      by_round z (fix_left z m)
        (fix_round-left m z p g
          (OuterLeft.outer_two m top_hi g p kp kg n rounds keys C up z k l r b (omega arith) U v e
            around)
          at_g.rep.2.0)
        (OuterLeft.outer-Fixes m top_hi g p kp kg n rounds keys C up z k l r b (omega arith) U v e
          around)
  round-Fixes (in_right p red A kp (in_left g black kg U up)) v e around c deep =
      let at_g = up_left (up_right v) in
      by_round z (fix_left z m)
        (fix_round-left m z p g
          (InnerLeft.inner_two m top_hi g p kp kg n rounds keys A up z k l r b (omega arith) U v e
            around)
          at_g.rep.2.0)
        (InnerLeft.inner-Fixes m top_hi g p kp kg n rounds keys A up z k l r b (omega arith) U v e
          around)
  round-Fixes (in_left p red kp A (in_right g black U kg up)) v e around c deep =
      let at_p = up_left v in
      let at_g = up_right at_p in
      let ne =
        root_ne m g (m.left g) (low up) kg p U at_g.rep.2 at_g.within.2 at_p.rep.1.some_node
          (inr (omega (arith, at_p.rep.1.key, at_p.within))) in
      by_round z (fix_right z m)
        (fix_round-right m z p g
          (InnerRight.inner_two m top_hi g p kp kg n rounds keys A up z k l r b (omega arith) U v e
            around)
          ne)
        (InnerRight.inner-Fixes m top_hi g p kp kg n rounds keys A up z k l r b (omega arith) U v e
          around)
  round-Fixes (in_right p red C kp (in_right g black U kg up)) v e around c deep =
      let at_p = up_right v in
      let at_g = up_right at_p in
      let ne =
        root_ne m g (m.left g) (low up) kg p U at_g.rep.2 at_g.within.2 at_p.rep.1.some_node
          (inr (omega (arith, at_p.rep.1.key, at_p.within))) in
      by_round z (fix_right z m)
        (fix_round-right m z p g
          (OuterRight.outer_two m top_hi g p kp kg n rounds keys C up z k l r b (omega arith) U v e
            around)
          ne)
        (OuterRight.outer-Fixes m top_hi g p kp kg n rounds keys C up z k l r b (omega arith) U v e
          around)

-- A red-black tree with these keys.
pub record Holds (m : Memory) (top_hi : ℕ) (keys : List ℕ) : Type 0 where
  pub tree : Tree
  pub at : At m top_hi tree top m.root
  pub ordered : inorder tree ≡ keys
  pub red_black : IsRedBlack tree

abbrev pub Settles : (top_hi : ℕ) (keys : List ℕ) (m : Memory) → Outcome Memory → Type 0
Settles top_hi keys m out = (m' : Memory) × (out ≡ ok m') × Kept m m' × Holds m' top_hi keys

paint_root-Settles :
    (m : Memory) (top_hi n : ℕ) (keys : List ℕ) (t : Tree)
    → At m top_hi t top m.root
    → 0 < length (inorder t)
    → inorder t ≡ keys
    → Balanced n t
    → Settles top_hi keys m (paint_root m)
paint_root-Settles m top_hi n keys leaf v nonempty e b = absurd (omega arith)
paint_root-Settles m top_hi n keys (node a c l k r) v nonempty e b =
    let at_a : m.root ≡ a = v.rep.0 in
    let live_a : m.alive a ≡ true = v.rep.1.live in
    let (height, balanced) = Balanced-blacken n (node a c l k r) b in
    (
      painted a black m,
      rw (at_a, live_a) refl,
      record { alive = refl; key = refl; value = refl; nil = refl },
      record {
        tree = node a black l k r;
        at = painted-At m top_hi a k m.root c black l r top v;
        ordered = e;
        red_black = record { black_root = refl; black_height = height; balanced = balanced };
      },
    )

plug-nonempty :
    (a k : ℕ) (c : Color) (l r : Tree) (s : Spine) → 0 < length (inorder (plug (node a c l k r) s))
plug-nonempty a k c l r s =
    let t = node a c l k r in
    omega (
      arith,
      ap length (inorder-plug t s),
      length-append (before s) (inorder t ++ after s),
      length-append (inorder t) (after s),
      length-append (inorder l) (k ∷ inorder r),
    )

-- The loop's test.
parent_of :
    (m : Memory) (top_hi : ℕ) (s : Spine) (t : Tree) (p : ℕ)
    → At m top_hi t s p
    → (m.alive (above m.nil s) ≡ true) × (m.color (above m.nil s) ≡ parent_color s)
parent_of m top_hi top t p v = (v.nil_live, v.nil_black)
parent_of m top_hi (in_left a c k r up) t p v = let cell = v.around.0 in (cell.live, cell.color)
parent_of m top_hi (in_right a c l k up) t p v = let cell = v.around.0 in (cell.live, cell.color)

red-deep : (s : Spine) → parent_color s ≡ red → 0 < depth s
red-deep top e = absurd (cc)
red-deep (in_left a c k r up) e = omega arith
red-deep (in_right a c l k up) e = omega arith

pub Color-cases : (c : Color) → (c ≡ red) ⊎ (c ≡ black)
Color-cases red = inl refl
Color-cases black = inr refl

pub fixup-Settles :
    (fuel rounds : ℕ) (m : Memory) (top_hi z : ℕ) (keys : List ℕ)
    → rounds < fuel
    → Fixing top_hi keys m z rounds
    → Settles top_hi keys m (rbtree_insert_fixup fuel z m)
unfolding rbtree_insert_fixup
fixup-Settles zero rounds m top_hi z keys enough f = absurd (omega arith)
fixup-Settles (suc fuel) rounds m top_hi z keys enough f =
    let live_z : m.alive z ≡ true = f.at.rep.1.live in
    let par_z : m.parent z ≡ above m.nil f.s = f.at.rep.1.parent in
    let (live_p, color_p) = parent_of m top_hi f.s (node z red f.l f.k f.r) z f.at in
    elim (Color-cases (parent_color f.s)) [
      | inr e ↦
          let black_p : m.color (above m.nil f.s) ≡ black = color_p ∙ e in
          let t = plug (node z red f.l f.k f.r) f.s in
          let (n', b) =
            Balanced-plug f.s f.n (node z red f.l f.k f.r) f.balanced f.around (inr e) in
          rw (live_z, par_z, live_p, black_p)
            (paint_root-Settles m top_hi n' keys t (At-plug f.s f.at)
              (plug-nonempty z f.k red f.l f.r f.s) f.ordered b)
      | inl e ↦
          let red_p : m.color (above m.nil f.s) ≡ red = color_p ∙ e in
          let some_up = red-deep f.s e in
          let (z₁, m₁, done, kept, f₁) =
            round-Fixes m top_hi (rounds - 1) z f.k f.n keys f.l f.r f.balanced f.s f.at f.ordered
              f.around e (omega (arith, f.deep)) in
          let (m', settled, kept', holds) =
            fixup-Settles fuel (rounds - 1) m₁ top_hi z₁ keys (omega (arith, f.deep)) f₁ in
          (m', rw (live_z, par_z, live_p, red_p, done) settled, Kept-trans kept kept', holds)
    ]
