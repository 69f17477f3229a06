-- ===== src/Rbtree/Leftmost.antt =====
-- `find_min` of rbtree/rbtree.cpp: the way down along left children.
use mathlib.Core.Path.{subst}
use hello_world.Prelude.{
  ℕ, zero, suc, ◌≤◌, ◌≡◌, refl, sym, ap, ◌∙◌, true, false, arith, ◌==◌, ==_self,
}
use hello_world.Outcome.{ok}
use hello_world.Rbtree.Nodes.{Color, Memory}
use hello_world.Rbtree.Walk.{find_min}
use hello_world.Rbtree.Tree.{Tree, Spine, plug, leaf, node, in_left}
use hello_world.Rbtree.Shape.{At, down_left}
use hello_world.Rbtree.Place.{height, Descends, descend_left}

-- The way up from a place by left children, to another.
pub data Lefts : Type 0 where
  stay : Lefts
  under : (a : ℕ) → Color → (k : ℕ) → (r : Tree) → Lefts → Lefts

abbrev pub lefts : Lefts → Spine → Spine
lefts stay base = base
lefts (under a c k r way) base = in_left a c k r (lefts way base)

pub record Leftmost (m : Memory) (top_hi y : ℕ) (base : Spine) (t : Tree) : Type 0 where
  pub way : Lefts
  pub c : Color
  pub k : ℕ
  pub r : Tree
  pub at : At m top_hi (node y c leaf k r) (lefts way base) y
  pub same : plug (node y c leaf k r) (lefts way base) ≡ t
  pub descends : Descends (node y c leaf k r) (lefts way base)

pub find_min-Leftmost :
    (m : Memory) (top_hi fuel a k p : ℕ) (c : Color) (l r : Tree) (way : Lefts) (base : Spine)
    → At m top_hi (node a c l k r) (lefts way base) p
    → Descends (node a c l k r) (lefts way base)
    → height (node a c l k r) ≤ fuel
    → (y : ℕ) × (find_min fuel p m ≡ ok y)
      × Leftmost m top_hi y base (plug (node a c l k r) (lefts way base))
unfolding find_min
find_min-Leftmost m top_hi zero a k p c l r way base v d enough = absurd (omega arith)
find_min-Leftmost m top_hi (suc fuel) a k p c leaf r way base v d enough =
    let at : p ≡ a = v.rep.0 in
    let live : m.alive p ≡ true = subst (λ q. m.alive q ≡ true) (sym at) v.rep.1.live in
    let none_left : m.left p ≡ m.nil = ap m.left at ∙ v.rep.2 in
    (
      a,
      rw (live, none_left, ==_self m.nil) (ap ok at),
      record {
        way = way;
        c = c;
        k = k;
        r = r;
        at = subst (λ q. At m top_hi (node a c leaf k r) (lefts way base) q) at v;
        same = refl;
        descends = d;
      },
    )
find_min-Leftmost m top_hi (suc fuel) a k p c (node b cb bl kb br) r way base v
      (n, bal, around, fits) enough =
    let at : p ≡ a = v.rep.0 in
    let live : m.alive p ≡ true = subst (λ q. m.alive q ≡ true) (sym at) v.rep.1.live in
    let B = node b cb bl kb br in
    let at_b : m.left p ≡ b = ap m.left at ∙ v.rep.2.0 in
    let some_b : (b == m.nil) ≡ false = let ne = v.rep.2.1.some_node in ground (arith, ne) in
    let (y, runs, leftmost) =
      find_min-Leftmost m top_hi fuel b kb b cb bl br (under a c k r way) base
        (subst (λ q. At m top_hi B (in_left a c k r (lefts way base)) q) v.rep.2.0 (down_left v))
        (descend_left n a k c B r (lefts way base) bal around fits) (omega (arith, enough)) in
    (y, rw (live, at_b, some_b) runs, leftmost)
