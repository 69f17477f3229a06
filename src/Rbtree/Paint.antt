-- ===== src/Rbtree/Paint.antt =====
-- What a write of a colour does to the tree that the memory of rbtree/rbtree.cpp holds.
use mathlib.Core.Path.{subst}
use hello_world.Prelude.{ℕ, ◌+◌, ◌≡◌, refl, sym, ap, ◌∙◌, ◌≢◌, inl, inr, true, arith}
use hello_world.Rbtree.Nodes.{Color, Memory, update, black}
use hello_world.Rbtree.Tree.{Tree, Spine, low, high, root_color, leaf, node}
use hello_world.Rbtree.Shape.{Rep, At, SameAt, Rep-same, Around-same}
use hello_world.Rbtree.Relink.{update_self, update_ne}

abbrev pub painted : (a : ℕ) → Color → Memory → Memory
painted a c m = record m { color = update m.color a c }

pub painted-At :
    (m : Memory) (top_hi a k p : ℕ) (c c' : Color) (l r : Tree) (s : Spine)
    → At m top_hi (node a c l k r) s p
    → At (painted a c' m) top_hi (node a c' l k r) s p
painted-At m top_hi a k p c c' l r s v =
    let m' = painted a c' m in
    let (at, cell, rep_l, rep_r) = v.rep in
    let (low_k, k_high, in_l, in_r) = v.within in
    let same : (b : ℕ) → m.key b ≢ k → SameAt m m' b = λ b ne. record {
      alive = refl;
      left = refl;
      right = refl;
      parent = refl;
      color = update_ne m.color a c' b (λ e. ne (sym (ap m.key e) ∙ cell.key));
      key = refl;
    } in
    record {
      nil_live = v.nil_live;
      nil_black = update_ne m.color a c' m.nil cell.some_node ∙ v.nil_black;
      rep = (
        at,
        record {
          some_node = cell.some_node;
          live = cell.live;
          parent = cell.parent;
          color = update_self m.color a c';
          key = cell.key;
        },
        Rep-same m m' refl l (low s) k a (m.left a)
            (λ b some_b low_b high_b. same b (λ e. absurd (omega arith))) in_l rep_l,
        Rep-same m m' refl r (k + 1) (high top_hi s) a (m.right a)
            (λ b some_b low_b high_b. same b (λ e. absurd (omega arith))) in_r rep_r,
      );
      around =
          Around-same m m' refl s top_hi p
            (λ b some_b out.
              same b
                (λ e. elim out [ inl h ↦ absurd (omega arith) | inr h ↦ absurd (omega arith) ]))
            refl v.spine v.around;
      within = (low_k, k_high, in_l, in_r);
      spine = v.spine;
    }

-- The colour that a pointer into the tree shows; that of no node is black.
pub color_of :
    (m : Memory) (par q : ℕ) (t : Tree)
    → m.alive m.nil ≡ true
    → m.color m.nil ≡ black
    → Rep m par q t
    → (m.alive q ≡ true) × (m.color q ≡ root_color t)
color_of m par q leaf nil_live nil_black rep = (
  subst (λ n. m.alive n ≡ true) (sym rep) nil_live,
  subst (λ n. m.color n ≡ black) (sym rep) nil_black,
)
color_of m par q (node a c l k r) nil_live nil_black (at, cell, rep_l, rep_r) = (
  subst (λ n. m.alive n ≡ true) (sym at) cell.live,
  subst (λ n. m.color n ≡ c) (sym at) cell.color,
)
