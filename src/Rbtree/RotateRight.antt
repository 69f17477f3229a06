-- ===== src/Rbtree/RotateRight.antt =====
-- `rbtree_right_rotate` of rbtree/rbtree.cpp turns the tree that the memory holds.
use mathlib.Core.Path.{subst}
use hello_world.Prelude.{
  ℕ, ◌+◌, ◌≤◌, ◌<◌, ◌≡◌, refl, sym, ap, ◌∙◌, ◌≢◌, ◌⊎◌, inl, inr, true, false, arith, ◌==◌,
  Bool-cases,
}
use hello_world.Outcome.{ok}
use hello_world.Rbtree.Nodes.{Color, Memory, update}
use hello_world.Rbtree.Rotate.{rbtree_right_rotate}
use hello_world.Rbtree.Tree.{Tree, Spine, Within, low, high, leaf, node}
use hello_world.Rbtree.Shape.{
  IsCell, Rep, above, Around, At, SameAt, Kept, SameAt-trans, SameIn, SameOut, Rep-same,
  Around-same,
}
use hello_world.Rbtree.Relink.{
  new_root, new_left, new_right, relink, update_self, update_ne, differ, root_ne, relink-same,
  relink-Around, replace-relink, adopted, adopt-ok,
}

-- The memory behind a rotation to the right of `x` with its left child `y`, whose right child is `b`.
abbrev rotated_right : Spine → (x y b : ℕ) → Memory → Memory
rotated_right s x y b m = record m {
  root = new_root s y m.root;
  right = update (new_right s y m.right) y x;
  left = new_left s y (update m.left x b);
  parent = update (update (adopted b x m) y (above m.nil s)) x y;
}

module _ (m : Memory) (top_hi x y p kx ky : ℕ) (cx cy : Color) (A B C : Tree) (s : Spine)
    (v : At m top_hi (node x cx (node y cy C ky B) kx A) s p) where
  b : ℕ
  b = m.right y

  Around-x : Around m x s
  Around-x = subst (λ q. Around m q s) v.rep.0 v.around

  IsCell-x : IsCell m x (above m.nil s) cx kx
  IsCell-x = v.rep.1

  IsCell-y : IsCell m y x cy ky
  IsCell-y = v.rep.2.1

  Rep-b : Rep m y b B
  unfolding b
  Rep-b = v.rep.2.3

  Rep-A : Rep m x (m.right x) A
  Rep-A = v.rep.3

  Rep-C : Rep m y (m.left y) C
  Rep-C = v.rep.2.2

  at_y : m.left x ≡ y
  at_y = v.rep.2.0

  x_ne_y : x ≢ y
  x_ne_y = differ m.key x y (λ e. absurd (omega (arith, IsCell-x.key, IsCell-y.key, v.within)))

  x_ne_b : x ≢ b
  unfolding b
  x_ne_b =
      root_ne m y (m.right y) (ky + 1) kx x B Rep-b v.within.2.3 IsCell-x.some_node
        (inr (omega (arith, IsCell-x.key)))

  live_b : b ≢ m.nil → m.alive b ≡ true
  live_b = live_of B (Rep-b)
    where
      live_of : (t : Tree) → Rep m y b t → b ≢ m.nil → m.alive b ≡ true
      live_of leaf rep some_b = absurd (some_b rep)
      live_of (node a c l k r) (at, cell, rep_l, rep_r) some_b =
          subst (λ q. m.alive q ≡ true) (sym at) cell.live

  abbrev m₁ : Memory
  m₁ = record m { left = update m.left x b }

  abbrev m₃ : Memory
  m₃ = record m₁ { parent = update (adopted b x m₁) y (above m.nil s) }

  parent_x : adopted b x m₁ x ≡ above m.nil s
  parent_x = elim (Bool-cases (b == m.nil)) [
    | inl e ↦ rw e IsCell-x.parent
    | inr e ↦ rw e (update_ne m.parent b x x (λ e'. x_ne_b (sym e')) ∙ IsCell-x.parent)
  ]

  abbrev flat :
      (low s ≤ kx)
      × (kx < high top_hi s)
      × (Within (kx + 1) (high top_hi s) A)
      × (low s ≤ ky)
      × (ky < kx)
      × (Within (ky + 1) kx B)
      × Within (low s) ky C
  flat =
      (v.within.0, v.within.1, v.within.3, v.within.2.0, v.within.2.1, v.within.2.3, v.within.2.2)

  -- Only `x`, `y` and `b`, whose keys are in the tree at the place, are written.
  b_out : (a : ℕ) → a ≢ m.nil → (m.key a < low s) ⊎ (high top_hi s ≤ m.key a) → b ≢ a
  unfolding b
  b_out a some_a out =
      let (low_x, x_high, in_A, low_y, y_high, in_B, in_C) = flat in
      λ e.
        root_ne m y (m.right y) (ky + 1) kx a B Rep-b in_B some_a
          (elim out [ inl h ↦ inl (omega arith) | inr h ↦ inr (omega arith) ]) (sym e)

  ne_out :
      (q : ℕ) (a : ℕ)
      → low s ≤ m.key q
      → m.key q < high top_hi s
      → (m.key a < low s) ⊎ (high top_hi s ≤ m.key a)
      → q ≢ a
  ne_out q a low_q high_q out =
      differ m.key q a
        (λ e. elim out [ inl h ↦ absurd (omega arith) | inr h ↦ absurd (omega arith) ])

  adopted_ne : (a : ℕ) → b ≢ a → adopted b x m₁ a ≡ m.parent a
  adopted_ne a ne = elim (Bool-cases (b == m.nil)) [
    | inl e ↦ rw e refl
    | inr e ↦ rw e (update_ne m.parent b x a ne)
  ]

  x_in : (low s ≤ m.key x) × (m.key x < high top_hi s)
  x_in = (omega (arith, IsCell-x.key, v.within), omega (arith, IsCell-x.key, v.within))

  y_in : (low s ≤ m.key y) × (m.key y < high top_hi s)
  y_in = (omega (arith, IsCell-y.key, v.within), omega (arith, IsCell-y.key, v.within))

  out₃ : SameOut m m₃ (low s) (high top_hi s)
  out₃ a some_a out = record {
    alive = refl;
    right = refl;
    left = update_ne m.left x b a (ne_out x a x_in.0 x_in.1 out);
    parent =
        update_ne (adopted b x m₁) y (above m.nil s) a (ne_out y a y_in.0 y_in.1 out)
        ∙ adopted_ne a (b_out a some_a out);
    color = refl;
    key = refl;
  }

  around₃ : Around m₃ x s
  around₃ = Around-same m m₃ refl s top_hi x out₃ refl v.spine Around-x

  parent_x₃ : m₃.parent x ≡ above m.nil s
  parent_x₃ = update_ne (adopted b x m₁) y (above m.nil s) x (λ e. x_ne_y (sym e)) ∙ parent_x

  rotates : rbtree_right_rotate x m ≡ ok (rotated_right s x y b m)
  unfolding rbtree_right_rotate b
  rotates =
      let replaces =
        replace-relink m₃ y s top_hi x v.spine around₃ IsCell-x.live IsCell-x.some_node parent_x₃
          x_in.0 in
      rw
        (
          IsCell-x.live,
          at_y,
          IsCell-y.live,
          adopt-ok b x m₁ live_b,
          IsCell-x.live,
          parent_x,
          IsCell-y.live,
          replaces,
          IsCell-y.live,
          IsCell-x.live,
        )
        refl

  abbrev m₄ : Memory
  m₄ = relink s y m₃

  abbrev m₆ : Memory
  m₆ = rotated_right s x y b m

  relinked : SameIn m₃ m₄ (low s) (high top_hi s)
  relinked = relink-same m₃ y s top_hi x v.spine around₃

  still : (a : ℕ) → x ≢ a → y ≢ a → SameAt m₄ m₆ a
  still a ne_x ne_y = record {
    alive = refl;
    right = update_ne m₄.right y x a ne_y;
    left = refl;
    parent = update_ne m₄.parent x y a ne_x;
    color = refl;
    key = refl;
  }

  quiet :
      (a : ℕ)
      → a ≢ m.nil
      → low s ≤ m.key a
      → m.key a < high top_hi s
      → x ≢ a
      → y ≢ a
      → b ≢ a
      → SameAt m m₆ a
  quiet a some_a low_a high_a ne_x ne_y ne_b =
      let first : SameAt m m₃ a = record {
        alive = refl;
        right = refl;
        left = update_ne m.left x b a ne_x;
        parent = update_ne (adopted b x m₁) y (above m.nil s) a ne_y ∙ adopted_ne a ne_b;
        color = refl;
        key = refl;
      } in
      SameAt-trans m m₃ m₆ a first
        (SameAt-trans m₃ m₄ m₆ a (relinked a some_a low_a high_a) (still a ne_x ne_y))

  quiet_A : SameIn m m₆ (kx + 1) (high top_hi s)
  unfolding b
  quiet_A a some_a low_a high_a =
      let (low_x, x_high, in_A, low_y, y_high, in_B, in_C) = flat in
      quiet a some_a (omega arith) (omega arith)
        (differ m.key x a (λ e. absurd (omega (arith, IsCell-x.key))))
        (differ m.key y a (λ e. absurd (omega (arith, IsCell-y.key))))
        (λ e. root_ne m y (m.right y) (ky + 1) kx a B Rep-b in_B some_a (inr (omega arith)) (sym e))

  quiet_C : SameIn m m₆ (low s) ky
  unfolding b
  quiet_C a some_a low_a high_a =
      let (low_x, x_high, in_A, low_y, y_high, in_B, in_C) = flat in
      quiet a some_a (omega arith) (omega arith)
        (differ m.key x a (λ e. absurd (omega (arith, IsCell-x.key))))
        (differ m.key y a (λ e. absurd (omega (arith, IsCell-y.key))))
        (λ e. root_ne m y (m.right y) (ky + 1) kx a B Rep-b in_B some_a (inl (omega arith)) (sym e))

  -- `b` has got another parent.
  Rep-moved_b : (t : Tree) → Within (ky + 1) kx t → Rep m y b t → Rep m₆ x b t
  Rep-moved_b leaf in_t rep = rep
  Rep-moved_b (node a c l k r) (low_k, k_high, in_l, in_r) (at, cell, rep_l, rep_r) =
      let (low_x, x_high, in_A, low_y, y_high, in_B, in_C) = flat in
      let inner : (q : ℕ)
          → q ≢ m.nil
          → ky + 1 ≤ m.key q
          → m.key q < kx
          → m.key q ≢ k
          → SameAt m m₆ q =
        λ q some_q low_q high_q other.
          quiet q some_q (omega arith) (omega arith)
            (differ m.key x q (λ e. absurd (omega (arith, IsCell-x.key))))
            (differ m.key y q (λ e. absurd (omega (arith, IsCell-y.key))))
            (λ e. other (sym (ap m.key (sym at ∙ e)) ∙ cell.key)) in
      let ne_x : x ≢ a = differ m.key x a (λ e. absurd (omega (arith, IsCell-x.key, cell.key))) in
      let ne_y : y ≢ a = differ m.key y a (λ e. absurd (omega (arith, IsCell-y.key, cell.key))) in
      let here = relinked a cell.some_node (omega (arith, cell.key)) (omega (arith, cell.key)) in
      let some_b : (b == m.nil) ≡ false = let ne = cell.some_node in ground (arith, ne, at) in
      let new_parent : adopted b x m₁ a ≡ x =
        rw some_b (subst (λ q. update m.parent b x q ≡ x) at (update_self m.parent b x)) in
      let right_a : m₆.right a ≡ m.right a = update_ne m₄.right y x a ne_y ∙ here.right in
      let left_a : m₆.left a ≡ m.left a = here.left ∙ update_ne m.left x b a ne_x in
      (
        at,
        record {
          some_node = cell.some_node;
          live = cell.live;
          parent =
              update_ne m₄.parent x y a ne_x
              ∙ update_ne (adopted b x m₁) y (above m.nil s) a ne_y
              ∙ new_parent;
          color = cell.color;
          key = cell.key;
        },
        Rep-same m m₆ refl l (ky + 1) k a (m₆.left a)
            (λ q some_q low_q high_q.
              inner q some_q low_q (omega arith) (λ e. absurd (omega arith)))
            in_l (subst (λ q. Rep m a q l) (sym left_a) rep_l),
        Rep-same m m₆ refl r (k + 1) kx a (m₆.right a)
            (λ q some_q low_q high_q.
              inner q some_q (omega arith) high_q (λ e. absurd (omega arith)))
            in_r (subst (λ q. Rep m a q r) (sym right_a) rep_r),
      )

  parent_nil : m₆.parent m.nil ≡ m.parent m.nil
  parent_nil =
      update_ne m₄.parent x y m.nil IsCell-x.some_node
      ∙ update_ne (adopted b x m₁) y (above m.nil s) m.nil IsCell-y.some_node
      ∙ elim (Bool-cases (b == m.nil)) [
        | inl e ↦ rw e refl
        | inr e ↦ rw e (update_ne m.parent b x m.nil (λ e'. absurd (ground (arith, e, e'))))
      ]

  pub right_rotate-At :
      (m' : Memory) × (rbtree_right_rotate x m ≡ ok m')
      × Kept m m'
      × (m'.parent m.nil ≡ m.parent m.nil)
      × At m' top_hi (node y cy C ky (node x cx B kx A)) s y
  right_rotate-At =
      let (low_x, x_high, in_A, low_y, y_high, in_B, in_C) = flat in
      let here_x = relinked x IsCell-x.some_node x_in.0 x_in.1 in
      let here_y = relinked y IsCell-y.some_node y_in.0 y_in.1 in
      let right_x : m₆.right x ≡ m.right x =
        update_ne m₄.right y x x (λ e. x_ne_y (sym e)) ∙ here_x.right in
      let left_x : m₆.left x ≡ b = here_x.left ∙ update_self m.left x b in
      let right_y : m₆.right y ≡ x = update_self m₄.right y x in
      let left_y : m₆.left y ≡ m.left y = here_y.left ∙ update_ne m.left x b y x_ne_y in
      let new_x : IsCell m₆ x y cx kx = record {
        some_node = IsCell-x.some_node;
        live = IsCell-x.live;
        parent = update_self m₄.parent x y;
        color = IsCell-x.color;
        key = IsCell-x.key;
      } in
      let new_y : IsCell m₆ y (above m.nil s) cy ky = record {
        some_node = IsCell-y.some_node;
        live = IsCell-y.live;
        parent = update_ne m₄.parent x y y x_ne_y ∙ update_self (adopted b x m₁) y (above m.nil s);
        color = IsCell-y.color;
        key = IsCell-y.key;
      } in
      (
        m₆,
        rotates,
        record { alive = refl; key = refl; value = refl; nil = refl },
        parent_nil,
        record {
          nil_live = v.nil_live;
          nil_black = v.nil_black;
          rep = (
            refl,
            new_y,
            Rep-same m m₆ refl C (low s) ky y (m₆.left y) quiet_C in_C
                (subst (λ q. Rep m y q C) (sym left_y) Rep-C),
            (
              right_y,
              new_x,
              subst (λ q. Rep m₆ x q B) (sym left_x) (Rep-moved_b B in_B Rep-b),
              Rep-same m m₆ refl A (kx + 1) (high top_hi s) x (m₆.right x) quiet_A in_A
                  (subst (λ q. Rep m x q A) (sym right_x) Rep-A),
            ),
          );
          around =
              Around-same m₄ m₆ refl s top_hi y
                (λ a some_a out.
                  still a (ne_out x a x_in.0 x_in.1 out) (ne_out y a y_in.0 y_in.1 out))
                refl v.spine (relink-Around m₃ y s top_hi x v.spine around₃);
          within = (low_y, omega arith, in_C, (omega arith, x_high, in_B, in_A));
          spine = v.spine;
        },
      )
