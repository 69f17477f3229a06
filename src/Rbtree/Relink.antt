-- ===== src/Rbtree/Relink.antt =====
-- What `replace` of the rotations of rbtree/rbtree.cpp does to what stands around a node.
use hello_world.Prelude.{
  ℕ, ◌+◌, ◌≤◌, ◌<◌, ◌≡◌, refl, sym, ap, ◌∙◌, ◌≢◌, ◌⊎◌, inl, inr, true, false, arith, ◌==◌,
  if◌then◌else◌, ==_self, Bool-cases,
}
use hello_world.Outcome.{ok}
use hello_world.Rbtree.Nodes.{Memory, update}
use hello_world.Rbtree.Rotate.{adopt, replace}
use hello_world.Rbtree.Tree.{
  Tree, Spine, Within, low, high, InSpine, leaf, node, top, in_left, in_right,
}
use hello_world.Rbtree.Shape.{Rep, above, Around, SameAt, SameIn, Rep-same, Around-same}

abbrev pub new_root : Spine → (y old : ℕ) → ℕ
new_root top y old = y
new_root (in_left a c k r up) y old = old
new_root (in_right a c l k up) y old = old

abbrev pub new_left : Spine → (y : ℕ) → (ℕ → ℕ) → ℕ → ℕ
new_left top y f = f
new_left (in_left a c k r up) y f = update f a y
new_left (in_right a c l k up) y f = f

abbrev pub new_right : Spine → (y : ℕ) → (ℕ → ℕ) → ℕ → ℕ
new_right top y f = f
new_right (in_left a c k r up) y f = f
new_right (in_right a c l k up) y f = update f a y

-- The pointer to the place leads to `y`.
abbrev pub relink : Spine → (y : ℕ) → Memory → Memory
relink s y m = record m {
  root = new_root s y m.root;
  left = new_left s y m.left;
  right = new_right s y m.right;
}

pub update_self {ℓ} : {A : Type ℓ} (f : ℕ → A) (p : ℕ) (v : A) → update f p v p ≡ v
update_self f p v = rw (==_self p) refl

pub update_ne {ℓ} : {A : Type ℓ} (f : ℕ → A) (p : ℕ) (v : A) (q : ℕ) → p ≢ q → update f p v q ≡ f q
update_ne f p v q ne = let other : (p == q) ≡ false = ground arith in rw other refl

pub differ : (f : ℕ → ℕ) (p q : ℕ) → f p ≢ f q → p ≢ q
differ f p q ne e = ne (ap f e)

-- A pointer does not lead to a node whose key is not in its tree.
pub root_ne :
    (m : Memory) (par p lo hi x : ℕ) (t : Tree)
    → Rep m par p t
    → Within lo hi t
    → x ≢ m.nil
    → (m.key x < lo) ⊎ (hi ≤ m.key x)
    → x ≢ p
root_ne m par p lo hi x leaf rep within some_x out = λ e. some_x (e ∙ rep)
root_ne m par p lo hi x (node a c l k r) (at, cell, rep_l, rep_r) (lo_k, k_hi, in_l, in_r) some_x
      out =
    λ e.
      let key_x = ap m.key (e ∙ at) ∙ cell.key in
      elim out [ inl h ↦ absurd (omega arith) | inr h ↦ absurd (omega arith) ]

module _ (m : Memory) (y : ℕ) where
  -- The nodes at the place are as before.
  pub relink-same :
      (s : Spine) (top_hi p : ℕ)
      → InSpine top_hi s
      → Around m p s
      → SameIn m (relink s y m) (low s) (high top_hi s)
  relink-same top top_hi p in_s around b some_b low_b high_b = record {
    alive = refl;
    left = refl;
    right = refl;
    parent = refl;
    color = refl;
    key = refl;
  }
  relink-same (in_left a c k r up) top_hi p (low_k, k_high, in_t, in_up) (cell, at, rep, around) b
        some_b low_b high_b =
      let other : a ≢ b = differ m.key a b (λ e. absurd (omega (arith, cell.key))) in
      record {
        alive = refl;
        left = update_ne m.left a y b other;
        right = refl;
        parent = refl;
        color = refl;
        key = refl;
      }
  relink-same (in_right a c l k up) top_hi p (low_k, k_high, in_t, in_up) (cell, at, rep, around) b
        some_b low_b high_b =
      let other : a ≢ b = differ m.key a b (λ e. absurd (omega (arith, cell.key))) in
      record {
        alive = refl;
        left = refl;
        right = update_ne m.right a y b other;
        parent = refl;
        color = refl;
        key = refl;
      }

  pub relink-Around :
      (s : Spine) (top_hi p : ℕ) → InSpine top_hi s → Around m p s → Around (relink s y m) y s
  relink-Around top top_hi p in_s around = refl
  relink-Around (in_left a c k r up) top_hi p (low_k, k_high, in_r, in_up) (cell, at, rep, around) =
      let m' = relink (in_left a c k r up) y m in
      let same : (b : ℕ) → m.key b ≢ k → SameAt m m' b = λ b ne.
        let other : a ≢ b = differ m.key a b (λ e. ne (sym e ∙ cell.key)) in
        record {
          alive = refl;
          left = update_ne m.left a y b other;
          right = refl;
          parent = refl;
          color = refl;
          key = refl;
        } in
      (
        record {
          some_node = cell.some_node;
          live = cell.live;
          parent = cell.parent;
          color = cell.color;
          key = cell.key;
        },
        update_self m.left a y,
        Rep-same m m' refl r (k + 1) (high top_hi up) a (m.right a)
            (λ b some_b low_b high_b. same b (λ e. absurd (omega arith))) in_r rep,
        Around-same m m' refl up top_hi a
            (λ b some_b out.
              same b
                (λ e. elim out [ inl h ↦ absurd (omega arith) | inr h ↦ absurd (omega arith) ]))
            refl in_up around,
      )
  relink-Around (in_right a c l k up) top_hi p (low_k, k_high, in_l, in_up)
        (cell, at, rep, around) =
      let m' = relink (in_right a c l k up) y m in
      let same : (b : ℕ) → m.key b ≢ k → SameAt m m' b = λ b ne.
        let other : a ≢ b = differ m.key a b (λ e. ne (sym e ∙ cell.key)) in
        record {
          alive = refl;
          left = refl;
          right = update_ne m.right a y b other;
          parent = refl;
          color = refl;
          key = refl;
        } in
      (
        record {
          some_node = cell.some_node;
          live = cell.live;
          parent = cell.parent;
          color = cell.color;
          key = cell.key;
        },
        update_self m.right a y,
        Rep-same m m' refl l (low up) k a (m.left a)
            (λ b some_b low_b high_b. same b (λ e. absurd (omega arith))) in_l rep,
        Around-same m m' refl up top_hi a
            (λ b some_b out.
              same b
                (λ e. elim out [ inl h ↦ absurd (omega arith) | inr h ↦ absurd (omega arith) ]))
            refl in_up around,
      )

  pub replace-relink :
      (s : Spine) (top_hi x : ℕ)
      → InSpine top_hi s
      → Around m x s
      → m.alive x ≡ true
      → x ≢ m.nil
      → m.parent x ≡ above m.nil s
      → low s ≤ m.key x
      → replace x y m ≡ ok (relink s y m)
  unfolding replace
  replace-relink top top_hi x in_s around live some_x par low_x = rw (live, par, ==_self m.nil) refl
  replace-relink (in_left a c k r up) top_hi x in_s (cell, at, rep, around) live some_x par low_x =
      let some_a : (a == m.nil) ≡ false = ground (arith, cell.some_node) in
      rw (live, par, some_a, cell.live, at, ==_self x) refl
  replace-relink (in_right a c l k up) top_hi x (low_k, k_high, in_l, in_up) (cell, at, rep, around)
        live some_x par low_x =
      let some_a : (a == m.nil) ≡ false = ground (arith, cell.some_node) in
      let ne = root_ne m a (m.left a) (low up) k x l rep in_l some_x (inr (omega arith)) in
      let other : (x == m.left a) ≡ false = ground (arith, ne) in
      rw (live, par, some_a, cell.live, other) refl

-- `adopt` makes `x` the parent of a node, and of nothing where there is none.
abbrev pub adopted : (child x : ℕ) → Memory → ℕ → ℕ
adopted child x m = if child == m.nil then m.parent else update m.parent child x

pub adopt-ok :
    (child x : ℕ) (m : Memory)
    → (child ≢ m.nil → m.alive child ≡ true)
    → adopt child x m ≡ ok (record m { parent = adopted child x m })
unfolding adopt
adopt-ok child x m live = elim (Bool-cases (child == m.nil)) [
  | inl e ↦ rw e refl
  | inr e ↦ rw (e, live (λ e'. absurd (ground arith))) refl
]
