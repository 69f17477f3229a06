-- ===== src/Rbtree/Unlinked.antt =====
-- What `rbtree_delete` of rbtree/rbtree.cpp does to the node that leaves its place.
use mathlib.Core.Path.{subst}
use hello_world.Prelude.{ℕ, ◌+◌, ◌≤◌, ◌<◌, ◌≡◌, refl, sym, ap, ◌∙◌, ◌≢◌, ◌⊎◌, inl, inr, arith}
use hello_world.Outcome.{ok}
use hello_world.Rbtree.Nodes.{Color, Memory, update}
use hello_world.Rbtree.Rotate.{replace}
use hello_world.Rbtree.Tree.{Tree, Spine, Within, low, high, leaf, node}
use hello_world.Rbtree.Shape.{
  Rep, above, Around, At, SameAt, SameAt-trans, SameOut, Rep-same, Around-same,
}
use hello_world.Rbtree.Relink.{
  relink, update_self, update_ne, root_ne, relink-same, relink-Around, replace-relink,
}

pub Within-wider :
    (lo hi lo' hi' : ℕ) (t : Tree) → lo' ≤ lo → hi ≤ hi' → Within lo hi t → Within lo' hi' t
Within-wider lo hi lo' hi' leaf low_le high_le w = tt
Within-wider lo hi lo' hi' (node a c l k r) low_le high_le (low_k, k_high, in_l, in_r) = (
  omega arith,
  omega arith,
  Within-wider lo k lo' k l low_le (omega arith) in_l,
  Within-wider (k + 1) hi (k + 1) hi' r (omega arith) high_le in_r,
)

-- The memory behind the unlinking of `y`, whose place `s` its child `x` takes.
abbrev pub unlinked : Spine → (x : ℕ) → Memory → Memory
unlinked s x m = relink s x (record m { parent = update m.parent x (above m.nil s) })

module _ (m : Memory) (top_hi y x k lo hi : ℕ) (c : Color) (l r T : Tree) (s : Spine)
    (v : At m top_hi (node y c l k r) s y) (rep : Rep m y x T) (within : Within lo hi T)
    (inside : (low s ≤ lo) × (hi ≤ high top_hi s)) (apart : (k < lo) ⊎ (hi ≤ k)) where
  abbrev m₁ : Memory
  m₁ = record m { parent = update m.parent x (above m.nil s) }

  x_ne_y : y ≢ x
  x_ne_y = root_ne m y x lo hi y T rep within v.rep.1.some_node (elim apart [
    | inl h ↦ inl (omega (arith, v.rep.1.key))
    | inr h ↦ inr (omega (arith, v.rep.1.key))
  ])

  out₁ : SameOut m m₁ (low s) (high top_hi s)
  out₁ a some_a out = record {
    alive = refl;
    left = refl;
    right = refl;
    parent = update_ne m.parent x (above m.nil s) a (λ e.
        root_ne m y x lo hi a T rep within some_a
          (elim out [ inl h ↦ inl (omega arith) | inr h ↦ inr (omega arith) ]) (sym e));
    color = refl;
    key = refl;
  }

  around₁ : Around m₁ y s
  around₁ = Around-same m m₁ refl s top_hi y out₁ refl v.spine v.around

  Rep-child : (t : Tree) → Rep m y x t → Within lo hi t → Rep (unlinked s x m) (above m.nil s) x t
  Rep-child leaf at w = at
  Rep-child (node a ca la ka ra) (at, cell, rep_l, rep_r) (low_k, k_high, in_l, in_r) =
      let same : (b : ℕ)
          → b ≢ m.nil
          → low s ≤ m.key b
          → m.key b < high top_hi s
          → x ≢ b
          → SameAt m (unlinked s x m) b =
        λ b some_b low_b high_b ne.
          SameAt-trans m m₁ (unlinked s x m) b
            (record {
              alive = refl;
              left = refl;
              right = refl;
              parent = update_ne m.parent x (above m.nil s) b ne;
              color = refl;
              key = refl;
            })
            (relink-same m₁ x s top_hi y v.spine around₁ b some_b low_b high_b) in
      let here =
        relink-same m₁ x s top_hi y v.spine around₁ a cell.some_node (omega (arith, cell.key))
          (omega (arith, cell.key)) in
      (
        at,
        record {
          some_node = cell.some_node;
          live = cell.live;
          parent =
              subst (λ q. update m.parent x (above m.nil s) q ≡ above m.nil s) at
                (update_self m.parent x (above m.nil s));
          color = cell.color;
          key = cell.key;
        },
        Rep-same m (unlinked s x m) refl la lo ka a ((unlinked s x m).left a)
            (λ b some_b low_b high_b.
              same b some_b (omega arith) (omega arith)
                (λ e. absurd (let e' = ap m.key (sym at ∙ e) in omega (arith, cell.key))))
            in_l (subst (λ q. Rep m a q la) (sym here.left) rep_l),
        Rep-same m (unlinked s x m) refl ra (ka + 1) hi a ((unlinked s x m).right a)
            (λ b some_b low_b high_b.
              same b some_b (omega arith) (omega arith)
                (λ e. absurd (let e' = ap m.key (sym at ∙ e) in omega (arith, cell.key))))
            in_r (subst (λ q. Rep m a q ra) (sym here.right) rep_r),
      )

  pub unlinks : replace y x m₁ ≡ ok (unlinked s x m)
  unlinks =
      replace-relink m₁ x s top_hi y v.spine around₁ v.rep.1.live v.rep.1.some_node
        (update_ne m.parent x (above m.nil s) y (λ e. x_ne_y (sym e)) ∙ v.rep.1.parent)
        (omega (arith, v.rep.1.key, v.within))

  pub unlinked-At : At (unlinked s x m) top_hi T s x
  unlinked-At = record {
    nil_live = v.nil_live;
    nil_black = v.nil_black;
    rep = Rep-child T rep within;
    around = relink-Around m₁ x s top_hi y v.spine around₁;
    within = Within-wider lo hi (low s) (high top_hi s) T inside.0 inside.1 within;
    spine = v.spine;
  }
