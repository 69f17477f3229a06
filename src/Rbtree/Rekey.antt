-- ===== src/Rbtree/Rekey.antt =====
-- What `rbtree_delete` of rbtree/rbtree.cpp does to the node that it keeps, which gets the key of the
-- leftmost node below its right child.
use mathlib.Core.Path.{subst, subst₂}
use hello_world.Prelude.{
  ℕ, suc, ◌+◌, ◌<◌, ◌≡◌, refl, sym, ap, ◌∙◌, ◌≢◌, inl, inr, [], ◌∷◌, ◌++◌, arith,
}
use hello_world.Rbtree.Nodes.{Color, Memory, update, red, black}
use hello_world.Rbtree.Tree.{
  Tree, Spine, inorder, before, after, Within, low, high, InSpine, in_right,
}
use hello_world.Rbtree.Shape.{Rep, above, Around, At, SameAt, Rep-same, Around-same}
use hello_world.Rbtree.Relink.{update_self, update_ne}
use hello_world.Rbtree.Unlinked.{Within-wider}
use hello_world.Rbtree.Balance.{UnderBlack, BalancedAround, depth}
use hello_world.Rbtree.Leftmost.{Lefts, lefts, stay, under}

-- The writes of `copy_content`.
abbrev pub rekeyed : (z k v : ℕ) → Memory → Memory
rekeyed z k v m = record m { key = update m.key z k; value = update m.value z v }

-- The balance does not depend on the key.
module _ (z k k' : ℕ) (c : Color) (l : Tree) (s : Spine) where
  UnderBlack-rekey :
      (way : Lefts)
      → UnderBlack (lefts way (in_right z c l k s))
      → UnderBlack (lefts way (in_right z c l k' s))
  UnderBlack-rekey stay u =
      elim c as (λ q. UnderBlack (in_right z q l k s) → UnderBlack (in_right z q l k' s)) [
        | red ↦ (λ w. w)
        | black ↦ (λ w. w)
      ]
        u
  UnderBlack-rekey (under a red ka r way) u = u
  UnderBlack-rekey (under a black ka r way) u = u

  pub rekey-BalancedAround :
      (way : Lefts) (n : ℕ)
      → BalancedAround n (lefts way (in_right z c l k s))
      → BalancedAround n (lefts way (in_right z c l k' s))
  rekey-BalancedAround stay n around = base c around
    where
      base :
          (q : Color)
          → BalancedAround n (in_right z q l k s)
          → BalancedAround n (in_right z q l k' s)
      base red b = b
      base black b = b
  rekey-BalancedAround (under a red ka r way) n (black_r, b_r, under_black, around) =
      (black_r, b_r, UnderBlack-rekey way under_black, rekey-BalancedAround way n around)
  rekey-BalancedAround (under a black ka r way) n (b_r, around) =
      (b_r, rekey-BalancedAround way (suc n) around)

  pub low-way : (way : Lefts) → low (lefts way (in_right z c l k s)) ≡ k + 1
  low-way stay = refl
  low-way (under a ca ka r way) = low-way way

  pub above-way :
      (nil : ℕ) (way : Lefts)
      → above nil (lefts way (in_right z c l k' s)) ≡ above nil (lefts way (in_right z c l k s))
  above-way nil stay = refl
  above-way nil (under a ca ka r way) = refl

  pub depth-rekey :
      (way : Lefts)
      → depth (lefts way (in_right z c l k' s)) ≡ depth (lefts way (in_right z c l k s))
  depth-rekey stay = refl
  depth-rekey (under a ca ka r way) = ap suc (depth-rekey way)

  pub after-rekey :
      (way : Lefts)
      → after (lefts way (in_right z c l k' s)) ≡ after (lefts way (in_right z c l k s))
  after-rekey stay = refl
  after-rekey (under a ca ka r way) = ap (λ q. ka ∷ (inorder r ++ q)) (after-rekey way)

  pub before-way :
      (way : Lefts) → before (lefts way (in_right z c l k s)) ≡ before s ++ (inorder l ++ k ∷ [])
  before-way stay = refl
  before-way (under a ca ka r way) = before-way way

module _ (m : Memory) (top_hi z k k' w : ℕ) (c : Color) (l : Tree) (s : Spine)
    (above_k : k < k') where
  abbrev m' : Memory
  m' = rekeyed z k' w m

  same_at : m.key z ≡ k → (b : ℕ) → m.key b ≢ k → SameAt m m' b
  same_at key_z b ne = record {
    alive = refl;
    left = refl;
    right = refl;
    parent = refl;
    color = refl;
    key = update_ne m.key z k' b (λ e. ne (sym (ap m.key e) ∙ key_z));
  }

  rekey-base :
      (p : ℕ)
      → InSpine top_hi (in_right z c l k s)
      → Around m p (in_right z c l k s)
      → k' < high top_hi s
      → Around m' p (in_right z c l k' s) × InSpine top_hi (in_right z c l k' s)
  rekey-base p (low_k, k_high, in_l, in_s) (cell, at, rep_l, around) k'_high =
      let same = same_at cell.key in
      (
        (
          record {
            some_node = cell.some_node;
            live = cell.live;
            parent = cell.parent;
            color = cell.color;
            key = update_self m.key z k';
          },
          at,
          Rep-same m m' refl l (low s) k z (m.left z)
              (λ b some_b low_b high_b. same b (λ e. absurd (omega arith))) in_l rep_l,
          Around-same m m' refl s top_hi z
              (λ b some_b out.
                same b
                  (λ e. elim out [ inl h ↦ absurd (omega arith) | inr h ↦ absurd (omega arith) ]))
              refl in_s around,
        ),
        (
          omega arith,
          k'_high,
          Within-wider (low s) k (low s) k' l (omega arith) (omega arith) in_l,
          in_s,
        ),
      )

  high-way :
      (way : Lefts)
      → high top_hi (lefts way (in_right z c l k' s)) ≡ high top_hi (lefts way (in_right z c l k s))
  high-way stay = refl
  high-way (under a c' ka r way) = refl

  -- The key of the node that is kept.
  base-key : (way : Lefts) (p : ℕ) → Around m p (lefts way (in_right z c l k s)) → m.key z ≡ k
  base-key stay p around = around.0.key
  base-key (under a c' ka r way) p around = base-key way a around.3

  rekey-way :
      (way : Lefts) (p : ℕ)
      → InSpine top_hi (lefts way (in_right z c l k s))
      → Around m p (lefts way (in_right z c l k s))
      → k' < high top_hi (lefts way (in_right z c l k s))
      → Around m' p (lefts way (in_right z c l k' s))
        × InSpine top_hi (lefts way (in_right z c l k' s))
  rekey-way stay p in_s around k'_high = rekey-base p in_s around k'_high
  rekey-way (under a c' ka r way) p (low_a, a_high, in_r, in_up) (cell, at, rep_r, around) k'_high =
      let up = lefts way (in_right z c l k s) in
      let up' = lefts way (in_right z c l k' s) in
      let (around', in_up') = rekey-way way a in_up around (omega arith) in
      let key_z = base-key way a around in
      let low_up = low-way z k k' c l s way in
      let same = same_at key_z in
      let here = same a (λ e. absurd (omega (arith, cell.key, low_up))) in
      (
        (
          record {
            some_node = cell.some_node;
            live = cell.live;
            parent = cell.parent ∙ sym (above-way z k k' c l s m.nil way);
            color = cell.color;
            key = here.key ∙ cell.key;
          },
          at,
          Rep-same m m' refl r (ka + 1) (high top_hi up) a (m.right a)
              (λ b some_b low_b high_b. same b (λ e. absurd (omega (arith, low_up)))) in_r rep_r,
          around',
        ),
        (
          omega (arith, low-way z k' k c l s way),
          subst (λ q. ka < q) (sym (high-way way)) a_high,
          subst (λ q. Within (ka + 1) q r) (sym (high-way way)) in_r,
          in_up',
        ),
      )

  pub rekey-At :
      (way : Lefts) (x : ℕ) (t : Tree)
      → At m top_hi t (lefts way (in_right z c l k s)) x
      → Within (k' + 1) (high top_hi (lefts way (in_right z c l k s))) t
      → k' < high top_hi (lefts way (in_right z c l k s))
      → At m' top_hi t (lefts way (in_right z c l k' s)) x
  rekey-At way x t v within k'_high =
      let up = lefts way (in_right z c l k s) in
      let key_z = base-key way x v.around in
      let (around', spine') = rekey-way way x v.spine v.around k'_high in
      record {
        nil_live = v.nil_live;
        nil_black = v.nil_black;
        rep =
            subst (λ q. Rep m' q x t) (sym (above-way z k k' c l s m.nil way))
              (Rep-same m m' refl t (k' + 1) (high top_hi up) (above m.nil up) x
                (λ b some_b low_b high_b. same_at key_z b (λ e. absurd (omega arith))) within
                v.rep);
        around = around';
        within =
            subst₂ (λ a b. Within a b t) (sym (low-way z k' k c l s way)) (sym (high-way way))
              within;
        spine = spine';
      }
