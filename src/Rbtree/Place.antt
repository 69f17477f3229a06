-- ===== src/Rbtree/Place.antt =====
-- The search of `rbtree_insert` of rbtree/rbtree.cpp for the place of a key.
use mathlib.Core.Path.{subst}
use hello_world.Prelude.{
  ℕ, zero, suc, ◌+◌, ◌≤◌, ◌<◌, max, ◌≡◌, refl, sym, ap, ◌∙◌, ◌⊎◌, inl, inr, true, false, Option,
  none, some, ◌∷◌, ◌++◌, arith, ltb, ◌==◌, ltb→lt, ==_self, Bool-cases,
}
use hello_world.Outcome.{Outcome, ok}
use hello_world.Rbtree.Nodes.{Color, Memory, red, black}
use hello_world.Rbtree.Insert.{find_place}
use hello_world.Rbtree.Tree.{
  Tree, Spine, plug, inorder, before, after, low, high, root_color, inorder-plug_node, leaf, node,
  in_left, in_right,
}
use hello_world.Rbtree.Shape.{above, At, down_left, down_right}
use hello_world.Rbtree.Balance.{Balanced, UnderBlack, BalancedAround, depth}
use hello_world.Rbtree.Sorted.{insert_key, AllBelow, insert_key-old, left-AllBelow}

abbrev pub height : Tree → ℕ
height leaf = 0
height (node a c l k r) = suc (max (height l) (height r))

-- No red root under a red parent.
abbrev pub Fits : Tree → Spine → Type 0
Fits t s = (root_color t ≡ black) ⊎ UnderBlack s

-- The place of a new key, and what stands around it.
pub record NewPlace (m : Memory) (top_hi key deepest : ℕ) (t : Tree) (s : Spine) : Type 0 where
  pub at : At m top_hi leaf s m.nil
  pub low_key : low s ≤ key
  pub key_high : key < high top_hi s
  pub same : plug leaf s ≡ t
  pub around : BalancedAround 0 s
  pub fits : depth s ≤ deepest

-- What the search comes to: the key is in the tree, or its place is found.
abbrev pub Finds : (m : Memory) (top_hi key deepest : ℕ) → Tree → Outcome (Option ℕ) → Type 0
Finds m top_hi key deepest t out =
    ((out ≡ ok none) × (insert_key key (inorder t) ≡ inorder t))
    ⊎ ((s : Spine) × (out ≡ ok (some (above m.nil s))) × NewPlace m top_hi key deepest t s)

-- What the way down to a child leaves in order.
abbrev pub Descends : Tree → Spine → Type 0
Descends t s = (n : ℕ) × Balanced n t × BalancedAround n s × Fits t s

pub descend_left :
    (n a k : ℕ) (c : Color) (l r : Tree) (s : Spine)
    → Balanced n (node a c l k r)
    → BalancedAround n s
    → Fits (node a c l k r) s
    → Descends l (in_left a c k r s)
descend_left n a k red l r s b around (inl e) = absurd (cc)
descend_left n a k red l r s (black_l, black_r, b_l, b_r) around (inr under) =
    (n, b_l, (black_r, b_r, under, around), inl black_l)
descend_left n a k black l r s (below, e, b_l, b_r) around fits =
    (below, b_l, (b_r, subst (λ q. BalancedAround q s) e around), inr tt)

pub descend_right :
    (n a k : ℕ) (c : Color) (l r : Tree) (s : Spine)
    → Balanced n (node a c l k r)
    → BalancedAround n s
    → Fits (node a c l k r) s
    → Descends r (in_right a c l k s)
descend_right n a k red l r s b around (inl e) = absurd (cc)
descend_right n a k red l r s (black_l, black_r, b_l, b_r) around (inr under) =
    (n, b_r, (black_l, b_l, under, around), inl black_r)
descend_right n a k black l r s (below, e, b_l, b_r) around fits =
    (below, b_r, (b_l, subst (λ q. BalancedAround q s) e around), inr tt)

module _ (m : Memory) (top_hi key : ℕ) where
  here-old :
      (a k : ℕ) (c : Color) (l r : Tree) (s : Spine) (p : ℕ)
      → At m top_hi (node a c l k r) s p
      → key ≡ k
      → insert_key key (inorder (plug (node a c l k r) s)) ≡ inorder (plug (node a c l k r) s)
  here-old a k c l r s p v e =
      let whole : inorder (plug (node a c l k r) s)
          ≡ (before s ++ inorder l) ++ key ∷ (inorder r ++ after s) =
        inorder-plug_node a k c l r s
        ∙ ap (λ q. (before s ++ inorder l) ++ q ∷ (inorder r ++ after s)) (sym e) in
      let (low_k, k_high, in_l, in_r) = v.within in
      let below =
        subst (λ q. AllBelow q (before s ++ inorder l)) (sym e)
          (left-AllBelow top_hi k l s low_k in_l v.spine) in
      rw whole (insert_key-old key (before s ++ inorder l) (inorder r ++ after s) below)

  pub find_place-Finds :
      (fuel deepest n : ℕ) (t : Tree) (s : Spine) (x y : ℕ)
      → At m top_hi t s x
      → y ≡ above m.nil s
      → low s ≤ key
      → key < high top_hi s
      → Balanced n t
      → BalancedAround n s
      → Fits t s
      → height t < fuel
      → depth s + height t ≤ deepest
      → Finds m top_hi key deepest (plug t s) (find_place fuel key y x m)
  unfolding find_place
  find_place-Finds zero deepest n leaf s x y v at_y low_key key_high b around fits enough deep =
      absurd (omega arith)
  find_place-Finds zero deepest n (node a c l k r) s x y v at_y low_key key_high b around fits
        enough deep =
      absurd (omega arith)
  find_place-Finds (suc fuel) deepest n leaf s x y v at_y low_key key_high b around fits enough
        deep =
      let at_nil : x ≡ m.nil = v.rep in
      inr (
        s,
        rw (at_nil, ==_self m.nil, at_y) refl,
        record {
          at = subst (λ q. At m top_hi leaf s q) at_nil v;
          low_key = low_key;
          key_high = key_high;
          same = refl;
          around = subst (λ q. BalancedAround q s) b around;
          fits = omega arith;
        },
      )
  find_place-Finds (suc fuel) deepest n (node a c l k r) s x y v at_y low_key key_high b around fits
        enough deep =
      let at_a : x ≡ a = v.rep.0 in
      let cell = v.rep.1 in
      let live_a : m.alive a ≡ true = cell.live in
      let key_a : m.key a ≡ k = cell.key in
      let some_a : (a == m.nil) ≡ false = let ne = cell.some_node in ground (arith, ne) in
      elim (Bool-cases (ltb key k)) [
        | inl less ↦
            let (n', b', around', fits') = descend_left n a k c l r s b around fits in
            let further =
              find_place-Finds fuel deepest n' l (in_left a c k r s) (m.left a) a (down_left v) refl
                low_key (ltb→lt key k less) b' around' fits' (omega arith) (omega arith) in
            rw (at_a, some_a, live_a, key_a, less) further
        | inr not_less ↦ elim (Bool-cases (ltb k key)) [
          | inl more ↦
              let (n', b', around', fits') = descend_right n a k c l r s b around fits in
              let further =
                find_place-Finds fuel deepest n' r (in_right a c l k s) (m.right a) a (down_right v)
                  refl (omega (arith, ltb→lt k key more)) key_high b' around' fits' (omega arith)
                  (omega arith) in
              rw (at_a, some_a, live_a, key_a, not_less, more) further
          | inr not_more ↦
              let same : key ≡ k = ground (arith, not_less, not_more) in
              inl (
                rw (at_a, some_a, live_a, key_a, not_less, not_more) refl,
                here-old a k c l r s x v same,
              )
        ]
      ]
