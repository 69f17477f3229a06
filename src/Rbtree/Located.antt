-- ===== src/Rbtree/Located.antt =====
-- Where `rbtree_search` of rbtree/rbtree.cpp ends.
use mathlib.Core.Path.{subst, subst₂}
use hello_world.Prelude.{
  ℕ, zero, suc, ◌≡◌, refl, sym, ap, ◌∙◌, ◌≢◌, inl, inr, true, false, arith, ltb, ◌==◌, ==_self,
  Bool-cases,
}
use hello_world.Outcome.{ok}
use hello_world.Rbtree.Nodes.{Color, Memory}
use hello_world.Rbtree.Walk.{search_from}
use hello_world.Rbtree.Tree.{Tree, Spine, plug, leaf, node, in_left, in_right}
use hello_world.Rbtree.Shape.{At, down_left, down_right}
use hello_world.Rbtree.Place.{Descends, descend_left, descend_right}

-- The node `z` with the key stands in the tree.
pub record Located (m : Memory) (top_hi key z : ℕ) (t : Tree) : Type 0 where
  pub c : Color
  pub l : Tree
  pub r : Tree
  pub s : Spine
  pub at : At m top_hi (node z c l key r) s z
  pub same : plug (node z c l key r) s ≡ t
  pub descends : Descends (node z c l key r) s

module _ (m : Memory) (top_hi key z : ℕ) (some_z : z ≢ m.nil) where
  here :
      (a k : ℕ) (c : Color) (l r : Tree) (s : Spine) (p : ℕ)
      → At m top_hi (node a c l k r) s p
      → Descends (node a c l k r) s
      → a ≡ z
      → k ≡ key
      → Located m top_hi key z (plug (node a c l k r) s)
  here a k c l r s p v d at_z at_key = record {
    c = c;
    l = l;
    r = r;
    s = s;
    at =
        subst₂ (λ q j. At m top_hi (node q c l j r) s q) at_z at_key
          (subst (λ q. At m top_hi (node a c l k r) s q) v.rep.0 v);
    same = subst₂ (λ q j. plug (node q c l j r) s ≡ plug (node a c l k r) s) at_z at_key refl;
    descends = subst₂ (λ q j. Descends (node q c l j r) s) at_z at_key d;
  }

  pub search_from-Located :
      (fuel p : ℕ) (t : Tree) (s : Spine)
      → At m top_hi t s p
      → Descends t s
      → search_from fuel key p m ≡ ok z
      → Located m top_hi key z (plug t s)
  unfolding search_from
  search_from-Located zero p t s v d e = absurd (cc)
  search_from-Located (suc fuel) p leaf s v d e =
      let none_left : (p == m.nil) ≡ true = ap (λ q. q == m.nil) v.rep ∙ ==_self m.nil in
      let run : search_from (suc fuel) key p m ≡ ok m.nil = rw none_left refl in
      absurd (some_z (let h = sym run ∙ e in cc))
  search_from-Located (suc fuel) p (node a c l k r) s v (n, b, around, fits) e =
      let at : p ≡ a = v.rep.0 in
      let cell = v.rep.1 in
      let some_p : (p == m.nil) ≡ false = let ne = cell.some_node in ground (arith, ne) in
      let live_p : m.alive p ≡ true = subst (λ q. m.alive q ≡ true) (sym at) cell.live in
      let key_p : m.key p ≡ k = ap m.key at ∙ cell.key in
      elim (Bool-cases (ltb key k)) [
        | inl less ↦
            let run : search_from (suc fuel) key p m ≡ search_from fuel key (m.left p) m =
              rw (some_p, live_p, key_p, less) refl in
            search_from-Located fuel (m.left p) l (in_left a c k r s)
              (subst (λ q. At m top_hi l (in_left a c k r s) (m.left q)) (sym at) (down_left v))
              (descend_left n a k c l r s b around fits) (sym run ∙ e)
        | inr not_less ↦ elim (Bool-cases (ltb k key)) [
          | inl more ↦
              let run : search_from (suc fuel) key p m ≡ search_from fuel key (m.right p) m =
                rw (some_p, live_p, key_p, not_less, more) refl in
              search_from-Located fuel (m.right p) r (in_right a c l k s)
                (subst (λ q. At m top_hi r (in_right a c l k s) (m.right q)) (sym at)
                  (down_right v))
                (descend_right n a k c l r s b around fits) (sym run ∙ e)
          | inr not_more ↦
              let run : search_from (suc fuel) key p m ≡ ok p =
                rw (some_p, live_p, key_p, not_less, not_more) refl in
              let same_z : p ≡ z = let h = sym run ∙ e in cc in
              let same_key : k ≡ key = ground (arith, not_less, not_more) in
              here a k c l r s p v (n, b, around, fits) (sym at ∙ same_z) same_key
        ]
      ]
