-- ===== src/Rbtree/Inserted.antt =====
-- `rbtree_insert` of rbtree/rbtree.cpp: the node is hung at its place, and the repair follows.
use hello_world.Prelude.{
  ℕ, ◌+◌, ◌≤◌, ◌<◌, ◌≡◌, refl, sym, ap, ◌∙◌, ◌≢◌, ◌⊎◌, inl, inr, true, false, List, arith, ltb,
  ◌==◌, lt→ltb, le→not_ltb, ==_self,
}
use hello_world.Outcome.{ok}
use hello_world.Rbtree.Nodes.{Memory, update, red}
use hello_world.Rbtree.Insert.{hang_on, rbtree_insert}
use hello_world.Rbtree.Tree.{
  Spine, plug, inorder, before, after, low, high, inorder-plug, leaf, node, top, in_left, in_right,
}
use hello_world.Rbtree.Shape.{above, Around, At, Kept-trans, Around-same}
use hello_world.Rbtree.Relink.{relink, update_self, update_ne, differ, relink-Around}
use hello_world.Rbtree.Fix.{Fixing, Kept-refl}
use hello_world.Rbtree.Fixup.{Holds, Settles, fixup-Settles}
use hello_world.Rbtree.Sorted.{
  insert_key, AllBelow-le, AllFrom-le, before-AllBelow, after-AllFrom, insert_key-new,
}
use hello_world.Rbtree.Place.{height, find_place-Finds}

-- The writes of `hang_on`.
abbrev hung : (z : ℕ) → Spine → Memory → Memory
hung z s m =
    let m₂ = relink s z (record m { parent = update m.parent z (above m.nil s) }) in
    record m₂ {
      left = update m₂.left z m.nil;
      right = update m₂.right z m.nil;
      color = update m.color z red;
    }

hang_on-hung :
    (m : Memory) (top_hi z p : ℕ) (s : Spine)
    → m.alive z ≡ true
    → Around m p s
    → low s ≤ m.key z
    → m.key z < high top_hi s
    → hang_on z (above m.nil s) m ≡ ok (hung z s m)
unfolding hang_on
hang_on-hung m top_hi z p top live around low_key key_high =
    rw (live, ==_self m.nil, live, live, live) refl
hang_on-hung m top_hi z p (in_left a c k r up) live (cell, at, rep, around) low_key key_high =
    let some_a : (a == m.nil) ≡ false = let ne = cell.some_node in ground (arith, ne) in
    let less : ltb (m.key z) k ≡ true = lt→ltb (m.key z) k key_high in
    let key_a : m.key a ≡ k = cell.key in
    let live_a : m.alive a ≡ true = cell.live in
    rw (live, some_a, live, live_a, key_a, less, live, live, live) refl
hang_on-hung m top_hi z p (in_right a c l k up) live (cell, at, rep, around) low_key key_high =
    let some_a : (a == m.nil) ≡ false = let ne = cell.some_node in ground (arith, ne) in
    let more : ltb (m.key z) k ≡ false = le→not_ltb (m.key z) k (omega arith) in
    let key_a : m.key a ≡ k = cell.key in
    let live_a : m.alive a ≡ true = cell.live in
    rw (live, some_a, live, live_a, key_a, more, live, live, live) refl

module _ (m : Memory) (top_hi z : ℕ) (s : Spine) (live : m.alive z ≡ true) (some_z : z ≢ m.nil)
    (v : At m top_hi leaf s m.nil) (low_key : low s ≤ m.key z)
    (key_high : m.key z < high top_hi s) where
  abbrev m₁ : Memory
  m₁ = record m { parent = update m.parent z (above m.nil s) }

  abbrev m₂ : Memory
  m₂ = relink s z m₁

  abbrev m₅ : Memory
  m₅ = hung z s m

  ne_out : (a : ℕ) → (m.key a < low s) ⊎ (high top_hi s ≤ m.key a) → z ≢ a
  ne_out a out =
      differ m.key z a
        (λ e. elim out [ inl h ↦ absurd (omega arith) | inr h ↦ absurd (omega arith) ])

  around₁ : Around m₁ m.nil s
  around₁ =
      Around-same m m₁ refl s top_hi m.nil
        (λ a some_a out. record {
          alive = refl;
          left = refl;
          right = refl;
          parent = update_ne m.parent z (above m.nil s) a (ne_out a out);
          color = refl;
          key = refl;
        })
        refl v.spine v.around

  around₅ : Around m₅ z s
  around₅ =
      Around-same m₂ m₅ refl s top_hi z
        (λ a some_a out. record {
          alive = refl;
          left = update_ne m₂.left z m.nil a (ne_out a out);
          right = update_ne m₂.right z m.nil a (ne_out a out);
          parent = refl;
          color = update_ne m.color z red a (ne_out a out);
          key = refl;
        })
        refl v.spine (relink-Around m₁ z s top_hi m.nil v.spine around₁)

  hang_on-At :
      (hang_on z (above m.nil s) m ≡ ok m₅) × At m₅ top_hi (node z red leaf (m.key z) leaf) s z
  hang_on-At = (
    hang_on-hung m top_hi z m.nil s live v.around low_key key_high,
    record {
      nil_live = v.nil_live;
      nil_black = update_ne m.color z red m.nil some_z ∙ v.nil_black;
      rep = (
        refl,
        record {
          some_node = some_z;
          live = live;
          parent = update_self m.parent z (above m.nil s);
          color = update_self m.color z red;
          key = refl;
        },
        update_self m₂.left z m.nil,
        update_self m₂.right z m.nil,
      );
      around = around₅;
      within = (low_key, key_high, tt, tt);
      spine = v.spine;
    },
  )

pub rbtree_insert-Settles :
    (fuel z top_hi : ℕ) (m : Memory) (keys : List ℕ) (h : Holds m top_hi keys)
    → m.alive z ≡ true
    → z ≢ m.nil
    → m.key z < top_hi
    → height h.tree < fuel
    → Settles top_hi (insert_key (m.key z) keys) m (rbtree_insert fuel z m)
unfolding rbtree_insert
rbtree_insert-Settles fuel z top_hi m keys h live some_z key_high bound =
    let found =
      find_place-Finds m top_hi (m.key z) fuel (height h.tree) h.red_black.black_height h.tree top
        m.root m.nil h.at refl (omega arith) key_high h.red_black.balanced tt
        (inl h.red_black.black_root) bound (omega arith) in
    elim found [
      | inl (none_new, same) ↦ (
        m,
        rw (live, none_new) refl,
        Kept-refl,
        record {
          tree = h.tree;
          at = h.at;
          ordered = h.ordered ∙ sym (ap (insert_key (m.key z)) (sym h.ordered) ∙ same ∙ h.ordered);
          red_black = h.red_black;
        },
      )
      | inr (s, placed, p) ↦
          let (hangs, at) = hang_on-At m top_hi z s live some_z p.at p.low_key p.key_high in
          let m₅ = hung z s m in
          let new = node z red leaf (m.key z) leaf in
          let sorted : inorder (plug new s) ≡ insert_key (m.key z) keys =
            inorder-plug new s
            ∙ sym (
                insert_key-new (m.key z) (before s) (after s)
                  (AllBelow-le (low s) (m.key z) (before s) p.low_key
                    (before-AllBelow top_hi s p.at.spine))
                  (AllFrom-le (m.key z + 1) (high top_hi s) (after s) (omega (arith, p.key_high))
                    (after-AllFrom top_hi s p.at.spine)))
            ∙ ap (insert_key (m.key z))
                (sym (inorder-plug leaf s) ∙ ap inorder p.same ∙ h.ordered) in
          let fixing : Fixing top_hi (insert_key (m.key z) keys) m₅ z (height h.tree) = record {
            l = leaf;
            r = leaf;
            k = m.key z;
            s = s;
            n = 0;
            at = at;
            ordered = sorted;
            balanced = (refl, refl, refl, refl);
            around = p.around;
            deep = p.fits;
          } in
          let (m', settled, kept, holds) =
            fixup-Settles fuel (height h.tree) m₅ top_hi z (insert_key (m.key z) keys) bound
              fixing in
          (
            m',
            rw (live, placed, hangs) settled,
            Kept-trans (record { alive = refl; key = refl; value = refl; nil = refl }) kept,
            holds,
          )
    ]
