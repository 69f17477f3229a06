-- ===== src/Rbtree/Next.antt =====
-- `rbtree_successor` of rbtree/rbtree.cpp: the node with the next key.
use mathlib.Core.Path.{subst}
use hello_world.Prelude.{
  ℕ, zero, suc, ◌+◌, ◌*◌, ◌^◌, ◌≤◌, ◌<◌, ◌≡◌, refl, sym, ap, ◌∙◌, ◌≢◌, inl, true, false, List, [],
  ◌∷◌, ◌++◌, arith, ltb, ◌==◌, if◌then◌else◌, lt→ltb, le→not_ltb, ==_self, length,
}
use hello_world.Outcome.{ok}
use hello_world.Rbtree.Nodes.{Color, Memory}
use hello_world.Rbtree.Walk.{rbtree_search, climb, rbtree_successor}
use hello_world.Rbtree.Tree.{
  Tree, Spine, plug, inorder, before, after, high, inorder-plug, inorder-plug_node, leaf, node, top,
  in_left, in_right,
}
use hello_world.Rbtree.Shape.{above, At, up_left, up_right, down_right}
use hello_world.Rbtree.Relink.{root_ne}
use hello_world.Rbtree.Balance.{depth}
use hello_world.Rbtree.Place.{height, Descends, descend_right}
use hello_world.Rbtree.Fixup.{Holds}
use hello_world.Rbtree.Sorted.{
  AllBelow, AllFrom, AllFrom-append, AllFrom-le, inorder-AllFrom, after-AllFrom, left-AllBelow,
}
use hello_world.Rbtree.Leftmost.{lefts, find_min-Leftmost, stay}
use hello_world.Rbtree.Located.{search_from-Located}
use hello_world.Rbtree.Rekey.{before-way}
use hello_world.Rbtree.Deleted.{height-plug}
use hello_world.Rbtree.Depth.{height-lt}

-- The keys of a sorted list above a key.
unfoldable pub keys_above : ℕ → List ℕ → List ℕ
keys_above key [] = []
keys_above key (k ∷ ks) = let rest = keys_above key ks in if ltb key k then k ∷ ks else rest

-- A pointer to a node with the first of the keys, or to no node.
abbrev pub LeadsTo : Memory → ℕ → List ℕ → Type 0
LeadsTo m q [] = q ≡ m.nil
LeadsTo m q (k ∷ ks) = (q ≢ m.nil) × (m.alive q ≡ true) × (m.key q ≡ k)

keys_above-from : (key : ℕ) (ys : List ℕ) → AllFrom (key + 1) ys → keys_above key ys ≡ ys
unfolding keys_above
keys_above-from key [] g = refl
keys_above-from key (y ∷ ys) g = rw (lt→ltb key y (omega (arith, g.0))) refl

keys_above-at :
    (key : ℕ) (xs ys : List ℕ)
    → AllBelow key xs
    → AllFrom (key + 1) ys
    → keys_above key (xs ++ key ∷ ys) ≡ ys
unfolding keys_above
keys_above-at key [] ys h g = rw (le→not_ltb key key (omega arith)) (keys_above-from key ys g)
keys_above-at key (x ∷ xs) ys h g =
    rw (le→not_ltb key x (omega (arith, h.0))) (keys_above-at key xs ys h.1 g)

append-cancel : (xs ys zs : List ℕ) → xs ++ ys ≡ xs ++ zs → ys ≡ zs
append-cancel [] ys zs e = e
append-cancel (x ∷ xs) ys zs e = append-cancel xs ys zs (cc)

module _ (m : Memory) (top_hi : ℕ) where
  climb-LeadsTo :
      (fuel a k : ℕ) (c : Color) (l r : Tree) (s : Spine)
      → At m top_hi (node a c l k r) s a
      → depth s < fuel
      → (q : ℕ) × (climb fuel a (above m.nil s) m ≡ ok q) × LeadsTo m q (after s)
  unfolding climb
  climb-LeadsTo zero a k c l r s v enough = absurd (omega arith)
  climb-LeadsTo (suc fuel) a k c l r top v enough = (m.nil, rw (==_self m.nil) refl, refl)
  climb-LeadsTo (suc fuel) a k c l r (in_left p cp kp R up) v enough =
      let at_p = up_left v in
      let cell = at_p.rep.1 in
      let some_p : (p == m.nil) ≡ false = let ne = cell.some_node in ground (arith, ne) in
      let live_p : m.alive p ≡ true = cell.live in
      let apart =
        root_ne m p (m.right p) (kp + 1) (high top_hi up) a R at_p.rep.3 at_p.within.3
          v.rep.1.some_node (inl (omega (arith, v.rep.1.key, v.within))) in
      let other : (a == m.right p) ≡ false = ground (arith, apart) in
      (p, rw (some_p, live_p, other) refl, (cell.some_node, cell.live, cell.key))
  climb-LeadsTo (suc fuel) a k c l r (in_right p cp L kp up) v enough =
      let at_p = up_right v in
      let cell = at_p.rep.1 in
      let some_p : (p == m.nil) ≡ false = let ne = cell.some_node in ground (arith, ne) in
      let live_p : m.alive p ≡ true = cell.live in
      let at_a : m.right p ≡ a = v.around.1 in
      let par_p : m.parent p ≡ above m.nil up = cell.parent in
      let (q, runs, leads) = climb-LeadsTo fuel p kp cp L (node a c l k r) up at_p (omega arith) in
      (q, rw (some_p, live_p, at_a, ==_self a, par_p) runs, leads)

  located-LeadsTo :
      (fuel z k : ℕ) (c : Color) (l r : Tree) (s : Spine)
      → At m top_hi (node z c l k r) s z
      → Descends (node z c l k r) s
      → height (plug (node z c l k r) s) < fuel
      → (q : ℕ) × (rbtree_successor fuel z m ≡ ok q) × LeadsTo m q (inorder r ++ after s)
  unfolding rbtree_successor
  located-LeadsTo fuel z k c l leaf s v d enough =
      let live : m.alive z ≡ true = v.rep.1.live in
      let par : m.parent z ≡ above m.nil s = v.rep.1.parent in
      let none_right : m.right z ≡ m.nil = v.rep.3 in
      let (q, runs, leads) =
        climb-LeadsTo fuel z k c l leaf s v (omega (arith, height-plug s (node z c l k leaf))) in
      (q, rw (live, par, none_right, ==_self m.nil) runs, leads)
  located-LeadsTo fuel z k c l (node b cb bl kb br) s v (n, bal, around, fits) enough =
      let r = node b cb bl kb br in
      let live : m.alive z ≡ true = v.rep.1.live in
      let some_right : (m.right z == m.nil) ≡ false =
        let ne : m.right z ≢ m.nil = λ e. v.rep.3.1.some_node (sym v.rep.3.0 ∙ e) in
        ground (arith, ne) in
      let base = in_right z c l k s in
      let (y, runs, f) =
        find_min-Leftmost m top_hi fuel b kb (m.right z) cb bl br stay base (down_right v)
          (descend_right n z k c l r s bal around fits)
          (omega (arith, height-plug s (node z c l k r))) in
      let up = lefts f.way base in
      let rest = inorder f.r ++ after up in
      let same : before base ++ (f.k ∷ rest) ≡ before base ++ (inorder r ++ after s) =
        ap (λ q. q ++ (f.k ∷ rest)) (sym (before-way z k k c l s f.way))
        ∙ sym (inorder-plug (node y f.c leaf f.k f.r) up)
        ∙ ap inorder f.same
        ∙ inorder-plug r base in
      let cell = f.at.rep.1 in
      (
        y,
        rw (live, some_right) runs,
        subst (λ q. LeadsTo m y q)
            (append-cancel (before base) (f.k ∷ rest) (inorder r ++ after s) same)
            (cell.some_node, cell.live, cell.key),
      )

-- If the memory holds a red-black tree of fewer than 2 ^ h - 1 keys, and rbtree_search finds a
-- node with the key, rbtree_successor of that node returns within 2 h rounds, and gives an
-- allocated node with the first of the keys above the key, or nil when no key is above it
pub rbtree_successor-LeadsTo :
    (m : Memory) (top_hi h fuel key z : ℕ) (keys : List ℕ)
    → Holds m top_hi keys
    → rbtree_search fuel key m ≡ ok z
    → z ≢ m.nil
    → length keys + 1 < 2 ^ h
    → 2 * h ≤ fuel
    → (q : ℕ) × (rbtree_successor fuel z m ≡ ok q) × LeadsTo m q (keys_above key keys)
unfolding rbtree_search
rbtree_successor-LeadsTo m top_hi h fuel key z keys holds found some_z few enough =
    let start : Descends holds.tree top = (
      holds.red_black.black_height,
      holds.red_black.balanced,
      tt,
      inl holds.red_black.black_root,
    ) in
    let p =
      search_from-Located m top_hi key z some_z fuel m.root holds.tree top holds.at start found in
    let (q, runs, leads) = located-LeadsTo m top_hi fuel z key p.c p.l p.r p.s p.at p.descends (
      subst (λ t. height t < fuel) (sym p.same)
        (height-lt m top_hi h fuel keys holds few enough)) in
    let (low_k, k_high, in_l, in_r) = p.at.within in
    let rest : keys_above key keys ≡ inorder p.r ++ after p.s =
      ap (keys_above key)
        (sym (ap inorder p.same ∙ holds.ordered) ∙ inorder-plug_node z key p.c p.l p.r p.s)
      ∙ keys_above-at key (before p.s ++ inorder p.l) (inorder p.r ++ after p.s)
          (left-AllBelow top_hi key p.l p.s low_k in_l p.at.spine)
          (AllFrom-append (key + 1) (inorder p.r) (after p.s)
            (inorder-AllFrom (key + 1) (high top_hi p.s) p.r in_r)
            (AllFrom-le (key + 1) (high top_hi p.s) (after p.s) (omega arith)
              (after-AllFrom top_hi p.s p.at.spine))) in
    (q, runs, subst (λ ks. LeadsTo m q ks) (sym rest) leads)
