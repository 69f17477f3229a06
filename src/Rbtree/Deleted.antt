-- ===== src/Rbtree/Deleted.antt =====
-- `rbtree_delete` of rbtree/rbtree.cpp for a node that the search has found.
use mathlib.Core.Path.{subst, ap₂}
use hello_world.Prelude.{
  ℕ, ◌+◌, ◌≤◌, ◌<◌, ◌≡◌, refl, sym, ap, ◌∙◌, ◌≢◌, inl, true, false, List, [], ◌∷◌, ◌++◌, arith,
  ◌==◌,
}
use hello_world.Outcome.{ok}
use hello_world.Rbtree.Nodes.{Color, Memory}
use hello_world.Rbtree.Walk.{rbtree_search}
use hello_world.Rbtree.Delete.{node_to_unlink, rbtree_delete}
use hello_world.Rbtree.Tree.{
  Tree, Spine, plug, inorder, before, after, Within, low, InSpine, append_assoc, inorder-plug, leaf,
  node, top, in_left, in_right,
}
use hello_world.Rbtree.Shape.{above, At, down_right}
use hello_world.Rbtree.Relink.{differ}
use hello_world.Rbtree.Unlinked.{unlinked}
use hello_world.Rbtree.Shift.{HasParent, HasParent-kept}
use hello_world.Rbtree.Fixup.{Holds}
use hello_world.Rbtree.Sorted.{remove_key, remove_key-at, left-AllBelow}
use hello_world.Rbtree.Balance.{Balanced, BalancedAround, depth}
use hello_world.Rbtree.OneChild.{HasLeaf, child, child-remove, repair_after-Settles, unlink-Unlinks}
use hello_world.Rbtree.Leftmost.{Lefts, lefts, Leftmost, find_min-Leftmost, stay}
use hello_world.Rbtree.Located.{search_from-Located}
use hello_world.Rbtree.Rekey.{
  rekeyed, rekey-BalancedAround, low-way, above-way, depth-rekey, after-rekey, before-way, rekey-At,
}
use hello_world.Rbtree.Place.{height, Descends, descend_right}
use hello_world.Rbtree.DeleteRuns.{
  delete_self-run, delete_other-run, copy_content-run, node_to_unlink_self, node_to_unlink_min,
}
use hello_world.Rbtree.Freed.{freed, repair_after-freed}
use hello_world.Rbtree.Main.{free_node}

pub record Deletes (top_hi : ℕ) (keys : List ℕ) (fuel z : ℕ) (m : Memory) : Type 0 where
  pub cur : ℕ
  pub memory : Memory
  pub run : rbtree_delete fuel z m ≡ ok (cur, memory)
  pub some_cur : cur ≢ m.nil
  pub live_cur : m.alive cur ≡ true
  pub alive : memory.alive ≡ m.alive
  pub nil : memory.nil ≡ m.nil
  pub holds : Holds memory top_hi keys
  pub holds_freed : Holds (free_node cur memory) top_hi keys

pub height-plug : (s : Spine) (t : Tree) → depth s + height t ≤ height (plug t s)
height-plug top t = omega arith
height-plug (in_left a c k r up) t = omega (arith, height-plug up (node a c t k r))
height-plug (in_right a c l k up) t = omega (arith, height-plug up (node a c l k t))

module _ (m : Memory) (top_hi fuel z k n : ℕ) (c : Color) (s : Spine)
    (around : BalancedAround n s) where
  one_child-Deletes :
      (l r : Tree)
      → HasLeaf l r
      → At m top_hi (node z c l k r) s z
      → Balanced n (node z c l k r)
      → depth s < fuel
      → Deletes top_hi (remove_key k (inorder (plug (node z c l k r) s))) fuel z m
  one_child-Deletes l r one v b enough =
      let u = unlink-Unlinks m top_hi z k c l r s one v in
      let (low_k, k_high, in_l, in_r) = v.within in
      let m₁ = unlinked s u.x m in
      let (m', repaired, kept, holds) =
        repair_after-Settles fuel m₁ top_hi u.x z k n
          (remove_key k (inorder (plug (node z c l k r) s))) c l r s u.at u.par
          (child-remove top_hi z k c l r s one low_k in_l v.spine) b around enough in
      let (m'', repaired_freed, kept_freed, holds_freed) =
        repair_after-Settles fuel (freed z m₁) top_hi u.x z k n
          (remove_key k (inorder (plug (node z c l k r) s))) c l r s u.at_freed
          (HasParent-kept m₁ (freed z m₁) (above m.nil s) (child l r) refl refl u.par)
          (child-remove top_hi z k c l r s one low_k in_l v.spine) b around enough in
      record {
        cur = z;
        memory = m';
        run =
            delete_self-run m m₁ m' fuel z u.x c
              (node_to_unlink_self m fuel (above m.nil s) z k c l r one v.rep) u.run v.rep.1.live
              v.rep.1.color repaired;
        some_cur = v.rep.1.some_node;
        live_cur = v.rep.1.live;
        alive = kept.alive;
        nil = kept.nil;
        holds = holds;
        holds_freed =
            repair_after-freed fuel u.x z top_hi c
              (remove_key k (inorder (plug (node z c l k r) s))) m₁ m' m'' repaired repaired_freed
              kept_freed holds_freed;
      }

snoc-append : (b l x : List ℕ) (k : ℕ) → (b ++ (l ++ k ∷ [])) ++ x ≡ (b ++ l) ++ k ∷ x
snoc-append [] l x k = append_assoc l (k ∷ []) x
snoc-append (q ∷ b) l x k = ap (λ t. q ∷ t) (snoc-append b l x k)

-- The keys when the node `z` has got the key of `y`, whose place the child of `y` takes.
leftmost-remove :
    (top_hi z k y ky : ℕ) (c cy : Color) (l ry : Tree) (s : Spine) (way : Lefts)
    → low s ≤ k
    → Within (low s) k l
    → InSpine top_hi s
    → inorder (plug ry (lefts way (in_right z c l ky s)))
      ≡ remove_key k (inorder (plug (node y cy leaf ky ry) (lefts way (in_right z c l k s))))
leftmost-remove top_hi z k y ky c cy l ry s way low_k in_l in_s =
    let up = lefts way (in_right z c l k s) in
    let up' = lefts way (in_right z c l ky s) in
    let rest = inorder ry ++ after up in
    let new : inorder (plug ry up') ≡ (before s ++ inorder l) ++ ky ∷ rest =
      inorder-plug ry up'
      ∙ ap₂ (λ p q. p ++ (inorder ry ++ q)) (before-way z ky k c l s way)
          (after-rekey z k ky c l s way)
      ∙ snoc-append (before s) (inorder l) rest ky in
    let old : inorder (plug (node y cy leaf ky ry) up) ≡ (before s ++ inorder l) ++ k ∷ ky ∷ rest =
      inorder-plug (node y cy leaf ky ry) up
      ∙ ap (λ p. p ++ (ky ∷ rest)) (before-way z k ky c l s way)
      ∙ snoc-append (before s) (inorder l) (ky ∷ rest) k in
    new
    ∙ sym (
        remove_key-at k (before s ++ inorder l) (ky ∷ rest)
          (left-AllBelow top_hi k l s low_k in_l in_s))
    ∙ ap (remove_key k) (sym old)

module _ (m : Memory) (top_hi fuel z k : ℕ) (c : Color) (l : Tree) (s : Spine) where
  moved-Deletes :
      (keys : List ℕ) (t : Tree) (y : ℕ) (f : Leftmost m top_hi y (in_right z c l k s) t)
      → node_to_unlink fuel z m ≡ ok y
      → m.alive z ≡ true
      → m.key z ≡ k
      → inorder t ≡ keys
      → low s ≤ k
      → Within (low s) k l
      → InSpine top_hi s
      → height t < fuel
      → Deletes top_hi (remove_key k keys) fuel z m
  moved-Deletes keys t y f chosen live_z key_z e low_k in_l in_s enough =
      let up = lefts f.way (in_right z c l k s) in
      let up' = lefts f.way (in_right z c l f.k s) in
      let u = unlink-Unlinks m top_hi y f.k f.c leaf f.r up tt f.at in
      let (low_y, y_high, in_none, in_r) = f.at.within in
      let above_k : k < f.k = omega (arith, low-way z k f.k c l s f.way) in
      let m₁ = unlinked up u.x m in
      let m₂ = rekeyed z f.k (m₁.value y) m₁ in
      let at₂ =
        rekey-At m₁ top_hi z k f.k (m₁.value y) c l s above_k f.way u.x f.r u.at in_r y_high in
      let at_freed =
        rekey-At (freed y m₁) top_hi z k f.k (m₁.value y) c l s above_k f.way u.x f.r u.at_freed
          in_r y_high in
      let par₂ : HasParent m₂ (above m.nil up') f.r =
        subst (λ q. HasParent m₂ q f.r) (sym (above-way z k f.k c l s m.nil f.way))
          (HasParent-kept m₁ m₂ (above m.nil up) f.r refl refl u.par) in
      let (n, b, around, fits) = f.descends in
      let ordered : inorder (plug f.r up') ≡ remove_key k keys =
        leftmost-remove top_hi z k y f.k c f.c l f.r s f.way low_k in_l in_s
        ∙ ap (remove_key k) (ap inorder f.same ∙ e) in
      let deep : depth up' < fuel = omega (
        arith,
        depth-rekey z k f.k c l s f.way,
        height-plug up (node y f.c leaf f.k f.r),
        ap height f.same,
      ) in
      let (m', repaired, kept, holds) =
        repair_after-Settles fuel m₂ top_hi u.x y f.k n (remove_key k keys) f.c leaf f.r up' at₂
          par₂ ordered b (rekey-BalancedAround z k f.k c l s f.way n around) deep in
      let (m'', repaired_freed, kept_freed, holds_freed) =
        repair_after-Settles fuel (freed y m₂) top_hi u.x y f.k n (remove_key k keys) f.c leaf f.r
          up' at_freed (HasParent-kept m₂ (freed y m₂) (above m.nil up') f.r refl refl par₂) ordered
          b (rekey-BalancedAround z k f.k c l s f.way n around) deep in
      let cell = f.at.rep.1 in
      let other : (y == z) ≡ false =
        let ne : y ≢ z = differ m.key y z (λ q. absurd (omega (arith, cell.key))) in
        ground (arith, ne) in
      record {
        cur = y;
        memory = m';
        run =
            delete_other-run m m₁ m₂ m' fuel z y u.x f.c chosen u.run other
              (copy_content-run m₁ z y f.k live_z cell.live cell.key) cell.live cell.color repaired;
        some_cur = cell.some_node;
        live_cur = cell.live;
        alive = kept.alive;
        nil = kept.nil;
        holds = holds;
        holds_freed =
            repair_after-freed fuel u.x y top_hi f.c (remove_key k keys) m₂ m' m'' repaired
              repaired_freed kept_freed holds_freed;
      }

located-Deletes :
    (m : Memory) (top_hi fuel z k : ℕ) (c : Color) (s : Spine) (l r : Tree)
    → At m top_hi (node z c l k r) s z
    → Descends (node z c l k r) s
    → height (plug (node z c l k r) s) < fuel
    → Deletes top_hi (remove_key k (inorder (plug (node z c l k r) s))) fuel z m
located-Deletes m top_hi fuel z k c s leaf r v (n, b, around, fits) enough =
    one_child-Deletes m top_hi fuel z k n c s around leaf r tt v b
      (omega (arith, height-plug s (node z c leaf k r)))
located-Deletes m top_hi fuel z k c s (node a ca la ka ra) leaf v (n, b, around, fits) enough =
    one_child-Deletes m top_hi fuel z k n c s around (node a ca la ka ra) leaf refl v b
      (omega (arith, height-plug s (node z c (node a ca la ka ra) k leaf)))
located-Deletes m top_hi fuel z k c s (node a ca la ka ra) (node b cb lb kb rb) v
      (n, bal, around, fits) enough =
    let l = node a ca la ka ra in
    let r = node b cb lb kb rb in
    let (at, cell, rep_l, rep_r) = v.rep in
    let (low_k, k_high, in_l, in_r) = v.within in
    let (y, runs, f) =
      find_min-Leftmost m top_hi fuel b kb (m.right z) cb lb rb stay (in_right z c l k s)
        (down_right v) (descend_right n z k c l r s bal around fits)
        (omega (arith, height-plug s (node z c l k r))) in
    let chosen =
      node_to_unlink_min m fuel z (m.left z) (m.right z) cell.live refl refl
        (λ e. rep_l.1.some_node (sym rep_l.0 ∙ e)) (λ e. rep_r.1.some_node (sym rep_r.0 ∙ e)) in
    moved-Deletes m top_hi fuel z k c l s (inorder (plug (node z c l k r) s))
      (plug (node z c l k r) s) y f (chosen ∙ runs) cell.live cell.key refl low_k in_l v.spine
      enough

pub rbtree_delete-Deletes :
    (m : Memory) (top_hi fuel key z : ℕ) (keys : List ℕ) (h : Holds m top_hi keys)
    → rbtree_search fuel key m ≡ ok z
    → z ≢ m.nil
    → height h.tree < fuel
    → Deletes top_hi (remove_key key keys) fuel z m
unfolding rbtree_search
rbtree_delete-Deletes m top_hi fuel key z keys h found some_z enough =
    let start : Descends h.tree top =
      (h.red_black.black_height, h.red_black.balanced, tt, inl h.red_black.black_root) in
    let p = search_from-Located m top_hi key z some_z fuel m.root h.tree top h.at start found in
    subst (λ q. Deletes top_hi (remove_key key q) fuel z m) (ap inorder p.same ∙ h.ordered)
      (located-Deletes m top_hi fuel z key p.c p.s p.l p.r p.at p.descends
        (subst (λ t. height t < fuel) (sym p.same) enough))
