-- ===== src/Rbtree/Built.antt =====
-- The tree that `main` of rbtree/rbtree.cpp builds.
use mathlib.Core.Path.{subst}
use hello_world.Prelude.{
  ℕ, suc, ◌+◌, ◌*◌, ◌^◌, ◌≤◌, ◌<◌, ◌≡◌, refl, sym, ap, ◌∙◌, ◌≢◌, Bool, true, false, List, [], ◌∷◌,
  arith, length,
}
use hello_world.Outcome.{ok}
use hello_world.Rbtree.Nodes.{Memory, update, black}
use hello_world.Rbtree.Main.{fresh_tree, new_node, insert_all}
use hello_world.Rbtree.Tree.{Tree, leaf, node}
use hello_world.Rbtree.Shape.{Rep}
use hello_world.Rbtree.Relink.{update_self, update_ne}
use hello_world.Rbtree.Fixup.{Holds}
use hello_world.Rbtree.Sorted.{insert_key}
use hello_world.Rbtree.Depth.{rbtree_insert-depth}

-- `malloc` gives addresses that are not in use, and different ones.
abbrev pub Fresh : (ℕ → Bool) → List (ℕ × ℕ) → Type 0
Fresh alive [] = Unit
Fresh alive ((z, key) ∷ nodes) = (alive z ≡ false) × Fresh (update alive z true) nodes

abbrev pub AllKeysBelow : ℕ → List (ℕ × ℕ) → Type 0
AllKeysBelow top_hi [] = Unit
AllKeysBelow top_hi ((z, key) ∷ nodes) = (key < top_hi) × AllKeysBelow top_hi nodes

-- The keys in the order of the insertions, put into a sorted list.
unfoldable pub insert_keys : List (ℕ × ℕ) → List ℕ → List ℕ
unfolding insert_key
insert_keys [] keys = keys
insert_keys ((z, key) ∷ nodes) keys = insert_keys nodes (insert_key key keys)

pub length-insert_key : (key : ℕ) (keys : List ℕ) → length (insert_key key keys) ≤ suc (length keys)
unfolding insert_key
length-insert_key key [] = omega arith
length-insert_key key (k ∷ ks) = ground (arith, length-insert_key key ks)

live_ne : (m : Memory) (z a : ℕ) → m.alive z ≡ false → m.alive a ≡ true → z ≢ a
live_ne m z a dead live e = let h = ap m.alive e in cc

Rep-new_node :
    (m : Memory) (z key par p : ℕ) (t : Tree)
    → m.alive z ≡ false
    → Rep m par p t
    → Rep (new_node z key m) par p t
unfolding new_node
Rep-new_node m z key par p leaf dead rep = rep
Rep-new_node m z key par p (node a c l k r) dead (at, cell, rep_l, rep_r) =
    let ne = live_ne m z a dead cell.live in
    (
      at,
      record {
        some_node = cell.some_node;
        live = update_ne m.alive z true a ne ∙ cell.live;
        parent = cell.parent;
        color = cell.color;
        key = update_ne m.key z key a ne ∙ cell.key;
      },
      Rep-new_node m z key a (m.left a) l dead rep_l,
      Rep-new_node m z key a (m.right a) r dead rep_r,
    )

Holds-new_node :
    (m : Memory) (z key top_hi : ℕ) (keys : List ℕ)
    → m.alive z ≡ false
    → Holds m top_hi keys
    → Holds (new_node z key m) top_hi keys
unfolding new_node
Holds-new_node m z key top_hi keys dead h = record {
  tree = h.tree;
  at = record {
    nil_live =
        update_ne m.alive z true m.nil (live_ne m z m.nil dead h.at.nil_live) ∙ h.at.nil_live;
    nil_black = h.at.nil_black;
    rep = Rep-new_node m z key m.nil m.root h.tree dead h.at.rep;
    around = refl;
    within = h.at.within;
    spine = tt;
  };
  ordered = h.ordered;
  red_black = h.red_black;
}

pub insert_all-Holds :
    (fuel h top_hi : ℕ) (nodes : List (ℕ × ℕ)) (m : Memory) (keys : List ℕ)
    → Holds m top_hi keys
    → Fresh m.alive nodes
    → AllKeysBelow top_hi nodes
    → length nodes + length keys + 1 < 2 ^ h
    → 2 * h ≤ fuel
    → (m' : Memory) × (insert_all fuel nodes m ≡ ok m') × Holds m' top_hi (insert_keys nodes keys)
unfolding insert_all insert_keys new_node
insert_all-Holds fuel h top_hi [] m keys holds fresh below few enough = (m, refl, holds)
insert_all-Holds fuel h top_hi ((z, key) ∷ nodes) m keys holds (dead, fresh) (key_high, below) few
      enough =
    let m₁ = new_node z key m in
    let same_key : m₁.key z ≡ key = update_self m.key z key in
    let (m₂, done, kept, holds₂) =
      rbtree_insert-depth m₁ top_hi h fuel z keys (Holds-new_node m z key top_hi keys dead holds)
        (update_self m.alive z true) (live_ne m z m.nil dead holds.at.nil_live)
        (omega (arith, same_key)) (omega arith) enough in
    let holds₃ : Holds m₂ top_hi (insert_key key keys) =
      subst (λ q. Holds m₂ top_hi (insert_key q keys)) same_key holds₂ in
    let (m', all_done, holds') =
      insert_all-Holds fuel h top_hi nodes m₂ (insert_key key keys) holds₃
        (subst (λ q. Fresh q nodes) (sym kept.alive) fresh) below
        (omega (arith, length-insert_key key keys)) enough in
    (m', rw done all_done, holds')

-- If malloc gives addresses that are not in use, the keys are below a bound and there are fewer
-- than 2 ^ h - 1 of them, the loop of main that builds the tree runs, with 2 h rounds for each
-- loop inside it, without a bad access, and the memory then holds a red-black tree, with its
-- parent pointers, whose keys are the sorted list of those inserted
pub main-Holds :
    (fuel h top_hi nil : ℕ) (nodes : List (ℕ × ℕ)) (m : Memory)
    → Fresh (update m.alive nil true) nodes
    → AllKeysBelow top_hi nodes
    → length nodes + 1 < 2 ^ h
    → 2 * h ≤ fuel
    → (m' : Memory) × (insert_all fuel nodes (fresh_tree nil m) ≡ ok m')
      × Holds m' top_hi (insert_keys nodes [])
unfolding fresh_tree
main-Holds fuel h top_hi nil nodes m fresh below few enough =
    insert_all-Holds fuel h top_hi nodes (fresh_tree nil m) []
      (record {
        tree = leaf;
        at = record {
          nil_live = update_self m.alive nil true;
          nil_black = update_self m.color nil black;
          rep = refl;
          around = refl;
          within = tt;
          spine = tt;
        };
        ordered = refl;
        red_black = record { black_root = refl; black_height = 0; balanced = refl };
      })
      fresh below (omega arith) enough
