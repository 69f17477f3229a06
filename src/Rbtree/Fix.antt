-- ===== src/Rbtree/Fix.antt =====
-- Where `rbtree_insert_fixup` of rbtree/rbtree.cpp stands: at a red node, with everything else in order.
use hello_world.Prelude.{ℕ, ◌≤◌, ◌≡◌, refl, sym, ap, ◌∙◌, true, List, ◌++◌}
use hello_world.Outcome.{Outcome, ok}
use hello_world.Rbtree.Nodes.{Memory, red}
use hello_world.Rbtree.Tree.{Tree, Spine, plug, inorder, before, after, inorder-plug, node}
use hello_world.Rbtree.Shape.{At, Kept}
use hello_world.Rbtree.Balance.{Balanced, BalancedAround, depth}

-- `keys` are the keys of the whole tree, and `rounds` bounds the rounds to go.
pub record Fixing (top_hi : ℕ) (keys : List ℕ) (m : Memory) (z rounds : ℕ) : Type 0 where
  pub l : Tree
  pub r : Tree
  pub k : ℕ
  pub s : Spine
  pub n : ℕ
  pub at : At m top_hi (node z red l k r) s z
  pub ordered : inorder (plug (node z red l k r) s) ≡ keys
  pub balanced : Balanced n (node z red l k r)
  pub around : BalancedAround n s
  pub deep : depth s ≤ rounds

-- What a round comes to.
abbrev pub Fixes :
    (top_hi : ℕ) (keys : List ℕ) (m : Memory) (rounds : ℕ) → Outcome (ℕ × Memory) → Type 0
Fixes top_hi keys m rounds out =
    (z' : ℕ) × (m' : Memory) × (out ≡ ok (z', m')) × Kept m m' × Fixing top_hi keys m' z' rounds

pub Kept-refl : {m : Memory} → Kept m m
Kept-refl = record { alive = refl; key = refl; value = refl; nil = refl }

pub plug-inorder :
    (t t' : Tree) (s : Spine) → inorder t ≡ inorder t' → inorder (plug t s) ≡ inorder (plug t' s)
plug-inorder t t' s e =
    inorder-plug t s ∙ ap (λ q. before s ++ (q ++ after s)) e ∙ sym (inorder-plug t' s)

-- The parent `p` and the grandparent `g` of `z`.
pub record TwoUp (m : Memory) (z p g : ℕ) : Type 0 where
  pub par_z : m.parent z ≡ p
  pub par_p : m.parent p ≡ g
  pub live_z : m.alive z ≡ true
  pub live_p : m.alive p ≡ true
  pub live_g : m.alive g ≡ true
