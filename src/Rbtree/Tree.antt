-- ===== src/Rbtree/Tree.antt =====
-- What the nodes of rbtree/rbtree.cpp stand for: a tree, and the way from a place in a tree to its root.
use hello_world.Prelude.{ℕ, ◌+◌, ◌≤◌, ◌<◌, ◌≡◌, refl, sym, ap, ◌∙◌, List, [], ◌∷◌, ◌++◌}
use hello_world.Rbtree.Nodes.{Color, black}

-- A node carries its address.
pub data Tree : Type 0 where
  leaf : Tree
  node : (a : ℕ) → Color → (l : Tree) → (k : ℕ) → (r : Tree) → Tree

-- The place is below the left, or the right, child pointer of node `a`.
pub data Spine : Type 0 where
  top : Spine
  in_left : (a : ℕ) → Color → (k : ℕ) → (r : Tree) → Spine → Spine
  in_right : (a : ℕ) → Color → (l : Tree) → (k : ℕ) → Spine → Spine

abbrev pub plug : Tree → Spine → Tree
plug t top = t
plug t (in_left a c k r up) = plug (node a c t k r) up
plug t (in_right a c l k up) = plug (node a c l k t) up

abbrev pub inorder : Tree → List ℕ
inorder leaf = []
inorder (node a c l k r) = inorder l ++ k ∷ inorder r

abbrev pub before : Spine → List ℕ
before top = []
before (in_left a c k r up) = before up
before (in_right a c l k up) = before up ++ (inorder l ++ k ∷ [])

abbrev pub after : Spine → List ℕ
after top = []
after (in_left a c k r up) = k ∷ (inorder r ++ after up)
after (in_right a c l k up) = after up

-- The keys are in order, from `lo` on and below `hi`.
abbrev pub Within : (lo hi : ℕ) → Tree → Type 0
Within lo hi leaf = Unit
Within lo hi (node a c l k r) = (lo ≤ k) × (k < hi) × Within lo k l × Within (k + 1) hi r

-- The bounds on a key at the place, where `top_hi` bounds the whole tree.
abbrev pub low : Spine → ℕ
low top = 0
low (in_left a c k r up) = low up
low (in_right a c l k up) = k + 1

abbrev pub high : ℕ → Spine → ℕ
high top_hi top = top_hi
high top_hi (in_left a c k r up) = k
high top_hi (in_right a c l k up) = high top_hi up

abbrev pub InSpine : (top_hi : ℕ) → Spine → Type 0
InSpine top_hi top = Unit
InSpine top_hi (in_left a c k r up) =
    (low up ≤ k) × (k < high top_hi up) × Within (k + 1) (high top_hi up) r × InSpine top_hi up
InSpine top_hi (in_right a c l k up) =
    (low up ≤ k) × (k < high top_hi up) × Within (low up) k l × InSpine top_hi up

abbrev pub root_color : Tree → Color
root_color leaf = black
root_color (node a c l k r) = c

pub append_assoc : (a b c : List ℕ) → (a ++ b) ++ c ≡ a ++ (b ++ c)
append_assoc [] b c = refl
append_assoc (x ∷ a) b c = ap (λ t. x ∷ t) (append_assoc a b c)

pub append_nil : (l : List ℕ) → l ++ [] ≡ l
append_nil [] = refl
append_nil (x ∷ l) = ap (λ r. x ∷ r) (append_nil l)

pub inorder-plug : (t : Tree) (s : Spine) → inorder (plug t s) ≡ before s ++ (inorder t ++ after s)
inorder-plug t top = sym (append_nil (inorder t))
inorder-plug t (in_left a c k r up) =
    inorder-plug (node a c t k r) up
    ∙ ap (λ l. before up ++ l) (append_assoc (inorder t) (k ∷ inorder r) (after up))
inorder-plug t (in_right a c l k up) =
    inorder-plug (node a c l k t) up
    ∙ ap (λ q. before up ++ q)
        (append_assoc (inorder l) (k ∷ inorder t) (after up)
          ∙ sym (append_assoc (inorder l) (k ∷ []) (inorder t ++ after up)))
    ∙ sym (append_assoc (before up) (inorder l ++ k ∷ []) (inorder t ++ after up))

-- The keys on both sides of a node.
pub inorder-plug_node :
    (a k : ℕ) (c : Color) (l r : Tree) (s : Spine)
    → inorder (plug (node a c l k r) s) ≡ (before s ++ inorder l) ++ k ∷ (inorder r ++ after s)
inorder-plug_node a k c l r s =
    inorder-plug (node a c l k r) s
    ∙ ap (λ q. before s ++ q) (append_assoc (inorder l) (k ∷ inorder r) (after s))
    ∙ sym (append_assoc (before s) (inorder l) (k ∷ (inorder r ++ after s)))
