-- ===== src/Rbtree/Balance.antt =====
-- The colours that rbtree/rbtree.cpp keeps: a red node has black children, and every way from a node
-- down to a leaf meets the same number of black nodes.
use hello_world.Prelude.{ℕ, suc, ◌≡◌, refl, ◌⊎◌, inl, inr}
use hello_world.Rbtree.Nodes.{Color, red, black}
use hello_world.Rbtree.Tree.{
  Tree, Spine, plug, inorder, root_color, leaf, node, top, in_left, in_right,
}

-- `n` is that number, and the root may be red.
abbrev pub Balanced : ℕ → Tree → Type 0
Balanced n leaf = n ≡ 0
Balanced n (node a red l k r) =
    (root_color l ≡ black) × (root_color r ≡ black) × Balanced n l × Balanced n r
Balanced n (node a black l k r) =
    (below : ℕ) × (n ≡ suc below) × Balanced below l × Balanced below r

abbrev pub UnderBlack : Spine → Type 0
UnderBlack top = ⊥
UnderBlack (in_left a red k r up) = ⊥
UnderBlack (in_left a black k r up) = Unit
UnderBlack (in_right a red l k up) = ⊥
UnderBlack (in_right a black l k up) = Unit

-- What stands around a tree of `n` black nodes on each way down is in order, except that the tree's
-- root may be red under a red parent, or be the red root of all.
abbrev pub BalancedAround : ℕ → Spine → Type 0
BalancedAround n top = Unit
BalancedAround n (in_left a red k r up) =
    (root_color r ≡ black) × Balanced n r × UnderBlack up × BalancedAround n up
BalancedAround n (in_left a black k r up) = Balanced n r × BalancedAround (suc n) up
BalancedAround n (in_right a red l k up) =
    (root_color l ≡ black) × Balanced n l × UnderBlack up × BalancedAround n up
BalancedAround n (in_right a black l k up) = Balanced n l × BalancedAround (suc n) up

abbrev pub depth : Spine → ℕ
depth top = 0
depth (in_left a c k r up) = suc (depth up)
depth (in_right a c l k up) = suc (depth up)

abbrev pub parent_color : Spine → Color
parent_color top = black
parent_color (in_left a c k r up) = c
parent_color (in_right a c l k up) = c

pub UnderBlack-black : (s : Spine) → UnderBlack s → parent_color s ≡ black
UnderBlack-black top u = absurd u
UnderBlack-black (in_left a red k r up) u = absurd u
UnderBlack-black (in_left a black k r up) u = refl
UnderBlack-black (in_right a red l k up) u = absurd u
UnderBlack-black (in_right a black l k up) u = refl

pub Balanced-plug :
    (s : Spine) (n : ℕ) (t : Tree)
    → Balanced n t
    → BalancedAround n s
    → (root_color t ≡ black) ⊎ (parent_color s ≡ black)
    → (n' : ℕ) × Balanced n' (plug t s)
Balanced-plug top n t b around ok_here = (n, b)
Balanced-plug (in_left a red k r up) n t b (black_r, b_r, under, around) (inl black_t) =
    Balanced-plug up n (node a red t k r) (black_t, black_r, b, b_r) around
      (inr (UnderBlack-black up under))
Balanced-plug (in_left a red k r up) n t b around (inr e) = absurd (cc)
Balanced-plug (in_left a black k r up) n t b (b_r, around) ok_here =
    Balanced-plug up (suc n) (node a black t k r) (n, refl, b, b_r) around (inl refl)
Balanced-plug (in_right a red l k up) n t b (black_l, b_l, under, around) (inl black_t) =
    Balanced-plug up n (node a red l k t) (black_l, black_t, b_l, b) around
      (inr (UnderBlack-black up under))
Balanced-plug (in_right a red l k up) n t b around (inr e) = absurd (cc)
Balanced-plug (in_right a black l k up) n t b (b_l, around) ok_here =
    Balanced-plug up (suc n) (node a black l k t) (n, refl, b_l, b) around (inl refl)

-- The tree with a black root.
abbrev pub blacken : Tree → Tree
blacken leaf = leaf
blacken (node a c l k r) = node a black l k r

pub Balanced-blacken : (n : ℕ) (t : Tree) → Balanced n t → (n' : ℕ) × Balanced n' (blacken t)
Balanced-blacken n leaf b = (n, b)
Balanced-blacken n (node a red l k r) (black_l, black_r, b_l, b_r) = (suc n, (n, refl, b_l, b_r))
Balanced-blacken n (node a black l k r) b = (n, b)

-- A red-black tree: the root is black too.
pub record IsRedBlack (t : Tree) : Type 0 where
  pub black_root : root_color t ≡ black
  pub black_height : ℕ
  pub balanced : Balanced black_height t

pub inorder-blacken : (t : Tree) → inorder (blacken t) ≡ inorder t
inorder-blacken leaf = refl
inorder-blacken (node a c l k r) = refl
