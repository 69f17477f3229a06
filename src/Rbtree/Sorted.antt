-- ===== src/Rbtree/Sorted.antt =====
-- The sorted list of keys that a tree of rbtree/rbtree.cpp stands for.
use hello_world.Prelude.{
  ℕ, ◌+◌, ◌≤◌, ◌<◌, ◌≡◌, refl, false, List, [], ◌∷◌, ◌++◌, arith, ltb, ◌==◌, if◌then◌else◌, lt→ltb,
  le→not_ltb, ==_self,
}
use hello_world.Rbtree.Tree.{
  Tree, Spine, inorder, before, after, Within, low, high, InSpine, leaf, node, top, in_left,
  in_right,
}

-- What an insertion does to the list.
unfoldable pub insert_key : ℕ → List ℕ → List ℕ
insert_key key [] = key ∷ []
insert_key key (k ∷ ks) =
    let rest = insert_key key ks in
    if ltb key k then key ∷ k ∷ ks else if ltb k key then k ∷ rest else k ∷ ks

-- And a deletion.
unfoldable pub remove_key : ℕ → List ℕ → List ℕ
remove_key key [] = []
remove_key key (k ∷ ks) = let rest = remove_key key ks in if k == key then ks else k ∷ rest

abbrev pub AllBelow : ℕ → List ℕ → Type 0
AllBelow b [] = Unit
AllBelow b (x ∷ xs) = (x < b) × AllBelow b xs

abbrev pub AllFrom : ℕ → List ℕ → Type 0
AllFrom b [] = Unit
AllFrom b (x ∷ xs) = (b ≤ x) × AllFrom b xs

pub AllBelow-append :
    (b : ℕ) (xs ys : List ℕ) → AllBelow b xs → AllBelow b ys → AllBelow b (xs ++ ys)
AllBelow-append b [] ys h g = g
AllBelow-append b (x ∷ xs) ys h g = (h.0, AllBelow-append b xs ys h.1 g)

pub AllFrom-append : (b : ℕ) (xs ys : List ℕ) → AllFrom b xs → AllFrom b ys → AllFrom b (xs ++ ys)
AllFrom-append b [] ys h g = g
AllFrom-append b (x ∷ xs) ys h g = (h.0, AllFrom-append b xs ys h.1 g)

pub AllBelow-le : (a b : ℕ) (xs : List ℕ) → a ≤ b → AllBelow a xs → AllBelow b xs
AllBelow-le a b [] le h = tt
AllBelow-le a b (x ∷ xs) le h = (omega arith, AllBelow-le a b xs le h.1)

pub AllFrom-le : (a b : ℕ) (xs : List ℕ) → a ≤ b → AllFrom b xs → AllFrom a xs
AllFrom-le a b [] le h = tt
AllFrom-le a b (x ∷ xs) le h = (omega arith, AllFrom-le a b xs le h.1)

pub inorder-AllBelow : (lo hi : ℕ) (t : Tree) → Within lo hi t → AllBelow hi (inorder t)
inorder-AllBelow lo hi leaf w = tt
inorder-AllBelow lo hi (node a c l k r) (low_k, k_high, in_l, in_r) =
    AllBelow-append hi (inorder l) (k ∷ inorder r)
      (AllBelow-le k hi (inorder l) (omega arith) (inorder-AllBelow lo k l in_l))
      (k_high, inorder-AllBelow (k + 1) hi r in_r)

pub inorder-AllFrom : (lo hi : ℕ) (t : Tree) → Within lo hi t → AllFrom lo (inorder t)
inorder-AllFrom lo hi leaf w = tt
inorder-AllFrom lo hi (node a c l k r) (low_k, k_high, in_l, in_r) =
    AllFrom-append lo (inorder l) (k ∷ inorder r) (inorder-AllFrom lo k l in_l)
      (low_k, AllFrom-le lo (k + 1) (inorder r) (omega arith) (inorder-AllFrom (k + 1) hi r in_r))

pub before-AllBelow : (top_hi : ℕ) (s : Spine) → InSpine top_hi s → AllBelow (low s) (before s)
before-AllBelow top_hi top w = tt
before-AllBelow top_hi (in_left a c k r up) (low_k, k_high, in_r, in_up) =
    before-AllBelow top_hi up in_up
before-AllBelow top_hi (in_right a c l k up) (low_k, k_high, in_l, in_up) =
    AllBelow-append (k + 1) (before up) (inorder l ++ k ∷ [])
      (AllBelow-le (low up) (k + 1) (before up) (omega arith) (before-AllBelow top_hi up in_up))
      (AllBelow-append (k + 1) (inorder l) (k ∷ [])
        (AllBelow-le k (k + 1) (inorder l) (omega arith) (inorder-AllBelow (low up) k l in_l))
        (omega arith, tt))

pub after-AllFrom : (top_hi : ℕ) (s : Spine) → InSpine top_hi s → AllFrom (high top_hi s) (after s)
after-AllFrom top_hi top w = tt
after-AllFrom top_hi (in_left a c k r up) (low_k, k_high, in_r, in_up) = (
  omega arith,
  AllFrom-append k (inorder r) (after up)
      (AllFrom-le k (k + 1) (inorder r) (omega arith)
        (inorder-AllFrom (k + 1) (high top_hi up) r in_r))
      (AllFrom-le k (high top_hi up) (after up) (omega arith) (after-AllFrom top_hi up in_up)),
)
after-AllFrom top_hi (in_right a c l k up) (low_k, k_high, in_l, in_up) =
    after-AllFrom top_hi up in_up

-- Behind smaller keys and before larger ones.
pub insert_key-new :
    (key : ℕ) (xs ys : List ℕ)
    → AllBelow key xs
    → AllFrom (key + 1) ys
    → insert_key key (xs ++ ys) ≡ xs ++ key ∷ ys
unfolding insert_key
insert_key-new key [] [] h g = refl
insert_key-new key [] (y ∷ ys) h g = rw (lt→ltb key y (omega arith)) refl
insert_key-new key (x ∷ xs) ys h g =
    rw (le→not_ltb key x (omega arith), lt→ltb x key h.0, insert_key-new key xs ys h.1 g) refl

pub insert_key-old :
    (key : ℕ) (xs ys : List ℕ) → AllBelow key xs → insert_key key (xs ++ key ∷ ys) ≡ xs ++ key ∷ ys
unfolding insert_key
insert_key-old key [] ys h = rw (le→not_ltb key key (omega arith)) refl
insert_key-old key (x ∷ xs) ys h =
    rw (le→not_ltb key x (omega arith), lt→ltb x key h.0, insert_key-old key xs ys h.1) refl

pub remove_key-at :
    (key : ℕ) (xs ys : List ℕ) → AllBelow key xs → remove_key key (xs ++ key ∷ ys) ≡ xs ++ ys
unfolding remove_key
remove_key-at key [] ys h = rw (==_self key) refl
remove_key-at key (x ∷ xs) ys h =
    let other : (x == key) ≡ false = let lt = h.0 in ground (arith, lt) in
    rw (other, remove_key-at key xs ys h.1) refl

-- What stands before a node in the tree.
pub left-AllBelow :
    (top_hi k : ℕ) (l : Tree) (s : Spine)
    → low s ≤ k
    → Within (low s) k l
    → InSpine top_hi s
    → AllBelow k (before s ++ inorder l)
left-AllBelow top_hi k l s low_k in_l in_s =
    AllBelow-append k (before s) (inorder l)
      (AllBelow-le (low s) k (before s) low_k (before-AllBelow top_hi s in_s))
      (inorder-AllBelow (low s) k l in_l)
