-- ===== src/Rbtree/Shift.antt =====
-- Where `rbtree_delete_fixup` of rbtree/rbtree.cpp stands: at a tree with one black node too few on
-- each way down.
use mathlib.Core.Path.{subst}
use hello_world.Prelude.{ℕ, suc, ◌≤◌, ◌≡◌, refl, sym, ap, ◌∙◌, inl, inr, true, List, arith}
use hello_world.Outcome.{Outcome, ok}
use hello_world.Rbtree.Nodes.{Color, Memory, red, black}
use hello_world.Rbtree.Tree.{
  Tree, Spine, plug, inorder, root_color, leaf, node, top, in_left, in_right,
}
use hello_world.Rbtree.Shape.{Rep, above, At, Kept}
use hello_world.Rbtree.Balance.{
  Balanced, UnderBlack, BalancedAround, depth, UnderBlack-black, Balanced-plug,
}

-- With a black root the tree has `n` black nodes on each way down, or one more.
abbrev pub Short : ℕ → Tree → Type 0
Short n leaf = n ≡ 0
Short n (node a red l k r) = Balanced n l × Balanced n r
Short n (node a black l k r) = Balanced n (node a black l k r)

-- Where there is no node, `nil` holds the parent.
abbrev pub HasParent : Memory → (p : ℕ) → Tree → Type 0
HasParent m p leaf = m.parent m.nil ≡ p
HasParent m p (node a c l k r) = Unit

-- A bound on the rounds to go.
abbrev pub left_over : Tree → Spine → ℕ
left_over leaf s = depth s
left_over (node a red l k r) s = 0
left_over (node a black l k r) s = depth s

pub record Shifting (top_hi : ℕ) (keys : List ℕ) (m : Memory) (x rounds : ℕ) : Type 0 where
  pub t : Tree
  pub s : Spine
  pub n : ℕ
  pub at : At m top_hi t s x
  pub par : HasParent m (above m.nil s) t
  pub ordered : inorder (plug t s) ≡ keys
  pub short : Short n t
  pub around : BalancedAround (suc n) s
  pub few : left_over t s ≤ rounds

abbrev pub Shifts :
    (top_hi : ℕ) (keys : List ℕ) (m : Memory) (rounds : ℕ) → Outcome (ℕ × Memory) → Type 0
Shifts top_hi keys m rounds out =
    (x' : ℕ) × (m' : Memory) × (out ≡ ok (x', m')) × Kept m m' × Shifting top_hi keys m' x' rounds

pub Balanced-Short : (n : ℕ) (t : Tree) → Balanced n t → Short n t
Balanced-Short n leaf b = b
Balanced-Short n (node a red l k r) b = (b.2, b.3)
Balanced-Short n (node a black l k r) b = b

pub Short-Balanced : (n : ℕ) (t : Tree) → root_color t ≡ black → Short n t → Balanced n t
Short-Balanced n leaf e b = b
Short-Balanced n (node a red l k r) e b = absurd (cc)
Short-Balanced n (node a black l k r) e b = b

pub plug-HasParent :
    (m : Memory) (q a k : ℕ) (c : Color) (l r : Tree) (s : Spine)
    → HasParent m q (plug (node a c l k r) s)
plug-HasParent m q a k c l r top = tt
plug-HasParent m q a k c l r (in_left a' c' k' r' up) =
    plug-HasParent m q a' k' c' (node a c l k r) r' up
plug-HasParent m q a k c l r (in_right a' c' l' k' up) =
    plug-HasParent m q a' k' c' l' (node a c l k r) up

pub left_over-top : (t : Tree) (rounds : ℕ) → left_over t top ≤ rounds
left_over-top leaf rounds = omega arith
left_over-top (node a red l k r) rounds = omega arith
left_over-top (node a black l k r) rounds = omega arith

pub left_over-le : (t : Tree) (s : Spine) → left_over t s ≤ depth s
left_over-le leaf s = omega arith
left_over-le (node a red l k r) s = omega arith
left_over-le (node a black l k r) s = omega arith

-- What the code reads at `x`.
pub record Seen (m : Memory) (x p : ℕ) (c : Color) : Type 0 where
  pub live : m.alive x ≡ true
  pub color : m.color x ≡ c
  pub parent : m.parent x ≡ p

pub At-Seen :
    (m : Memory) (top_hi x : ℕ) (t : Tree) (s : Spine)
    → At m top_hi t s x
    → HasParent m (above m.nil s) t
    → Seen m x (above m.nil s) (root_color t)
At-Seen m top_hi x leaf s v par = record {
  live = subst (λ q. m.alive q ≡ true) (sym v.rep) v.nil_live;
  color = subst (λ q. m.color q ≡ black) (sym v.rep) v.nil_black;
  parent = subst (λ q. m.parent q ≡ above m.nil s) (sym v.rep) par;
}
At-Seen m top_hi x (node a c l k r) s v par =
    let at : x ≡ a = v.rep.0 in
    let cell = v.rep.1 in
    record {
      live = subst (λ q. m.alive q ≡ true) (sym at) cell.live;
      color = subst (λ q. m.color q ≡ c) (sym at) cell.color;
      parent = subst (λ q. m.parent q ≡ above m.nil s) (sym at) cell.parent;
    }

-- The pointer to a tree does not depend on the memory.
pub root_same :
    (m m' : Memory) (par par' q q' : ℕ) (t : Tree)
    → m'.nil ≡ m.nil
    → Rep m par q t
    → Rep m' par' q' t
    → q' ≡ q
root_same m m' par par' q q' leaf same at at' = at' ∙ same ∙ sym at
root_same m m' par par' q q' (node a c l k r) same (at, cell, rep_l, rep_r)
      (at', cell', rep_l', rep_r') =
    at' ∙ sym at

-- What stands around the parent of `x`, of colour `c`.
abbrev pub Joins : Color → ℕ → Spine → Type 0
Joins red n up = UnderBlack up × BalancedAround (suc n) up
Joins black n up = BalancedAround (suc (suc n)) up

pub Joins-plug :
    (c : Color) (n a k : ℕ) (l r : Tree) (up : Spine)
    → Joins c n up
    → root_color l ≡ black
    → root_color r ≡ black
    → Balanced (suc n) l
    → Balanced (suc n) r
    → (n' : ℕ) × Balanced n' (plug (node a c l k r) up)
Joins-plug red n a k l r up (under, around) black_l black_r b_l b_r =
    Balanced-plug up (suc n) (node a red l k r) (black_l, black_r, b_l, b_r) around
      (inr (UnderBlack-black up under))
Joins-plug black n a k l r up around black_l black_r b_l b_r =
    Balanced-plug up (suc (suc n)) (node a black l k r) (suc n, refl, b_l, b_r) around (inl refl)

pub HasParent-kept :
    (m m' : Memory) (p : ℕ) (t : Tree)
    → m'.nil ≡ m.nil
    → m'.parent m.nil ≡ m.parent m.nil
    → HasParent m p t
    → HasParent m' p t
HasParent-kept m m' p leaf same_nil same par = ap m'.parent same_nil ∙ same ∙ par
HasParent-kept m m' p (node a c l k r) same_nil same par = tt
