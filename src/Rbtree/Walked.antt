-- ===== src/Rbtree/Walked.antt =====
-- What `rbtree_search`, `find_min`, `rbtree_successor` and `rbtree_travel` of rbtree/rbtree.cpp find.
use mathlib.Core.Path.{subst}
use hello_world.Prelude.{
  ℕ, zero, suc, ◌+◌, ◌<◌, ◌≡◌, refl, ap, ◌∙◌, ◌≢◌, inl, inr, Bool, true, false, ◌||◌, List, [], ◌∷◌,
  ◌++◌, map, arith, ltb, ◌==◌, ltb→lt, ==_self, Bool-cases,
}
use hello_world.Outcome.{ok}
use hello_world.Rbtree.Nodes.{Color, Memory}
use hello_world.Rbtree.Walk.{search_from, rbtree_search, rbtree_travel}
use hello_world.Rbtree.Tree.{Tree, inorder, Within, leaf, node}
use hello_world.Rbtree.Shape.{Rep}
use hello_world.Rbtree.Fixup.{Holds}
use hello_world.Rbtree.Sorted.{
  AllBelow, AllFrom, AllBelow-le, AllFrom-le, inorder-AllBelow, inorder-AllFrom,
}
use hello_world.Rbtree.Place.{height}

unfoldable pub contains : ℕ → List ℕ → Bool
contains key [] = false
contains key (k ∷ ks) = k == key || contains key ks

contains-append :
    (key : ℕ) (xs ys : List ℕ) → contains key (xs ++ ys) ≡ (contains key xs || contains key ys)
unfolding contains
contains-append key [] ys = refl
contains-append key (x ∷ xs) ys = ground (arith, contains-append key xs ys)

below-contains : (key : ℕ) (xs : List ℕ) → AllBelow key xs → contains key xs ≡ false
unfolding contains
below-contains key [] h = refl
below-contains key (x ∷ xs) h = ground (arith, below-contains key xs h.1)

from-contains : (key : ℕ) (xs : List ℕ) → AllFrom (key + 1) xs → contains key xs ≡ false
unfolding contains
from-contains key [] h = refl
from-contains key (x ∷ xs) h = ground (arith, from-contains key xs h.1)

-- A pointer to a node with the key where the keys contain it, and else to no node.
pub data Found (m : Memory) (key : ℕ) (keys : List ℕ) : ℕ → Type 0 where
  nowhere : (p : ℕ) → p ≡ m.nil → contains key keys ≡ false → Found m key keys p
  somewhere :
      (p : ℕ)
      → p ≢ m.nil
      → m.alive p ≡ true
      → m.key p ≡ key
      → contains key keys ≡ true
      → Found m key keys p

Found-same :
    (m : Memory) (key : ℕ) (xs ys : List ℕ) (p : ℕ)
    → contains key ys ≡ contains key xs
    → Found m key xs p
    → Found m key ys p
Found-same m key xs ys q same (nowhere p at out) = nowhere p at (same ∙ out)
Found-same m key xs ys q same (somewhere p some_p live at here) =
    somewhere p some_p live at (same ∙ here)

search_from-Found :
    (m : Memory) (key fuel lo hi par p : ℕ) (t : Tree)
    → Rep m par p t
    → Within lo hi t
    → height t < fuel
    → (q : ℕ) × (search_from fuel key p m ≡ ok q) × Found m key (inorder t) q
unfolding search_from contains
search_from-Found m key zero lo hi par p t rep within enough = absurd (omega arith)
search_from-Found m key (suc fuel) lo hi par p leaf rep within enough =
    (m.nil, rw (rep, ==_self m.nil) refl, nowhere m.nil refl refl)
search_from-Found m key (suc fuel) lo hi par p (node a c l k r) (at, cell, rep_l, rep_r)
      (low_k, k_high, in_l, in_r) enough =
    let live_a : m.alive a ≡ true = cell.live in
    let key_a : m.key a ≡ k = cell.key in
    let some_a : (a == m.nil) ≡ false = let ne = cell.some_node in ground (arith, ne) in
    let split = contains-append key (inorder l) (k ∷ inorder r) in
    elim (Bool-cases (ltb key k)) [
      | inl less ↦
          let (q, e, f) =
            search_from-Found m key fuel lo k a (m.left a) l rep_l in_l (omega arith) in
          let out = from-contains key (inorder r) (
            AllFrom-le (key + 1) (k + 1) (inorder r) (omega (arith, ltb→lt key k less))
              (inorder-AllFrom (k + 1) hi r in_r)) in
          let ne : (k == key) ≡ false = ground (arith, less) in
          let same : contains key (inorder (node a c l k r)) ≡ contains key (inorder l) =
            ground (arith, split, out, ne) in
          (
            q,
            rw (at, some_a, live_a, key_a, less) e,
            Found-same m key (inorder l) (inorder (node a c l k r)) q same f,
          )
      | inr not_less ↦ elim (Bool-cases (ltb k key)) [
        | inl more ↦
            let (q, e, f) =
              search_from-Found m key fuel (k + 1) hi a (m.right a) r rep_r in_r (omega arith) in
            let out = below-contains key (inorder l) (
              AllBelow-le k key (inorder l) (omega (arith, ltb→lt k key more))
                (inorder-AllBelow lo k l in_l)) in
            let ne : (k == key) ≡ false = ground (arith, more) in
            let same : contains key (inorder (node a c l k r)) ≡ contains key (inorder r) =
              ground (arith, split, out, ne) in
            (
              q,
              rw (at, some_a, live_a, key_a, not_less, more) e,
              Found-same m key (inorder r) (inorder (node a c l k r)) q same f,
            )
        | inr not_more ↦
            let same : k ≡ key = ground (arith, not_less, not_more) in
            let here : contains key (inorder (node a c l k r)) ≡ true =
              ground (arith, split, same) in
            (
              a,
              rw (at, some_a, live_a, key_a, not_less, not_more) refl,
              somewhere a cell.some_node live_a (key_a ∙ same) here,
            )
      ]
    ]

map-append :
    (xs ys : List (ℕ × Color))
    → map (λ (e : ℕ × Color). e.0) (xs ++ ys) ≡ map (λ e. e.0) xs ++ map (λ e. e.0) ys
map-append [] ys = refl
map-append (x ∷ xs) ys = ap (λ q. x.0 ∷ q) (map-append xs ys)

-- The keys, in the order in which `rbtree_travel` prints them.
travel-inorder :
    (m : Memory) (fuel par p : ℕ) (t : Tree)
    → Rep m par p t
    → height t < fuel
    → (out : List (ℕ × Color)) × (rbtree_travel fuel p m ≡ ok out)
      × (map (λ e. e.0) out ≡ inorder t)
unfolding rbtree_travel
travel-inorder m zero par p t rep enough = absurd (omega arith)
travel-inorder m (suc fuel) par p leaf rep enough = ([], rw (rep, ==_self m.nil) refl, refl)
travel-inorder m (suc fuel) par p (node a c l k r) (at, cell, rep_l, rep_r) enough =
    let live_a : m.alive a ≡ true = cell.live in
    let some_a : (a == m.nil) ≡ false = let ne = cell.some_node in ground (arith, ne) in
    let (out_l, e_l, same_l) = travel-inorder m fuel a (m.left a) l rep_l (omega arith) in
    let (out_r, e_r, same_r) = travel-inorder m fuel a (m.right a) r rep_r (omega arith) in
    (
      out_l ++ (m.key a, m.color a) ∷ out_r,
      rw (at, some_a, live_a, e_l, e_r) refl,
      map-append out_l ((m.key a, m.color a) ∷ out_r)
          ∙ ap (λ q. q ++ m.key a ∷ map (λ e. e.0) out_r) same_l
          ∙ ap (λ q. inorder l ++ m.key a ∷ q) same_r
          ∙ ap (λ q. inorder l ++ q ∷ inorder r) cell.key,
    )

module _ (m : Memory) (top_hi fuel : ℕ) (keys : List ℕ) (h : Holds m top_hi keys)
    (enough : height h.tree < fuel) where
  pub rbtree_search-Found :
      (key : ℕ) → (p : ℕ) × (rbtree_search fuel key m ≡ ok p) × Found m key keys p
  unfolding rbtree_search
  rbtree_search-Found key =
      let (p, e, f) =
        search_from-Found m key fuel 0 top_hi m.nil m.root h.tree h.at.rep h.at.within enough in
      (p, e, subst (λ q. Found m key q p) h.ordered f)

  -- If the memory holds a red-black tree that is less deep than the fuel, rbtree_travel returns,
  -- and the keys that it prints are the sorted list of the tree's keys
  pub rbtree_travel-inorder :
      (out : List (ℕ × Color)) × (rbtree_travel fuel m.root m ≡ ok out)
      × (map (λ e. e.0) out ≡ keys)
  rbtree_travel-inorder =
      let (out, e, same) = travel-inorder m fuel m.nil m.root h.tree h.at.rep enough in
      (out, e, same ∙ h.ordered)
