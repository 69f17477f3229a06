-- ===== src/Rbtree/Shape.antt =====
-- When the memory of rbtree/rbtree.cpp holds a tree. Since keys differ, so do addresses: whether a
-- write touches a node is told from its key.
use mathlib.Core.Path.{subst}
use hello_world.Prelude.{ℕ, ◌+◌, ◌≤◌, ◌<◌, ◌≡◌, refl, sym, ◌∙◌, ◌≢◌, ◌⊎◌, inl, inr, true, arith}
use hello_world.Rbtree.Nodes.{Color, Memory, black}
use hello_world.Rbtree.Tree.{
  Tree, Spine, plug, Within, low, high, InSpine, leaf, node, top, in_left, in_right,
}

pub record IsCell (m : Memory) (a par : ℕ) (c : Color) (k : ℕ) : Type 0 where
  pub some_node : a ≢ m.nil
  pub live : m.alive a ≡ true
  pub parent : m.parent a ≡ par
  pub color : m.color a ≡ c
  pub key : m.key a ≡ k

-- The pointer `p` leads to the tree, whose root has the parent `par`.
abbrev pub Rep : (m : Memory) (par p : ℕ) → Tree → Type 0
Rep m par p leaf = p ≡ m.nil
Rep m par p (node a c l k r) =
    (p ≡ a) × IsCell m a par c k × Rep m a (m.left a) l × Rep m a (m.right a) r

abbrev pub above : (nil : ℕ) → Spine → ℕ
above nil top = nil
above nil (in_left a c k r up) = a
above nil (in_right a c l k up) = a

-- What stands around a place to which `p` leads.
abbrev pub Around : (m : Memory) (p : ℕ) → Spine → Type 0
Around m p top = m.root ≡ p
Around m p (in_left a c k r up) =
    IsCell m a (above m.nil up) c k × (m.left a ≡ p) × Rep m a (m.right a) r × Around m a up
Around m p (in_right a c l k up) =
    IsCell m a (above m.nil up) c k × (m.right a ≡ p) × Rep m a (m.left a) l × Around m a up

-- The memory holds the tree `t` at the place `s`, and `p` leads to it.
pub record At (m : Memory) (top_hi : ℕ) (t : Tree) (s : Spine) (p : ℕ) : Type 0 where
  pub nil_live : m.alive m.nil ≡ true
  pub nil_black : m.color m.nil ≡ black
  pub rep : Rep m (above m.nil s) p t
  pub around : Around m p s
  pub within : Within (low s) (high top_hi s) t
  pub spine : InSpine top_hi s

pub record SameAt (m m' : Memory) (a : ℕ) : Type 0 where
  pub alive : m'.alive a ≡ m.alive a
  pub left : m'.left a ≡ m.left a
  pub right : m'.right a ≡ m.right a
  pub parent : m'.parent a ≡ m.parent a
  pub color : m'.color a ≡ m.color a
  pub key : m'.key a ≡ m.key a

-- What the operations on a tree leave alone everywhere.
pub record Kept (m m' : Memory) : Type 0 where
  pub alive : m'.alive ≡ m.alive
  pub key : m'.key ≡ m.key
  pub value : m'.value ≡ m.value
  pub nil : m'.nil ≡ m.nil

pub Kept-trans : {m m' m'' : Memory} → Kept m m' → Kept m' m'' → Kept m m''
Kept-trans first second = record {
  alive = second.alive ∙ first.alive;
  key = second.key ∙ first.key;
  value = second.value ∙ first.value;
  nil = second.nil ∙ first.nil;
}

pub SameAt-trans : (m m' m'' : Memory) (a : ℕ) → SameAt m m' a → SameAt m' m'' a → SameAt m m'' a
SameAt-trans m m' m'' a first second = record {
  alive = second.alive ∙ first.alive;
  left = second.left ∙ first.left;
  right = second.right ∙ first.right;
  parent = second.parent ∙ first.parent;
  color = second.color ∙ first.color;
  key = second.key ∙ first.key;
}

-- The nodes with keys between the bounds are as before.
abbrev pub SameIn : (m m' : Memory) (lo hi : ℕ) → Type 0
SameIn m m' lo hi = (a : ℕ) → a ≢ m.nil → lo ≤ m.key a → m.key a < hi → SameAt m m' a

-- And those with other keys.
abbrev pub SameOut : (m m' : Memory) (lo hi : ℕ) → Type 0
SameOut m m' lo hi = (a : ℕ) → a ≢ m.nil → (m.key a < lo) ⊎ (hi ≤ m.key a) → SameAt m m' a

module _ (m m' : Memory) (same_nil : m'.nil ≡ m.nil) where
  IsCell-same : (a par k : ℕ) (c : Color) → SameAt m m' a → IsCell m a par c k → IsCell m' a par c k
  IsCell-same a par k c same cell = record {
    some_node = λ e. cell.some_node (e ∙ same_nil);
    live = same.alive ∙ cell.live;
    parent = same.parent ∙ cell.parent;
    color = same.color ∙ cell.color;
    key = same.key ∙ cell.key;
  }

  pub Rep-same :
      (t : Tree) (lo hi par p : ℕ)
      → SameIn m m' lo hi
      → Within lo hi t
      → Rep m par p t
      → Rep m' par p t
  Rep-same leaf lo hi par p same within rep = rep ∙ sym same_nil
  Rep-same (node a c l k r) lo hi par p same (lo_k, k_hi, in_l, in_r) (at, cell, rep_l, rep_r) =
      let here = same a cell.some_node (omega (arith, cell.key)) (omega (arith, cell.key)) in
      (
        at,
        IsCell-same a par k c here cell,
        Rep-same l lo k a (m'.left a) (λ b some_b low_b high_b. same b some_b low_b (omega arith))
            in_l (subst (λ q. Rep m a q l) (sym here.left) rep_l),
        Rep-same r (k + 1) hi a (m'.right a)
            (λ b some_b low_b high_b. same b some_b (omega arith) high_b) in_r
            (subst (λ q. Rep m a q r) (sym here.right) rep_r),
      )

  above-IsCell :
      (up : Spine) (a k : ℕ) (c : Color)
      → SameAt m m' a
      → IsCell m a (above m.nil up) c k
      → IsCell m' a (above m'.nil up) c k
  above-IsCell up a k c same cell =
      subst (λ n. IsCell m' a (above n up) c k) (sym same_nil)
        (IsCell-same a (above m.nil up) k c same cell)

  pub Around-same :
      (s : Spine) (top_hi p : ℕ)
      → SameOut m m' (low s) (high top_hi s)
      → m'.root ≡ m.root
      → InSpine top_hi s
      → Around m p s
      → Around m' p s
  Around-same top top_hi p same same_root in_s at = same_root ∙ at
  Around-same (in_left a c k r up) top_hi p same same_root (low_k, k_high, in_r, in_up)
        (cell, at, rep, around) =
      let here = same a cell.some_node (inr (omega (arith, cell.key))) in
      (
        above-IsCell up a k c here cell,
        here.left ∙ at,
        Rep-same r (k + 1) (high top_hi up) a (m'.right a)
            (λ b some_b low_b high_b. same b some_b (inr (omega arith))) in_r
            (subst (λ q. Rep m a q r) (sym here.right) rep),
        Around-same up top_hi a
            (λ b some_b out. same b some_b (elim out [ inl l ↦ inl l | inr h ↦ inr (omega arith) ]))
            same_root in_up around,
      )
  Around-same (in_right a c l k up) top_hi p same same_root (low_k, k_high, in_l, in_up)
        (cell, at, rep, around) =
      let here = same a cell.some_node (inl (omega (arith, cell.key))) in
      (
        above-IsCell up a k c here cell,
        here.right ∙ at,
        Rep-same l (low up) k a (m'.left a)
            (λ b some_b low_b high_b. same b some_b (inl (omega arith))) in_l
            (subst (λ q. Rep m a q l) (sym here.left) rep),
        Around-same up top_hi a
            (λ b some_b out. same b some_b (elim out [ inl l ↦ inl (omega arith) | inr h ↦ inr h ]))
            same_root in_up around,
      )

-- One step up and down.
module _ {m : Memory} {top_hi : ℕ} {t : Tree} {up : Spine} {p : ℕ} where
  pub up_left :
      {a k : ℕ} {c : Color} {r : Tree}
      → At m top_hi t (in_left a c k r up) p
      → At m top_hi (node a c t k r) up a
  up_left {a} {k} {c} {r} v =
      let (cell, at, rep, around) = v.around in
      let (low_k, k_high, in_r, in_up) = v.spine in
      record {
        nil_live = v.nil_live;
        nil_black = v.nil_black;
        rep = (refl, cell, subst (λ q. Rep m a q t) (sym at) v.rep, rep);
        around = around;
        within = (low_k, k_high, v.within, in_r);
        spine = in_up;
      }

  pub up_right :
      {a k : ℕ} {c : Color} {l : Tree}
      → At m top_hi t (in_right a c l k up) p
      → At m top_hi (node a c l k t) up a
  up_right {a} {k} {c} {l} v =
      let (cell, at, rep, around) = v.around in
      let (low_k, k_high, in_l, in_up) = v.spine in
      record {
        nil_live = v.nil_live;
        nil_black = v.nil_black;
        rep = (refl, cell, rep, subst (λ q. Rep m a q t) (sym at) v.rep);
        around = around;
        within = (low_k, k_high, in_l, v.within);
        spine = in_up;
      }

module _ {m : Memory} {top_hi a k p : ℕ} {c : Color} {l r : Tree} {s : Spine} where
  pub down_left : At m top_hi (node a c l k r) s p → At m top_hi l (in_left a c k r s) (m.left a)
  down_left v =
      let (at, cell, rep_l, rep_r) = v.rep in
      let (low_k, k_high, in_l, in_r) = v.within in
      record {
        nil_live = v.nil_live;
        nil_black = v.nil_black;
        rep = rep_l;
        around = (cell, refl, rep_r, subst (λ q. Around m q s) at v.around);
        within = in_l;
        spine = (low_k, k_high, in_r, v.spine);
      }

  pub down_right : At m top_hi (node a c l k r) s p → At m top_hi r (in_right a c l k s) (m.right a)
  down_right v =
      let (at, cell, rep_l, rep_r) = v.rep in
      let (low_k, k_high, in_l, in_r) = v.within in
      record {
        nil_live = v.nil_live;
        nil_black = v.nil_black;
        rep = rep_r;
        around = (cell, refl, rep_l, subst (λ q. Around m q s) at v.around);
        within = in_r;
        spine = (low_k, k_high, in_l, v.spine);
      }

-- The root of the whole tree.
pub At-plug :
    (s : Spine) {m : Memory} {top_hi p : ℕ} {t : Tree}
    → At m top_hi t s p
    → At m top_hi (plug t s) top m.root
At-plug top {m} {top_hi} {p} {t} v = record {
  nil_live = v.nil_live;
  nil_black = v.nil_black;
  rep = subst (λ q. Rep m m.nil q t) (sym v.around) v.rep;
  around = refl;
  within = v.within;
  spine = tt;
}
At-plug (in_left a c k r up) v = At-plug up (up_left v)
At-plug (in_right a c l k up) v = At-plug up (up_right v)
