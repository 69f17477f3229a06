-- ===== src/Rbtree/Repair.antt =====
-- `rbtree_delete_fixup` of rbtree/rbtree.cpp: the last write, each round, and the loop.
use hello_world.Rbtree.ShiftLeft
use hello_world.Rbtree.ShiftRight
use mathlib.Core.Path.{subst}
use hello_world.Prelude.{
  ℕ, zero, suc, ◌+◌, ◌-◌, ◌≤◌, ◌<◌, ◌≡◌, refl, sym, ap, ◌∙◌, ◌≢◌, ◌⊎◌, inl, inr, true, false, List,
  arith, ◌==◌, ==→eq, ==_self, Bool-cases,
}
use hello_world.Outcome.{Outcome, ok}
use hello_world.Rbtree.Nodes.{Color, Memory, update, red, black}
use hello_world.Rbtree.Delete.{shift_left, shift_right, shift_round, rbtree_delete_fixup}
use hello_world.Rbtree.Tree.{
  Tree, Spine, plug, inorder, low, high, root_color, leaf, node, top, in_left, in_right,
}
use hello_world.Rbtree.Shape.{
  above, At, SameAt, Kept-trans, Around-same, up_left, up_right, At-plug,
}
use hello_world.Rbtree.Relink.{update_self, update_ne, root_ne}
use hello_world.Rbtree.Balance.{
  Balanced, UnderBlack, BalancedAround, depth, Balanced-plug, blacken, inorder-blacken,
}
use hello_world.Rbtree.Paint.{painted, painted-At}
use hello_world.Rbtree.Fix.{plug-inorder}
use hello_world.Rbtree.Fixup.{Settles, Color-cases}
use hello_world.Rbtree.Shift.{
  Short, HasParent, left_over, Shifting, Shifts, Short-Balanced, Seen, At-Seen,
}

blackened-At :
    (m : Memory) (top_hi x : ℕ) (t : Tree) (s : Spine)
    → At m top_hi t s x
    → At (painted x black m) top_hi (blacken t) s x
blackened-At m top_hi x leaf s v =
    let m' = painted x black m in
    let same : (b : ℕ) → b ≢ m.nil → SameAt m m' b = λ b some_b. record {
      alive = refl;
      left = refl;
      right = refl;
      parent = refl;
      color = update_ne m.color x black b (λ e. some_b (sym e ∙ v.rep));
      key = refl;
    } in
    record {
      nil_live = v.nil_live;
      nil_black = subst (λ q. update m.color x black q ≡ black) v.rep (update_self m.color x black);
      rep = v.rep;
      around =
          Around-same m m' refl s top_hi x (λ b some_b out. same b some_b) refl v.spine v.around;
      within = tt;
      spine = v.spine;
    }
blackened-At m top_hi x (node a c l k r) s v =
    subst (λ q. At (painted q black m) top_hi (node a black l k r) s x) (sym v.rep.0)
      (painted-At m top_hi a k x c black l r s v)

pub plug-black :
    (s : Spine) (n : ℕ) (t : Tree)
    → (root_color t ≡ black) ⊎ UnderBlack s
    → BalancedAround n s
    → root_color (plug t s) ≡ black
plug-black top n t (inl e) around = e
plug-black top n t (inr under) around = absurd under
plug-black (in_left a red k r up) n t either around =
    plug-black up n (node a red t k r) (inr around.2) around.3
plug-black (in_left a black k r up) n t either around =
    plug-black up (suc n) (node a black t k r) (inl refl) around.1
plug-black (in_right a red l k up) n t either around =
    plug-black up n (node a red l k t) (inr around.2) around.3
plug-black (in_right a black l k up) n t either around =
    plug-black up (suc n) (node a black l k t) (inl refl) around.1

blacken-black : (t : Tree) → root_color (blacken t) ≡ black
blacken-black leaf = refl
blacken-black (node a c l k r) = refl

Short-blacken : (n : ℕ) (t : Tree) → Short n t → (n' : ℕ) × Balanced n' (blacken t)
Short-blacken n leaf b = (n, b)
Short-blacken n (node a red l k r) (b_l, b_r) = (suc n, (n, refl, b_l, b_r))
Short-blacken n (node a black l k r) b = (n, b)

ends-Settles :
    (m : Memory) (top_hi x n : ℕ) (keys : List ℕ) (t : Tree) (s : Spine)
    → At m top_hi t s x
    → inorder (plug t s) ≡ keys
    → Balanced n (blacken t)
    → BalancedAround n s
    → Settles top_hi keys m (ok (painted x black m))
ends-Settles m top_hi x n keys t s v e b around =
    let (height, balanced) = Balanced-plug s n (blacken t) b around (inl (blacken-black t)) in
    (
      painted x black m,
      refl,
      record { alive = refl; key = refl; value = refl; nil = refl },
      record {
        tree = plug (blacken t) s;
        at = At-plug s (blackened-At m top_hi x t s v);
        ordered = plug-inorder (blacken t) t s (inorder-blacken t) ∙ e;
        red_black = record {
          black_root = plug-black s n (blacken t) (inl (blacken-black t)) around;
          black_height = height;
          balanced = balanced;
        };
      },
    )

-- The root lies outside of a place below it.
root_apart :
    (up : Spine) (m : Memory) (top_hi a k lo hi : ℕ) (c : Color) (l r : Tree)
    → At m top_hi (node a c l k r) up a
    → low up ≤ lo
    → hi ≤ high top_hi up
    → (k < lo) ⊎ (hi ≤ k)
    → (m.root ≢ m.nil) × ((m.key m.root < lo) ⊎ (hi ≤ m.key m.root))
root_apart top m top_hi a k lo hi c l r v low_lo hi_high apart =
    let at : m.root ≡ a = v.around in
    let at_k : m.key m.root ≡ k = ap m.key at ∙ v.rep.1.key in
    (
      λ e. v.rep.1.some_node (sym at ∙ e),
      elim apart [ inl h ↦ inl (omega arith) | inr h ↦ inr (omega arith) ],
    )
root_apart (in_left a' c' k' r' up) m top_hi a k lo hi c l r v low_lo hi_high apart =
    let in_s = v.spine in
    root_apart up m top_hi a' k' lo hi c' (node a c l k r) r' (up_left v) low_lo
      (omega (arith, in_s)) (inr hi_high)
root_apart (in_right a' c' l' k' up) m top_hi a k lo hi c l r v low_lo hi_high apart =
    let in_s = v.spine in
    root_apart up m top_hi a' k' lo hi c' l' (node a c l k r) (up_right v) (omega (arith, in_s))
      hi_high (inl (omega arith))

shift_round-left :
    (m : Memory) (x p : ℕ) (c : Color)
    → Seen m x p c
    → m.alive p ≡ true
    → m.left p ≡ x
    → shift_round x m ≡ shift_left x m
unfolding shift_round
shift_round-left m x p c seen live_p at = rw (seen.live, seen.parent, live_p, at, ==_self x) refl

shift_round-right :
    (m : Memory) (x p : ℕ) (c : Color)
    → Seen m x p c
    → m.alive p ≡ true
    → x ≢ m.left p
    → shift_round x m ≡ shift_right x m
unfolding shift_round
shift_round-right m x p c seen live_p ne =
    let other : (x == m.left p) ≡ false = ground (arith, ne) in
    rw (seen.live, seen.parent, live_p, other) refl

by_shift :
    {top_hi : ℕ} {keys : List ℕ} {m : Memory} {rounds : ℕ} (x : ℕ) (out : Outcome (ℕ × Memory))
    → shift_round x m ≡ out
    → Shifts top_hi keys m rounds out
    → Shifts top_hi keys m rounds (shift_round x m)
by_shift {top_hi} {keys} {m} {rounds} x out e f =
    subst (λ o. Shifts top_hi keys m rounds o) (sym e) f

module _ (m : Memory) (top_hi rounds x n : ℕ) (keys : List ℕ) (t : Tree)
    (black_t : root_color t ≡ black) (b : Balanced n t) where
  round-Shifts :
      (s : Spine)
      → At m top_hi t s x
      → HasParent m (above m.nil s) t
      → inorder (plug t s) ≡ keys
      → BalancedAround (suc n) s
      → x ≢ m.root
      → depth s ≤ suc rounds
      → Shifts top_hi keys m rounds (shift_round x m)
  round-Shifts top v par e around below_root few = absurd (below_root (sym v.around))
  round-Shifts (in_left p c kp W up) v par e around below_root few =
      by_shift x (shift_left x m)
        (shift_round-left m x p (root_color t) (At-Seen m top_hi x t (in_left p c kp W up) v par)
          (up_left v).rep.1.live v.around.1)
        (ShiftLeft.shift-Shifts top_hi p kp n rounds x keys t up m black_t b (omega arith) c W v par
          e around)
  round-Shifts (in_right p red leaf kp up) v par e around below_root few =
      absurd (let h = around.1 in omega (arith, h))
  round-Shifts (in_right p black leaf kp up) v par e around below_root few =
      absurd (let h = around.0 in omega (arith, h))
  round-Shifts (in_right p c (node w cw a kw d) kp up) v par e around below_root few =
      let at_p = up_right v in
      let cell = at_p.rep.2.1 in
      let ne =
        root_ne m p x (kp + 1) (high top_hi up) w t v.rep v.within cell.some_node
          (inl (omega (arith, cell.key, at_p.within))) in
      by_shift x (shift_right x m)
        (shift_round-right m x p (root_color t)
          (At-Seen m top_hi x t (in_right p c (node w cw a kw d) kp up) v par) at_p.rep.1.live
          (λ q. ne (sym at_p.rep.2.0 ∙ sym q)))
        (ShiftRight.shift-Shifts top_hi p kp n rounds x keys t up m black_t b (omega arith) c
          (node w cw a kw d) v par e around)

root_top :
    (m : Memory) (top_hi x : ℕ) (t : Tree) (s : Spine) → At m top_hi t s x → x ≡ m.root → s ≡ top
root_top m top_hi x t top v at = refl
root_top m top_hi x t (in_left p c kp W up) v at =
    let at_p = up_left v in
    let (some_root, apart) =
      root_apart up m top_hi p kp (low up) kp c t W at_p (omega arith) (omega (arith, at_p.within))
        (inr (omega arith)) in
    absurd (root_ne m p x (low up) kp m.root t v.rep v.within some_root apart (sym at))
root_top m top_hi x t (in_right p c W kp up) v at =
    let at_p = up_right v in
    let (some_root, apart) =
      root_apart up m top_hi p kp (kp + 1) (high top_hi up) c W t at_p (omega (arith, at_p.within))
        (omega arith) (inl (omega arith)) in
    absurd
      (root_ne m p x (kp + 1) (high top_hi up) m.root t v.rep v.within some_root apart (sym at))

below_root-deep :
    (m : Memory) (top_hi x : ℕ) (t : Tree) (s : Spine)
    → At m top_hi t s x
    → x ≢ m.root
    → 0 < depth s
below_root-deep m top_hi x t top v ne = absurd (ne (sym v.around))
below_root-deep m top_hi x t (in_left p c kp W up) v ne = omega arith
below_root-deep m top_hi x t (in_right p c W kp up) v ne = omega arith

black-left_over : (t : Tree) (s : Spine) → root_color t ≡ black → left_over t s ≡ depth s
black-left_over leaf s e = refl
black-left_over (node a red l k r) s e = absurd (cc)
black-left_over (node a black l k r) s e = refl

red-Balanced : (n : ℕ) (t : Tree) → root_color t ≡ red → Short n t → Balanced (suc n) (blacken t)
red-Balanced n leaf e b = absurd (cc)
red-Balanced n (node a red l k r) e (b_l, b_r) = (n, refl, b_l, b_r)
red-Balanced n (node a black l k r) e b = absurd (cc)

BalancedAround-top : (n : ℕ) (s : Spine) → s ≡ top → BalancedAround n s
BalancedAround-top n s e = subst (λ q. BalancedAround n q) (sym e) tt

pub repair-Settles :
    (fuel rounds : ℕ) (m : Memory) (top_hi x : ℕ) (keys : List ℕ)
    → rounds < fuel
    → Shifting top_hi keys m x rounds
    → Settles top_hi keys m (rbtree_delete_fixup fuel x m)
unfolding rbtree_delete_fixup
repair-Settles zero rounds m top_hi x keys enough f = absurd (omega arith)
repair-Settles (suc fuel) rounds m top_hi x keys enough f =
    let seen = At-Seen m top_hi x f.t f.s f.at f.par in
    let live_x : m.alive x ≡ true = seen.live in
    elim (Bool-cases (x == m.root)) [
      | inl e ↦
          let (n', b) = Short-blacken f.n f.t f.short in
          rw (e, live_x)
            (ends-Settles m top_hi x n' keys f.t f.s f.at f.ordered b
              (BalancedAround-top n' f.s (root_top m top_hi x f.t f.s f.at (==→eq x m.root e))))
      | inr e ↦
          let ne : x ≢ m.root =
            λ q. absurd (let h = ==_self x in let h' = ap (λ y. x == y) q in cc) in
          elim (Color-cases (root_color f.t)) [
            | inl c ↦
                let red_x : m.color x ≡ red = seen.color ∙ c in
                rw (e, live_x, red_x)
                  (ends-Settles m top_hi x (suc f.n) keys f.t f.s f.at f.ordered
                    (red-Balanced f.n f.t c f.short) f.around)
            | inr c ↦
                let black_x : m.color x ≡ black = seen.color ∙ c in
                let same = black-left_over f.t f.s c in
                let deep = below_root-deep m top_hi x f.t f.s f.at ne in
                let (x₁, m₁, done, kept, f₁) =
                  round-Shifts m top_hi (rounds - 1) x f.n keys f.t c
                    (Short-Balanced f.n f.t c f.short) f.s f.at f.par f.ordered f.around ne
                    (omega (arith, f.few)) in
                let (m', settled, kept', holds) =
                  repair-Settles fuel (rounds - 1) m₁ top_hi x₁ keys (omega (arith, f.few)) f₁ in
                (m', rw (e, live_x, black_x, done) settled, Kept-trans kept kept', holds)
          ]
    ]
