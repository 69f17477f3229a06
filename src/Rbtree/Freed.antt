-- ===== src/Rbtree/Freed.antt =====
-- The node that `rbtree_delete` of rbtree/rbtree.cpp returns may be freed: no node of the tree is lost.
use mathlib.Core.Path.{subst}
use hello_world.Prelude.{
  ℕ, ◌≤◌, ◌<◌, ◌≡◌, refl, sym, ap, ◌∙◌, ◌≢◌, ◌⊎◌, inl, inr, true, false, List, arith, ◌==◌,
  if◌then◌else◌, Bool-cases,
}
use hello_world.Outcome.{ok}
use hello_world.Rbtree.Nodes.{Color, is_red, Memory, update}
use hello_world.Rbtree.Delete.{rbtree_delete_fixup}
use hello_world.Rbtree.Main.{free_node}
use hello_world.Rbtree.Tree.{Tree, Spine, Within, low, high}
use hello_world.Rbtree.Shape.{above, At, SameAt, Kept, Rep-same, Around-same}
use hello_world.Rbtree.Relink.{update_ne}
use hello_world.Rbtree.Fixup.{Holds}
use hello_world.Rbtree.Frame.{follow_ok, follow_if, grown, delete_fixup-Follows}

abbrev pub freed : (y : ℕ) → Memory → Memory
freed y m = record m { alive = update m.alive y false }

pub At-freed :
    (m : Memory) (top_hi y x lo hi : ℕ) (t : Tree) (s : Spine)
    → At m top_hi t s x
    → Within lo hi t
    → (m.key y < lo) ⊎ (hi ≤ m.key y)
    → low s ≤ m.key y
    → m.key y < high top_hi s
    → y ≢ m.nil
    → At (freed y m) top_hi t s x
At-freed m top_hi y x lo hi t s v within apart low_y y_high some_y =
    let same : (b : ℕ) → m.key b ≢ m.key y → SameAt m (freed y m) b = λ b ne. record {
      alive = update_ne m.alive y false b (λ e. ne (ap m.key (sym e)));
      left = refl;
      right = refl;
      parent = refl;
      color = refl;
      key = refl;
    } in
    record {
      nil_live = update_ne m.alive y false m.nil some_y ∙ v.nil_live;
      nil_black = v.nil_black;
      rep =
          Rep-same m (freed y m) refl t lo hi (above m.nil s) x
            (λ b some_b low_b high_b.
              same b
                (λ e. elim apart [ inl h ↦ absurd (omega arith) | inr h ↦ absurd (omega arith) ]))
            within v.rep;
      around =
          Around-same m (freed y m) refl s top_hi x
            (λ b some_b out.
              same b
                (λ e. elim out [ inl h ↦ absurd (omega arith) | inr h ↦ absurd (omega arith) ]))
            refl v.spine v.around;
      within = v.within;
      spine = v.spine;
    }

less_freed : (m : Memory) (y p : ℕ) → (freed y m).alive p ≡ true → m.alive p ≡ true
less_freed m y p live = elim (Bool-cases (y == p)) [
  | inl e ↦
      absurd
        (let h : false ≡ true = subst (λ b. (if b then false else m.alive p) ≡ true) e live in cc)
  | inr e ↦ subst (λ b. (if b then false else m.alive p) ≡ true) e live
]

-- The repair comes to the same with and without the node.
pub repair_after-freed :
    (fuel x y top_hi : ℕ) (c : Color) (keys : List ℕ) (m m' m'' : Memory)
    → (if is_red c then ok m else rbtree_delete_fixup fuel x m) ≡ ok m'
    → (if is_red c then ok (freed y m) else rbtree_delete_fixup fuel x (freed y m)) ≡ ok m''
    → Kept (freed y m) m''
    → Holds m'' top_hi keys
    → Holds (free_node y m') top_hi keys
unfolding free_node
repair_after-freed fuel x y top_hi c keys m m' m'' run run' kept holds =
    let (again, less) =
      (follow_if (is_red c) (follow_ok {f = grown m.alive} (freed y m) (less_freed m y))
          (delete_fixup-Follows m.alive fuel x (freed y m) (less_freed m y))).run
        m'' run' in
    let same : m' ≡ grown m.alive m'' = let h = sym run ∙ again in cc in
    let left_out : (freed y m') ≡ record m'' { alive = update m.alive y false } =
      ap (λ q. freed y q) same in
    subst (λ q. Holds q top_hi keys) (sym left_out)
      (subst (λ a. Holds (record m'' { alive = a }) top_hi keys) kept.alive holds)
