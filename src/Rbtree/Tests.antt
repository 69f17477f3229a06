-- ===== src/Rbtree/Tests.antt =====
-- The theorems on the red-black tree at concrete inputs.
use hello_world.Prelude.{
  ℕ, ◌*◌, ◌≡◌, refl, ◌≢◌, Bool, true, false, List, [], ◌∷◌, map, arith, ltb, ◌==◌, if◌then◌else◌,
}
use hello_world.Outcome.{Outcome, ◌>>=◌, ok}
use hello_world.Rbtree.Nodes.{Color, Memory, red, black}
use hello_world.Rbtree.Insert.{rbtree_insert_fixup, find_place, hang_on, rbtree_insert}
use hello_world.Rbtree.Walk.{rbtree_search, rbtree_successor, rbtree_travel}
use hello_world.Rbtree.Main.{fresh_tree, insert_all, free_node, delete_all}
use hello_world.Rbtree.Tree.{leaf, node}
use hello_world.Rbtree.Shape.{Kept}
use hello_world.Rbtree.Fixup.{Holds}
use hello_world.Rbtree.Sorted.{insert_key, remove_key}
use hello_world.Rbtree.Walked.{contains, Found, rbtree_travel-inorder}
use hello_world.Rbtree.Depth.{rbtree_search-depth, rbtree_insert-depth, rbtree_delete-depth}
use hello_world.Rbtree.Built.{insert_keys, main-Holds}
use hello_world.Rbtree.Delete.{copy_content, node_to_unlink, unlink, rbtree_delete}
use hello_world.Rbtree.Rotate.{replace}
use hello_world.Rbtree.Undo.{rbtree_insert-delete}
use hello_world.Rbtree.Next.{keys_above, LeadsTo, rbtree_successor-LeadsTo}
use hello_world.Rbtree.Whole.{main-emptied}
use hello_world.Rbtree.Emptied.{remainders}

abbrev blank : Memory
blank = record {
  alive = λ p. false;
  left = λ p. 0;
  right = λ p. 0;
  parent = λ p. 0;
  color = λ p. red;
  key = λ p. 0;
  value = λ p. 0;
  root = 0;
  nil = 0;
}

abbrev nodes : List (ℕ × ℕ)
nodes = (1, 24) ∷ (2, 25) ∷ (3, 13) ∷ (4, 24) ∷ []

main-Holds_example :
    (m' : Memory) × (insert_all 6 nodes (fresh_tree 0 blank) ≡ ok m')
    × Holds m' 100 (insert_keys nodes [])
main-Holds_example =
    main-Holds 6 3 100 0 nodes blank (refl, (refl, (refl, (refl, tt))))
      (omega arith, (omega arith, (omega arith, (omega arith, tt)))) (omega arith) (omega arith)

-- A tree of one node, and another node beside it.
abbrev one_node : Memory
one_node = record blank { alive = λ p. ltb p 3; color = λ p. black; key = λ p. p * 5; root = 1 }

one_node-Holds : Holds one_node 100 (5 ∷ [])
one_node-Holds = record {
  tree = node 1 black leaf 5 leaf;
  at = record {
    nil_live = refl;
    nil_black = refl;
    rep = (
      refl,
      record { some_node = λ e. omega arith; live = refl; parent = refl; color = refl; key = refl },
      refl,
      refl,
    );
    around = refl;
    within = (omega arith, omega arith, tt, tt);
    spine = tt;
  };
  ordered = refl;
  red_black = record { black_root = refl; black_height = 1; balanced = (0, refl, refl, refl) };
}

rbtree_insert-depth_example :
    (m' : Memory) × (rbtree_insert 4 2 one_node ≡ ok m')
    × Kept one_node m'
    × Holds m' 100 (insert_key 10 (5 ∷ []))
rbtree_insert-depth_example =
    rbtree_insert-depth one_node 100 2 4 2 (5 ∷ []) one_node-Holds refl (λ e. omega arith)
      (omega arith) (omega arith) (omega arith)

rbtree_search-depth_example :
    (p : ℕ) × (rbtree_search 4 5 one_node ≡ ok p) × Found one_node 5 (5 ∷ []) p
rbtree_search-depth_example =
    rbtree_search-depth one_node 100 2 4 (5 ∷ []) one_node-Holds (omega arith) (omega arith) 5

rbtree_travel-inorder_example :
    (out : List (ℕ × Color)) × (rbtree_travel 2 1 one_node ≡ ok out) × (map (λ e. e.0) out ≡ 5 ∷ [])
unfolding one_node-Holds
rbtree_travel-inorder_example =
    rbtree_travel-inorder one_node 100 2 (5 ∷ []) one_node-Holds (omega arith)

-- The root of a tree of three nodes, which has two children.
abbrev three_nodes : Memory
three_nodes = record blank {
  alive = λ p. ltb p 4;
  left = λ p. if p == 2 then 1 else 0;
  right = λ p. if p == 2 then 3 else 0;
  parent = λ p. if p == 2 then 0 else 2;
  color = λ p. black;
  key = λ p. p * 5;
  root = 2;
}

three_nodes-Holds : Holds three_nodes 100 (5 ∷ 10 ∷ 15 ∷ [])
three_nodes-Holds = record {
  tree = node 2 black (node 1 black leaf 5 leaf) 10 (node 3 black leaf 15 leaf);
  at = record {
    nil_live = refl;
    nil_black = refl;
    rep = (
      refl,
      record { some_node = λ e. omega arith; live = refl; parent = refl; color = refl; key = refl },
      (
        refl,
        record {
          some_node = λ e. omega arith;
          live = refl;
          parent = refl;
          color = refl;
          key = refl;
        },
        refl,
        refl,
      ),
      (
        refl,
        record {
          some_node = λ e. omega arith;
          live = refl;
          parent = refl;
          color = refl;
          key = refl;
        },
        refl,
        refl,
      ),
    );
    around = refl;
    within = (
      omega arith,
      omega arith,
      (omega arith, omega arith, tt, tt),
      (omega arith, omega arith, tt, tt),
    );
    spine = tt;
  };
  ordered = refl;
  red_black = record {
    black_root = refl;
    black_height = 2;
    balanced = (1, refl, (0, refl, refl, refl), (0, refl, refl, refl));
  };
}

rbtree_delete-depth_example :
    (y : ℕ) × (m' : Memory) × (rbtree_delete 6 2 three_nodes ≡ ok (y, m'))
    × (y ≢ 0)
    × (three_nodes.alive y ≡ true)
    × (m'.alive ≡ three_nodes.alive)
    × Holds m' 100 (remove_key 10 (5 ∷ 10 ∷ 15 ∷ []))
    × Holds (free_node y m') 100 (remove_key 10 (5 ∷ 10 ∷ 15 ∷ []))
unfolding rbtree_search
rbtree_delete-depth_example =
    rbtree_delete-depth three_nodes 100 3 6 10 2 (5 ∷ 10 ∷ 15 ∷ []) three_nodes-Holds refl
      (λ e. omega arith) (omega arith) (omega arith)

-- Both loops of `main`: 24 is in the tree once.
abbrev keys_of : Outcome (List (List (ℕ × Color)) × Memory) → Outcome (List (List ℕ) × Bool)
keys_of out = do (printed, m) ← out; ok (map (λ p. map (λ e. e.0) p) printed, m.alive 2)

both_loops :
    keys_of (do m ← insert_all 9 nodes (fresh_tree 0 blank); delete_all 9 (24 ∷ 13 ∷ []) m)
    ≡ ok ((13 ∷ 25 ∷ []) ∷ (25 ∷ []) ∷ [], false)
unfolding rbtree_search rbtree_delete delete_all insert_all rbtree_insert find_place fresh_tree
    hang_on rbtree_insert_fixup node_to_unlink rbtree_successor unlink replace copy_content
    rbtree_travel
both_loops = refl

rbtree_successor-LeadsTo_example :
    (q : ℕ) × (rbtree_successor 6 1 three_nodes ≡ ok q)
    × LeadsTo three_nodes q (keys_above 5 (5 ∷ 10 ∷ 15 ∷ []))
unfolding rbtree_search
rbtree_successor-LeadsTo_example =
    rbtree_successor-LeadsTo three_nodes 100 3 6 5 1 (5 ∷ 10 ∷ 15 ∷ []) three_nodes-Holds refl
      (λ e. omega arith) (omega arith) (omega arith)

rbtree_insert-delete_example :
    (m₁ : Memory) × (z' : ℕ) × (y : ℕ) × (m₂ : Memory) × (rbtree_insert 4 2 one_node ≡ ok m₁)
    × (rbtree_search 4 10 m₁ ≡ ok z')
    × (rbtree_delete 4 z' m₁ ≡ ok (y, m₂))
    × Holds m₂ 100 (5 ∷ [])
unfolding contains
rbtree_insert-delete_example =
    rbtree_insert-delete one_node 100 2 4 2 (5 ∷ []) one_node-Holds refl (λ e. omega arith)
      (omega arith) refl (omega arith) (omega arith)

abbrev apart_nodes : List (ℕ × ℕ)
apart_nodes = (1, 24) ∷ (2, 25) ∷ (3, 13) ∷ []

main-emptied_example :
    (m₁ : Memory) × (printed : List (List (ℕ × Color))) × (m₂ : Memory) × (insert_all 6 apart_nodes
        (fresh_tree 0 blank)
      ≡ ok m₁)
    × (delete_all 6 (map (λ n. n.1) apart_nodes) m₁ ≡ ok (printed, m₂))
    × (map (λ out. map (λ e. e.0) out) printed
        ≡ remainders (map (λ n. n.1) apart_nodes) (insert_keys apart_nodes []))
    × Holds m₂ 100 []
unfolding contains
main-emptied_example =
    main-emptied 6 3 100 0 apart_nodes blank (refl, (refl, (refl, tt)))
      (omega arith, (omega arith, (omega arith, tt))) (refl, (refl, (refl, tt))) (omega arith)
      (omega arith)
