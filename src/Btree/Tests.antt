-- ===== src/Btree/Tests.antt =====
-- The theorem on the B-tree's binary search at a concrete input.
use hello_world.Prelude.{ℕ, zero, suc, ◌≡◌, refl, sym, ◌∙◌, List, [], ◌∷◌, arith, minus_one, pos}
use hello_world.Outcome.{ok}
use hello_world.Btree.Search.{narrow, btree_bin_search}
use hello_world.Btree.Bisect.{IsRising, IsLowerBound, btree_bin_search-IsLowerBound}

abbrev some_keys : List ℕ
some_keys = 10 ∷ 20 ∷ 20 ∷ 30 ∷ 40 ∷ []

bin_search_run : btree_bin_search 6 20 (pos 0) (pos 4) some_keys ≡ ok (pos 1)
unfolding btree_bin_search narrow
bin_search_run = refl

bin_search_empty : btree_bin_search 6 20 (pos 3) (pos 2) some_keys ≡ ok minus_one
unfolding btree_bin_search
bin_search_empty = refl

abbrev two_keys : List ℕ
two_keys = 10 ∷ 20 ∷ []

two_keys-IsRising : IsRising two_keys
two_keys-IsRising zero zero k k' le at at' =
    let h : k ≡ k' = let g = sym at ∙ at' in cc in omega (arith, h)
two_keys-IsRising zero (suc zero) k k' le at at' =
    let h : 10 ≡ k = cc in let h' : 20 ≡ k' = cc in omega (arith, h, h')
two_keys-IsRising zero (suc (suc j)) k k' le at at' = absurd (cc)
two_keys-IsRising (suc zero) zero k k' le at at' = absurd (omega arith)
two_keys-IsRising (suc zero) (suc zero) k k' le at at' =
    let h : k ≡ k' = let g = sym at ∙ at' in cc in omega (arith, h)
two_keys-IsRising (suc zero) (suc (suc j)) k k' le at at' = absurd (cc)
two_keys-IsRising (suc (suc i)) j k k' le at at' = absurd (cc)

btree_bin_search-IsLowerBound_example :
    (i : ℕ) × (btree_bin_search 3 15 (pos 0) (pos 1) two_keys ≡ ok (pos i))
    × IsLowerBound two_keys 15 0 2 i
btree_bin_search-IsLowerBound_example =
    btree_bin_search-IsLowerBound 3 15 0 1 two_keys two_keys-IsRising (omega arith) (omega arith)
      (omega arith) (omega arith)
