-- ===== src/Btree/Bisect.antt =====
-- What `btree_bin_search` of btree/btree.cpp finds.
use native.Mathlib.Decide.{dec_lt}
use hello_world.Prelude.{
  ℕ, zero, suc, ◌+◌, ◌-◌, ◌*◌, ◌/◌, ◌≤◌, ◌<◌, ◌≡◌, refl, inl, inr, true, some, List, arith, ltb,
  ltb→lt, lt→ltb, le→not_ltb, Bool-cases, length, get_elem?, get_elem?-within, pos,
}
use hello_world.Outcome.{ok}
use hello_world.Btree.Search.{int_limit, narrow, btree_bin_search}

-- The keys do not fall from one place to a later one.
abbrev pub IsRising : List ℕ → Type 0
IsRising keys =
    (i j k k' : ℕ) → i ≤ j → get_elem? keys i ≡ some k → get_elem? keys j ≡ some k' → k ≤ k'

-- The first place from `low` on and before `stop` with a key that is not below `key`, or `stop`.
pub record IsLowerBound (keys : List ℕ) (key low stop i : ℕ) : Type 0 where
  pub from_low : low ≤ i
  pub to_stop : i ≤ stop
  pub below : (j k : ℕ) → low ≤ j → j < i → get_elem? keys j ≡ some k → k < key
  pub not_below : (j k : ℕ) → i ≤ j → j < stop → get_elem? keys j ≡ some k → key ≤ k

module _ (keys : List ℕ) (key : ℕ) (rising : IsRising keys) where
  narrow-IsLowerBound :
      (fuel low stop : ℕ)
      → low ≤ stop
      → stop ≤ length keys
      → stop < low + fuel
      → 2 * stop ≤ int_limit + 1
      → (i : ℕ) × (narrow fuel key low stop keys ≡ ok i) × IsLowerBound keys key low stop i
  unfolding narrow
  narrow-IsLowerBound zero low stop le inside enough small = absurd (omega arith)
  narrow-IsLowerBound (suc fuel) low stop le inside enough small =
      let mid = (low + (stop - 1)) / 2 in
      elim (Bool-cases (ltb low stop)) [
        | inr e ↦
            let same : stop ≤ low = ground (arith, e) in
            (
              low,
              rw e refl,
              record {
                from_low = omega arith;
                to_stop = le;
                below = λ j k from before at. absurd (omega arith);
                not_below = λ j k from before at. absurd (omega arith);
              },
            )
        | inl e ↦
            let lt = ltb→lt low stop e in
            let no_wrap : ltb (low + (stop - 1)) int_limit ≡ true =
              lt→ltb (low + (stop - 1)) int_limit (omega arith) in
            let low_mid : low ≤ mid = omega arith in
            let mid_stop : mid < stop = omega arith in
            let (k, at_mid) = get_elem?-within keys mid (omega arith) in
            elim (Bool-cases (ltb k key)) [
              | inl less ↦
                  let k_key = ltb→lt k key less in
                  let (i, runs, b) =
                    narrow-IsLowerBound fuel (mid + 1) stop (omega arith) inside (omega arith)
                      small in
                  (
                    i,
                    rw (e, no_wrap, at_mid, less) runs,
                    record {
                      from_low = omega (arith, b.from_low);
                      to_stop = b.to_stop;
                      below = λ j q from before at. elim (dec_lt mid j) [
                        | yes after ↦ b.below j q (omega arith) before at
                        | no not_after ↦ omega (arith, rising j mid q k (omega arith) at at_mid)
                      ];
                      not_below = b.not_below;
                    },
                  )
              | inr not_less ↦
                  let key_k : key ≤ k = ground (arith, not_less) in
                  let (i, runs, b) =
                    narrow-IsLowerBound fuel low mid low_mid (omega arith) (omega arith)
                      (omega arith) in
                  (
                    i,
                    rw (e, no_wrap, at_mid, not_less) runs,
                    record {
                      from_low = b.from_low;
                      to_stop = omega (arith, b.to_stop);
                      below = b.below;
                      not_below = λ j q from before at. elim (dec_lt j mid) [
                        | yes here ↦ b.not_below j q from here at
                        | no after ↦ omega (arith, rising mid j k q (omega arith) at_mid at)
                      ];
                    },
                  )
            ]
      ]

-- If the keys do not fall, low is not above high, high is a place of a key, twice high is below 2
-- ^ 31, and there is fuel for one round more than places, btree_bin_search returns without a read
-- outside the keys and without an overflow of low + high, and gives the first place from low to
-- high whose key is not below the one sought, or high + 1 when there is none
pub btree_bin_search-IsLowerBound :
    (fuel key low high : ℕ) (keys : List ℕ)
    → IsRising keys
    → low ≤ high
    → high < length keys
    → high + 1 < low + fuel
    → 2 * high < int_limit
    → (i : ℕ) × (btree_bin_search fuel key (pos low) (pos high) keys ≡ ok (pos i))
      × IsLowerBound keys key low (suc high) i
unfolding btree_bin_search
btree_bin_search-IsLowerBound fuel key low high keys rising le inside enough small =
    let (i, runs, b) =
      narrow-IsLowerBound keys key rising fuel low (suc high) (omega arith) (omega arith)
        (omega arith) (omega arith) in
    (i, rw (le→not_ltb high low le, runs) refl, b)
