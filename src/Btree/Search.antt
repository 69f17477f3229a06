-- ===== src/Btree/Search.antt =====
-- `btree_bin_search` of btree/btree.cpp, on the array of a node's keys. Its loop runs on fuel.
use hello_world.Prelude.{
  ℕ, zero, suc, ◌+◌, ◌-◌, ◌/◌, List, ltb, if◌then◌else◌, get_elem?, ℤ, minus_one, pos, negsuc,
}
use hello_world.Outcome.{Outcome, ◌>>=◌, deref, ok, fault, hang}

-- 2 ^ 31; a sum of `int`s that reaches it is undefined.
abbrev pub int_limit : ℕ
int_limit = 2147483648

-- The loop. `stop` is `high + 1`, since `high` may become -1.
unfoldable pub narrow : (fuel key low stop : ℕ) → List ℕ → Outcome ℕ
narrow zero key low stop keys = hang
narrow (suc fuel) key low stop keys =
    let mid = (low + (stop - 1)) / 2 in
    let on_right = narrow fuel key (mid + 1) stop keys in
    let on_left = narrow fuel key low mid keys in
    if ltb low stop
    then (if ltb (low + (stop - 1)) int_limit
        then (do k ← deref (get_elem? keys mid); if ltb k key then on_right else on_left)
        else fault)
    else ok low

unfoldable pub btree_bin_search : (fuel key : ℕ) (low high : ℤ) → List ℕ → Outcome ℤ
unfolding narrow
btree_bin_search fuel key (negsuc low) high keys = ok minus_one
btree_bin_search fuel key (pos low) (negsuc high) keys = ok minus_one
btree_bin_search fuel key (pos low) (pos high) keys =
    let found = narrow fuel key low (suc high) keys in
    if ltb high low then ok minus_one else (do i ← found; ok (pos i))
