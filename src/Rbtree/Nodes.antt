-- ===== src/Rbtree/Nodes.antt =====
-- `rbtree_node` and `rbtree` of rbtree/rbtree.cpp. The memory holds a map for each field of a node,
-- so that a write of one field is seen to leave the others alone.
use hello_world.Prelude.{ℕ, Bool, true, false, ◌==◌, if◌then◌else◌}
use hello_world.Outcome.{Outcome, ok, fault}

pub data Color : Type 0 where
  red black : Color

abbrev pub is_red : Color → Bool
is_red red = true
is_red black = false

-- `alive` says where a node has been allocated, `root` and `nil` are the fields of the tree.
pub record Memory : Type 0 where
  pub alive : ℕ → Bool
  pub left : ℕ → ℕ
  pub right : ℕ → ℕ
  pub parent : ℕ → ℕ
  pub color : ℕ → Color
  pub key : ℕ → ℕ
  pub value : ℕ → ℕ
  pub root : ℕ
  pub nil : ℕ

abbrev pub update {ℓ} : {A : Type ℓ} → (ℕ → A) → ℕ → A → ℕ → A
update f p v q = if p == q then v else f q

-- A field of the node at `p`.
abbrev pub read {ℓ} : {A : Type ℓ} → Memory → (ℕ → A) → ℕ → Outcome A
read m field p = if m.alive p then ok (field p) else fault

abbrev pub write_left : (p v : ℕ) → Memory → Outcome Memory
write_left p v m = if m.alive p then ok (record m { left = update m.left p v }) else fault

abbrev pub write_right : (p v : ℕ) → Memory → Outcome Memory
write_right p v m = if m.alive p then ok (record m { right = update m.right p v }) else fault

abbrev pub write_parent : (p v : ℕ) → Memory → Outcome Memory
write_parent p v m = if m.alive p then ok (record m { parent = update m.parent p v }) else fault

abbrev pub write_color : (p : ℕ) → Color → Memory → Outcome Memory
write_color p c m = if m.alive p then ok (record m { color = update m.color p c }) else fault

abbrev pub write_key : (p k : ℕ) → Memory → Outcome Memory
write_key p k m = if m.alive p then ok (record m { key = update m.key p k }) else fault

abbrev pub write_value : (p v : ℕ) → Memory → Outcome Memory
write_value p v m = if m.alive p then ok (record m { value = update m.value p v }) else fault
