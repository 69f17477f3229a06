-- ===== src/Rbtree.antt =====
-- The red-black tree of rbtree/rbtree.cpp.
pub mod Nodes
pub mod Rotate
pub mod Insert
pub mod Walk
pub mod Delete
pub mod Unlinked
pub mod Shift
pub mod LendLeft
pub mod ShareLeft
pub mod ShiftLeft
pub mod LendRight
pub mod ShareRight
pub mod ShiftRight
pub mod Repair
pub mod Located
pub mod Leftmost
pub mod Rekey
pub mod OneChild
pub mod DeleteRuns
pub mod Deleted
pub mod Tree
pub mod Shape
pub mod Relink
pub mod RotateLeft
pub mod RotateRight
pub mod Balance
pub mod Paint
pub mod Fix
pub mod SettleLeft
pub mod OuterLeft
pub mod InnerLeft
pub mod SettleRight
pub mod OuterRight
pub mod InnerRight
pub mod Fixup
pub mod Sorted
pub mod Place
pub mod Inserted
pub mod Walked
pub mod Depth
pub mod Main
pub mod Built
pub mod Undo
pub mod Next
pub mod Frame
pub mod Freed
pub mod Emptied
pub mod Whole
mod Tests
