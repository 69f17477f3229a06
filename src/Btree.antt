-- ===== src/Btree.antt =====
-- The B-tree of btree/btree.cpp.
pub mod Search
pub mod Bisect
mod Tests
