-- ===== src/Storage/Tree.antt =====
-- The B+ tree of storage/btree.go: so far, the search in a node.
pub mod Search
