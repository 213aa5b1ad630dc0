-- ===== src/Storage.antt =====
-- The storage layer of storage/: the database file and its pages.
pub mod Pager
pub mod Node
pub mod Pool
pub mod Tree
