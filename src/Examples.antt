-- ===== src/Examples.antt =====
-- examples: programs over the library's containers.
pub mod SimpleKv
pub mod LinkedList
pub mod Stores
pub mod Btree
