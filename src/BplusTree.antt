-- ===== src/BplusTree.antt =====
-- src/observer/storage/index/bplus_tree.cpp: the B+ tree of an index.
pub mod Array
pub mod Block
pub mod Order
pub mod Key
pub mod Node
pub mod Tree
pub mod IndexFile
pub mod Subtree
pub mod Scanner
mod TwoLeaves
mod Tests
