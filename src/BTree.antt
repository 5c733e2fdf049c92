-- ===== src/BTree.antt =====
-- containers/BTreePage.cpp: the decoded pages of the B-tree.
pub mod Page
