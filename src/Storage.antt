-- ===== src/Storage.antt =====
-- Log/Store.cpp and storage/Index.cpp: the two files of a segment.
pub mod File
pub mod Index
pub mod Store
