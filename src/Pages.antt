-- ===== src/Pages.antt =====
-- The pages, headers and journal records that the pager puts on disk.
pub mod Crc32c
pub mod Cache
pub mod Codec
pub mod Header
pub mod Journal
