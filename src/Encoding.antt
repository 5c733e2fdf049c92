-- ===== src/Encoding.antt =====
-- encoding/: big-endian integers, the checksum, and the codecs of keys and values.
pub mod Endian
pub mod Key
pub mod Value
pub mod Stream
