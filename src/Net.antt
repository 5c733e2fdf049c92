-- ===== src/Net.antt =====
-- client/: what the client and the server send each other.
pub mod Codec
