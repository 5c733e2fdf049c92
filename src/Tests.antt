-- ===== src/Tests.antt =====
-- Runs of the model on concrete inputs.
mod Elections
mod Locking
mod Codecs
mod Logs
mod Leaves
mod Caching
