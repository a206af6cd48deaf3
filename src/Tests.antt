-- ===== src/Tests.antt =====
-- The theorems of the library at concrete inputs.
mod Codecs
mod Stores
mod Files
mod Merges
mod Trees
mod Packs
mod Locks
mod Checkouts
mod References
