-- ===== src/Digest.antt =====
-- digest/: the copy of blocks, accounts and documents in a MongoDB database.
pub mod Slices
pub mod Chunks
pub mod Pages
pub mod Mongo
pub mod Offsets
pub mod Filters
pub mod Database
pub mod Docs
pub mod Accounts
pub mod Session
