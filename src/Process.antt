-- ===== src/Process.antt =====
-- The processors of document operations: creating, updating and signing documents.
pub mod Writes
pub mod Create
pub mod Update
pub mod Sign
