-- ===== src/Installer.antt =====
-- The installer: the journal of its transactions, and the digest of the journal.
pub mod Digest
pub mod Journal
