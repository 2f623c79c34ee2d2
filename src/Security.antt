-- ===== src/Security.antt =====
-- src/security: hashes of files.
pub mod Checksum
pub mod Keys
pub mod KeyDirectory
