-- ===== src/Repository.antt =====
-- src/repository: where packages come from.
pub mod Download
pub mod Metadata
pub mod Index
pub mod Cache
