-- ===== src/Install.antt =====
-- src/install: putting the files of a package in place, and taking them away.
pub mod Hooks
pub mod Diskspace
pub mod Rollback
pub mod Extractor
pub mod Store
pub mod Transaction
