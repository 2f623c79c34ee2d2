-- ===== src/Package.antt =====
-- src/package: what a package is, and what an archive says of itself.
pub mod Arch
pub mod Manifest
pub mod Archive
pub mod Signature
