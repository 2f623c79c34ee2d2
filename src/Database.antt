-- ===== src/Database.antt =====
-- src/database: the two databases of an installation.
pub mod Packages
pub mod Files
pub mod History
