-- ===== src/Dependency.antt =====
-- src/dependency: what has to be installed, and in what order.
pub mod Version
pub mod Graph
pub mod Resolver
