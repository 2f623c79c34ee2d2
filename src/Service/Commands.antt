-- ===== src/Service/Commands.antt =====
-- The commands of src/service/lifecycle.rs.
pub mod Opening
pub mod Updating
pub mod Fetching
pub mod Installing
pub mod Removing
pub mod Upgrading
pub mod Marking
pub mod Verifying
pub mod DryRuns
