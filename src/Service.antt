-- ===== src/Service.antt =====
-- src/service: the commands, their decisions, their lock and their progress.
pub mod Progress
pub mod Lock
pub mod Lifecycle
pub mod State
pub mod Commands
