-- ===== src/Daemon.antt =====
-- src/daemon: the daemon that runs the commands for its clients.
pub mod Protocol
pub mod Wire
pub mod Server
pub mod Client
