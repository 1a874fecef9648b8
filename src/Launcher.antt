-- ===== src/Launcher.antt =====
-- src/bgw/launcher: the launcher keeps one subscriber worker for each database.
pub mod Postgres
pub mod Worker
pub mod Context
pub mod Bus
pub mod Phases
pub mod Invariant
pub mod Drain
pub mod Shutdown
pub mod Unique
pub mod Small
pub mod Retry
pub mod Databases
pub mod Argument
mod Tests
