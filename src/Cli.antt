-- ===== src/Cli.antt =====
-- cli: the pool of CLI sessions.
pub mod Manager
mod Tests
