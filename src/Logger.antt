-- ===== src/Logger.antt =====
-- pkg/logger: the files that roll, and the levels.
pub mod Rolling
pub mod Levels
mod Tests
