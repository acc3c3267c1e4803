-- ===== src/Disco.antt =====
-- The discovery server of examples/disco/server.
pub mod Factory
pub mod Server
pub mod Kept
pub mod Found
mod Tests
