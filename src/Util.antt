-- ===== src/Util.antt =====
-- pkg/util: the hashes, the addresses and the settings of the environment.
pub mod Hash
pub mod Addresses
mod Tests
