-- ===== src/Naming.antt =====
-- pkg/naming: the discovery of services.
pub mod Types
pub mod Samples
pub mod RpcClient
pub mod Nacos
mod Tests
