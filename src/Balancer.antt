-- ===== src/Balancer.antt =====
-- pkg/balancer: the choice of an instance of a service.
pub mod Client
pub mod Robin
pub mod Compose
pub mod Unstored
mod Tests
