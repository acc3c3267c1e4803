-- ===== src/Network.antt =====
-- pkg/network: packets over a TCP connection.
pub mod Packet
pub mod Writer
pub mod Reader
pub mod Dispatch
pub mod Conn
pub mod Server
pub mod Client
pub mod Delivery
mod Tests
