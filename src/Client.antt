-- ===== src/Client.antt =====
-- client/: the paths of client/transport.go and the packet handlers of client/client.go.
pub mod Overlap
pub mod Paths
pub mod Health
pub mod Stamp
pub mod Checksum
pub mod Handlers
pub mod Sending
pub mod Identity
pub mod Interfaces
pub mod Sockets
pub mod Bind
pub mod Every
pub mod Registration
pub mod Run
pub mod Delivery
mod Tests
