-- ===== src/Server.antt =====
-- server/server.go and the state-changing request of server/web.go: the relay server. `State` holds
-- the data, the other modules the handlers, and the modules below them what is proved of these.
pub mod Overlap
pub mod State
pub mod Start
pub mod Addressing
pub mod Pool
pub mod Send
pub mod Heartbeat
pub mod Data
pub mod Cleanup
pub mod Invariant
pub mod Registration
pub mod Routing
pub mod Timeouts
pub mod Expiry
pub mod Web
pub mod Api
pub mod Run
pub mod Tests
