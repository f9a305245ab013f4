-- ===== src/Server/Invariant.antt =====
-- server/server.go: which handlers leave the virtual IPs alone, and that a new session keeps them
-- in order.
pub mod Same
pub mod Register
pub mod Ending
