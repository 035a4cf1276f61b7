-- ===== src/Server.antt =====
-- pkg/server/server.go: the state of the server, and what it takes from its libraries.
pub mod New
pub mod State
pub mod Pending
pub mod OpenTunnel
pub mod Push
pub mod Session
pub mod Datagram
pub mod Admin
pub mod Steps
