-- ===== src/Client.antt =====
-- pkg/client: the client, its tunnels, its requests for tunnels, and its forwards.
pub mod State
pub mod Tunnels
pub mod Request
pub mod Forwards
pub mod Push
pub mod Reconnect
pub mod Session
pub mod Run
