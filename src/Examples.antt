-- ===== src/Examples.antt =====
-- The development run at concrete inputs.
mod World
mod Wire
mod Sessions
mod Tunnels
mod Rules
mod Hub
mod Clients
mod Ends
mod Openings
mod Loops
mod Sections
mod Administrators
mod Applications
