-- ===== src/Bridge.antt =====
-- pkg/cbridge and cmd/libclienthub: the objects behind the handles of the desktop applications. An
-- int of Go has 64 bits, an int of C has 32.
pub mod Handles
pub mod Callbacks
pub mod Hub
pub mod Managers
pub mod CLibrary
