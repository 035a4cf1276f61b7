-- ===== src/Proto.antt =====
-- pkg/proto: the messages on the wire and the payloads of the control messages.
pub mod Message
pub mod Payload
