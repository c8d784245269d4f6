-- ===== src/Http.antt =====
-- src/classes/ION/HTTP: the messages of the HTTP classes.
pub mod Message
pub mod Parser
pub mod Response
pub mod Factory
pub mod Request
pub mod Build
pub mod WebSocket
