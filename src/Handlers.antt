-- ===== src/Handlers.antt =====
-- v2/handlers.go: the adapters that a node puts before the application's handlers, one module for
-- each kind of message.
pub mod Connect
pub mod Witness
pub mod Notification
pub mod Close
pub mod Peers
pub mod Agreed
