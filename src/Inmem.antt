-- ===== src/Inmem.antt =====
-- starterimpl/inmem/inmem.go: the stores, over the node's state.
pub mod Connections
pub mod Reputations
pub mod Messages
