-- ===== src/Node.antt =====
-- v2/goclarinet.go: the operations of `Node`, one module for each family.
pub mod Peers
pub mod Witness
pub mod Connect
pub mod Close
