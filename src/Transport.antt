-- ===== src/Transport.antt =====
-- starterimpl/libp2p/libp2p.go: the transport over streams of the libp2p host. Serve is the side that
-- a stream comes in at, Client the side that opens it; Endpoints has the handlers that a node
-- registers, and Delivery sets the two sides against each other.
pub mod Stream
pub mod Serve
pub mod Endpoints
pub mod Client
pub mod Delivery
pub mod Shared
