-- ===== src/Wire.antt =====
-- starterimpl/libp2p/serde.go: the wire format. A message is its parts with a full stop between two
-- of them and a semicolon at the end; a part that holds a list has its elements in base64, with a
-- comma between two of them.
pub mod Base64
pub mod Decimal
pub mod Split
pub mod Parts
pub mod Messages
pub mod Peers
pub mod Payload
