-- ===== src/Wire/Payload.antt =====
-- `serialize` and `deserialize`: the type of a value chooses its functions.
pub mod RoundTrip
use go_clarinet.Base.{List, Bytes}
use go_clarinet.Base.Int.{ℤ}
use go_clarinet.Peer.{Peer}
use go_clarinet.Connection.{
  ConnectRequest, ConnectResponse, WitnessRequest, WitnessResponse, WitnessNotification,
  CloseRequest,
}
use go_clarinet.Wire.Parts.{Parse, parsed, failed, ◌>>=◌, unrecognized_type}
use go_clarinet.Wire.Messages.{
  Texts, serialize_connect_request, deserialize_connect_request, serialize_connect_response,
  deserialize_connect_response, serialize_witness_request, deserialize_witness_request,
  serialize_witness_response, deserialize_witness_response, serialize_witness_notification,
  deserialize_witness_notification, serialize_close_request, deserialize_close_request,
}
use go_clarinet.Wire.Peers.{
  serialize_peers_request, deserialize_peers_request, serialize_peers_response,
  deserialize_peers_response,
}

-- A value of type `any`; `unrecognized` is one of a type that the switch does not name.
pub data Payload : Type 0 where
  connect_request : ConnectRequest → Payload
  connect_response : ConnectResponse → Payload
  witness_request : WitnessRequest → Payload
  witness_response : WitnessResponse → Payload
  witness_notification : WitnessNotification → Payload
  close_request : CloseRequest → Payload
  peers_request : ℤ → Payload
  peers_response : List Peer → Payload
  unrecognized : Payload

-- The type that the `out` of `deserialize` points to.
pub data Kind : Type 0 where
  a_connect_request a_connect_response a_witness_request a_witness_response : Kind
  a_witness_notification a_close_request a_peers_request a_peers_response : Kind
  an_unrecognized : Kind

abbrev pub kind_of : Payload → Kind
kind_of (connect_request r) = a_connect_request
kind_of (connect_response r) = a_connect_response
kind_of (witness_request r) = a_witness_request
kind_of (witness_response r) = a_witness_response
kind_of (witness_notification n) = a_witness_notification
kind_of (close_request r) = a_close_request
kind_of (peers_request num) = a_peers_request
kind_of (peers_response peers) = a_peers_response
kind_of unrecognized = an_unrecognized

module _ (texts : Texts) where
  unfoldable pub serialize : Payload → Parse Bytes
  serialize (connect_request r) = parsed (serialize_connect_request texts r)
  serialize (connect_response r) = parsed (serialize_connect_response texts r)
  serialize (witness_request r) = parsed (serialize_witness_request texts r)
  serialize (witness_response r) = parsed (serialize_witness_response texts r)
  serialize (witness_notification n) = parsed (serialize_witness_notification texts n)
  serialize (close_request r) = parsed (serialize_close_request texts r)
  serialize (peers_request num) = parsed (serialize_peers_request num)
  serialize (peers_response peers) = parsed (serialize_peers_response texts peers)
  serialize unrecognized = failed unrecognized_type

  unfoldable pub deserialize : Bytes → Kind → Parse Payload
  deserialize s a_connect_request = do
    r ← deserialize_connect_request texts s
    parsed (connect_request r)
  deserialize s a_connect_response = do
    r ← deserialize_connect_response texts s
    parsed (connect_response r)
  deserialize s a_witness_request = do
    r ← deserialize_witness_request texts s
    parsed (witness_request r)
  deserialize s a_witness_response = do
    r ← deserialize_witness_response texts s
    parsed (witness_response r)
  deserialize s a_witness_notification = do
    n ← deserialize_witness_notification texts s
    parsed (witness_notification n)
  deserialize s a_close_request = do r ← deserialize_close_request texts s; parsed (close_request r)
  deserialize s a_peers_request = do num ← deserialize_peers_request s; parsed (peers_request num)
  deserialize s a_peers_response = do
    peers ← deserialize_peers_response texts s
    parsed (peers_response peers)
  deserialize s an_unrecognized = failed unrecognized_type
