-- ===== src/Wire/Messages/Framing.antt =====
-- A message ends at its first semicolon, which is how the reader of a stream finds its end.
use go_clarinet.Base.{◌≡◌, ◌<◌, ◌^◌, refl, List, [], ◌∷◌, ◌++◌, Bytes, arith}
use go_clarinet.Base.Lists.{All}
use go_clarinet.Connection.{
  ConnectRequest, ConnectResponse, WitnessRequest, WitnessResponse, WitnessNotification,
  CloseRequest,
}
use go_clarinet.Wire.Base64.RoundTrip.{NoEnd, no_end}
use go_clarinet.Wire.Split.{join, All-join}
use go_clarinet.Wire.Parts.{terminated}
use go_clarinet.Wire.Messages.{
  Texts, serialize_connect_request, serialize_witness_request, serialize_connect_response,
  serialize_witness_response, serialize_witness_notification, serialize_close_request,
  encode_peer_id,
}
use go_clarinet.Wire.Messages.Fields.{
  Faithful, ends_parts-All, response_parts-All, uuid-All, encode_peer_id-All,
}

-- The text ends in a semicolon and holds no other.
pub record IsFramed (s : Bytes) : Type 0 where
  pub body : Bytes
  pub whole : s ≡ body ++ b';' ∷ []
  pub inside : All NoEnd body

pub terminated-IsFramed : (parts : List Bytes) → All (All NoEnd) parts → IsFramed (terminated parts)
unfolding terminated
terminated-IsFramed parts h = record {
  body = join b'.' parts;
  whole = refl;
  inside = All-join NoEnd b'.' parts (omega arith) h;
}

module _ (texts : Texts) (faithful : Faithful texts) where
  -- A connect request with an id of 128 bits ends in a semicolon and holds no other.
  pub serialize_connect_request-IsFramed :
      (r : ConnectRequest)
      → r.connection_id < 2 ^ 128
      → IsFramed (serialize_connect_request texts r)
  unfolding serialize_connect_request
  serialize_connect_request-IsFramed r small = terminated-IsFramed _ (
      ends_parts-All texts faithful NoEnd no_end r.connection_id small r.sender r.receiver
        r.options)

  -- A witness request with an id of 128 bits ends in a semicolon and holds no other.
  pub serialize_witness_request-IsFramed :
      (r : WitnessRequest)
      → r.connection_id < 2 ^ 128
      → IsFramed (serialize_witness_request texts r)
  unfolding serialize_witness_request
  serialize_witness_request-IsFramed r small = terminated-IsFramed _ (
      ends_parts-All texts faithful NoEnd no_end r.connection_id small r.sender r.receiver
        r.options)

  -- A connect response with an id of 128 bits ends in a semicolon and holds no other, whatever its errors and reasons are.
  pub serialize_connect_response-IsFramed :
      (r : ConnectResponse)
      → r.connection_id < 2 ^ 128
      → IsFramed (serialize_connect_response texts r)
  unfolding serialize_connect_response
  serialize_connect_response-IsFramed r small = terminated-IsFramed _ (
      response_parts-All texts faithful NoEnd no_end r.connection_id small r.errors r.accepted
        r.reject_reasons (omega arith))

  -- A witness response with an id of 128 bits ends in a semicolon and holds no other, whatever its errors and reasons are.
  pub serialize_witness_response-IsFramed :
      (r : WitnessResponse)
      → r.connection_id < 2 ^ 128
      → IsFramed (serialize_witness_response texts r)
  unfolding serialize_witness_response
  serialize_witness_response-IsFramed r small = terminated-IsFramed _ (
      response_parts-All texts faithful NoEnd no_end r.connection_id small r.errors r.accepted
        r.reject_reasons (omega arith))

  -- A witness notification with an id of 128 bits ends in a semicolon and holds no other.
  pub serialize_witness_notification-IsFramed :
      (n : WitnessNotification)
      → n.connection_id < 2 ^ 128
      → IsFramed (serialize_witness_notification texts n)
  unfolding serialize_witness_notification
  serialize_witness_notification-IsFramed n small =
      terminated-IsFramed (texts.uuid_string n.connection_id ∷ encode_peer_id texts n.witness ∷ [])
        (
          uuid-All texts faithful NoEnd no_end n.connection_id small,
          (encode_peer_id-All texts faithful NoEnd no_end n.connection_id small n.witness, tt),
        )

  -- A close request with an id of 128 bits ends in a semicolon and holds no other.
  pub serialize_close_request-IsFramed :
      (r : CloseRequest) → r.connection_id < 2 ^ 128 → IsFramed (serialize_close_request texts r)
  unfolding serialize_close_request
  serialize_close_request-IsFramed r small =
      terminated-IsFramed (texts.uuid_string r.connection_id ∷ [])
        (uuid-All texts faithful NoEnd no_end r.connection_id small, tt)
