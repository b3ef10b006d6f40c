-- ===== src/Wire/Messages.antt =====
-- The messages on the wire. The texts of UUIDs and of peer ids are made and read by the packages
-- uuid and go-libp2p, which are parameters.
pub mod Fields
pub mod RoundTrip
pub mod Framing
use go_clarinet.Base.{
  ℕ, ◌+◌, ◌≡◌, ◌≢◌, ◌<◌, ◌^◌, Bool, true, false, Option, none, some, List, [], ◌∷◌, Bytes, codes,
  if◌then◌else◌, ◌||◌,
}
use go_clarinet.Base.Eq.{◌==◌, bytes_eq}
use go_clarinet.Base.Lists.{All, length}
use go_clarinet.Peer.{PeerId, nil_id, some_id}
use go_clarinet.Connection.{
  ConnId, Options, WitnessSelector, nil_selector, sender_selects, receiver_selects, ConnectRequest,
  ConnectResponse, WitnessRequest, WitnessResponse, WitnessNotification, CloseRequest,
}
use go_clarinet.Wire.Base64.{b64enc, b64dec}
use go_clarinet.Wire.Parts.{
  Parse, parsed, failed, crashed, ◌>>=◌, or_fail, get_parts, serialize_slice, deserialize_slice,
  terminated, bad_uuid, bad_base64, bad_peer_id, bad_selector, bad_bool,
}

-- `uuid.UUID.String`, `uuid.Parse`, `peer.ID.String` and `libp2pPeer.Decode`
pub record Texts : Type 0 where
  pub uuid_string : ConnId → Bytes
  pub uuid_parse : Bytes → Option ConnId
  pub peer_string : ℕ → Bytes
  pub peer_decode : Bytes → Option ℕ

-- `%s` of a selector
pub selector_string : WitnessSelector → Bytes
selector_string nil_selector = codes "%!s(<nil>)"
selector_string sender_selects = codes "Sender"
selector_string receiver_selects = codes "Receiver"

unfoldable pub parse_witness_selector : Bytes → Parse WitnessSelector
parse_witness_selector s =
    if s == codes "Sender"
    then parsed sender_selects
    else if s == codes "Receiver"
    then parsed receiver_selects
    else failed (bad_selector s)

-- `%t` of a Boolean, and `strconv.ParseBool`
pub bool_string : Bool → Bytes
bool_string true = codes "true"
bool_string false = codes "false"

among : Bytes → List Bytes → Bool
among s [] = false
among s (t ∷ ts) = s == t || among s ts

pub parse_bool : Bytes → Parse Bool
unfolding among
parse_bool s =
    if among s (codes "1" ∷ codes "t" ∷ codes "T" ∷ codes "TRUE" ∷ codes "true" ∷ codes "True" ∷ [])
    then parsed true
    else if among s
        (codes "0" ∷ codes "f" ∷ codes "F" ∷ codes "FALSE" ∷ codes "false" ∷ codes "False" ∷ [])
    then parsed false
    else failed (bad_bool s)

module _ (texts : Texts) where
  unfoldable pub encode_peer_id : PeerId → Bytes
  encode_peer_id nil_id = []
  encode_peer_id (some_id n) = b64enc (texts.peer_string n)

  decode_text : Bytes → Parse PeerId
  decode_text s = do n ← or_fail (bad_peer_id s) (texts.peer_decode s); parsed (some_id n)

  unfoldable pub decode_peer_id : Bytes → Parse PeerId
  unfolding decode_text
  decode_peer_id [] = parsed nil_id
  decode_peer_id (c ∷ s) = do dec ← or_fail (bad_base64 (c ∷ s)) (b64dec (c ∷ s)); decode_text dec

  pub parse_uuid : Bytes → Parse ConnId
  parse_uuid s = or_fail (bad_uuid s) (texts.uuid_parse s)

  -- The fields that a connect request and a witness request share.
  pub ends_parts : ConnId → PeerId → PeerId → Options → List Bytes
  ends_parts id sender receiver options =
      texts.uuid_string id
      ∷ encode_peer_id sender
      ∷ encode_peer_id receiver
      ∷ selector_string options.witness_selector
      ∷ []

  unfoldable pub serialize_connect_request : ConnectRequest → Bytes
  unfolding ends_parts selector_string
  serialize_connect_request r =
      terminated (ends_parts r.connection_id r.sender r.receiver r.options)

  connect_request_of : List Bytes → Parse ConnectRequest
  connect_request_of (id ∷ sender ∷ receiver ∷ selector ∷ []) = do
    conn_id ← parse_uuid id
    sender_id ← decode_peer_id sender
    recvr_id ← decode_peer_id receiver
    ws ← parse_witness_selector selector
    parsed (record {
      connection_id = conn_id;
      sender = sender_id;
      receiver = recvr_id;
      options = record { witness_selector = ws };
    })
  connect_request_of _ = crashed

  unfoldable pub deserialize_connect_request : Bytes → Parse ConnectRequest
  unfolding connect_request_of parse_uuid
  deserialize_connect_request s = do parts ← get_parts s 4; connect_request_of parts

  unfoldable pub serialize_witness_request : WitnessRequest → Bytes
  unfolding ends_parts selector_string
  serialize_witness_request r =
      terminated (ends_parts r.connection_id r.sender r.receiver r.options)

  witness_request_of : List Bytes → Parse WitnessRequest
  witness_request_of (id ∷ sender ∷ receiver ∷ selector ∷ []) = do
    conn_id ← parse_uuid id
    sender_id ← decode_peer_id sender
    recvr_id ← decode_peer_id receiver
    ws ← parse_witness_selector selector
    parsed (record {
      connection_id = conn_id;
      sender = sender_id;
      receiver = recvr_id;
      options = record { witness_selector = ws };
    })
  witness_request_of _ = crashed

  unfoldable pub deserialize_witness_request : Bytes → Parse WitnessRequest
  unfolding witness_request_of parse_uuid
  deserialize_witness_request s = do parts ← get_parts s 4; witness_request_of parts

  -- The fields that a connect response and a witness response share.
  pub response_parts : ConnId → List Bytes → Bool → List Bytes → List Bytes
  response_parts id errors accepted reject_reasons =
      texts.uuid_string id
      ∷ serialize_slice errors
      ∷ bool_string accepted
      ∷ serialize_slice reject_reasons
      ∷ []

  unfoldable pub serialize_connect_response : ConnectResponse → Bytes
  unfolding response_parts bool_string
  serialize_connect_response r =
      terminated (response_parts r.connection_id r.errors r.accepted r.reject_reasons)

  connect_response_of : List Bytes → Parse ConnectResponse
  connect_response_of (id ∷ errors ∷ accepted ∷ reasons ∷ []) = do
    conn_id ← parse_uuid id
    errs ← deserialize_slice errors
    agreed ← parse_bool accepted
    reject_reasons ← deserialize_slice reasons
    parsed (record {
      connection_id = conn_id;
      errors = errs;
      accepted = agreed;
      reject_reasons = reject_reasons;
    })
  connect_response_of _ = crashed

  unfoldable pub deserialize_connect_response : Bytes → Parse ConnectResponse
  unfolding connect_response_of parse_uuid parse_bool
  deserialize_connect_response s = do parts ← get_parts s 4; connect_response_of parts

  unfoldable pub serialize_witness_response : WitnessResponse → Bytes
  unfolding response_parts bool_string
  serialize_witness_response r =
      terminated (response_parts r.connection_id r.errors r.accepted r.reject_reasons)

  witness_response_of : List Bytes → Parse WitnessResponse
  witness_response_of (id ∷ errors ∷ accepted ∷ reasons ∷ []) = do
    conn_id ← parse_uuid id
    errs ← deserialize_slice errors
    agreed ← parse_bool accepted
    reject_reasons ← deserialize_slice reasons
    parsed (record {
      connection_id = conn_id;
      errors = errs;
      accepted = agreed;
      reject_reasons = reject_reasons;
    })
  witness_response_of _ = crashed

  unfoldable pub deserialize_witness_response : Bytes → Parse WitnessResponse
  unfolding witness_response_of parse_uuid parse_bool
  deserialize_witness_response s = do parts ← get_parts s 4; witness_response_of parts

  unfoldable pub serialize_witness_notification : WitnessNotification → Bytes
  serialize_witness_notification n =
      terminated (texts.uuid_string n.connection_id ∷ encode_peer_id n.witness ∷ [])

  witness_notification_of : List Bytes → Parse WitnessNotification
  witness_notification_of (id ∷ witness ∷ []) = do
    conn_id ← parse_uuid id
    wit ← decode_peer_id witness
    parsed (record { connection_id = conn_id; witness = wit })
  witness_notification_of _ = crashed

  unfoldable pub deserialize_witness_notification : Bytes → Parse WitnessNotification
  unfolding witness_notification_of parse_uuid
  deserialize_witness_notification s = do parts ← get_parts s 2; witness_notification_of parts

  unfoldable pub serialize_close_request : CloseRequest → Bytes
  serialize_close_request r = terminated (texts.uuid_string r.connection_id ∷ [])

  close_request_of : List Bytes → Parse CloseRequest
  close_request_of (id ∷ []) = do
    conn_id ← parse_uuid id
    parsed (record { connection_id = conn_id })
  close_request_of _ = crashed

  unfoldable pub deserialize_close_request : Bytes → Parse CloseRequest
  unfolding close_request_of parse_uuid
  deserialize_close_request s = do parts ← get_parts s 1; close_request_of parts
