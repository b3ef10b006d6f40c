-- ===== src/Wire/Payload/RoundTrip.antt =====
-- Every message comes back from the wire, and ends at its first semicolon.
use go_clarinet.Base.{◌≡◌, ◌≢◌, ◌<◌, ◌^◌, refl, List, [], ◌∷◌, Bytes}
use go_clarinet.Base.Lists.{All}
use go_clarinet.Connection.{nil_selector}
use go_clarinet.Wire.Base64.RoundTrip.{IsByte}
use go_clarinet.Wire.Decimal.RoundTrip.{IsInt64}
use go_clarinet.Wire.Parts.{parsed}
use go_clarinet.Wire.Messages.{Texts}
use go_clarinet.Wire.Messages.Fields.{Faithful}
use go_clarinet.Wire.Messages.RoundTrip.{
  deserialize-serialize_connect_request, deserialize-serialize_witness_request,
  deserialize-serialize_connect_response, deserialize-serialize_witness_response,
  deserialize-serialize_witness_notification, deserialize-serialize_close_request,
}
use go_clarinet.Wire.Messages.Framing.{
  IsFramed, serialize_connect_request-IsFramed, serialize_witness_request-IsFramed,
  serialize_connect_response-IsFramed, serialize_witness_response-IsFramed,
  serialize_witness_notification-IsFramed, serialize_close_request-IsFramed,
}
use go_clarinet.Wire.Peers.RoundTrip.{
  CanBeSent, deserialize-serialize_peers_response, serialize_peers_response-IsFramed,
  deserialize-serialize_peers_request, serialize_peers_request-IsFramed,
}
use go_clarinet.Wire.Payload.{
  Payload, connect_request, connect_response, witness_request, witness_response,
  witness_notification, close_request, peers_request, peers_response, unrecognized, kind_of,
  serialize, deserialize,
}

-- The texts of a list can be sent: they are byte strings, and not one empty text alone.
abbrev pub AreTexts : List Bytes → Type 0
AreTexts ss = All (All IsByte) ss × (ss ≢ [] ∷ [])

-- What a message must be like to come back.
abbrev pub IsSendable : Payload → Type 0
IsSendable (connect_request r) =
    (r.connection_id < 2 ^ 128) × (r.options.witness_selector ≢ nil_selector)
IsSendable (connect_response r) =
    (r.connection_id < 2 ^ 128) × AreTexts r.errors × AreTexts r.reject_reasons
IsSendable (witness_request r) =
    (r.connection_id < 2 ^ 128) × (r.options.witness_selector ≢ nil_selector)
IsSendable (witness_response r) =
    (r.connection_id < 2 ^ 128) × AreTexts r.errors × AreTexts r.reject_reasons
IsSendable (witness_notification n) = n.connection_id < 2 ^ 128
IsSendable (close_request r) = r.connection_id < 2 ^ 128
IsSendable (peers_request num) = IsInt64 num
IsSendable (peers_response peers) = All CanBeSent peers
IsSendable unrecognized = ⊥

-- The bytes of a message: its serialization, which ends at its first semicolon and is read back.
pub record Sent (texts : Texts) (p : Payload) : Type 0 where
  pub bytes : Bytes
  pub written : serialize texts p ≡ parsed bytes
  pub framed : IsFramed bytes
  pub read : deserialize texts bytes (kind_of p) ≡ parsed p

module _ (texts : Texts) (faithful : Faithful texts) where
  -- Every message that can be sent has a serialization, which ends in its only semicolon and is read
  -- back as the message. A message can be sent if its id has 128 bits, its selector is not nil, its
  -- number has 64 bits, its texts are byte strings, and no list of its texts is one empty text alone.
  pub serialize-Sent : (p : Payload) → IsSendable p → Sent texts p
  unfolding serialize deserialize
  serialize-Sent (connect_request r) (small, selects) = record {
    bytes = _;
    written = refl;
    framed = serialize_connect_request-IsFramed texts faithful r small;
    read = rw (deserialize-serialize_connect_request texts faithful r small selects) refl;
  }
  serialize-Sent (connect_response r) (small, (errors, errors_ne), (reasons, reasons_ne)) = record {
    bytes = _;
    written = refl;
    framed = serialize_connect_response-IsFramed texts faithful r small;
    read =
        rw
          (deserialize-serialize_connect_response texts faithful r small errors errors_ne reasons
            reasons_ne)
          refl;
  }
  serialize-Sent (witness_request r) (small, selects) = record {
    bytes = _;
    written = refl;
    framed = serialize_witness_request-IsFramed texts faithful r small;
    read = rw (deserialize-serialize_witness_request texts faithful r small selects) refl;
  }
  serialize-Sent (witness_response r) (small, (errors, errors_ne), (reasons, reasons_ne)) = record {
    bytes = _;
    written = refl;
    framed = serialize_witness_response-IsFramed texts faithful r small;
    read =
        rw
          (deserialize-serialize_witness_response texts faithful r small errors errors_ne reasons
            reasons_ne)
          refl;
  }
  serialize-Sent (witness_notification n) small = record {
    bytes = _;
    written = refl;
    framed = serialize_witness_notification-IsFramed texts faithful n small;
    read = rw (deserialize-serialize_witness_notification texts faithful n small) refl;
  }
  serialize-Sent (close_request r) small = record {
    bytes = _;
    written = refl;
    framed = serialize_close_request-IsFramed texts faithful r small;
    read = rw (deserialize-serialize_close_request texts faithful r small) refl;
  }
  serialize-Sent (peers_request num) fits = record {
    bytes = _;
    written = refl;
    framed = serialize_peers_request-IsFramed num;
    read = rw (deserialize-serialize_peers_request num fits) refl;
  }
  serialize-Sent (peers_response peers) can = record {
    bytes = _;
    written = refl;
    framed = serialize_peers_response-IsFramed texts faithful peers;
    read = rw (deserialize-serialize_peers_response texts faithful peers can) refl;
  }
  serialize-Sent unrecognized h = absurd h
