-- ===== src/Wire/Messages/RoundTrip.antt =====
-- Every message comes back from the wire.
use go_clarinet.Base.{◌≡◌, ◌≢◌, ◌<◌, ◌^◌, refl, [], ◌∷◌, arith}
use go_clarinet.Base.Lists.{All}
use go_clarinet.Connection.{
  nil_selector, ConnectRequest, ConnectResponse, WitnessRequest, WitnessResponse,
  WitnessNotification, CloseRequest,
}
use go_clarinet.Wire.Base64.RoundTrip.{IsByte, NoStop, no_stop, NoStop, no_stop}
use go_clarinet.Wire.Parts.{parsed, get_parts}
use go_clarinet.Wire.Parts.RoundTrip.{get_parts-terminated, deserialize-serialize_slice}
use go_clarinet.Wire.Messages.{
  Texts, encode_peer_id, ends_parts, response_parts, serialize_connect_request,
  deserialize_connect_request, serialize_witness_request, deserialize_witness_request,
  serialize_connect_response, deserialize_connect_response, serialize_witness_response,
  deserialize_witness_response, serialize_witness_notification, deserialize_witness_notification,
  serialize_close_request, deserialize_close_request,
}
use go_clarinet.Wire.Messages.Fields.{
  Faithful, parse-selector_string, parse-bool_string, parse-uuid_string, decode-encode_peer_id,
  uuid-All, encode_peer_id-All, ends_parts-All, response_parts-All,
}

module _ (texts : Texts) (faithful : Faithful texts) where
  -- A connect request comes back, if its id has 128 bits and its selector is not nil.
  pub deserialize-serialize_connect_request :
      (r : ConnectRequest)
      → r.connection_id < 2 ^ 128
      → r.options.witness_selector ≢ nil_selector
      → deserialize_connect_request texts (serialize_connect_request texts r) ≡ parsed r
  unfolding serialize_connect_request deserialize_connect_request ends_parts get_parts
  deserialize-serialize_connect_request r small selects =
      rw
        (
          get_parts-terminated _ _ (
              ends_parts-All texts faithful NoStop no_stop r.connection_id small r.sender r.receiver
                r.options),
          parse-uuid_string texts faithful r.connection_id small,
          decode-encode_peer_id texts faithful r.sender,
          decode-encode_peer_id texts faithful r.receiver,
          parse-selector_string r.options.witness_selector selects,
        )
        refl

  -- A witness request comes back, if its id has 128 bits and its selector is not nil.
  pub deserialize-serialize_witness_request :
      (r : WitnessRequest)
      → r.connection_id < 2 ^ 128
      → r.options.witness_selector ≢ nil_selector
      → deserialize_witness_request texts (serialize_witness_request texts r) ≡ parsed r
  unfolding serialize_witness_request deserialize_witness_request ends_parts get_parts
  deserialize-serialize_witness_request r small selects =
      rw
        (
          get_parts-terminated _ _ (
              ends_parts-All texts faithful NoStop no_stop r.connection_id small r.sender r.receiver
                r.options),
          parse-uuid_string texts faithful r.connection_id small,
          decode-encode_peer_id texts faithful r.sender,
          decode-encode_peer_id texts faithful r.receiver,
          parse-selector_string r.options.witness_selector selects,
        )
        refl

  -- A connect response comes back, if its id has 128 bits, and neither its errors nor its reasons are
  -- one empty text alone.
  pub deserialize-serialize_connect_response :
      (r : ConnectResponse)
      → r.connection_id < 2 ^ 128
      → All (All IsByte) r.errors
      → r.errors ≢ [] ∷ []
      → All (All IsByte) r.reject_reasons
      → r.reject_reasons ≢ [] ∷ []
      → deserialize_connect_response texts (serialize_connect_response texts r) ≡ parsed r
  unfolding serialize_connect_response deserialize_connect_response response_parts get_parts
  deserialize-serialize_connect_response r small errors errors_ne reasons reasons_ne =
      rw
        (
          get_parts-terminated _ _ (
              response_parts-All texts faithful NoStop no_stop r.connection_id small r.errors
                r.accepted r.reject_reasons (omega arith)),
          parse-uuid_string texts faithful r.connection_id small,
          deserialize-serialize_slice r.errors errors errors_ne,
          parse-bool_string r.accepted,
          deserialize-serialize_slice r.reject_reasons reasons reasons_ne,
        )
        refl

  -- A witness response comes back, if its id has 128 bits, and neither its errors nor its reasons are
  -- one empty text alone.
  pub deserialize-serialize_witness_response :
      (r : WitnessResponse)
      → r.connection_id < 2 ^ 128
      → All (All IsByte) r.errors
      → r.errors ≢ [] ∷ []
      → All (All IsByte) r.reject_reasons
      → r.reject_reasons ≢ [] ∷ []
      → deserialize_witness_response texts (serialize_witness_response texts r) ≡ parsed r
  unfolding serialize_witness_response deserialize_witness_response response_parts get_parts
  deserialize-serialize_witness_response r small errors errors_ne reasons reasons_ne =
      rw
        (
          get_parts-terminated _ _ (
              response_parts-All texts faithful NoStop no_stop r.connection_id small r.errors
                r.accepted r.reject_reasons (omega arith)),
          parse-uuid_string texts faithful r.connection_id small,
          deserialize-serialize_slice r.errors errors errors_ne,
          parse-bool_string r.accepted,
          deserialize-serialize_slice r.reject_reasons reasons reasons_ne,
        )
        refl

  -- A witness notification comes back, also one without a witness, if its id has 128 bits.
  pub deserialize-serialize_witness_notification :
      (n : WitnessNotification)
      → n.connection_id < 2 ^ 128
      → deserialize_witness_notification texts (serialize_witness_notification texts n) ≡ parsed n
  unfolding serialize_witness_notification deserialize_witness_notification
  deserialize-serialize_witness_notification n small =
      rw
        (
          get_parts-terminated (texts.uuid_string n.connection_id)
              (encode_peer_id texts n.witness ∷ [])
              (
                uuid-All texts faithful NoStop no_stop n.connection_id small,
                (
                  encode_peer_id-All texts faithful NoStop no_stop n.connection_id small n.witness,
                  tt,
                ),
              ),
          parse-uuid_string texts faithful n.connection_id small,
          decode-encode_peer_id texts faithful n.witness,
        )
        refl

  -- A close request comes back, if its id has 128 bits.
  pub deserialize-serialize_close_request :
      (r : CloseRequest)
      → r.connection_id < 2 ^ 128
      → deserialize_close_request texts (serialize_close_request texts r) ≡ parsed r
  unfolding serialize_close_request deserialize_close_request
  deserialize-serialize_close_request r small =
      rw
        (
          get_parts-terminated (texts.uuid_string r.connection_id) []
              (uuid-All texts faithful NoStop no_stop r.connection_id small, tt),
          parse-uuid_string texts faithful r.connection_id small,
        )
        refl
