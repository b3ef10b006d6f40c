-- ===== src/Wire/Messages/Fields.antt =====
-- The fields of the messages come back, and hold no separator.
use go_clarinet.Base.{
  ℕ, ◌≡◌, ◌≢◌, ◌<◌, ◌^◌, refl, Bool, true, false, some, List, [], ◌∷◌, Bytes, arith,
}
use go_clarinet.Base.Lists.{All}
use go_clarinet.Peer.{PeerId, nil_id, some_id}
use go_clarinet.Connection.{
  ConnId, Options, WitnessSelector, nil_selector, sender_selects, receiver_selects,
}
use go_clarinet.Wire.Base64.{b64enc, b64dec}
use go_clarinet.Wire.Base64.RoundTrip.{IsByte, IsPlain, b64dec-b64enc, b64enc-ne-nil}
use go_clarinet.Wire.Parts.{parsed}
use go_clarinet.Wire.Parts.RoundTrip.{All-plain, b64enc-All, serialize_slice-All}
use go_clarinet.Wire.Messages.{
  Texts, selector_string, parse_witness_selector, bool_string, parse_bool, encode_peer_id,
  decode_peer_id, parse_uuid, ends_parts, response_parts,
}

-- What the packages uuid and go-libp2p promise of their texts: a UUID's text is read back and is hex
-- digits and dashes; a peer id's text is read back and is not empty.
pub record Faithful (texts : Texts) : Type 0 where
  pub uuid : (id : ConnId) → id < 2 ^ 128 → texts.uuid_parse (texts.uuid_string id) ≡ some id
  pub uuid_plain : (id : ConnId) → id < 2 ^ 128 → All IsPlain (texts.uuid_string id)
  pub peer : (n : ℕ) → texts.peer_decode (texts.peer_string n) ≡ some n
  pub peer_bytes : (n : ℕ) → All IsByte (texts.peer_string n)
  pub peer_some : (n : ℕ) → texts.peer_string n ≢ []

pub parse-selector_string :
    (ws : WitnessSelector)
    → ws ≢ nil_selector
    → parse_witness_selector (selector_string ws) ≡ parsed ws
unfolding parse_witness_selector selector_string
parse-selector_string nil_selector h = absurd (h refl)
parse-selector_string sender_selects h = refl
parse-selector_string receiver_selects h = refl

pub parse-bool_string : (b : Bool) → parse_bool (bool_string b) ≡ parsed b
unfolding parse_bool bool_string
parse-bool_string true = refl
parse-bool_string false = refl

module _ (texts : Texts) (faithful : Faithful texts) where
  pub parse-uuid_string :
      (id : ConnId) → id < 2 ^ 128 → parse_uuid texts (texts.uuid_string id) ≡ parsed id
  unfolding parse_uuid
  parse-uuid_string id small = rw (faithful.uuid id small) refl

  decode_peer_id-ne_nil :
      (s t : Bytes) (n : ℕ)
      → s ≢ []
      → b64dec s ≡ some t
      → texts.peer_decode t ≡ some n
      → decode_peer_id texts s ≡ parsed (some_id n)
  unfolding decode_peer_id
  decode_peer_id-ne_nil [] t n h dec known = absurd (h refl)
  decode_peer_id-ne_nil (c ∷ s) t n h dec known = rw (dec, known) refl

  pub decode-encode_peer_id :
      (id : PeerId) → decode_peer_id texts (encode_peer_id texts id) ≡ parsed id
  unfolding decode_peer_id encode_peer_id
  decode-encode_peer_id nil_id = refl
  decode-encode_peer_id (some_id n) =
      decode_peer_id-ne_nil (b64enc (texts.peer_string n)) (texts.peer_string n) n
        (b64enc-ne-nil (texts.peer_string n) (faithful.peer_some n))
        (b64dec-b64enc (texts.peer_string n) (faithful.peer_bytes n)) (faithful.peer n)

selector_string-IsPlain : (ws : WitnessSelector) → All IsPlain (selector_string ws)
unfolding selector_string
selector_string-IsPlain nil_selector = ground arith
selector_string-IsPlain sender_selects = ground arith
selector_string-IsPlain receiver_selects = ground arith

bool_string-IsPlain : (b : Bool) → All IsPlain (bool_string b)
unfolding bool_string
bool_string-IsPlain true = ground arith
bool_string-IsPlain false = ground arith

module _ (texts : Texts) (faithful : Faithful texts) (P : ℕ → Type 0)
    (plain : (c : ℕ) → IsPlain c → P c) (id : ConnId) (small : id < 2 ^ 128) where
  pub uuid-All : All P (texts.uuid_string id)
  uuid-All = All-plain P plain (texts.uuid_string id) (faithful.uuid_plain id small)

  pub encode_peer_id-All : (peer : PeerId) → All P (encode_peer_id texts peer)
  unfolding encode_peer_id
  encode_peer_id-All nil_id = tt
  encode_peer_id-All (some_id n) = b64enc-All P plain (texts.peer_string n)

  pub ends_parts-All :
      (sender receiver : PeerId) (o : Options) → All (All P) (ends_parts texts id sender receiver o)
  unfolding ends_parts
  ends_parts-All sender receiver o = (
    uuid-All,
    (
      encode_peer_id-All sender,
      (
        encode_peer_id-All receiver,
        (
          All-plain P plain (selector_string o.witness_selector)
              (selector_string-IsPlain o.witness_selector),
          tt,
        ),
      ),
    ),
  )

  pub response_parts-All :
      (errors : List Bytes) (accepted : Bool) (reasons : List Bytes)
      → P b','
      → All (All P) (response_parts texts id errors accepted reasons)
  unfolding response_parts
  response_parts-All errors accepted reasons comma = (
    uuid-All,
    (
      serialize_slice-All P plain comma errors,
      (
        All-plain P plain (bool_string accepted) (bool_string-IsPlain accepted),
        (serialize_slice-All P plain comma reasons, tt),
      ),
    ),
  )
