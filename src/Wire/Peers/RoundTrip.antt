-- ===== src/Wire/Peers/RoundTrip.antt =====
-- A request for peers and the answer to it come back, and end at their first semicolon.
use go_clarinet.Base.{◌≡◌, ◌≢◌, refl, List, [], ◌∷◌, map, arith}
use go_clarinet.Base.Lists.{All, All-append}
use go_clarinet.Peer.{Peer, PeerId, nil_id, some_id}
use go_clarinet.Wire.Base64.RoundTrip.{IsByte, NoStop, no_stop, NoEnd, no_end, b64enc-IsByte}
use go_clarinet.Wire.Split.{join, All-join}
use go_clarinet.Wire.Parts.{parsed, get_parts, serialize_slice, terminated}
use go_clarinet.Wire.Parts.RoundTrip.{
  get_parts-terminated, All-plain, b64enc-All, serialize_slice-All, serialize_slice-IsByte,
  deserialize-serialize_slice, append_cons-ne_nil,
}
use go_clarinet.Wire.Messages.{Texts, encode_peer_id}
use go_clarinet.Wire.Messages.Fields.{Faithful, decode-encode_peer_id}
use go_clarinet.Base.Int.{ℤ}
use go_clarinet.Wire.Decimal.{format_int}
use go_clarinet.Wire.Decimal.RoundTrip.{IsInt64, atoi-format_int, format_int-IsPlain}
use go_clarinet.Wire.Messages.Framing.{IsFramed, terminated-IsFramed}
use go_clarinet.Wire.Peers.{
  serialize_peers_request, deserialize_peers_request, peer_text, peers_of, serialize_peers_response,
  deserialize_peers_response,
}

-- A peer whose addresses are byte strings and not one empty string alone.
pub record CanBeSent (p : Peer) : Type 0 where
  pub bytes : All (All IsByte) p.addresses
  pub not_empty : p.addresses ≢ [] ∷ []

module _ (texts : Texts) (faithful : Faithful texts) where
  encode_peer_id-stop : (id : PeerId) → All NoStop (encode_peer_id texts id)
  unfolding encode_peer_id
  encode_peer_id-stop nil_id = tt
  encode_peer_id-stop (some_id n) = b64enc-All NoStop no_stop (texts.peer_string n)

  encode_peer_id-IsByte : (id : PeerId) → All IsByte (encode_peer_id texts id)
  unfolding encode_peer_id
  encode_peer_id-IsByte nil_id = tt
  encode_peer_id-IsByte (some_id n) = b64enc-IsByte (texts.peer_string n) (faithful.peer_bytes n)

  peer_text-parts :
      (p : Peer)
      → get_parts (peer_text texts p) 2
        ≡ parsed (encode_peer_id texts p.id ∷ serialize_slice p.addresses ∷ [])
  unfolding peer_text
  peer_text-parts p =
      get_parts-terminated (encode_peer_id texts p.id) (serialize_slice p.addresses ∷ []) (
        encode_peer_id-stop p.id,
        (serialize_slice-All NoStop no_stop (omega arith) p.addresses, tt),
      )

  peers_of-map :
      (ps : List Peer) → All CanBeSent ps → peers_of texts (map (peer_text texts) ps) ≡ parsed ps
  unfolding peers_of
  peers_of-map [] h = refl
  peers_of-map (p ∷ ps) (hp, h) =
      rw
        (
          peer_text-parts p,
          decode-encode_peer_id texts faithful p.id,
          deserialize-serialize_slice p.addresses hp.bytes hp.not_empty,
          peers_of-map ps h,
        )
        refl

  peer_text-IsByte : (p : Peer) → CanBeSent p → All IsByte (peer_text texts p)
  unfolding peer_text terminated
  peer_text-IsByte p h =
      All-append IsByte _ _
        (All-join IsByte b'.' (encode_peer_id texts p.id ∷ serialize_slice p.addresses ∷ [])
          (omega arith)
          (encode_peer_id-IsByte p.id, (serialize_slice-IsByte p.addresses h.bytes, tt)))
        (omega arith)

  peer_texts-IsByte :
      (ps : List Peer) → All CanBeSent ps → All (All IsByte) (map (peer_text texts) ps)
  peer_texts-IsByte [] h = tt
  peer_texts-IsByte (p ∷ ps) (hp, h) = (peer_text-IsByte p hp, peer_texts-IsByte ps h)

  peer_text-ne_nil : (p : Peer) → peer_text texts p ≢ []
  unfolding peer_text terminated
  peer_text-ne_nil p =
      append_cons-ne_nil (join b'.' (encode_peer_id texts p.id ∷ serialize_slice p.addresses ∷ []))
        b';' []

  peer_texts-ne : (ps : List Peer) → map (peer_text texts) ps ≢ [] ∷ []
  peer_texts-ne [] = λ q. cc
  peer_texts-ne (p ∷ []) = λ q. peer_text-ne_nil p (cc q)
  peer_texts-ne (p ∷ r ∷ ps) = λ q. cc

  -- An answer to a request for peers comes back, if the addresses of each peer are byte strings and not
  -- one empty text alone.
  pub deserialize-serialize_peers_response :
      (ps : List Peer)
      → All CanBeSent ps
      → deserialize_peers_response texts (serialize_peers_response texts ps) ≡ parsed ps
  unfolding deserialize_peers_response serialize_peers_response get_parts
  deserialize-serialize_peers_response ps h =
      rw
        (
          get_parts-terminated (serialize_slice (map (peer_text texts) ps)) []
              (serialize_slice-All NoStop no_stop (omega arith) (map (peer_text texts) ps), tt),
          deserialize-serialize_slice (map (peer_text texts) ps) (peer_texts-IsByte ps h)
              (peer_texts-ne ps),
          peers_of-map ps h,
        )
        refl

  pub serialize_peers_response-IsFramed :
      (ps : List Peer) → IsFramed (serialize_peers_response texts ps)
  unfolding serialize_peers_response
  serialize_peers_response-IsFramed ps =
      terminated-IsFramed (serialize_slice (map (peer_text texts) ps) ∷ [])
        (serialize_slice-All NoEnd no_end (omega arith) (map (peer_text texts) ps), tt)

-- A request for peers comes back, if its number is an `int` of 64 bits.
pub deserialize-serialize_peers_request :
    (num : ℤ) → IsInt64 num → deserialize_peers_request (serialize_peers_request num) ≡ parsed num
unfolding deserialize_peers_request serialize_peers_request get_parts
deserialize-serialize_peers_request num fits =
    rw
      (
        get_parts-terminated (format_int num) []
            (All-plain NoStop no_stop (format_int num) (format_int-IsPlain num), tt),
        atoi-format_int num fits,
      )
      refl

pub serialize_peers_request-IsFramed : (num : ℤ) → IsFramed (serialize_peers_request num)
unfolding serialize_peers_request
serialize_peers_request-IsFramed num =
    terminated-IsFramed (format_int num ∷ [])
      (All-plain NoEnd no_end (format_int num) (format_int-IsPlain num), tt)
