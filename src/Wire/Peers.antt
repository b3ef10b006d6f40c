-- ===== src/Wire/Peers.antt =====
-- A request for peers on the wire, which is a number, and the answer to it: a message of one part, a
-- list of messages of two.
pub mod RoundTrip
use go_clarinet.Base.{List, [], ◌∷◌, ◌++◌, map, Bytes}
use go_clarinet.Base.Int.{ℤ}
use go_clarinet.Peer.{Peer}
use go_clarinet.Wire.Decimal.{format_int, atoi}
use go_clarinet.Wire.Parts.{
  Parse, parsed, crashed, or_fail, bad_number, ◌>>=◌, get_parts, serialize_slice, deserialize_slice,
  terminated,
}
use go_clarinet.Wire.Messages.{Texts, encode_peer_id, decode_peer_id}

unfoldable pub serialize_peers_request : ℤ → Bytes
serialize_peers_request num = terminated (format_int num ∷ [])

peers_request_of : List Bytes → Parse ℤ
peers_request_of (num ∷ []) = or_fail (bad_number num) (atoi num)
peers_request_of _ = crashed

unfoldable pub deserialize_peers_request : Bytes → Parse ℤ
unfolding peers_request_of
deserialize_peers_request s = do parts ← get_parts s 1; peers_request_of parts

module _ (texts : Texts) where
  -- `fmt.Sprintf("%s.%s;", encodePeerID(p.ID()), addrs)`
  peer_text : Peer → Bytes
  peer_text p = terminated (encode_peer_id texts p.id ∷ serialize_slice p.addresses ∷ [])

  unfoldable pub serialize_peers_response : List Peer → Bytes
  unfolding peer_text
  serialize_peers_response peers = terminated (serialize_slice (map peer_text peers) ∷ [])

  peer_of : List Bytes → Parse Peer
  peer_of (id ∷ addrs ∷ []) = do
    peer_id ← decode_peer_id texts id
    addr_strs ← deserialize_slice addrs
    parsed (record { id = peer_id; addresses = addr_strs })
  peer_of _ = crashed

  peers_of : List Bytes → Parse (List Peer)
  unfolding peer_of
  peers_of [] = parsed []
  peers_of (s ∷ ss) = do parts ← get_parts s 2; p ← peer_of parts; ps ← peers_of ss; parsed (p ∷ ps)

  list_of : List Bytes → Parse (List Peer)
  unfolding peers_of
  list_of (strs ∷ []) = do peer_strs ← deserialize_slice strs; peers_of peer_strs
  list_of _ = crashed

  unfoldable pub deserialize_peers_response : Bytes → Parse (List Peer)
  unfolding list_of
  deserialize_peers_response s = do parts ← get_parts s 1; list_of parts
