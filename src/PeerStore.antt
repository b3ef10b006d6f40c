-- ===== src/PeerStore.antt =====
-- The peer store of starterimpl/libp2p/libp2p.go, over the peer store of a libp2p host.
pub mod Known
use go_clarinet.Base.{ℕ, Bool, Option, none, some, List, [], ◌∷◌, ◌++◌, Bytes, if◌then◌else◌}
use go_clarinet.Base.Eq.{◌==◌}
use go_clarinet.Peer.{PeerId, nil_id, some_id, Peer, peer_id_eq}
use go_clarinet.Connection.Error.{Err, outside}
use go_clarinet.World.{Result, ok, err, panicked, Env}
use go_clarinet.Wire.Messages.{Texts}

-- The host: its id, the addresses it listens on, and the addresses it keeps for the ids it knows. An
-- address is a multiaddr, and here its text; `multiaddr` is `NewMultiaddr` and then `String`.
pub record Host (S : Type 0) : Type 0 where
  pub id : ℕ
  pub listen_addrs : S → List Bytes
  pub add_addr : ℕ → Bytes → S → S
  pub addrs : ℕ → S → List Bytes
  pub peers : S → List ℕ
  pub multiaddr : Bytes → Option Bytes
  pub multiaddr_error : Bytes → Bytes
  pub decode_error : Bytes → Bytes

module _ (texts : Texts) {S : Type 0} (host : Host S) where
  self_id : PeerId
  self_id = some_id host.id

  -- `libp2pPeer.Decode(id.String())`, where a nil id has no `String`
  decoded : ℕ → Option ℕ → Result ℕ
  decoded n none = err (outside (host.decode_error (texts.peer_string n)))
  decoded n (some m) = ok m

  decode : PeerId → Result ℕ
  unfolding decoded
  decode nil_id = panicked
  decode (some_id n) = decoded n (texts.peer_decode (texts.peer_string n))

  add_parsed : Bytes → Result ℕ → S → Result (Unit {0}) × S
  add_parsed maddr (ok n) s = (ok tt, host.add_addr n maddr s)
  add_parsed maddr (err e) s = (err e, s)
  add_parsed maddr panicked s = (panicked, s)

  add_text : PeerId → Bytes → Option Bytes → S → Result (Unit {0}) × S
  unfolding decode add_parsed
  add_text id addr none s = (err (outside (host.multiaddr_error addr)), s)
  add_text id addr (some maddr) s = add_parsed maddr (decode id) s

  unfoldable pub add_addr : PeerId → Bytes → S → Result (Unit {0}) × S
  unfolding add_text
  add_addr id addr s = add_text id addr (host.multiaddr addr) s

  found : PeerId → Result ℕ → S → Result Peer
  found id (ok n) s = ok (record { id = id; addresses = host.addrs n s })
  found id (err e) s = err e
  found id panicked s = panicked

  unfoldable pub find : PeerId → S → Result Peer
  unfolding self_id decode found
  find id s =
      if id == self_id
      then ok (record { id = id; addresses = host.listen_addrs s })
      else found id (decode id) s

  -- One round of the loop; an error ends it, with the peers so far.
  next_peer :
      List Peer
      → Result Peer
      → (List Peer → Result (List Peer × Option Err))
      → Result (List Peer × Option Err)
  next_peer peers (ok p) rest = rest (peers ++ p ∷ [])
  next_peer peers (err e) rest = ok (peers, some e)
  next_peer peers panicked rest = panicked

  all_from : List ℕ → List Peer → S → Result (List Peer × Option Err)
  unfolding next_peer find
  all_from [] peers s = ok (peers, none)
  all_from (n ∷ ns) peers s = next_peer peers (find (some_id n) s) (λ peers'. all_from ns peers' s)

  unfoldable pub all : S → Result (List Peer × Option Err)
  unfolding all_from
  all s = all_from (host.peers s) [] s

  unfoldable pub self : S → Result Peer
  unfolding find self_id
  self s = find self_id s

  -- The callers of `All` drop the peers that come beside an error.
  listed : Result (List Peer × Option Err) → Result (List Peer)
  listed (ok (peers, none)) = ok peers
  listed (ok (peers, some e)) = err e
  listed (err e) = err e
  listed panicked = panicked

  -- A node that has this peer store.
  unfoldable pub with_store : Env S → Env S
  unfolding self find all add_addr listed
  with_store env = record env {
    self = λ s. (self s, s);
    find = λ id s. (find id s, s);
    all_peers = λ s. (listed (all s), s);
    add_addr = add_addr;
  }
