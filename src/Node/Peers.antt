-- ===== src/Node/Peers.antt =====
-- `Connections`, `UpdatePeer` and `RequestPeers`.
pub mod Effect
pub mod Bounds
pub mod Stored
use go_clarinet.Base.{Option, none, some, List, [], ◌∷◌, ◌++◌, Bytes, if◌then◌else◌}
use go_clarinet.Base.Int.{ℤ, to_ℕ, lt_one, exceeds}
use go_clarinet.Base.Lists.{length, take}
use go_clarinet.Peer.{PeerId, Peer}
use go_clarinet.Connection.{ConnId, Conn, Status}
use go_clarinet.Connection.Error.{
  Err, Errs, no_errs, add_err, add_nil, no_peers_requested, too_many_peers, address_not_added,
  collective, unsupported,
}
use go_clarinet.World.{
  Result, err, Env, TransportOptions, M, pure, panic, external, transmit, catch, peers_request,
  ◌>>=◌, ◌>>◌,
}
use go_clarinet.Inmem.Connections

-- `readOnlyConnection` of v2/readonlyconnection.go: the fields of a connection and no way to change them.
pub record ReadOnlyConn : Type 0 where
  pub id : ConnId
  pub sender : PeerId
  pub witness : PeerId
  pub receiver : PeerId
  pub status : Status

unfoldable pub read_only : Conn → ReadOnlyConn
read_only conn = record {
  id = conn.id;
  sender = conn.sender;
  witness = conn.witness;
  receiver = conn.receiver;
  status = conn.status;
}

-- Its `SetStatus` and `SetWitness`.
unfoldable pub set_status : Status → ReadOnlyConn → Result ReadOnlyConn
set_status status conn = err unsupported

unfoldable pub set_witness : PeerId → ReadOnlyConn → Result ReadOnlyConn
set_witness witness conn = err unsupported

module _ {S : Type 0} (env : Env S) where
  -- One round for each id; an error is logged, and the round adds nothing.
  read_all : List ConnId → List ReadOnlyConn → M S (List ReadOnlyConn)
  read_all [] conns = pure conns
  read_all (id ∷ ids) conns =
      catch (Connections.read id (λ conn. pure (conns ++ read_only conn ∷ [])))
        (λ more. read_all ids more) (λ e. read_all ids conns)

  unfoldable pub connections : M S (List ReadOnlyConn)
  unfolding read_all
  connections = do ids ← Connections.all env; read_all ids []

  -- At trace level the peer is read back. A `Find` that fails is logged, and `p.ID()` is then a call on
  -- the peer that came beside the error. As in `find` everywhere, that one is nil, which is what the
  -- `Find` of starterimpl/libp2p/libp2p.go returns; a `Find` with a peer beside its error is not modelled.
  verify_added : PeerId → M S (Unit {0})
  verify_added id =
      if env.at_trace then catch (external (env.find id)) (λ p. pure tt) (λ e. panic) else pure tt

  add_addresses : PeerId → List Bytes → M S (Unit {0})
  add_addresses id [] = pure tt
  add_addresses id (addr ∷ addrs) = do
    external (env.add_addr id addr)
    verify_added id
    add_addresses id addrs

  unfoldable pub update_peer : Peer → M S (Unit {0})
  unfolding verify_added add_addresses
  update_peer peer = add_addresses peer.id peer.addresses

  -- `Peers` and `Self`
  unfoldable pub peers : M S (List Peer)
  peers = external env.all_peers

  unfoldable pub self : M S Peer
  self = external env.self

  -- The inner loop of `RequestPeers`, over the addresses of one peer.
  learn_addresses : PeerId → List Bytes → Errs → M S Errs
  learn_addresses id [] errs = pure errs
  learn_addresses id (addr ∷ addrs) errs =
      catch (external (env.add_addr id addr)) (λ _. learn_addresses id addrs errs)
        (λ e. learn_addresses id addrs (add_err errs (address_not_added addr id e)))

  learn_peers : List Peer → Errs → M S Errs
  learn_peers [] errs = pure errs
  learn_peers (np ∷ nps) errs = do
    errs' ← learn_addresses np.id np.addresses errs
    learn_peers nps errs'

  -- `if len(errs) > 0`
  collected : Errs → Option Err
  collected no_errs = none
  collected (add_err errs e) = some (collective (add_err errs e))
  collected (add_nil errs) = some (collective (add_nil errs))

  -- `resp.Peers[:request.Num]` where the answer is too long
  truncated : ℤ → List Peer → List Peer
  truncated num peers = if exceeds (length peers) num then take (to_ℕ num) peers else peers

  excess : ℤ → List Peer → Errs
  excess num peers = if exceeds (length peers) num then add_err no_errs too_many_peers else no_errs

  pub learn : ℤ → List Peer → M S (List Peer × Option Err)
  learn num peers = do
    errs ← learn_peers (truncated num peers) (excess num peers)
    pure (truncated num peers, collected errs)

  -- The peers come beside the error, as in the source.
  unfoldable pub request_peers : Peer → ℤ → TransportOptions → M S (List Peer × Option Err)
  unfolding learn_addresses learn_peers collected truncated excess learn
  request_peers p num options =
      catch (update_peer p)
        (λ _.
          if lt_one num
          then pure ([], some no_peers_requested)
          else catch (transmit p (peers_request num) (env.exchange_peers p options num))
              (λ peers. learn num peers) (λ e. pure ([], some e)))
        (λ e. pure ([], some e))
