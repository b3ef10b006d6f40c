-- ===== src/Node/Peers/Effect.antt =====
-- The operations on peers leave the connections alone.
use go_clarinet.Inmem.Connections
use go_clarinet.Inmem.Connections.Effect.{get_conn_entry-KeepsConns}
use go_clarinet.Connection.{ConnId}
use go_clarinet.Base.{refl, List, [], ◌∷◌, Bytes}
use go_clarinet.Base.Int.{ℤ}
use go_clarinet.Peer.{PeerId, Peer}
use go_clarinet.Connection.Error.{Errs}
use go_clarinet.World.{Env, TransportOptions}
use go_clarinet.World.Rules.{KeepsConns, KeepsConns-catch, keeps_conns}
use go_clarinet.Node.Peers.{
  verify_added, add_addresses, update_peer, learn_addresses, learn_peers, request_peers,
  ReadOnlyConn, read_all, connections,
}

module _ {S : Type 0} (env : Env S) where
  verify_added-KeepsConns : (id : PeerId) → KeepsConns (verify_added env id)
  unfolding verify_added
  verify_added-KeepsConns id = search keeps_conns

  add_addresses-KeepsConns :
      (id : PeerId) (addrs : List Bytes) → KeepsConns (add_addresses env id addrs)
  unfolding add_addresses
  add_addresses-KeepsConns id [] = search keeps_conns
  add_addresses-KeepsConns id (a ∷ addrs) =
      KeepsConns-catch _ _ _ (search keeps_conns)
        (λ _.
          KeepsConns-catch _ _ _ (verify_added-KeepsConns id)
            (λ _. add_addresses-KeepsConns id addrs) (λ e. search keeps_conns))
        (λ e. search keeps_conns)

  pub update_peer-KeepsConns : (p : Peer) → KeepsConns (update_peer env p)
  unfolding update_peer
  update_peer-KeepsConns p = add_addresses-KeepsConns p.id p.addresses

  learn_addresses-KeepsConns :
      (id : PeerId) (addrs : List Bytes) (errs : Errs)
      → KeepsConns (learn_addresses env id addrs errs)
  unfolding learn_addresses
  learn_addresses-KeepsConns id [] errs = search keeps_conns
  learn_addresses-KeepsConns id (a ∷ addrs) errs =
      KeepsConns-catch _ _ _ (search keeps_conns) (λ _. learn_addresses-KeepsConns id addrs errs)
        (λ e. learn_addresses-KeepsConns id addrs _)

  learn_peers-KeepsConns : (ps : List Peer) (errs : Errs) → KeepsConns (learn_peers env ps errs)
  unfolding learn_peers
  learn_peers-KeepsConns [] errs = search keeps_conns
  learn_peers-KeepsConns (p ∷ ps) errs =
      KeepsConns-catch _ _ _ (learn_addresses-KeepsConns p.id p.addresses errs)
        (λ errs'. learn_peers-KeepsConns ps errs') (λ e. search keeps_conns)

  pub request_peers-KeepsConns :
      (p : Peer) (n : ℤ) (t : TransportOptions) → KeepsConns (request_peers env p n t)
  unfolding request_peers
  request_peers-KeepsConns p n t =
      search (keeps_conns, update_peer-KeepsConns, learn_peers-KeepsConns) depth 9

  read_all-KeepsConns :
      (ids : List ConnId) (conns : List ReadOnlyConn) → KeepsConns (read_all env ids conns)
  unfolding read_all Connections.read
  read_all-KeepsConns [] conns = search keeps_conns
  read_all-KeepsConns (id ∷ ids) conns =
      KeepsConns-catch _ _ _ (search (keeps_conns, get_conn_entry-KeepsConns id))
        (λ more. read_all-KeepsConns ids more) (λ e. read_all-KeepsConns ids conns)

  pub connections-KeepsConns : KeepsConns (connections env)
  unfolding connections Connections.all
  connections-KeepsConns =
      KeepsConns-catch _ _ _ (record { at = λ w. refl }) (λ ids. read_all-KeepsConns ids [])
        (λ e. search keeps_conns)
