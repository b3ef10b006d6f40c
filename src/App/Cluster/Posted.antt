-- ===== src/App/Cluster/Posted.antt =====
-- From the request to /connect to the three nodes.
use go_clarinet.Base.{
  ℕ, ◌≡◌, ◌<◌, ◌^◌, Option, none, some, false, Bool, List, ◌∷◌, map, Bytes, codes,
}
use go_clarinet.Base.Assoc.{lookup}
use go_clarinet.Base.Eq.{◌==◌, nat_eq}
use go_clarinet.Base.Lists.{All}
use go_clarinet.Peer.{some_id, Peer}
use go_clarinet.Reputation.{Reputation}
use go_clarinet.Connection.{ConnId, requesting_witness, set_status}
use go_clarinet.World.{World, Env, ok}
use go_clarinet.Wire.Messages.{Texts}
use go_clarinet.Wire.Messages.Fields.{Faithful}
use go_clarinet.Transport.Stream.{Fault}
use go_clarinet.PeerStore.{Host, with_store}
use go_clarinet.PeerStore.Known.{peer_at}
use go_clarinet.Node.Peers.Stored.{IsAddress, learned}
use go_clarinet.Node.Witness.Candidates.{filter, may_witness}
use go_clarinet.Node.Connect.Course.{asked_for}
use go_clarinet.App.{no_options, with_handlers}
use go_clarinet.App.Http.{Req, Json, HttpRequest, Reply, text}
use go_clarinet.App.Routes.{Server, serve_http}
use go_clarinet.App.Routes.Posted.{found_reply, post_of, post_connects}
use go_clarinet.App.Cluster.{Around, cluster, routed}
use go_clarinet.App.Cluster.Agreement.{IsAgreed, connect_agrees}

module _ (texts : Texts) (faithful : Faithful texts) (fault_text : Fault → Bytes) {S : Type 0}
    (hosts : ℕ → Host S) (inner : Env S) (host : Host S) (json : Json)
    (peer_decode : Bytes → Option ℕ) (decode_error : Bytes → Bytes)
    (not_found : HttpRequest → Reply) where
  -- What a POST to /connect does at a node.
  abbrev pub posted : Bytes → Server (Around S) → Option Reply × Server (Around S)
  posted body server =
      serve_http json peer_decode decode_error not_found (cluster texts fault_text hosts inner host)
        (codes "/connect") (post_of body) server

  -- Between nodes of main.go, of which every host has its own id, over streams that open and carry both
  -- directions: a POST to /connect that names another node is answered with the id of a connection,
  -- which is then open at the node, at the one that is named and at the witness, with the same ends
  -- and the same witness at all three; no other node is changed. The addresses in the request are
  -- multiaddresses, the id has 128 bits and is free at the three, the witness is the first of the
  -- node's peers that is neither end and is trusted, and JSON reads the request and writes the answer.
  pub post_connect_agrees :
      (named : (n : ℕ) → (hosts n).id ≡ n)
      → (r v : ℕ) (v_addrs : List Bytes) (server : Server (Around S)) (o : S) (id : ConnId)
        (trusted : Reputation → Bool) (others : List Peer) (body out : Bytes) (req : Req)
      → json.unmarshal body server.connect_req ≡ (req, none)
      → peer_decode req.peer_id ≡ some r
      → (r == host.id) ≡ false
      → All (IsAddress host) req.addresses
      → inner.random_id (learned host r req.addresses server.world.outside.own) ≡ (ok id, o)
      → id < 2 ^ 128
      → ((rep : Reputation) → inner.trusts rep o ≡ (ok (trusted rep), o))
      → filter
          (may_witness trusted server.world.reps
            (set_status requesting_witness (asked_for id (some_id host.id) (some_id r))))
          (map (peer_at host o) (host.peers o))
        ≡ record { id = some_id v; addresses = v_addrs } ∷ others
      → lookup id server.world.conns ≡ none
      → lookup id (server.world.outside.nodes r).conns ≡ none
      → lookup id (server.world.outside.nodes v).conns ≡ none
      → json.marshal (text (codes "connectionId") (inner.texts.uuid_text id)) ≡ some out
      → (w' : World (Around S)) × (posted body server
          ≡ (some (found_reply out), record server { connect_req = req; world = w' }))
        × IsAgreed id host.id r v server.world w'
  unfolding cluster with_handlers with_store routed
  post_connect_agrees named r v v_addrs server o id trusted others body out req parses names apart
        addresses drawn small judges candidates free free_r free_v writes =
      let (w', connects, agreed) =
        connect_agrees texts faithful fault_text hosts inner host named no_options r v req.addresses
          v_addrs server.world o id small trusted others apart addresses drawn judges candidates
          free free_r free_v in
      (
        w',
        post_connects json peer_decode decode_error not_found
            (cluster texts fault_text hosts inner host) server w' body out req r id parses names
            connects writes,
        agreed,
      )
