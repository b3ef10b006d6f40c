-- ===== src/Tests/Cluster.antt =====
-- Three nodes of main.go: the node 1 connects to the node 2, and the node 3 is the witness.
use go_clarinet.Base.{
  ℕ, ◌≡◌, refl, true, false, none, some, List, [], ◌∷◌, map, Bytes, codes, arith,
}
use go_clarinet.Base.Assoc.{lookup, put}
use go_clarinet.Base.Eq.{nat_eq}
use go_clarinet.Peer.{some_id}
use go_clarinet.Connection.{Conn, requesting_witness, opened, closed, set_status}
use go_clarinet.World.{World, Env, ok}
use go_clarinet.PeerStore.{Host}
use go_clarinet.PeerStore.Known.{peer_at}
use go_clarinet.Node.Peers.Stored.{learned}
use go_clarinet.Node.Witness.Candidates.{filter, may_witness}
use go_clarinet.Node.Witness.Course.{by_sender}
use go_clarinet.Node.Connect.{connect}
use go_clarinet.Node.Connect.Course.{asked_for}
use go_clarinet.App.Cluster.{Around, cluster}
use go_clarinet.App.Cluster.Agreement.{IsAgreed, connect_agrees}
use go_clarinet.App.Http.{HttpRequest, Reply}
use go_clarinet.App.Routes.{Server}
use go_clarinet.App.Routes.Posted.{found_reply}
use go_clarinet.Node.Close.{close_connection}
use go_clarinet.App.Cluster.Calls.{between}
use go_clarinet.App.Cluster.Closing.{closed_world, closes_for_anyone}
use go_clarinet.App.Cluster.Closed.{IsClosed, close_connection_agrees}
use go_clarinet.Connection.Error.{no_witness_found}
use go_clarinet.App.Cluster.Unwitnessed.{IsHalfOpen, connect_half_opens}
use go_clarinet.App.Cluster.Posted.{posted, post_connect_agrees}
use go_clarinet.Tests.App.{host, outer, empty, json}
use go_clarinet.Tests.Sample.{no_timeouts}
use go_clarinet.Tests.Wire.{texts, texts-Faithful}

abbrev host_of : ℕ → Host (List Bytes)
host_of n = record host { id = n; peers = λ s. 1 ∷ 2 ∷ 3 ∷ [] }

abbrev trusting : Env (List Bytes)
trusting = record outer { trusts = λ rep s. (ok true, s) }

abbrev sender : Env (Around (List Bytes))
sender = cluster texts (λ f. []) host_of trusting (host_of 1)

abbrev start : World (Around (List Bytes))
start = record {
  outside = record { own = []; nodes = λ n. empty };
  conns = [];
  reps = [];
  sent = [];
  tasks = [];
}

abbrev address : Bytes
address = codes "/ip4/10.0.0.2"

witness_is_3 :
    (s : List Bytes)
    → filter
        (may_witness
          (λ rep. true)
          []
          (set_status requesting_witness (asked_for 5 (some_id 1) (some_id 2))))
        (map (peer_at (host_of 1) s) (1 ∷ 2 ∷ 3 ∷ []))
      ≡ record { id = some_id 3; addresses = s } ∷ []
unfolding filter may_witness set_status peer_at
witness_is_3 s = refl

connect_agrees_example :
    (w' : World (Around (List Bytes))) × (connect sender
        (record { id = some_id 2; addresses = address ∷ [] })
        by_sender
        no_timeouts
        start
      ≡ (ok (5, none), w'))
    × IsAgreed 5 1 2 3 start w'
unfolding lookup learned
connect_agrees_example =
    connect_agrees texts texts-Faithful (λ f. []) host_of trusting (host_of 1) (λ n. refl)
      no_timeouts 2 3 (address ∷ []) (address ∷ []) start (address ∷ []) 5 (omega arith)
      (λ rep. true) [] refl ((address, refl), tt) refl (λ rep. refl) (witness_is_3 (address ∷ []))
      refl refl refl

abbrev not_found : HttpRequest → Reply
not_found request = record { status = 404; headers = []; body = [] }

abbrev server : Server (Around (List Bytes))
server = record {
  connect_req = record { peer_id = []; addresses = [] };
  peer_req = record { peer_id = []; addresses = [] };
  request_peers_req = record { peer_id = []; addresses = [] };
  world = start;
}

post_connect_agrees_example :
    (w' : World (Around (List Bytes))) × (posted texts texts-Faithful
        (λ f. [])
        host_of
        trusting
        (host_of 1)
        json
        (λ s. some 2)
        (λ s. [])
        not_found
        (codes "abc")
        server
      ≡ (
        some (found_reply (codes "{}")),
        record server {
          connect_req = record { peer_id = codes "abc"; addresses = [] };
          world = w';
        },
      ))
    × IsAgreed 5 1 2 3 start w'
unfolding lookup learned
post_connect_agrees_example =
    post_connect_agrees texts texts-Faithful (λ f. []) host_of trusting (host_of 1) json
      (λ s. some 2) (λ s. []) not_found (λ n. refl) 2 3 [] server [] 5 (λ rep. true) []
      (codes "abc") (codes "{}") (record { peer_id = codes "abc"; addresses = [] }) refl refl refl
      tt refl (omega arith) (λ rep. refl) (witness_is_3 []) refl refl refl refl

abbrev distrusting : Env (List Bytes)
distrusting = record outer { trusts = λ rep s. (ok false, s) }

connect_half_opens_example :
    (w' : World (Around (List Bytes))) × (connect
        (cluster texts (λ f. []) host_of distrusting (host_of 1))
        (record { id = some_id 2; addresses = address ∷ [] })
        by_sender
        no_timeouts
        start
      ≡ (ok (5, some (no_witness_found 5)), w'))
    × IsHalfOpen 5 1 2 start w'
unfolding lookup learned filter may_witness set_status peer_at
connect_half_opens_example =
    connect_half_opens texts texts-Faithful (λ f. []) host_of distrusting (host_of 1) (λ n. refl)
      no_timeouts 2 (address ∷ []) start (address ∷ []) 5 (omega arith) (λ rep. false) refl
      ((address, refl), tt) refl (λ rep. refl) refl refl refl

-- The connection as the three nodes have it.
abbrev agreed : Conn
agreed = between 5 1 (some_id 3) 2 opened

abbrev holds : World (List Bytes)
holds = record empty { conns = put 5 agreed [] }

abbrev together : World (Around (List Bytes))
together = record start {
  outside = record { own = []; nodes = λ n. holds };
  conns = put 5 agreed [];
}

close_connection_agrees_example :
    (w' : World (Around (List Bytes))) × (close_connection sender 5 no_timeouts together
      ≡ (ok tt, w'))
    × IsClosed agreed 1 together w'
unfolding lookup put
close_connection_agrees_example =
    close_connection_agrees texts texts-Faithful (λ f. []) host_of trusting (host_of 1) agreed
      (omega arith) no_timeouts together refl refl

-- The peer 9 has no part in the connection.
closes_for_anyone_example :
    lookup 5 (closed_world texts (host_of 2) trusting (some_id 9) 5 holds).conns
    ≡ some (set_status closed agreed)
unfolding lookup put
closes_for_anyone_example = closes_for_anyone texts (host_of 2) trusting (some_id 9) 5 holds
