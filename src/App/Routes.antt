-- ===== src/App/Routes.antt =====
-- The routes of main.go. What net/http replies to another path is a parameter.
pub mod Posted
use go_clarinet.Base.{ℕ, Option, none, some, Bytes, codes, [], if◌then◌else◌}
use go_clarinet.Base.Eq.{◌==◌, bytes_eq}
use go_clarinet.World.{World, Env}
use go_clarinet.App.Http.{
  Req, Json, HttpRequest, Reply, Handled, adapt, get_adapt, handle_connect, handle_update_peer,
  handle_list_peers, handle_list_connections, handle_request_peers,
}

pub data Route : Type 0 where
  connect peer peers connections request_peers : Route

unfoldable pub route_of : Bytes → Option Route
route_of path =
    if path == codes "/connect"
    then some connect
    else if path == codes "/peer"
    then some peer
    else if path == codes "/peers"
    then some peers
    else if path == codes "/connections"
    then some connections
    else if path == codes "/requestpeers"
    then some request_peers
    else none

-- The values that the closures of the three POST routes keep, and the node.
pub record Server (S : Type 0) : Type 0 where
  pub connect_req : Req
  pub peer_req : Req
  pub request_peers_req : Req
  pub world : World S

-- `req{}`
abbrev empty_req : Req
empty_req = record { peer_id = []; addresses = [] }

unfoldable pub new_server : {S : Type 0} → World S → Server S
new_server w = record {
  connect_req = empty_req;
  peer_req = empty_req;
  request_peers_req = empty_req;
  world = w;
}

module _ (json : Json) (peer_decode : Bytes → Option ℕ) (decode_error : Bytes → Bytes)
    (not_found : HttpRequest → Reply) {S : Type 0} (env : Env S) where
  took_connect : Handled S → Server S → Option Reply × Server S
  took_connect handled server =
      (handled.reply, record server { connect_req = handled.kept; world = handled.world })

  took_peer : Handled S → Server S → Option Reply × Server S
  took_peer handled server =
      (handled.reply, record server { peer_req = handled.kept; world = handled.world })

  took_request_peers : Handled S → Server S → Option Reply × Server S
  took_request_peers handled server =
      (handled.reply, record server { request_peers_req = handled.kept; world = handled.world })

  got : Option Reply × World S → Server S → Option Reply × Server S
  got (reply, w) server = (reply, record server { world = w })

  serve_route : Option Route → HttpRequest → Server S → Option Reply × Server S
  unfolding took_connect took_peer took_request_peers got
  serve_route (some connect) request server =
      took_connect
        (adapt json env (handle_connect peer_decode decode_error env) request server.connect_req
          server.world)
        server
  serve_route (some peer) request server =
      took_peer
        (adapt json env (handle_update_peer peer_decode decode_error env) request server.peer_req
          server.world)
        server
  serve_route (some peers) request server =
      got (get_adapt json env (handle_list_peers peer_decode decode_error env) request server.world)
        server
  serve_route (some connections) request server =
      got
        (get_adapt json env (handle_list_connections peer_decode decode_error env) request
          server.world)
        server
  serve_route (some request_peers) request server =
      took_request_peers
        (adapt json env (handle_request_peers peer_decode decode_error env) request
          server.request_peers_req server.world)
        server
  serve_route none request server = (some (not_found request), server)

  unfoldable pub serve_http : Bytes → HttpRequest → Server S → Option Reply × Server S
  unfolding serve_route
  serve_http path request server = serve_route (route_of path) request server
