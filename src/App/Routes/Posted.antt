-- ===== src/App/Routes/Posted.antt =====
-- A POST to /connect whose `Connect` returns an id.
use go_clarinet.Base.{ℕ, ◌≡◌, refl, Option, none, some, [], Bytes, codes}
use go_clarinet.Peer.{some_id}
use go_clarinet.Connection.{ConnId, sender_selects}
use go_clarinet.World.{World, Env, ok, pure, catch}
use go_clarinet.Node.Connect.{connect}
use go_clarinet.App.{no_options}
use go_clarinet.App.Http.{
  Req, Json, HttpRequest, Reply, read, text, handle_connect, handle_and_reply, adapt,
}
use go_clarinet.App.Routes.{Server, route_of, serve_http}

-- `200 OK` with this body
abbrev pub found_reply : Bytes → Reply
found_reply body = record { status = 200; headers = []; body = body }

abbrev pub post_of : Bytes → HttpRequest
post_of body = record { method = codes "POST"; body = read body }

module _ (json : Json) (peer_decode : Bytes → Option ℕ) (decode_error : Bytes → Bytes)
    (not_found : HttpRequest → Reply) {S : Type 0} (env : Env S) (server : Server S) (w' : World S)
    (body out : Bytes) (r : Req) (n : ℕ) (id : ConnId)
    (parses : json.unmarshal body server.connect_req ≡ (r, none))
    (names : peer_decode r.peer_id ≡ some n)
    (connects : connect env
        (record { id = some_id n; addresses = r.addresses })
        (record { witness_selector = sender_selects })
        no_options
        server.world
      ≡ (ok (id, none), w'))
    (writes : json.marshal (text (codes "connectionId") (env.texts.uuid_text id)) ≡ some out) where
  handled :
      handle_connect peer_decode decode_error env r server.world
      ≡ (ok (text (codes "connectionId") (env.texts.uuid_text id)), w')
  unfolding handle_connect catch pure
  handled = rw (names, connects) refl

  -- The answer is the id, and the request's fields stay for the next one.
  pub post_connects :
      serve_http json peer_decode decode_error not_found env
        (codes "/connect")
        (post_of body)
        server
      ≡ (some (found_reply out), record server { connect_req = r; world = w' })
  unfolding serve_http route_of adapt handle_and_reply
  post_connects = rw (parses, handled, writes) refl
