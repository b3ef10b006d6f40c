-- ===== src/App/Http.antt =====
-- The HTTP interface of main.go. encoding/json and net/http are parameters; where a handler panics,
-- net/http drops the request.
pub mod Guards
use go_clarinet.Base.{
  ℕ, not, Bool, Option, none, some, List, [], ◌∷◌, ◌++◌, map, Bytes, codes, if◌then◌else◌,
}
use go_clarinet.Base.Eq.{◌==◌, bytes_eq}
use go_clarinet.Base.Int.{ℤ, pos}
use go_clarinet.Peer.{PeerId, some_id, Peer}
use go_clarinet.Connection.{
  ConnId, Status, requesting_receiver, requesting_sender, awaiting_witness, requesting_witness,
  notifying_of_witness, opened, closing, closed, sender_selects,
}
use go_clarinet.Connection.Error.{Err, outside, error_text, peer_id_text, slice_text}
use go_clarinet.World.{World, Result, ok, err, panicked, Env, M, pure, raise, external, ◌>>=◌, ◌>>◌}
use go_clarinet.Node.Connect.{connect}
use go_clarinet.Node.Peers.{ReadOnlyConn, peers, update_peer, connections, request_peers}
use go_clarinet.App.{no_options}

pub record Req : Type 0 where
  pub peer_id : Bytes
  pub addresses : List Bytes

pub record ConnResp : Type 0 where
  pub id : Bytes
  pub sender : Bytes
  pub witness : Bytes
  pub receiver : Bytes
  pub status : Bytes

-- What is sent as JSON: a map of one text, a map of one list of peers, which may be nil, a map of
-- one list of connections, or an `errResp`.
pub data Body : Type 0 where
  text : Bytes → Bytes → Body
  peer_list : Option (List Peer) → Body
  conn_list : List ConnResp → Body
  err_resp : Bytes → Bytes → Body

-- `json.Unmarshal` changes the value that is there; `json.Marshal` may fail.
pub record Json : Type 0 where
  pub unmarshal : Bytes → Req → Req × Option Bytes
  pub marshal : Body → Option Bytes
  pub marshal_error : Body → Bytes

-- A body is read, or there is the text of an error.
pub data Read : Type 0 where
  read : Bytes → Read
  unread : Bytes → Read

pub record HttpRequest : Type 0 where
  pub method : Bytes
  pub body : Read

pub record Reply : Type 0 where
  pub status : ℕ
  pub headers : List (Bytes × Bytes)
  pub body : Bytes

unfoldable pub status_text : Status → Bytes
status_text requesting_receiver = codes "RequestingReceiver"
status_text requesting_sender = codes "RequestingSender"
status_text requesting_witness = codes "RequestingWitness"
status_text awaiting_witness = codes "AwaitingWitness"
status_text notifying_of_witness = codes "NotifyingOfWitness"
status_text opened = codes "Open"
status_text closing = codes "Closing"
status_text closed = codes "Closed"

module _ (peer_decode : Bytes → Option ℕ) (decode_error : Bytes → Bytes) {S : Type 0}
    (env : Env S) where
  decoded : Bytes → Option ℕ → M S Peer
  decoded id none = raise (outside (decode_error id))
  decoded id (some n) = pure (record { id = some_id n; addresses = [] })

  -- `libp2p.ParsePeerID` and `libp2p.NewPeer`
  requested : Req → M S Peer
  unfolding decoded
  requested r = do
    p ← decoded r.peer_id (peer_decode r.peer_id)
    pure (record p { addresses = r.addresses })

  or_raise : {A : Type 0} → A × Option Err → M S A
  or_raise (a, none) = pure a
  or_raise (a, some e) = raise e

  unfoldable pub handle_connect : Req → M S Body
  unfolding requested or_raise
  handle_connect r = do
    p ← requested r
    result ← connect env p (record { witness_selector = sender_selects }) no_options
    conn_id ← or_raise result
    pure (text (codes "connectionId") (env.texts.uuid_text conn_id))

  added_text : Req → Bytes → Bytes
  added_text r addresses =
      codes "Successfully added peer " ++ r.peer_id ++ codes " with addresses " ++ addresses

  unfoldable pub handle_update_peer : Req → M S Body
  unfolding requested added_text
  handle_update_peer r = do
    p ← requested r
    update_peer env p
    pure (text (codes "message") (added_text r (slice_text r.addresses)))

  unfoldable pub handle_list_peers : M S Body
  handle_list_peers = do found ← peers env; pure (peer_list (some found))

  conn_resp : ReadOnlyConn → ConnResp
  conn_resp c = record {
    id = env.texts.uuid_text c.id;
    sender = peer_id_text env.texts c.sender;
    witness = peer_id_text env.texts c.witness;
    receiver = peer_id_text env.texts c.receiver;
    status = status_text c.status;
  }

  unfoldable pub handle_list_connections : M S Body
  unfolding conn_resp
  handle_list_connections = do conns ← connections env; pure (conn_list (map conn_resp conns))

  -- A list that nothing is appended to stays nil.
  appended : List Peer → Option (List Peer)
  appended [] = none
  appended (p ∷ ps) = some (p ∷ ps)

  unfoldable pub handle_request_peers : Req → M S Body
  unfolding requested or_raise appended
  handle_request_peers r = do
    p ← requested r
    result ← request_peers env p (pos 1) no_options
    peers ← or_raise result
    pure (peer_list (appended peers))

-- What a request to `adapt` comes to: the value that is kept for the next one, the reply, and none
-- where the handler panics, and the state of the node.
pub record Handled (S : Type 0) : Type 0 where
  pub kept : Req
  pub reply : Option Reply
  pub world : World S

module _ (json : Json) where
  or_empty : Option Bytes → Bytes
  or_empty none = []
  or_empty (some s) = s

  unfoldable pub write_response : ℕ → List (Bytes × Bytes) → Option Body → Reply
  unfolding or_empty
  write_response status headers none = record { status = status; headers = headers; body = [] }
  write_response status headers (some body) = record {
    status = status;
    headers = headers ++ (codes "Content-Type", codes "application/json") ∷ [];
    body = or_empty (json.marshal body);
  }

  written : Body → Option Bytes → Reply
  written resp none =
      write_response 500 []
        (some (err_resp (codes "Failed to serialize response as json.") (json.marshal_error resp)))
  written resp (some s) = record { status = 200; headers = []; body = s }

  module _ {S : Type 0} (env : Env S) where
    replied : Result Body × World S → Option Reply × World S
    unfolding written
    replied (ok resp, w) = (some (written resp (json.marshal resp)), w)
    replied (err e, w) = (
      some (
          write_response 500 []
            (some (err_resp (codes "Error during processing.") (error_text env.texts e)))),
      w,
    )
    replied (panicked, w) = (none, w)

    -- No reply where the handler panics.
    unfoldable pub handle_and_reply : M S Body → World S → Option Reply × World S
    unfolding replied
    handle_and_reply handler w = replied (handler w)

    refused : Req → Reply → World S → Handled S
    refused r reply w = record { kept = r; reply = some reply; world = w }

    unmarshalled : (Req → M S Body) → Req × Option Bytes → World S → Handled S
    unfolding handle_and_reply refused
    unmarshalled handler (r, some e) w =
        refused r
          (write_response 400 [] (some (err_resp (codes "Unable to parse request as JSON.") e))) w
    unmarshalled handler (r, none) w =
        let (reply, w') = handle_and_reply (handler r) w in
        record { kept = r; reply = reply; world = w' }

    with_body : (Req → M S Body) → Read → Req → World S → Handled S
    unfolding unmarshalled
    with_body handler (unread e) r w =
        refused r (write_response 500 [] (some (err_resp (codes "Failed to read request body.") e)))
          w
    with_body handler (read body) r w = unmarshalled handler (json.unmarshal body r) w

    -- `adapt`: the value that is parsed into belongs to the closure, and so outlives a request.
    unfoldable pub adapt : (Req → M S Body) → HttpRequest → Req → World S → Handled S
    unfolding with_body
    adapt handler request r w =
        if not (request.method == codes "POST")
        then refused r (write_response 405 ((codes "Allow", codes "POST") ∷ []) none) w
        else with_body handler request.body r w

    unfoldable pub get_adapt : M S Body → HttpRequest → World S → Option Reply × World S
    get_adapt handler request w =
        if not (request.method == codes "GET")
        then (some (write_response 405 ((codes "Allow", codes "GET") ∷ []) none), w)
        else handle_and_reply handler w
