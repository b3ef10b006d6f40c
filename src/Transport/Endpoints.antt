-- ===== src/Transport/Endpoints.antt =====
-- `RegisterHandlers`: the adapters of the node behind the protocols.
use go_clarinet.Base.{Option, none, some, true, false}
use go_clarinet.Peer.{PeerId}
use go_clarinet.Connection.Error.{Err}
use go_clarinet.World.{Env, TransportOptions, M, pure, raise, panic, ◌>>=◌, ◌>>◌}
use go_clarinet.Handlers.Connect as ConnectHandler
use go_clarinet.Handlers.Witness as WitnessHandler
use go_clarinet.Handlers.Notification as NotificationHandler
use go_clarinet.Handlers.Close as CloseHandler
use go_clarinet.Handlers.Peers as PeersHandler
use go_clarinet.Wire.Payload.{
  Payload, connect_request, connect_response, witness_request, witness_response,
  witness_notification, close_request, peers_request, peers_response, unrecognized,
  a_connect_request, a_witness_request, a_witness_notification, a_close_request, a_peers_request,
}
use go_clarinet.Transport.Stream.{
  Protocol, connect, witness, peers, witness_notification as notification, close,
}
use go_clarinet.Transport.Serve.{Endpoint}

module _ {S : Type 0} (env : Env S) where
  or_raise : Payload → Option Err → M S Payload
  or_raise resp none = pure resp
  or_raise resp (some e) = raise e

  -- The handler of a protocol is called with the type of that protocol only. The adapter of a handler
  -- that does not answer returns nil, which is not sent.
  take_connect : PeerId → Payload → M S Payload
  unfolding or_raise
  take_connect peer (connect_request r) = do
    (resp, e) ← ConnectHandler.handle env peer r
    or_raise (connect_response resp) e
  take_connect peer _ = panic

  take_witness : PeerId → Payload → M S Payload
  unfolding or_raise
  take_witness peer (witness_request r) = do
    (resp, e) ← WitnessHandler.handle env peer r
    or_raise (witness_response resp) e
  take_witness peer _ = panic

  take_peers : PeerId → Payload → M S Payload
  take_peers peer (peers_request num) = do
    found ← PeersHandler.handle env peer num
    pure (peers_response found)
  take_peers peer _ = panic

  take_notification : PeerId → Payload → M S Payload
  take_notification peer (witness_notification n) = do
    NotificationHandler.handle env peer n
    pure unrecognized
  take_notification peer _ = panic

  take_close : PeerId → Payload → M S Payload
  take_close peer (close_request r) = do CloseHandler.handle env peer r; pure unrecognized
  take_close peer _ = panic

  -- The options are those of the application's handlers.
  unfoldable pub endpoint : (Protocol → TransportOptions) → Protocol → Endpoint S
  unfolding take_connect take_witness take_peers take_notification take_close
  endpoint options connect = record {
    kind = a_connect_request;
    options = env.connect_options;
    handle = take_connect;
    has_resp = true;
  }
  endpoint options witness = record {
    kind = a_witness_request;
    options = options witness;
    handle = take_witness;
    has_resp = true;
  }
  endpoint options peers = record {
    kind = a_peers_request;
    options = options peers;
    handle = take_peers;
    has_resp = true;
  }
  endpoint options notification = record {
    kind = a_witness_notification;
    options = options notification;
    handle = take_notification;
    has_resp = false;
  }
  endpoint options close = record {
    kind = a_close_request;
    options = options close;
    handle = take_close;
    has_resp = false;
  }
