-- ===== src/App/Cluster.antt =====
-- A node of main.go among others: streams lead from it to the handlers of the other nodes, which all
-- are nodes of main.go. A stream to another node
-- opens, takes every write whole and carries both directions.
pub mod Delivered
pub mod Handled
pub mod Calls
pub mod Setting
pub mod Agreement
pub mod Unwitnessed
pub mod Posted
pub mod Closing
pub mod Told
pub mod Closed
use go_clarinet.Base.{ℕ, not, false, List, Bytes, if◌then◌else◌}
use go_clarinet.Base.Eq.{◌==◌, nat_eq}
use go_clarinet.Base.Lists.{length}
use go_clarinet.Peer.{PeerId, nil_id, some_id, Peer}
use go_clarinet.Connection.{ConnectResponse, WitnessResponse}
use go_clarinet.Connection.Error.{outside}
use go_clarinet.World as World
use go_clarinet.World.{World, Result, ok, err, panicked, Message, Call, Env, TransportOptions}
use go_clarinet.Wire.Messages.{Texts}
use go_clarinet.Wire.Payload.{
  Payload, connect_request, connect_response, witness_request, witness_response,
  witness_notification, close_request, peers_request, peers_response, Kind, a_connect_response,
  a_witness_response, a_peers_response,
}
use go_clarinet.Transport.Stream.{
  Protocol, connect, witness, peers, witness_notification as notification, close, StreamEvent,
  Fault, Outcome, done, failed, crashed,
}
use go_clarinet.Transport.Serve.{Endpoint, serve}
use go_clarinet.Transport.Serve.Outcomes.{whole, bytes_of}
use go_clarinet.Transport.Endpoints.{endpoint}
use go_clarinet.Transport.Client.{Network, send, exchange}
use go_clarinet.Transport.Delivery.{reply_of}
use go_clarinet.PeerStore.{Host, with_store}
use go_clarinet.App.{no_options, with_handlers}
use go_clarinet.App.Accepts.{app_node}

-- The outside of a node: what is its own, and the other nodes by their ids.
pub record Around (S : Type 0) : Type 0 where
  pub own : S
  pub nodes : ℕ → World S

unfoldable pub update : {A : Type 0} → (ℕ → A) → ℕ → A → ℕ → A
update f n a m = if m == n then a else f m

module _ {S A : Type 0} where
  -- A call that the other nodes have no part in.
  unfoldable pub within : Call S A → Call (Around S) A
  within call s = let (r, own) = call s.own in (r, record s { own = own })

unfoldable pub around_host : {S : Type 0} → Host S → Host (Around S)
around_host host = record {
  id = host.id;
  listen_addrs = λ s. host.listen_addrs s.own;
  add_addr = λ n addr s. record s { own = host.add_addr n addr s.own };
  addrs = λ n s. host.addrs n s.own;
  peers = λ s. host.peers s.own;
  multiaddr = host.multiaddr;
  multiaddr_error = host.multiaddr_error;
  decode_error = host.decode_error;
}

-- What is handed to the transport, as a value of its type on the wire.
unfoldable pub payload_of : Message → Payload
payload_of (World.connect_request r) = connect_request r
payload_of (World.witness_request r) = witness_request r
payload_of (World.witness_notification n) = witness_notification n
payload_of (World.close_request r) = close_request r
payload_of (World.peers_request num) = peers_request num

unfoldable pub protocol_for : Message → Protocol
protocol_for (World.connect_request r) = connect
protocol_for (World.witness_request r) = witness
protocol_for (World.witness_notification n) = notification
protocol_for (World.close_request r) = close
protocol_for (World.peers_request num) = peers

module _ (texts : Texts) {S : Type 0} (hosts : ℕ → Host S) (inner : Env S) where
  abbrev pub endpoint_of : ℕ → Protocol → Endpoint S
  endpoint_of n protocol = endpoint (app_node texts (hosts n) inner) (λ p. no_options) protocol

module _ (texts : Texts) (me : ℕ) {S : Type 0} where
  -- The streams to an endpoint, whose node is in this state and knows the caller. The host opens none
  -- to itself.
  abbrev pub stream_to : Endpoint S → World S → Network
  stream_to e w = record {
    dial = λ n protocol timeout. not (n == me);
    write = λ s. (length s, false);
    reply = λ s. reply_of (serve texts e whole (some_id me) s w);
  }

  -- The node at the other end reads the bytes that the call wrote. Where it wrote none, reading finds no
  -- end of a message, and the handler is not called.
  pub after_call : ℕ → Endpoint S → List StreamEvent → Around S → Around S
  after_call n e events s = record s {
    nodes = update s.nodes n (serve texts e whole (some_id me) (bytes_of events) (s.nodes n)).world;
  }

result_of : {A : Type 0} → (Fault → Bytes) → Outcome A → Result A
result_of fault_text (done a) = ok a
result_of fault_text (failed f) = err (outside (fault_text f))
result_of fault_text crashed = panicked

-- The caller of `Exchange` gets a value of the type that it gave.
as_connect : Result Payload → Result ConnectResponse
as_connect (ok (connect_response r)) = ok r
as_connect (ok _) = panicked
as_connect (err e) = err e
as_connect panicked = panicked

as_witness : Result Payload → Result WitnessResponse
as_witness (ok (witness_response r)) = ok r
as_witness (ok _) = panicked
as_witness (err e) = err e
as_witness panicked = panicked

as_peers : Result Payload → Result (List Peer)
as_peers (ok (peers_response ps)) = ok ps
as_peers (ok _) = panicked
as_peers (err e) = err e
as_peers panicked = panicked

module _ (texts : Texts) (fault_text : Fault → Bytes) {S : Type 0} (hosts : ℕ → Host S)
    (inner : Env S) (host : Host S) where
  -- A nil id has no `String`.
  exchange_at :
      PeerId → Protocol → Kind → Peer → TransportOptions → Payload → Call (Around S) Payload
  unfolding after_call result_of
  exchange_at nil_id protocol kind to o p s = (panicked, s)
  exchange_at (some_id n) protocol kind to o p s =
      let e = endpoint_of texts hosts inner n protocol in
      let call = exchange texts (stream_to texts host.id e (s.nodes n)) to o p kind in
      (result_of fault_text call.1, after_call texts host.id n e call.2 s)

  send_at : PeerId → Protocol → Peer → TransportOptions → Payload → Call (Around S) (Unit {0})
  unfolding after_call result_of
  send_at nil_id protocol to o p s = (panicked, s)
  send_at (some_id n) protocol to o p s =
      let e = endpoint_of texts hosts inner n protocol in
      let call = send texts (stream_to texts host.id e (s.nodes n)) to o p in
      (result_of fault_text call.0, after_call texts host.id n e call.1 s)

  -- What the node calls, with its own calls and these streams.
  unfoldable pub routed : Env (Around S)
  unfolding within payload_of protocol_for exchange_at send_at as_connect as_witness as_peers
  routed = record {
    self = within inner.self;
    find = λ id. within (inner.find id);
    all_peers = within inner.all_peers;
    add_addr = λ id addr. within (inner.add_addr id addr);
    send = λ to o m. send_at to.id (protocol_for m) to o (payload_of m);
    exchange_connect = λ to o r s.
        let (result, s') =
          exchange_at to.id connect a_connect_response to o (connect_request r) s in
        (as_connect result, s');
    exchange_witness = λ to o r s.
        let (result, s') =
          exchange_at to.id witness a_witness_response to o (witness_request r) s in
        (as_witness result, s');
    exchange_peers = λ to o num s.
        let (result, s') = exchange_at to.id peers a_peers_response to o (peers_request num) s in
        (as_peers result, s');
    trusts = λ rep. within (inner.trusts rep);
    on_connect = λ peer r. within (inner.on_connect peer r);
    connect_options = inner.connect_options;
    on_witness = λ peer r. within (inner.on_witness peer r);
    on_witness_notification = λ peer n. within (inner.on_witness_notification peer n);
    on_close = λ peer r. within (inner.on_close peer r);
    on_peers = λ peer num. within (inner.on_peers peer num);
    random_id = within inner.random_id;
    intn = λ n. within (inner.intn n);
    range_order = inner.range_order;
    texts = inner.texts;
    at_trace = inner.at_trace;
  }

  -- A node of main.go with this host, over these streams.
  unfoldable pub cluster : Env (Around S)
  unfolding around_host routed
  cluster = with_handlers (with_store texts (around_host host) routed)
