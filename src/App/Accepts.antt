-- ===== src/App/Accepts.antt =====
-- A node of main.go, with libp2p's peer store and the application's handlers, and requests to it.
use mathlib.Core.Path.{subst}
use go_clarinet.Base.{
  ℕ, ap, ◌<◌, ◌^◌, ◌≡◌, ◌≢◌, refl, sym, ◌∙◌, none, [], ◌∷◌, ◌++◌, if◌then◌else◌, arith,
}
use go_clarinet.Base.Assoc.{lookup, put}
use go_clarinet.Base.Eq.{nat_eq}
use go_clarinet.Peer.{some_id, Peer, peer_id_eq, id_beq_iff}
use go_clarinet.Connection.{ConnectRequest, awaiting_witness, nil_selector}
use go_clarinet.World.{World, Env, ok, catch, TransportOptions}
use go_clarinet.Wire.Messages.{Texts}
use go_clarinet.Wire.Messages.Fields.{Faithful}
use go_clarinet.Inmem.Connections.Effect.{accepted}
use go_clarinet.PeerStore.{Host, with_store, self}
use go_clarinet.PeerStore.Known.{peer_at, find-peer_at}
use go_clarinet.Handlers.Connect as ConnectHandler
use go_clarinet.Handlers.Agreed.{connect_accepts}
use go_clarinet.Wire.Payload.{Payload, connect_request, a_connect_response}
use go_clarinet.Wire.Payload.RoundTrip.{AreTexts}
use go_clarinet.Transport.Stream.{Protocol, connect, done}
use go_clarinet.Transport.Endpoints.{endpoint}
use go_clarinet.Transport.Client.{Network, exchange, protocol_of}
use go_clarinet.Transport.Delivery.{Reaches, Answers, delivered, exchange-serve}
use go_clarinet.App.{connect_response, with_handlers}

pub no_texts : AreTexts []
no_texts = (tt, λ q. cc)

module _ (texts : Texts) {S : Type 0} (host : Host S) (env : Env S) where
  unfoldable pub app_node : Env S
  app_node = with_handlers (with_store texts host env)

module _ (texts : Texts) (faithful : Faithful texts) {S : Type 0} (host : Host S)
    (env : Env S) where
  module _ (request : ConnectRequest) (m : ℕ) (from : request.sender ≡ some_id m)
      (to : request.receiver ≡ some_id host.id) (w : World S)
      (free : lookup request.connection_id w.conns ≡ none) where
    -- A node of the application takes every connect request to it that comes from its sender under a
    -- free id: it accepts, and the connection waits for its witness.
    pub app_accepts : ConnectHandler.handle (app_node texts host env) (some_id m) request w ≡ (
      ok (connect_response request, none),
      record w {
        conns =
            put request.connection_id
              (accepted request.connection_id
                (peer_at host w.outside m)
                (peer_at host w.outside host.id)
                awaiting_witness)
              w.conns;
        tasks =
            if ConnectHandler.selects request.options.witness_selector request (some_id host.id)
            then w.tasks
              ++ record { connection_id = request.connection_id; options = request.options } ∷ []
            else w.tasks;
      },
    )
    unfolding app_node with_handlers with_store peer_at self connect_response
    app_accepts =
        connect_accepts (app_node texts host env) (some_id m) (peer_at host w.outside m)
          (peer_at host w.outside host.id) (peer_at host w.outside host.id) w.outside w.outside
          w.outside w.outside w request (connect_response request)
          (rw (from, find-peer_at texts faithful host m w.outside) refl)
          (rw (to, find-peer_at texts faithful host host.id w.outside) refl)
          (rw ((id_beq_iff (some_id m) (some_id m)).1 refl) refl)
          (rw (find-peer_at texts faithful host host.id w.outside) refl)
          (rw (to, (id_beq_iff (some_id host.id) (some_id host.id)).1 refl) (ground arith)) refl
          refl refl free

    -- What the handler comes to behind its protocol.
    handles :
        (options : Protocol → TransportOptions)
        → ((endpoint (app_node texts host env) options connect).handle
            (some_id m)
            (connect_request request)
            w).0
          ≡ ok (Payload.connect_response (connect_response request))
    unfolding endpoint catch
    handles options = rw app_accepts refl

    -- Over a stream to a node of the application, which opens and carries both directions, the sender of
    -- a connect request to that node, under a free id of 128 bits and with a selector, gets the answer
    -- that accepts it.
    pub app_answers :
        (net : Network) (options : Protocol → TransportOptions) (dest : Peer) (n : ℕ)
        → (o : TransportOptions) → dest.id ≡ some_id n
        → Reaches texts net n (endpoint (app_node texts host env) options connect) (some_id m) w
        → request.connection_id < 2 ^ 128
        → request.options.witness_selector ≢ nil_selector
        → (exchange texts net dest o (connect_request request) a_connect_response).1
          ≡ done (Payload.connect_response (connect_response request))
    unfolding endpoint protocol_of connect_response
    app_answers net options dest n o known reaches small selects =
        exchange-serve texts faithful net (endpoint (app_node texts host env) options connect)
          (some_id m) w dest n known reaches (connect_request request) (small, selects) refl connect
          refl a_connect_response o refl
          (subst (Answers a_connect_response) (sym (handles options))
            ((small, no_texts, no_texts), refl))
        ∙ ap delivered (handles options)
