-- ===== src/App/Cluster/Handled.antt =====
-- What a node of main.go makes of the messages that open a connection.
use go_clarinet.Base.{ℕ, ap, ◌≡◌, refl, false, ◌||◌, none, some}
use go_clarinet.Base.Assoc.{lookup, put}
use go_clarinet.Base.Eq.{◌==◌, nat_eq}
use go_clarinet.Peer.{some_id, peer_id_eq, id_beq_iff}
use go_clarinet.Connection.{
  Conn, ConnectRequest, WitnessRequest, WitnessNotification, awaiting_witness, opened, set_status,
  set_witness,
}
use go_clarinet.World.{World, Env, TransportOptions, ok, catch, pure}
use go_clarinet.Wire.Messages.{Texts}
use go_clarinet.Wire.Messages.Fields.{Faithful}
use go_clarinet.Wire.Payload.{
  Payload, connect_request, witness_request, witness_notification, unrecognized,
}
use go_clarinet.Inmem.Connections.Effect.{accepted}
use go_clarinet.PeerStore.{Host, with_store, self}
use go_clarinet.PeerStore.Known.{peer_at, find-peer_at}
use go_clarinet.Handlers.Connect as ConnectHandler
use go_clarinet.Handlers.Witness as WitnessHandler
use go_clarinet.Handlers.Notification as NotificationHandler
use go_clarinet.Handlers.Agreed.{witness_accepts, notified_opens}
use go_clarinet.Transport.Stream.{Protocol, connect, witness, witness_notification as notification}
use go_clarinet.Transport.Endpoints.{endpoint}
use go_clarinet.App.{connect_response, witness_response, with_handlers}
use go_clarinet.App.Accepts.{app_node, app_accepts}

module _ (texts : Texts) (faithful : Faithful texts) {S : Type 0} (host : Host S) (env : Env S)
    (options : Protocol → TransportOptions) (m : ℕ) (w : World S) where
  pub takes_connect :
      (request : ConnectRequest)
      → request.sender ≡ some_id m
      → request.receiver ≡ some_id host.id
      → lookup request.connection_id w.conns ≡ none
      → (w' : World S) × ((endpoint (app_node texts host env) options connect).handle
            (some_id m)
            (connect_request request)
            w
          ≡ (ok (Payload.connect_response (connect_response request)), w'))
        × (w'.conns
            ≡ put request.connection_id
                (accepted request.connection_id
                  (peer_at host w.outside m)
                  (peer_at host w.outside host.id)
                  awaiting_witness)
                w.conns)
  unfolding endpoint catch
  takes_connect request from to free =
      let accepts = app_accepts texts faithful host env request m from to w free in
      (
        (ConnectHandler.handle (app_node texts host env) (some_id m) request w).1,
        rw accepts refl,
        ap (λ r. r.1.conns) accepts,
      )

  app_witnesses :
      (request : WitnessRequest) (k : ℕ)
      → request.sender ≡ some_id m
      → request.receiver ≡ some_id k
      → (some_id m == some_id host.id || some_id k == some_id host.id) ≡ false
      → lookup request.connection_id w.conns ≡ none
      → WitnessHandler.handle (app_node texts host env) (some_id m) request w ≡ (
        ok (witness_response request, none),
        record w {
          conns =
              put request.connection_id
                (set_witness (some_id host.id) (
                  accepted request.connection_id
                    (peer_at host w.outside m)
                    (peer_at host w.outside k)
                    opened))
                (put request.connection_id
                  (accepted request.connection_id
                    (peer_at host w.outside m)
                    (peer_at host w.outside k)
                    opened)
                  w.conns);
        },
      )
  unfolding app_node with_handlers with_store peer_at self witness_response
  app_witnesses request k from to apart free =
      witness_accepts (app_node texts host env) (some_id m) (peer_at host w.outside m)
        (peer_at host w.outside k) (peer_at host w.outside host.id) w.outside w.outside w.outside
        w.outside w w.outside request (witness_response request)
        (rw (from, find-peer_at texts faithful host m w.outside) refl)
        (rw (to, find-peer_at texts faithful host k w.outside) refl)
        (rw ((id_beq_iff (some_id m) (some_id m)).1 refl) refl)
        (rw (find-peer_at texts faithful host host.id w.outside) refl) apart refl refl refl free
        (rw (find-peer_at texts faithful host host.id w.outside) refl)

  pub takes_witness :
      (request : WitnessRequest) (k : ℕ)
      → request.sender ≡ some_id m
      → request.receiver ≡ some_id k
      → (some_id m == some_id host.id || some_id k == some_id host.id) ≡ false
      → lookup request.connection_id w.conns ≡ none
      → (w' : World S) × ((endpoint (app_node texts host env) options witness).handle
            (some_id m)
            (witness_request request)
            w
          ≡ (ok (Payload.witness_response (witness_response request)), w'))
        × (w'.conns
            ≡ put request.connection_id
                (set_witness (some_id host.id) (
                  accepted request.connection_id
                    (peer_at host w.outside m)
                    (peer_at host w.outside k)
                    opened))
                (put request.connection_id
                  (accepted request.connection_id
                    (peer_at host w.outside m)
                    (peer_at host w.outside k)
                    opened)
                  w.conns))
  unfolding endpoint catch
  takes_witness request k from to apart free =
      let witnesses = app_witnesses request k from to apart free in
      (
        (WitnessHandler.handle (app_node texts host env) (some_id m) request w).1,
        rw witnesses refl,
        ap (λ r. r.1.conns) witnesses,
      )

  app_opens :
      (note : WitnessNotification) (c : Conn)
      → lookup note.connection_id w.conns ≡ some c
      → c.status ≡ awaiting_witness
      → some_id m ≡ NotificationHandler.expected_peer (some_id host.id) c
      → NotificationHandler.handle (app_node texts host env) (some_id m) note w ≡ (
        ok tt,
        record w {
          conns = put note.connection_id (set_status opened (set_witness note.witness c)) w.conns;
        },
      )
  unfolding app_node with_handlers with_store peer_at self
  app_opens note c known waiting other =
      notified_opens (app_node texts host env) (some_id m) note c (peer_at host w.outside host.id)
        w.outside w.outside w known waiting
        (rw (find-peer_at texts faithful host host.id w.outside) refl) other refl

  pub takes_notification :
      (note : WitnessNotification) (c : Conn)
      → lookup note.connection_id w.conns ≡ some c
      → c.status ≡ awaiting_witness
      → some_id m ≡ NotificationHandler.expected_peer (some_id host.id) c
      → (w' : World S) × ((endpoint (app_node texts host env) options notification).handle
            (some_id m)
            (witness_notification note)
            w
          ≡ (ok unrecognized, w'))
        × (w'.conns
            ≡ put note.connection_id (set_status opened (set_witness note.witness c)) w.conns)
  unfolding endpoint catch pure
  takes_notification note c known waiting other =
      let opens = app_opens note c known waiting other in
      (
        (NotificationHandler.handle (app_node texts host env) (some_id m) note w).1,
        rw opens refl,
        ap (λ r. r.1.conns) opens,
      )
