-- ===== src/App/Cluster/Calls.antt =====
-- What the calls of a node come to where the other end is a node of main.go.
use go_clarinet.Base.{
  ℕ, ◌≡◌, refl, sym, ap, ◌∙◌, List, inl, inr, Bool-cases, false, ◌||◌, none, some, ◌<◌, ◌^◌, Bytes,
}
use go_clarinet.Base.Assoc.{lookup, put, lookup-put_self}
use go_clarinet.Base.Eq.{◌==◌, nat_eq}
use go_clarinet.Peer.{PeerId, nil_id, some_id, Peer, peer_id_eq, id_beq_iff}
use go_clarinet.Connection.{
  ConnId, Conn, Status, WitnessRequest, WitnessNotification, awaiting_witness, opened, set_status,
  set_witness,
}
use go_clarinet.World.{World, Env, TransportOptions, ok}
use go_clarinet.World as World
use go_clarinet.Wire.Messages.{Texts}
use go_clarinet.Wire.Messages.Fields.{Faithful}
use go_clarinet.Wire.Payload.{
  Payload, connect_request, witness_request, witness_notification, unrecognized, a_connect_response,
  a_witness_response,
}
use go_clarinet.Transport.Stream.{Fault, connect, witness, witness_notification as notification}
use go_clarinet.Transport.Client.{protocol_of}
use go_clarinet.Transport.Endpoints.{endpoint}
use go_clarinet.PeerStore.{Host, with_store}
use go_clarinet.PeerStore.Known.{peer_at}
use go_clarinet.Handlers.Notification as NotificationHandler
use go_clarinet.Node.Connect.Course.{request_for, welcome}
use go_clarinet.Node.Witness.Course.{by_sender, agreeing}
use go_clarinet.App.{no_options, with_handlers, connect_response, witness_response}
use go_clarinet.App.Accepts.{no_texts}
use go_clarinet.App.Cluster.{
  Around, update, cluster, payload_of, protocol_for, endpoint_of, exchange_at, send_at, result_of,
  as_connect, as_witness,
}
use go_clarinet.App.Cluster.Delivered.{sent_arrives, exchange_arrives, answered, was_sent}
use go_clarinet.App.Cluster.Handled.{takes_connect, takes_witness, takes_notification}

-- A connection between these, with the same fields at every node.
abbrev pub between : ConnId → ℕ → PeerId → ℕ → Status → Conn
between id from seen_by to status = record {
  id = id;
  sender = some_id from;
  witness = seen_by;
  receiver = some_id to;
  status = status;
}

-- What the sender asks its witness.
abbrev pub witness_request_of : ConnId → ℕ → ℕ → WitnessRequest
witness_request_of id from to = record {
  connection_id = id;
  sender = some_id from;
  receiver = some_id to;
  options = by_sender;
}

module _ (texts : Texts) (faithful : Faithful texts) (fault_text : Fault → Bytes) {S : Type 0}
    (hosts : ℕ → Host S) (inner : Env S) (host : Host S) (o : TransportOptions) (id : ConnId)
    (small : id < 2 ^ 128) (s : Around S) (addrs : List Bytes) where
  abbrev pub node : Env (Around S)
  node = cluster texts fault_text hosts inner host

  module _ (r : ℕ) (named : (hosts r).id ≡ r) (distinct : (r == host.id) ≡ false)
      (free : lookup id (s.nodes r).conns ≡ none) where
    -- The receiver takes the request: it agrees, and its connection waits for the witness.
    pub receiver_agrees :
        (w' : World S) × (node.exchange_connect
            (record { id = some_id r; addresses = addrs })
            o
            (request_for id (some_id host.id) (some_id r))
            s
          ≡ (ok (welcome id), record s { nodes = update s.nodes r w' }))
        × (w'.conns ≡ put id (between id host.id nil_id r awaiting_witness) (s.nodes r).conns)
    unfolding cluster with_handlers with_store exchange_at as_connect result_of endpoint protocol_of
        peer_at connect_response
    receiver_agrees =
        let request = request_for id (some_id host.id) (some_id r) in
        let to : Peer = record { id = some_id r; addresses = addrs } in
        let e = endpoint_of texts hosts inner r connect in
        let (w', handled, conns) =
          takes_connect texts faithful (hosts r) inner (λ p. no_options) host.id (s.nodes r) request
            refl (ap some_id (sym named)) free in
        (
          w',
          rw
              (
                answered texts faithful host.id r e to refl distinct o (connect_request request)
                    (small, λ q. cc) refl connect refl (s.nodes r) w' a_connect_response
                    (Payload.connect_response (connect_response request)) refl handled
                    ((small, no_texts, no_texts), refl),
                exchange_arrives texts faithful host.id r e to refl distinct o
                    (connect_request request) (small, λ q. cc) refl connect refl a_connect_response
                    s w' (ok (Payload.connect_response (connect_response request))) handled,
              )
              refl,
          conns
              ∙ ap (λ k. put id (between id host.id nil_id k awaiting_witness) (s.nodes r).conns)
                  named,
        )

  -- The receiver is told of the witness, and has the connection open with it.
  module _ (r : ℕ) (named : (hosts r).id ≡ r) (v : ℕ) (distinct : (r == host.id) ≡ false)
      (waits : lookup id (s.nodes r).conns
        ≡ some (between id host.id nil_id r awaiting_witness)) where
    note : WitnessNotification
    note = record { connection_id = id; witness = some_id v }

    from_sender :
        some_id host.id
        ≡ NotificationHandler.expected_peer
            (some_id (hosts r).id)
            (between id host.id nil_id r awaiting_witness)
    unfolding NotificationHandler.expected_peer
    from_sender = elim (Bool-cases (some_id host.id == some_id (hosts r).id)) [
      | inl same ↦
          rw same ((id_beq_iff (some_id host.id) (some_id (hosts r).id)).0 same ∙ ap some_id named)
      | inr apart ↦ rw apart refl
    ]

    pub receiver_opens :
        (w' : World S) × (node.send
            (record { id = some_id r; addresses = addrs })
            o
            (World.witness_notification (record { connection_id = id; witness = some_id v }))
            s
          ≡ (ok tt, record s { nodes = update s.nodes r w' }))
        × (w'.conns ≡ put id (between id host.id (some_id v) r opened) (s.nodes r).conns)
    unfolding cluster with_handlers with_store send_at result_of endpoint protocol_of payload_of
        protocol_for set_status set_witness note
    receiver_opens =
        let to : Peer = record { id = some_id r; addresses = addrs } in
        let e = endpoint_of texts hosts inner r notification in
        let (w', handled, conns) =
          takes_notification texts faithful (hosts r) inner (λ p. no_options) host.id (s.nodes r)
            note (between id host.id nil_id r awaiting_witness) waits refl from_sender in
        (
          w',
          rw
              (
                was_sent texts faithful host.id r e to refl distinct o (witness_notification note)
                    small refl notification refl (s.nodes r),
                sent_arrives texts faithful host.id r e to refl distinct o
                    (witness_notification note) small refl notification refl s w' (ok unrecognized)
                    handled,
              )
              refl,
          conns,
        )

  -- The witness agrees, and has the connection open with itself as its witness.
  module _ (r v : ℕ) (named : (hosts v).id ≡ v) (distinct : (v == host.id) ≡ false)
      (apart : (some_id host.id == some_id v || some_id r == some_id v) ≡ false)
      (free : lookup id (s.nodes v).conns ≡ none) where
    pub witness_opens :
        (w' : World S) × (node.exchange_witness
            (record { id = some_id v; addresses = addrs })
            o
            (witness_request_of id host.id r)
            s
          ≡ (ok (agreeing id), record s { nodes = update s.nodes v w' }))
        × (lookup id w'.conns ≡ some (between id host.id (some_id v) r opened))
    unfolding cluster with_handlers with_store exchange_at as_witness result_of endpoint protocol_of
        peer_at witness_response set_witness
    witness_opens =
        let to : Peer = record { id = some_id v; addresses = addrs } in
        let e = endpoint_of texts hosts inner v witness in
        let request = witness_request_of id host.id r in
        let (w', handled, conns) =
          takes_witness texts faithful (hosts v) inner (λ p. no_options) host.id (s.nodes v) request
            r refl refl (rw named apart) free in
        (
          w',
          rw
              (
                answered texts faithful host.id v e to refl distinct o (witness_request request)
                    (small, λ q. cc) refl witness refl (s.nodes v) w' a_witness_response
                    (Payload.witness_response (witness_response request)) refl handled
                    ((small, no_texts, no_texts), refl),
                exchange_arrives texts faithful host.id v e to refl distinct o
                    (witness_request request) (small, λ q. cc) refl witness refl a_witness_response
                    s w' (ok (Payload.witness_response (witness_response request))) handled,
              )
              refl,
          ap (λ c. lookup id c) conns
              ∙ lookup-put_self id (between id host.id (some_id (hosts v).id) r opened)
                  (put id (between id host.id nil_id r opened) (s.nodes v).conns)
              ∙ ap (λ k. some (between id host.id (some_id k) r opened)) named,
        )
