-- ===== src/Node/Connect/Agreed.antt =====
-- `Connect` where every call succeeds and a peer agrees to be the witness.
use go_clarinet.Base.{ℕ, ◌≡◌, ◌∙◌, refl, ap, true, none, some, [], ◌∷◌, ◌++◌}
use go_clarinet.Base.Assoc.{lookup, put, lookup-put_self}
use go_clarinet.Base.Eq.{nat_eq, nat_beq_iff}
use go_clarinet.Peer.{some_id, Peer}
use go_clarinet.Connection.{
  ConnId, Conn, Options, ConnectRequest, sender_selects, set_status, requesting_receiver,
  requesting_witness,
}
use go_clarinet.World.{
  World, Env, TransportOptions, connect_request, ok, pure, external, transmit, catch,
}
use go_clarinet.Inmem.Connections
use go_clarinet.Inmem.Connections.Effect.{accepted}
use go_clarinet.Node.Peers.{update_peer}
use go_clarinet.Node.Close.Agreed.{Reachable}
use go_clarinet.Node.Witness.Candidates.{filter, may_witness}
use go_clarinet.Node.Witness.First.{Steady, first, agrees}
use go_clarinet.Node.Witness.Opens.{opened_with, selection_opens}
use go_clarinet.Node.Connect.{
  connect, begin_connect, set_up, request_connection, check_connect_response,
}

-- The receiver accepts, and its addresses are taken in.
pub record Welcoming {S : Type 0} (env : Env S) (receiver : Peer) : Type 0 where
  pub accepts :
      (p : Peer) (o : TransportOptions) (r : ConnectRequest) (s : S)
      → env.exchange_connect p o r s ≡ (
        ok (record {
          connection_id = r.connection_id;
          errors = [];
          accepted = true;
          reject_reasons = [];
        }),
        s,
      )
  pub updates : (w : World S) → update_peer env receiver w ≡ (ok tt, w)

module _ {S : Type 0} (env : Env S) (reach : Reachable env) (steady : Steady env) (receiver : Peer)
    (welcoming : Welcoming env receiver) (o : TransportOptions) (w : World S) (id : ConnId) (s : S)
    (drawn : env.random_id w.outside ≡ (ok id, s)) (free : lookup id w.conns ≡ none) (p : Peer)
    (n : ℕ) (known : p.id ≡ some_id n) where
  abbrev pub by_sender : Options
  by_sender = record { witness_selector = sender_selects }

  -- The connection that is asked for.
  abbrev pub asked_for : Conn
  asked_for = accepted id reach.me receiver requesting_receiver

  after_create : World S
  after_create = record w { outside = s; conns = put id asked_for w.conns }

  begun : begin_connect env receiver w ≡ (ok id, after_create)
  unfolding begin_connect Connections.create Connections.accept catch external pure after_create
  begun = rw (welcoming.updates w, reach.self w.outside, drawn, free) refl

  request : ConnectRequest
  request = record {
    connection_id = id;
    sender = reach.me.id;
    receiver = receiver.id;
    options = by_sender;
  }

  after_request : World S
  after_request = record after_create {
    sent = w.sent ++ (reach.peer_of receiver.id, connect_request request) ∷ [];
  }

  requested :
      request_connection env (reach.peer_of receiver.id) asked_for by_sender o after_create
      ≡ (ok tt, after_request)
  unfolding request_connection check_connect_response catch transmit pure after_create after_request
      request
  requested =
      rw (welcoming.accepts (reach.peer_of receiver.id) o request s, (nat_beq_iff id id).1 refl)
        refl

  module _
      (agreed : first (agrees env steady (set_status requesting_witness asked_for) by_sender) (
          filter
            (may_witness steady.trusted w.reps (set_status requesting_witness asked_for))
            steady.peers)
        ≡ some p) where
    set_up_opens :
        (set_up env by_sender o asked_for after_create).0
        ≡ ok (some (opened_with p asked_for), none)
    unfolding set_up catch external after_create opened_with after_request
    set_up_opens =
        rw (reach.find receiver.id s, requested)
          (selection_opens env reach steady asked_for p n by_sender o after_request agreed known
            refl)

    connects : connect env receiver by_sender o w ≡ (
      ok (id, none),
      record (set_up env by_sender o asked_for after_create).1 {
        conns =
            put id
              (opened_with p asked_for)
              (set_up env by_sender o asked_for after_create).1.conns;
      },
    )
    unfolding connect catch Connections.update pure after_create
    connects = rw (begun, lookup-put_self id asked_for w.conns, set_up_opens) refl

    -- If this node and every peer is found, every message goes out, the receiver accepts, and some peer
    -- of the store may be the witness and agrees, `Connect` with the sender as selector returns the id
    -- that was drawn, if it is free, and no error, and the store has under it the open connection
    -- between this node and the receiver with the first such peer as its witness.
    pub connect_opens :
        ((connect env receiver by_sender o w).0 ≡ ok (id, none))
        × (lookup id (connect env receiver by_sender o w).1.conns ≡ some (opened_with p asked_for))
    connect_opens = (
      ap (λ r. r.0) connects,
      ap (λ r. lookup id r.1.conns) connects
          ∙ lookup-put_self id (opened_with p asked_for)
              (set_up env by_sender o asked_for after_create).1.conns,
    )
