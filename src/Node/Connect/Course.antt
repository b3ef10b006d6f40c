-- ===== src/Node/Connect/Course.antt =====
-- `Connect` whose calls change the outside, with the states that they leave.
use go_clarinet.Base.{ℕ, ◌≡◌, refl, true, none, some, List, [], ◌∷◌, ◌++◌, Bytes}
use go_clarinet.Base.Assoc.{lookup, put, lookup-put_self}
use go_clarinet.Base.Eq.{nat_eq, nat_beq_iff}
use go_clarinet.Peer.{PeerId, nil_id, some_id, Peer}
use go_clarinet.Connection.{
  ConnId, Conn, ConnectRequest, ConnectResponse, requesting_receiver, requesting_witness,
  set_status,
}
use go_clarinet.World.{
  World, Env, TransportOptions, connect_request, witness_notification, ok, pure, external, transmit,
  catch,
}
use go_clarinet.Inmem.Connections
use go_clarinet.Node.Peers.{update_peer}
use go_clarinet.Node.Witness.{witness_request_for}
use go_clarinet.Node.Witness.Candidates.{Judging, filter, may_witness}
use go_clarinet.Node.Witness.Opens.{opened_with}
use go_clarinet.Node.Witness.Course.{by_sender, agreeing, selection_course}
use go_clarinet.Node.Connect.{
  connect, begin_connect, set_up, request_connection, check_connect_response,
}

-- The connection that is asked for.
abbrev pub asked_for : ConnId → PeerId → PeerId → Conn
asked_for id sender receiver = record {
  id = id;
  sender = sender;
  witness = nil_id;
  receiver = receiver;
  status = requesting_receiver;
}

abbrev pub request_for : ConnId → PeerId → PeerId → ConnectRequest
request_for id sender receiver = record {
  connection_id = id;
  sender = sender;
  receiver = receiver;
  options = by_sender;
}

abbrev pub welcome : ConnId → ConnectResponse
welcome id = record { connection_id = id; errors = []; accepted = true; reject_reasons = [] }

-- This node and the receiver are found, with addresses that may change.
pub record Placed {S : Type 0} (env : Env S) (me receiver : PeerId) : Type 0 where
  pub mine : S → List Bytes
  pub theirs : S → List Bytes
  pub self : (s : S) → env.self s ≡ (ok (record { id = me; addresses = mine s }), s)
  pub find :
      (s : S) → env.find receiver s ≡ (ok (record { id = receiver; addresses = theirs s }), s)

-- The calls of `Connect` up to the selection: `s₁` is the state after the receiver's addresses are taken
-- in, `s₂` after the id is drawn, and `s₃` after the receiver agreed.
pub record Beginning {S : Type 0} (env : Env S) (me : PeerId) (receiver : Peer)
    (placed : Placed env me receiver.id) (o : TransportOptions) (w : World S) (id : ConnId)
    (s₁ s₂ s₃ : S) : Type 0 where
  pub updated : update_peer env receiver w ≡ (ok tt, record w { outside = s₁ })
  pub drawn : env.random_id s₁ ≡ (ok id, s₂)
  pub welcomed :
      env.exchange_connect
        (record { id = receiver.id; addresses = placed.theirs s₂ })
        o
        (request_for id me receiver.id)
        s₂
      ≡ (ok (welcome id), s₃)

-- The calls of the selection: `s₄` is the state after the witness `p` agreed, which is the first
-- candidate, and `s₅` after the receiver was told.
pub record Course {S : Type 0} (env : Env S) (me : PeerId) (receiver : Peer)
    (placed : Placed env me receiver.id) (o : TransportOptions) (w : World S) (id : ConnId)
    (p : Peer) (n : ℕ) (s₃ s₄ s₅ : S) : Type 0 where
  pub judging : Judging env s₃
  pub others : List Peer
  pub candidates :
      filter
        (may_witness judging.trusted w.reps
          (set_status requesting_witness (asked_for id me receiver.id)))
        judging.peers
      ≡ p ∷ others
  pub agreed :
      env.exchange_witness p o
        (witness_request_for
          (set_status requesting_witness (asked_for id me receiver.id))
          by_sender)
        s₃
      ≡ (ok (agreeing id), s₄)
  pub told :
      env.send
        (record { id = receiver.id; addresses = placed.theirs s₄ })
        o
        (witness_notification (record { connection_id = id; witness = some_id n }))
        s₄
      ≡ (ok tt, s₅)

module _ {S : Type 0} (env : Env S) (me : PeerId) (receiver : Peer)
    (placed : Placed env me receiver.id) (o : TransportOptions) (w : World S) (id : ConnId)
    (s₁ s₂ s₃ : S) (beginning : Beginning env me receiver placed o w id s₁ s₂ s₃)
    (free : lookup id w.conns ≡ none) where
  abbrev pub asked : Conn
  asked = asked_for id me receiver.id

  unfoldable pub begun : World S
  begun = record w { outside = s₂; conns = put id asked w.conns }

  pub begins : begin_connect env receiver w ≡ (ok id, begun)
  unfolding begin_connect Connections.create Connections.accept catch external pure begun
  begins = rw (beginning.updated, placed.self s₁, beginning.drawn, free) refl

  unfoldable pub asked_receiver : World S
  asked_receiver = record begun {
    outside = s₃;
    sent =
        w.sent
        ++ (
          record { id = receiver.id; addresses = placed.theirs s₂ },
          connect_request (request_for id me receiver.id),
        )
          ∷ [];
  }

  pub requested :
      request_connection env
        (record { id = receiver.id; addresses = placed.theirs s₂ })
        asked
        by_sender
        o
        begun
      ≡ (ok tt, asked_receiver)
  unfolding request_connection check_connect_response catch transmit pure begun asked_receiver
  requested = rw (beginning.welcomed, (nat_beq_iff id id).1 refl) refl

  module _ (p : Peer) (n : ℕ) (s₄ s₅ : S) (known : p.id ≡ some_id n)
      (course : Course env me receiver placed o w id p n s₃ s₄ s₅) where
    sets_up :
        (w' : World S) × (set_up env by_sender o asked begun
          ≡ (ok (some (opened_with p asked), none), w'))
        × (w'.outside ≡ s₅)
        × (w'.conns ≡ begun.conns)
    unfolding set_up catch external asked_receiver begun
    sets_up =
        let (w', selects, at, same) =
          selection_course env asked o p course.others n known s₃ s₄ course.agreed course.judging me
            placed.mine placed.theirs placed.self placed.find refl s₅ course.told asked_receiver
            course.candidates in
        (w', rw (placed.find s₂, requested, selects) refl, at, same)

    -- If the calls go as the course says, and the id that is drawn is free, `Connect` returns that id and
    -- no error, and has the connection under it open with the witness `p`.
    pub connect_course :
        (w' : World S) × (connect env receiver by_sender o w ≡ (ok (id, none), w'))
        × (w'.outside ≡ s₅)
        × (lookup id w'.conns ≡ some (opened_with p asked))
    unfolding connect catch Connections.update pure begun
    connect_course =
        let (w', goes, at, same) = sets_up in
        (
          record w' { conns = put id (opened_with p asked) w'.conns },
          rw (begins, lookup-put_self id asked w.conns, goes) refl,
          at,
          lookup-put_self id (opened_with p asked) w'.conns,
        )
