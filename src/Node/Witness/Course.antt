-- ===== src/Node/Witness/Course.antt =====
-- A selection whose calls change the outside: the sender asks the first candidate, which agrees, and
-- tells the receiver.
use go_clarinet.Base.{ℕ, ◌≡◌, refl, sym, true, none, some, List, [], ◌∷◌, ◌++◌, Bytes}
use go_clarinet.Base.Assoc.{Assoc}
use go_clarinet.Base.Eq.{nat_eq, nat_beq_iff}
use go_clarinet.Peer.{PeerId, some_id, Peer, peer_id_eq, id_beq_iff}
use go_clarinet.Reputation.{Reputation}
use go_clarinet.Connection.{
  ConnId, Conn, Options, WitnessRequest, WitnessResponse, sender_selects, set_status, set_witness,
  requesting_witness, notifying_of_witness,
}
use go_clarinet.World.{
  World, Env, TransportOptions, witness_request, witness_notification, ok, pure, external, transmit,
  catch,
}
use go_clarinet.Node.Witness.{
  witness_request_for, find_witness, request_witness, check_witness_response, try_candidates,
  send_witness_notification, peer_to_notify, announce, find_and_announce, handle_witness_selection,
}
use go_clarinet.Node.Witness.Candidates.{Judging, filter, may_witness, witness_candidates-filter}
use go_clarinet.Node.Witness.Opens.{opened_with}

abbrev pub by_sender : Options
by_sender = record { witness_selector = sender_selects }

-- A response without errors that accepts.
abbrev pub agreeing : ConnId → WitnessResponse
agreeing id = record { connection_id = id; errors = []; accepted = true; reject_reasons = [] }

module _ {S : Type 0} (env : Env S) (conn : Conn) (o : TransportOptions) (p : Peer) (ps : List Peer)
    (n : ℕ) (known : p.id ≡ some_id n) where
  abbrev asking : Conn
  asking = set_status requesting_witness conn

  request : WitnessRequest
  request = witness_request_for asking by_sender

  module _ (s s' : S)
      (agreed : env.exchange_witness p o (witness_request_for asking by_sender) s
        ≡ (ok (agreeing conn.id), s')) where
    asked : World S → World S
    unfolding request
    asked w = record w { outside = s'; sent = w.sent ++ (p, witness_request request) ∷ [] }

    tried :
        (w : World S)
        → try_candidates env (p ∷ ps) asking by_sender o (record w { outside = s })
          ≡ (ok (set_witness p.id asking, none), asked w)
    unfolding try_candidates request_witness check_witness_response catch transmit pure asked
        request set_status
    tried w = rw (agreed, (nat_beq_iff conn.id conn.id).1 refl) refl

    module _ (judging : Judging env s) where
      found :
          (w : World S)
          → filter (may_witness judging.trusted w.reps asking) judging.peers ≡ p ∷ ps
          → (reps' : Assoc PeerId Reputation) × (find_witness env conn by_sender o
                (record w { outside = s })
              ≡ (ok (set_witness p.id asking, none), asked (record w { reps = reps' })))
      unfolding find_witness catch
      found w first =
          let (reps', listed, same) =
            witness_candidates-filter env asking (record w { outside = s }) judging in
          (reps', rw (listed, first) (tried (record w { reps = reps' })))

      module _ (me : PeerId) (mine theirs : S → List Bytes)
          (self : (t : S) → env.self t ≡ (ok (record { id = me; addresses = mine t }), t))
          (find : (t : S)
            → env.find conn.receiver t
              ≡ (ok (record { id = conn.receiver; addresses = theirs t }), t))
          (own : conn.sender ≡ me) (s'' : S)
          (told : env.send
              (record { id = conn.receiver; addresses = theirs s' })
              o
              (witness_notification (record { connection_id = conn.id; witness = some_id n }))
              s'
            ≡ (ok tt, s'')) where
        noting : Conn
        noting = set_status notifying_of_witness (set_witness p.id asking)

        notified :
            (w : World S)
            → (w' : World S) × (send_witness_notification env noting o (record w { outside = s' })
                ≡ (ok tt, w'))
              × (w'.outside ≡ s'')
              × (w'.conns ≡ w.conns)
        unfolding send_witness_notification peer_to_notify catch external transmit pure noting
            set_status set_witness
        notified w = (
          record w {
            outside = s'';
            sent =
                w.sent
                ++ (
                  record { id = conn.receiver; addresses = theirs s' },
                  witness_notification (record { connection_id = conn.id; witness = some_id n }),
                )
                  ∷ [];
          },
          rw (known, self s', (id_beq_iff conn.sender me).1 own, find s', told) refl,
          refl,
          refl,
        )

        -- The selection of the sender: the candidates are `p` and others, `p` agrees, and the receiver is
        -- told. The connection comes out as open with the witness `p`, and the store is as it was.
        pub selection_course :
            (w : World S)
            → filter (may_witness judging.trusted w.reps asking) judging.peers ≡ p ∷ ps
            → (w' : World S) × (handle_witness_selection env conn by_sender o
                  (record w { outside = s })
                ≡ (ok (some (opened_with p conn), none), w'))
              × (w'.outside ≡ s'')
              × (w'.conns ≡ w.conns)
        unfolding handle_witness_selection announce find_and_announce catch external pure
            opened_with noting asked set_status set_witness
        selection_course w first =
            let (reps', is_found) = found w first in
            let (w', goes, at, same) = notified (asked (record w { reps = reps' })) in
            (
              w',
              rw (self s, (id_beq_iff me conn.sender).1 (sym own), is_found, goes) refl,
              at,
              same,
            )
