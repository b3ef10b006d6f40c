-- ===== src/Node/Connect/Unwitnessed.antt =====
-- `Connect` where the receiver agrees and there is no candidate for the witness.
use go_clarinet.Base.{◌≡◌, refl, none, some, []}
use go_clarinet.Base.Assoc.{lookup, put, lookup-put_self}
use go_clarinet.Base.Eq.{nat_eq}
use go_clarinet.Peer.{PeerId, Peer}
use go_clarinet.Connection.{ConnId, Conn, requesting_witness, set_status}
use go_clarinet.Connection.Error.{no_witness_found}
use go_clarinet.World.{World, Env, TransportOptions, ok, pure, external, catch}
use go_clarinet.Inmem.Connections
use go_clarinet.Node.Witness.Candidates.{Judging, filter, may_witness}
use go_clarinet.Node.Witness.Course.{by_sender}
use go_clarinet.Node.Witness.Unwitnessed.{selection_unwitnessed}
use go_clarinet.Node.Connect.{connect, set_up}
use go_clarinet.Node.Connect.Course.{
  asked_for, Placed, Beginning, begun, begins, asked_receiver, requested,
}

module _ {S : Type 0} (env : Env S) (me : PeerId) (receiver : Peer)
    (placed : Placed env me receiver.id) (o : TransportOptions) (w : World S) (id : ConnId)
    (s₁ s₂ s₃ : S) (beginning : Beginning env me receiver placed o w id s₁ s₂ s₃)
    (free : lookup id w.conns ≡ none) (judging : Judging env s₃)
    (nobody : filter
        (may_witness judging.trusted w.reps
          (set_status requesting_witness (asked_for id me receiver.id)))
        judging.peers
      ≡ []) where
  abbrev asked : Conn
  asked = asked_for id me receiver.id

  abbrev begun_here : World S
  begun_here = begun env me receiver placed o w id s₁ s₂ s₃ beginning free

  abbrev asked_here : World S
  asked_here = asked_receiver env me receiver placed o w id s₁ s₂ s₃ beginning free

  -- `Connect` returns the id beside the error, the receiver was not told, and the connection asks for a
  -- witness.
  pub connect_unwitnessed :
      (w' : World S) × (connect env receiver by_sender o w
        ≡ (ok (id, some (no_witness_found id)), w'))
      × (w'.outside ≡ s₃)
      × (lookup id w'.conns ≡ some (set_status requesting_witness asked))
  unfolding connect set_up catch Connections.update external pure begun asked_receiver
  connect_unwitnessed =
      let (reps', selects) =
        selection_unwitnessed env asked o asked_here judging nobody me placed.mine placed.self
          refl in
      (
        record asked_here {
          reps = reps';
          conns = put id (set_status requesting_witness asked) begun_here.conns;
        },
        rw
            (
              begins env me receiver placed o w id s₁ s₂ s₃ beginning free,
              lookup-put_self id asked w.conns,
              placed.find s₂,
              requested env me receiver placed o w id s₁ s₂ s₃ beginning free,
              selects,
            )
            refl,
        refl,
        lookup-put_self id (set_status requesting_witness asked) begun_here.conns,
      )
